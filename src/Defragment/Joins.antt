-- ===== src/Defragment/Joins.antt =====
-- rx.c: the handler of fragments keeps the chains, and hands on whole ones only.
use mathlib.Core.Path.{subst}
use mathlib.Core.Bool.{true≢false}
use mac.Base.{
  ℕ, ◌+◌, ◌%◌, ◌^◌, ◌≡◌, refl, sym, ap, ◌∙◌, arith, true, false, Option, none, some, List, [], ◌∷◌,
  ◌++◌, ◌==◌, if◌then◌else◌, length, Bool-cases, inl, inr,
}
use mac.Defragment.{
  is_whole, RxSkb, FragmentEntry, Cache, RxData, set_entry, reassemble_add, continues,
  entry_continues, reassemble_find, RxResult, rx_continue, rx_queued, rx_drop_unusable, complete,
  append_fragment, secured_fragment, add_fragment, rx_h_defragment,
}
use mac.Defragment.Chains.{
  Chain, more, free, held, IsCache, set_entry-IsEntry, reassemble_add-IsCache, Found,
  reassemble_find-Found, IsReassembled, whole, joined, queued, dropped, refused, matching,
}

entry_continues_held :
    (skb : RxSkb) (e : FragmentEntry) (s : RxSkb) (rest : List RxSkb)
    → e.skb_list ≡ s ∷ rest
    → entry_continues skb e ≡ true
    → continues skb e s ≡ true
unfolding entry_continues
entry_continues_held skb e s rest eq h =
    sym (ap (λ l. elim l [ [] ↦ false | first ∷ r ↦ continues skb e first ]) eq) ∙ h

entry_continues_free :
    (skb : RxSkb) (e : FragmentEntry) → e.skb_list ≡ [] → entry_continues skb e ≡ false
unfolding entry_continues
entry_continues_free skb e eq =
    ap (λ l. elim l [ [] ↦ false | first ∷ r ↦ continues skb e first ]) eq

complete-IsReassembled :
    (rx : RxData) (skb : RxSkb) (i : ℕ) (e : FragmentEntry) (s : RxSkb) (rest : List RxSkb)
    (c : Cache)
    → IsCache c
    → Chain s skb.frag (rest ++ skb ∷ [])
    → skb.morefrags ≡ false
    → IsReassembled skb (complete rx i e (s ∷ (rest ++ skb ∷ [])) c)
unfolding complete
complete-IsReassembled rx skb i e s rest c v chain last =
    let emptied : IsCache
        (record c { fragments = set_entry c.fragments i (record e { skb_list = [] }) }) =
      set_entry-IsEntry c.fragments i _ v (free refl) in
    elim (Bool-cases rx.expands) [
      | inl h ↦ rw (h) (joined s rest chain last emptied)
      | inr h ↦ rw (h) (refused emptied)
    ]

append_fragment-IsReassembled :
    (rx : RxData) (skb : RxSkb) (i pn : ℕ) (c : Cache)
    → IsCache c
    → entry_continues skb (c.fragments i) ≡ true
    → IsReassembled skb (append_fragment rx skb i pn c)
unfolding append_fragment
append_fragment-IsReassembled rx skb i pn c v hit = elim (v i) [
  | free none_there ↦
      absurd (true≢false (sym hit ∙ entry_continues_free skb (c.fragments i) none_there))
  | held {s} {rest} list chain seq queue ↦
      let same =
        matching skb (c.fragments i) s (entry_continues_held skb (c.fragments i) s rest list hit)
          seq queue in
      let longer : Chain s skb.frag (rest ++ skb ∷ []) = more chain same.0 same.1 in
      let e : FragmentEntry = record (c.fragments i) {
        last_pn = pn;
        skb_list = (c.fragments i).skb_list ++ skb ∷ [];
        last_frag = skb.frag;
        extra_len = ((c.fragments i).extra_len + length skb.body) % 2 ^ 32;
      } in
      let all : e.skb_list ≡ s ∷ (rest ++ skb ∷ []) = ap (λ l. l ++ skb ∷ []) list in
      elim (Bool-cases skb.morefrags) [
        | inl unfinished ↦
            let step : append_fragment rx skb i pn c
                ≡ (rx_queued, record c { fragments = set_entry c.fragments i e }) =
              rw (unfinished) refl in
            subst (IsReassembled skb) (sym step)
              (queued (set_entry-IsEntry c.fragments i e v (held all longer seq queue)))
        | inr last ↦
            let step : append_fragment rx skb i pn c ≡ complete rx i e e.skb_list c =
              rw (last) refl in
            subst (IsReassembled skb) (sym step) (
              subst (λ l. IsReassembled skb (complete rx i e l c)) (sym all)
                (complete-IsReassembled rx skb i e s rest c v longer last))
      ]
]

secured_fragment-IsReassembled :
    (rx : RxData) (skb : RxSkb) (i : ℕ) (key : Option ℕ) (c : Cache)
    → IsCache c
    → entry_continues skb (c.fragments i) ≡ true
    → IsReassembled skb (secured_fragment rx skb i key c)
unfolding secured_fragment
secured_fragment-IsReassembled rx skb i none c v hit = refused v
secured_fragment-IsReassembled rx skb i (some pn) c v hit =
    let next : ℕ = ((c.fragments i).last_pn + 1) % 2 ^ 48 in
    elim (Bool-cases (next == pn)) [
      | inl e ↦ rw (secured_fragment, e) (append_fragment-IsReassembled rx skb i next c v hit)
      | inr e ↦ rw (secured_fragment, e) (refused v)
    ]

add_fragment-IsReassembled :
    (rx : RxData) (skb : RxSkb) (found : Option ℕ × Cache)
    → Found skb found
    → IsReassembled skb (add_fragment rx skb found)
unfolding add_fragment
add_fragment-IsReassembled rx skb (none, c) v = dropped v
add_fragment-IsReassembled rx skb (some i, c) (v, hit) = elim (Bool-cases (c.fragments i).ccmp) [
  | inr plain ↦
      let step : add_fragment rx skb (some i, c)
          ≡ append_fragment rx skb i (c.fragments i).last_pn c =
        rw (plain) refl in
      subst (IsReassembled skb) (sym step)
        (append_fragment-IsReassembled rx skb i (c.fragments i).last_pn c v hit)
  | inl secured ↦
      let step : add_fragment rx skb (some i, c) ≡ secured_fragment rx skb i rx.ccmp_pn c =
        rw (secured) refl in
      subst (IsReassembled skb) (sym step)
        (secured_fragment-IsReassembled rx skb i rx.ccmp_pn c v hit)
]

-- A fragment goes to the cache.
abbrev to_cache : RxData → RxSkb → Cache → RxResult × Cache
to_cache rx skb c =
    if skb.frag == 0
    then (rx_queued, reassemble_add rx skb c)
    else add_fragment rx skb (reassemble_find rx skb 4 c.fragment_next c)

cached :
    (rx : RxData) (skb : RxSkb) (c : Cache)
    → is_whole skb ≡ false
    → rx.linear ≡ true
    → rx_h_defragment rx skb c ≡ to_cache rx skb c
unfolding rx_h_defragment
cached rx skb c part linear = ground (arith, part, linear)

in_cache :
    (rx : RxData) (skb : RxSkb) (c : Cache) → IsCache c → IsReassembled skb (to_cache rx skb c)
in_cache rx skb c v = elim (Bool-cases (skb.frag == 0)) [
  | inl first ↦
      let step : to_cache rx skb c ≡ (rx_queued, reassemble_add rx skb c) = rw (first) refl in
      subst (IsReassembled skb) (sym step)
        (queued (reassemble_add-IsCache rx skb c (ground (arith, first)) v))
  | inr later ↦
      let step : to_cache rx skb c
          ≡ add_fragment rx skb (reassemble_find rx skb 4 c.fragment_next c) =
        rw (later) refl in
      subst (IsReassembled skb) (sym step) (
        add_fragment-IsReassembled rx skb (reassemble_find rx skb 4 c.fragment_next c)
          (reassemble_find-Found rx skb 4 c.fragment_next c v))
]

-- Let every entry of the cache be free or hold, behind the fragment 0 of a frame, the fragments up to its
-- last one in order, all of the same type, addresses, sequence number and queue. Then a received frame
-- leaves such a cache, and what is handed on is the frame itself, which is not for the cache, or the frame
-- whose body is that of all fragments of such a chain that ends with the received one, which says that
-- it is the last.
pub rx_h_defragment-IsReassembled :
    (rx : RxData) (skb : RxSkb) (c : Cache)
    → IsCache c
    → IsReassembled skb (rx_h_defragment rx skb c)
unfolding rx_h_defragment
rx_h_defragment-IsReassembled rx skb c v = elim (Bool-cases (is_whole skb)) [
  | inl alone ↦
      let step : rx_h_defragment rx skb c ≡ (rx_continue skb, c) = rw (alone) refl in
      subst (IsReassembled skb) (sym step) (whole alone v)
  | inr part ↦ elim (Bool-cases rx.linear) [
    | inr apart ↦
        let step : rx_h_defragment rx skb c ≡ (rx_drop_unusable, c) = rw (part, apart) refl in
        subst (IsReassembled skb) (sym step) (refused v)
    | inl linear ↦
        subst (IsReassembled skb) (sym (cached rx skb c part linear)) (in_cache rx skb c v)
  ]
]
