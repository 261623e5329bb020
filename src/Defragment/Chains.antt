-- ===== src/Defragment/Chains.antt =====
-- rx.c: a reassembled frame is made of the fragments of one frame, in order.
use mac.Base.{
  ℕ, zero, suc, ◌+◌, ◌-◌, ◌≡◌, refl, arith, true, false, Option, none, some, List, [], ◌∷◌, ◌++◌,
  ltb, ◌==◌, if◌then◌else◌, Bool-cases, Option-cases, inl, inr,
}
use mac.Defragment.{
  RxSkb, FragmentEntry, Cache, RxData, set_entry, reassemble_add, continues, entry_continues,
  reassemble_find, bodies, RxResult, rx_continue, rx_queued, rx_drop_monitor, rx_drop_unusable,
  is_whole,
}

-- The fragment `t` is of the same frame as `s`, by its type, addresses, number and queue.
pub record SameFrame (s t : RxSkb) : Type 0 where
  pub ftype : t.ftype ≡ s.ftype
  pub addr1 : t.addr1 ≡ s.addr1
  pub addr2 : t.addr2 ≡ s.addr2
  pub seq : t.seq ≡ s.seq
  pub queue : t.queue ≡ s.queue

-- The fragments 0 to `last` of the frame of `s`, in order, behind `s`.
pub data Chain (s : RxSkb) : ℕ → List RxSkb → Type 0 where
  single : s.frag ≡ 0 → Chain s s.frag []
  more :
      {last : ℕ} {rest : List RxSkb} {t : RxSkb}
      → Chain s last rest
      → t.frag ≡ last + 1
      → SameFrame s t
      → Chain s t.frag (rest ++ t ∷ [])

-- An entry is free or holds a chain.
pub data IsEntry (e : FragmentEntry) : Type 0 where
  free : e.skb_list ≡ [] → IsEntry e
  held :
      {s : RxSkb} {rest : List RxSkb}
      → e.skb_list ≡ s ∷ rest
      → Chain s e.last_frag rest
      → e.seq ≡ s.seq
      → e.rx_queue ≡ s.queue
      → IsEntry e

abbrev pub IsCache : Cache → Type 0
IsCache c = (i : ℕ) → IsEntry (c.fragments i)

pub set_entry-IsEntry :
    (entries : ℕ → FragmentEntry) (i : ℕ) (e : FragmentEntry)
    → ((j : ℕ) → IsEntry (entries j))
    → IsEntry e
    → (j : ℕ) → IsEntry (set_entry entries i e j)
set_entry-IsEntry entries i e v h j = elim (Bool-cases (j == i)) [
  | inl same ↦ rw (same) h
  | inr other ↦ rw (other) (v j)
]

pub reassemble_add-IsCache :
    (rx : RxData) (skb : RxSkb) (c : Cache)
    → skb.frag ≡ 0
    → IsCache c
    → IsCache (reassemble_add rx skb c)
unfolding reassemble_add
reassemble_add-IsCache rx skb c first v =
    set_entry-IsEntry c.fragments c.fragment_next _ v (elim (Option-cases rx.ccmp_pn) [
      | inl e ↦ rw (e) (held refl (single first) refl refl)
      | inr pn ↦ rw (pn.1) (elim (Bool-cases skb.has_protected) [
        | inl p ↦ rw (p) (held refl (single first) refl refl)
        | inr p ↦ rw (p) (held refl (single first) refl refl)
      ])
    ])

abbrev pub Found : RxSkb → Option ℕ × Cache → Type 0
Found skb (none, c) = IsCache c
Found skb (some i, c) = IsCache c × (entry_continues skb (c.fragments i) ≡ true)

pub reassemble_find-Found :
    (rx : RxData) (skb : RxSkb) (left idx : ℕ) (c : Cache)
    → IsCache c
    → Found skb (reassemble_find rx skb left idx c)
unfolding reassemble_find
reassemble_find-Found rx skb zero idx c v = v
reassemble_find-Found rx skb (suc left) idx c v =
    let i : ℕ = if idx == 0 then 3 else idx - 1 in
    let e : FragmentEntry = c.fragments i in
    let d : Cache = record c { fragments = set_entry c.fragments i (record e { skb_list = [] }) } in
    let on = reassemble_find-Found rx skb left i c v in
    let purged =
      reassemble_find-Found rx skb left i d (set_entry-IsEntry c.fragments i _ v (free refl)) in
    elim (Bool-cases (entry_continues skb e)) [
      | inr other ↦ rw (reassemble_find, other) on
      | inl hit ↦ elim (Bool-cases (ltb (e.first_frag_time + rx.two_seconds) rx.jiffies)) [
        | inl late ↦ rw (reassemble_find, hit, late) purged
        | inr fresh ↦ rw (reassemble_find, hit, fresh) (v, hit)
      ]
    ]

-- A frame that is handed on, and the cache afterwards.
pub data IsReassembled (skb : RxSkb) : RxResult × Cache → Type 0 where
  whole : {c : Cache} → is_whole skb ≡ true → IsCache c → IsReassembled skb (rx_continue skb, c)
  joined :
      {c : Cache} (s : RxSkb) (rest : List RxSkb)
      → Chain s skb.frag (rest ++ skb ∷ [])
      → skb.morefrags ≡ false
      → IsCache c
      → IsReassembled skb (rx_continue (record s { body = s.body ++ bodies (rest ++ skb ∷ []) }), c)
  queued : {c : Cache} → IsCache c → IsReassembled skb (rx_queued, c)
  dropped : {c : Cache} → IsCache c → IsReassembled skb (rx_drop_monitor, c)
  refused : {c : Cache} → IsCache c → IsReassembled skb (rx_drop_unusable, c)

-- What a matching fragment shares with the first one.
pub matching :
    (skb : RxSkb) (e : FragmentEntry) (s : RxSkb)
    → continues skb e s ≡ true
    → e.seq ≡ s.seq
    → e.rx_queue ≡ s.queue
    → (skb.frag ≡ e.last_frag + 1) × SameFrame s skb
unfolding continues
matching skb e s h seq queue = (
  ground (arith, h),
  record {
    ftype = ground (arith, h);
    addr1 = ground (arith, h);
    addr2 = ground (arith, h);
    seq = ground (arith, h, seq);
    queue = ground (arith, h, queue);
  },
)
