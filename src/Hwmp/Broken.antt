-- ===== src/Hwmp/Broken.antt =====
-- mesh_hwmp.c: only the next hop of a path can break it.
use mac.Base.{
  if-true, ℕ, ◌≡◌, ◌⊎◌, inl, inr, refl, sym, ap, ◌∙◌, Bool, true, false, not, ◌&&◌, ◌||◌, List,
  Option, none, some, leb, ◌==◌, if◌then◌else◌, get_or, Bool-cases, Option-cases, ==→eq,
}
use mathlib.Core.Bool.{true≢false}
use mathlib.Core.Option.{none-ne-some, some-injective}
use mathlib.Core.Path.{subst}
use mac.Hwmp.{MeshPath, MeshPaths, HwmpKernel, time_after, mesh_path_lookup, put_path}
use mac.Hwmp.Route.{u32_field_get, address_at, sn_gt}
use mac.Hwmp.Better.{IsUsable, lookup-IsUsable}
use mac.Hwmp.Others.{lookup-others, lookup-found}
use mac.Hwmp.Perr.{
  PathErrors, PerrConfig, mesh_path_error_tx, from_next_hop, is_news, break_path, break_and_tell,
  hwmp_perr_frame_process,
}

-- An active path has a next hop.
abbrev pub HasHop : Option MeshPath → Type 0
HasHop none = Unit {0}
HasHop (some p) = p.active ≡ true → (hop : ℕ) × (p.next_hop ≡ some hop)

unfoldable pub HasHops : MeshPaths → Type 0
HasHops m = (d : ℕ) → HasHop (m.paths d)

still_active :
    (over : Bool) {active : Bool} → (if over then false else active) ≡ true → active ≡ true
still_active true e = absurd (true≢false (sym e))
still_active false e = e

lookup-HasHops :
    (k : HwmpKernel) (dst : ℕ) (m : MeshPaths) → HasHops m → HasHops (mesh_path_lookup k dst m).0
unfolding HasHops mesh_path_lookup
lookup-HasHops k dst m hops d = elim (Option-cases (m.paths dst)) [
  | inl e ↦ rw (e, mesh_path_lookup) (hops d)
  | inr (p, e) ↦ elim (Bool-cases (d == dst)) [
    | inl here ↦
        let hop : HasHop (some p) = rw (e) at (hops dst) in
        rw (e, mesh_path_lookup, here) (λ active. hop (still_active _ active))
    | inr away ↦ rw (lookup-others k dst d away m) (hops d)
  ]
]

-- The table with a broken path.
broken-HasHops :
    (dst sn : ℕ) (p : MeshPath) (m : MeshPaths)
    → HasHops m
    → HasHops (put_path dst (break_path sn p) m)
unfolding HasHops
broken-HasHops dst sn p m hops d = elim (Bool-cases (d == dst)) [
  | inl here ↦ rw (here) (λ active. absurd (true≢false (sym active)))
  | inr away ↦ rw (away) (hops d)
]

break_and_tell-table :
    (k : HwmpKernel) (c : PerrConfig) (ttl target sn rcode : ℕ) (p : MeshPath) (s : PathErrors)
    → (break_and_tell k c ttl target sn rcode p s).table ≡ put_path target (break_path sn p) s.table
unfolding break_and_tell mesh_path_error_tx
break_and_tell-table k c ttl target sn rcode p s = elim (Bool-cases c.forwarding) [
  | inr e ↦ rw (e) refl
  | inl e ↦ elim (Bool-cases (time_after k s.next_perr k.jiffies || not c.finds_skb)) [
    | inl f ↦ rw (e, f) refl
    | inr f ↦ rw (e, f) refl
  ]
]

-- What an error does to the table.
data TableAfter (k : HwmpKernel) (ta target sn : ℕ) (m : MeshPaths) : MeshPaths → Type 0 where
  kept : TableAfter k ta target sn m m
  looked_up : TableAfter k ta target sn m (mesh_path_lookup k target m).0
  broken :
      (p : MeshPath) (hop : Bool)
      → (mesh_path_lookup k target m).1 ≡ some p
      → from_next_hop ta p ≡ some hop
      → (hop && is_news sn p) ≡ true
      → TableAfter k ta target sn m
          (put_path target (break_path sn p) (mesh_path_lookup k target m).0)

hop_known :
    (ta : ℕ) (p : MeshPath) → HasHop (some p) → (hop : Bool) × (from_next_hop ta p ≡ some hop)
hop_known ta p known = elim (Option-cases p.next_hop) [
  | inr (hop, e) ↦ (p.active && ta == hop, rw (e) refl)
  | inl e ↦ elim (Bool-cases p.active) [
    | inl f ↦ absurd (none-ne-some _ (sym e ∙ (known f).1))
    | inr f ↦ (false, rw (e, f) refl)
  ]
]

perr-TableAfter :
    (k : HwmpKernel) (c : PerrConfig) (ta : ℕ) (elem : List ℕ) (s : PathErrors)
    → HasHops s.table
    → (s' : PathErrors) × (hwmp_perr_frame_process k c ta elem s ≡ some s')
      × TableAfter k ta (address_at elem 3) (u32_field_get elem 9 false) s.table s'.table
unfolding hwmp_perr_frame_process HasHops
perr-TableAfter k c ta elem s hops =
    let target : ℕ = address_at elem 3 in
    let sn : ℕ = u32_field_get elem 9 false in
    elim (Bool-cases (leb (get_or elem 0 0) 1)) [
      | inl e ↦ rw (e) (_, refl, kept)
      | inr e ↦ elim (Option-cases (mesh_path_lookup k target s.table).1) [
        | inl f ↦ rw (e, f) (_, refl, looked_up)
        | inr (p, f) ↦
            let known : HasHop (some p) =
              subst HasHop (lookup-found k target s.table p f)
                (lookup-HasHops k target s.table hops target) in
            let (hop, g) = hop_known ta p known in
            elim (Bool-cases (hop && is_news sn p)) [
              | inl h ↦
                  rw (e, f, g, h)
                    (
                      _,
                      refl,
                      subst (λ m. TableAfter k ta target sn s.table m)
                          (sym (break_and_tell-table k c _ target sn _ p _)) (broken p hop f g h),
                    )
              | inr h ↦ rw (e, f, g, h) (_, refl, looked_up)
            ]
      ]
    ]

-- A path that has been broken by its next hop with a newer number.
pub record IsBroken (ta target sn d : ℕ) (p : MeshPath) (m : MeshPaths) : Type 0 where
  pub destination : d ≡ target
  pub by_next_hop : p.next_hop ≡ some ta
  pub newer : sn_gt sn p.sn ≡ true
  pub inactive : m.paths d ≡ some (break_path sn p)

next_hop_ta :
    (ta : ℕ) (p : MeshPath) (hop : Bool)
    → p.active ≡ true
    → from_next_hop ta p ≡ some hop
    → hop ≡ true
    → p.next_hop ≡ some ta
next_hop_ta ta p hop active e equal = elim (Option-cases p.next_hop) [
  | inl f ↦ absurd (none-ne-some _ (rw (f, active) at e))
  | inr (a, f) ↦
      let same : (ta == a) ≡ true = some-injective _ _ (rw (f, active) at e) ∙ equal in
      f ∙ ap some (sym (==→eq ta a same))
]

and-true : {a b : Bool} → (a && b) ≡ true → (a ≡ true) × (b ≡ true)
and-true {a = true} e = (refl, e)
and-true {a = false} e = absurd (true≢false (sym e))

module _ (k : HwmpKernel) (ta target sn : ℕ) (m : MeshPaths) (d : ℕ) (p : MeshPath)
    (here : m.paths d ≡ some p) (usable : IsUsable k p) where
  lookup-here : (mesh_path_lookup k target m).0.paths d ≡ some p
  lookup-here = elim (Bool-cases (d == target)) [
    | inl same ↦
        let e = ==→eq d target same in
        ap (λ r. r.0.paths d) (lookup-IsUsable k target m p (ap m.paths (sym e) ∙ here) usable)
        ∙ if-true _ _ same
    | inr away ↦ lookup-others k target d away m ∙ here
  ]

  TableAfter-IsBroken :
      {m' : MeshPaths}
      → TableAfter k ta target sn m m'
      → (m'.paths d ≡ some p) ⊎ IsBroken ta target sn d p m'
  TableAfter-IsBroken kept = inl here
  TableAfter-IsBroken looked_up = inl lookup-here
  TableAfter-IsBroken (broken q hop f g h) = elim (Bool-cases (d == target)) [
    | inr away ↦ inl (rw (away) lookup-here)
    | inl same ↦
        let e = ==→eq d target same in
        let found = lookup-IsUsable k target m p (ap m.paths (sym e) ∙ here) usable in
        let q_is_p : q ≡ p = some-injective _ _ (sym f ∙ ap (λ r. r.1) found) in
        let tests = and-true h in
        let news : sn_gt sn p.sn ≡ true =
          rw (usable.sn_valid) at (ap (is_news sn) (sym q_is_p) ∙ tests.1) in
        inr (record {
          destination = e;
          by_next_hop =
              next_hop_ta ta p hop usable.active (ap (from_next_hop ta) (sym q_is_p) ∙ g) tests.0;
          newer = news;
          inactive = if-true _ _ same ∙ ap (λ x. some (break_path sn x)) q_is_p;
        })
  ]

TableAfter-HasHops :
    {k : HwmpKernel} {ta target sn : ℕ} {m m' : MeshPaths}
    → HasHops m
    → TableAfter k ta target sn m m'
    → HasHops m'
TableAfter-HasHops hops kept = hops
TableAfter-HasHops {k} {target} {m} hops looked_up = lookup-HasHops k target m hops
TableAfter-HasHops {k} {target} {sn} {m} hops (broken p hop f g h) =
    broken-HasHops target sn p _ (lookup-HasHops k target m hops)

-- Let every active path of an interface have a next hop, and one path be active, with a valid sequence number
-- of 32 bits, and not over. An error of any bytes from any sender is then handled without an access through
-- NULL, and every active path has a next hop afterwards. The one path stays as it is, unless the error is
-- about its destination, comes from its next hop and has a newer number: then it may be inactive, with this
-- number.
pub hwmp_perr_frame_process-IsBroken :
    (k : HwmpKernel) (c : PerrConfig) (ta : ℕ) (elem : List ℕ) (s : PathErrors) (d : ℕ)
    (p : MeshPath)
    → HasHops s.table
    → s.table.paths d ≡ some p
    → IsUsable k p
    → (s' : PathErrors) × (hwmp_perr_frame_process k c ta elem s ≡ some s')
      × HasHops s'.table
      × ((s'.table.paths d ≡ some p)
          ⊎ IsBroken ta (address_at elem 3) (u32_field_get elem 9 false) d p s'.table)
hwmp_perr_frame_process-IsBroken k c ta elem s d p hops here usable =
    let (s', e, after) = perr-TableAfter k c ta elem s hops in
    (
      s',
      e,
      TableAfter-HasHops hops after,
      TableAfter-IsBroken k ta _ _ s.table d p here usable after,
    )
