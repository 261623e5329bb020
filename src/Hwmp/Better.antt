-- ===== src/Hwmp/Better.antt =====
-- mesh_hwmp.c: no information makes a path worse.
use mac.Base.{
  if-true, if-false, ℕ, ◌^◌, ◌≤◌, ◌<◌, ◌≡◌, ◌⊎◌, inl, inr, refl, sym, ap, ◌∙◌, arith, Bool, true,
  false, ◌&&◌, ◌||◌, [], Option, some, ltb, leb, ◌==◌, if◌then◌else◌, Bool-cases, ==→eq, eq→==,
}
use mathlib.Core.Bool.{true≢false}
use mac.Hwmp.{
  MeshPeer, MeshPath, MeshPaths, HwmpKernel, mpath_expired, mesh_path_lookup,
  mesh_path_assign_nexthop, mesh_path_tx_pending, put_path,
}
use mac.Hwmp.Route.{
  RouteInfo, sn_gt, learn_originator, learn_transmitter, is_stale, update_originator,
  update_transmitter,
}

-- How a path that is in use may change.
pub record NoWorse (sender : ℕ) (p q : MeshPath) : Type 0 where
  pub active : q.active ≡ true
  pub sn_valid : q.sn_valid ≡ true
  pub fixed : q.fixed ≡ p.fixed
  pub route :
      ((q.next_hop ≡ p.next_hop) × (q.sn ≡ p.sn) × (q.metric ≡ p.metric))
      ⊎ ((p.fixed ≡ false)
          × (q.next_hop ≡ some sender)
          × (((q.sn ≡ p.sn) × (q.metric ≤ p.metric)) ⊎ (sn_gt q.sn p.sn ≡ true)))

-- A path is usable: it is active with a valid number and not over.
pub record IsUsable (k : HwmpKernel) (p : MeshPath) : Type 0 where
  pub active : p.active ≡ true
  pub sn_valid : p.sn_valid ≡ true
  pub lasts : mpath_expired k p ≡ false
  pub word : p.sn < 2 ^ 32

-- Either of two numbers of 32 bits that differ is newer.
sn_gt_total :
    (x y : ℕ) → x < 2 ^ 32 → y < 2 ^ 32 → sn_gt x y ≡ false → (x == y) ≡ false → sn_gt y x ≡ true
unfolding sn_gt
sn_gt_total x y wx wy old other = ground arith

pub tx_pending-paths :
    (dst : ℕ) (p : MeshPath) (m : MeshPaths) (d : ℕ)
    → p.active ≡ true
    → (mesh_path_tx_pending dst p m).paths d
      ≡ (if d == dst then some (record p { frame_queue = [] }) else m.paths d)
unfolding mesh_path_tx_pending
tx_pending-paths dst p m d active = rw (active) refl

-- The path that is looked up, where it is usable.
pub lookup-IsUsable :
    (k : HwmpKernel) (dst : ℕ) (m : MeshPaths) (p : MeshPath)
    → m.paths dst ≡ some p
    → IsUsable k p
    → mesh_path_lookup k dst m ≡ (put_path dst p m, some p)
unfolding mesh_path_lookup
lookup-IsUsable k dst m p here usable = rw (here, mesh_path_lookup, usable.lasts) refl

le_of_not_ltb : (x y : ℕ) {active : Bool} → active ≡ true → (active && ltb x y) ≡ false → y ≤ x
le_of_not_ltb x y {active = true} e f = ground arith
le_of_not_ltb x y {active = false} e f = absurd (true≢false (sym e))

pub or-false : {a b : Bool} → (a || b) ≡ false → (a ≡ false) × (b ≡ false)
or-false {a = true} e = absurd (true≢false e)
or-false {a = false} e = (refl, e)

-- The greater metric is not better.
le_of_not_leb : (x y : ℕ) {same : Bool} → same ≡ true → (same && leb x y) ≡ false → y ≤ x
le_of_not_leb x y {same = true} e f = ground arith
le_of_not_leb x y {same = false} e f = absurd (true≢false (sym e))

pub here_again {ℓ} : {A : Type ℓ} (d : ℕ) (x y : A) → (if d == d then x else y) ≡ x
here_again d x y = if-true x y (eq→== d d refl)

-- Information that is not stale is newer, or of the same number and better.
not_stale :
    (k : HwmpKernel) (p : MeshPath)
    → IsUsable k p
    → (sn metric : ℕ) → sn < 2 ^ 32
    → is_stale p sn metric ≡ false
    → ((sn ≡ p.sn) × (metric ≤ p.metric)) ⊎ (sn_gt sn p.sn ≡ true)
unfolding is_stale
not_stale k p usable sn metric word fresh =
    let test : (sn_gt p.sn sn || p.sn == sn && leb p.metric metric) ≡ false =
      rw (usable.active, usable.sn_valid) at fresh in
    let tests = or-false test in
    elim (Bool-cases (p.sn == sn)) [
      | inl same ↦ inl (sym (==→eq p.sn sn same), le_of_not_leb p.metric metric same tests.1)
      | inr other ↦ inr (sn_gt_total p.sn sn usable.word word tests.0 other)
    ]

pub NoWorse-refl : (k : HwmpKernel) (sender : ℕ) (p : MeshPath) → IsUsable k p → NoWorse sender p p
NoWorse-refl k sender p usable = record {
  active = usable.active;
  sn_valid = usable.sn_valid;
  fixed = refl;
  route = inl (refl, refl, refl);
}

module _ (k : HwmpKernel) (sta : MeshPeer) (m : MeshPaths) (p : MeshPath)
    (usable : IsUsable k p) where
  module _ (info : RouteInfo) (metric exp_time : ℕ) where
    -- What the first half does with a path that is found.
    abbrev Found : MeshPaths × Option Bool → Type 0
    Found r =
        ((b : Bool) × (r ≡ (put_path info.orig_addr p m, some b)))
        ⊎ ((p.fixed ≡ false)
            × (is_stale p info.orig_sn metric ≡ false)
            × (r ≡ (
              mesh_path_tx_pending info.orig_addr
                  (learn_originator k m sta info.orig_sn metric exp_time p)
                  (put_path info.orig_addr p m),
              some true,
            )))

    update_originator-Found :
        m.paths info.orig_addr ≡ some p
        → (info.orig_addr == m.own_addr) ≡ false
        → Found (update_originator k sta info metric exp_time m)
    unfolding update_originator
    update_originator-Found here other =
        let found = lookup-IsUsable k info.orig_addr m p here usable in
        elim (Bool-cases p.fixed) [
          | inl fixed ↦ inl (true, rw (other, found, ap (λ r. r.0) found) (if-true _ _ fixed))
          | inr free ↦ elim (Bool-cases (is_stale p info.orig_sn metric)) [
            | inl stale ↦ inl (
              false,
              rw (other, found, ap (λ r. r.0) found) (if-false _ _ free ∙ if-true _ _ stale),
            )
            | inr fresh ↦ inr (
              free,
              fresh,
              rw (other, found, ap (λ r. r.0) found) (if-false _ _ free ∙ if-false _ _ fresh),
            )
          ]
        ]

    Found-NoWorse :
        {r : MeshPaths × Option Bool}
        → info.orig_sn < 2 ^ 32
        → Found r
        → (q : MeshPath) × (r.0.paths info.orig_addr ≡ some q) × NoWorse sta.addr p q
    unfolding learn_originator mesh_path_assign_nexthop
    Found-NoWorse word (inl (b, e)) = (
      p,
      ap (λ r. r.0.paths info.orig_addr) e ∙ here_again info.orig_addr (some p) _,
      NoWorse-refl k sta.addr p usable,
    )
    Found-NoWorse word (inr (free, fresh, e)) =
        let learnt : MeshPath = learn_originator k m sta info.orig_sn metric exp_time p in
        (
          record learnt { frame_queue = [] },
          ap (λ r. r.0.paths info.orig_addr) e
              ∙ tx_pending-paths info.orig_addr learnt _ info.orig_addr refl
              ∙ here_again info.orig_addr _ _,
          record {
            active = refl;
            sn_valid = refl;
            fixed = refl;
            route = inr (free, refl, not_stale k p usable info.orig_sn metric word fresh);
          },
        )

    pub update_originator-NoWorse :
        info.orig_sn < 2 ^ 32
        → m.paths info.orig_addr ≡ some p
        → (q : MeshPath) × ((update_originator k sta info metric exp_time m).0.paths info.orig_addr
            ≡ some q)
          × NoWorse sta.addr p q
    unfolding update_originator
    update_originator-NoWorse word here = elim (Bool-cases (info.orig_addr == m.own_addr)) [
      | inl own ↦ rw (own) (p, here, NoWorse-refl k sta.addr p usable)
      | inr other ↦ Found-NoWorse word (update_originator-Found here other)
    ]

  module _ (dst orig metric exp_time : ℕ) where
    -- What the second half does with a path that is found.
    abbrev Heard : MeshPaths × Bool → Type 0
    Heard r =
        (r ≡ (put_path dst p m, true))
        ⊎ ((p.fixed ≡ false)
            × (metric ≤ p.metric)
            × (r ≡ (
              mesh_path_tx_pending dst (learn_transmitter k m sta metric exp_time p)
                  (put_path dst p m),
              true,
            )))

    update_transmitter-Heard :
        m.paths dst ≡ some p
        → (orig == dst) ≡ false
        → Heard (update_transmitter k sta dst orig metric exp_time m)
    unfolding update_transmitter
    update_transmitter-Heard here other =
        let found = lookup-IsUsable k dst m p here usable in
        elim (Bool-cases (p.fixed || p.active && ltb p.metric metric)) [
          | inl stays ↦ inl (rw (other, found, ap (λ r. r.0) found) (if-true _ _ stays))
          | inr fresh ↦
              let tests = or-false fresh in
              inr (
                tests.0,
                le_of_not_ltb p.metric metric usable.active tests.1,
                rw (other, found, ap (λ r. r.0) found) (if-false _ _ fresh),
              )
        ]

    Heard-NoWorse :
        {r : MeshPaths × Bool}
        → Heard r
        → (q : MeshPath) × (r.0.paths dst ≡ some q) × NoWorse sta.addr p q
    unfolding learn_transmitter mesh_path_assign_nexthop
    Heard-NoWorse (inl e) =
        (p, ap (λ r. r.0.paths dst) e ∙ here_again dst (some p) _, NoWorse-refl k sta.addr p usable)
    Heard-NoWorse (inr (free, le, e)) =
        let learnt : MeshPath = learn_transmitter k m sta metric exp_time p in
        (
          record learnt { frame_queue = [] },
          ap (λ r. r.0.paths dst) e ∙ tx_pending-paths dst learnt _ dst refl ∙ here_again dst _ _,
          record {
            active = refl;
            sn_valid = usable.sn_valid;
            fixed = refl;
            route = inr (free, refl, inl (refl, le));
          },
        )

    pub update_transmitter-NoWorse :
        m.paths dst ≡ some p
        → (q : MeshPath) × ((update_transmitter k sta dst orig metric exp_time m).0.paths dst
            ≡ some q)
          × NoWorse sta.addr p q
    unfolding update_transmitter
    update_transmitter-NoWorse here = elim (Bool-cases (orig == dst)) [
      | inl own ↦ rw (own) (p, here, NoWorse-refl k sta.addr p usable)
      | inr other ↦ Heard-NoWorse (update_transmitter-Heard here other)
    ]
