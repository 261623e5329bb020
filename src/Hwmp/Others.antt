-- ===== src/Hwmp/Others.antt =====
-- mesh_hwmp.c, mesh_pathtbl.c: the paths to other destinations stay as they are.
use mathlib.Core.Option.{none-ne-some}
use mac.Hwmp.Better.{here_again}
use mac.Base.{
  some, ℕ, ◌%◌, ◌≡◌, refl, ◌∙◌, arith, true, false, not, ◌&&◌, ◌||◌, ltb, ◌==◌, Bool-cases,
  Option-cases, inl, inr,
}
use mac.Hwmp.{
  MeshPeer, MeshPath, MeshPaths, HwmpKernel, mesh_path_lookup, mesh_path_add, mesh_path_tx_pending,
}
use mac.Hwmp.Route.{RouteInfo, is_stale, update_originator, update_transmitter}

module _ (k : HwmpKernel) (dst d : ℕ) (other : (d == dst) ≡ false) where
  pub lookup-others : (m : MeshPaths) → (mesh_path_lookup k dst m).0.paths d ≡ m.paths d
  unfolding mesh_path_lookup
  lookup-others m = elim (Option-cases (m.paths dst)) [
    | inl e ↦ rw (e, mesh_path_lookup) refl
    | inr (p, e) ↦ rw (e, mesh_path_lookup, other) refl
  ]

  add-others : (m : MeshPaths) → (mesh_path_add k dst m).0.paths d ≡ m.paths d
  unfolding mesh_path_add
  add-others m = elim (Bool-cases (dst == m.own_addr || dst % 2 == 1 || m.mpaths == 1024)) [
    | inl refused ↦ rw (refused) refl
    | inr able ↦ elim (Option-cases (m.paths dst)) [
      | inr (p, e) ↦ rw (able, e) refl
      | inl e ↦ elim (Bool-cases (not k.finds_path || not k.finds_node)) [
        | inl lacks ↦ rw (able, e, lacks) refl
        | inr finds ↦ rw (able, e, finds, other) refl
      ]
    ]
  ]

  tx_pending-others :
      (p : MeshPath) (m : MeshPaths) → (mesh_path_tx_pending dst p m).paths d ≡ m.paths d
  unfolding mesh_path_tx_pending
  tx_pending-others p m = elim (Bool-cases p.active) [
    | inl e ↦ rw (e, other) refl
    | inr e ↦ rw (e, other) refl
  ]

  -- What the two halves do after they have looked a path up.
  changed-others :
      (p : MeshPath) (m m' : MeshPaths)
      → m'.paths d ≡ m.paths d
      → (mesh_path_tx_pending dst p m').paths d ≡ m.paths d
  changed-others p m m' e = tx_pending-others p m' ∙ e

  added-others :
      (m : MeshPaths) → (mesh_path_add k dst (mesh_path_lookup k dst m).0).0.paths d ≡ m.paths d
  added-others m = add-others (mesh_path_lookup k dst m).0 ∙ lookup-others m

  pub update_transmitter-others :
      (sta : MeshPeer) (orig metric exp_time : ℕ) (m : MeshPaths)
      → (update_transmitter k sta dst orig metric exp_time m).0.paths d ≡ m.paths d
  unfolding update_transmitter
  update_transmitter-others sta orig metric exp_time m = elim (Bool-cases (orig == dst)) [
    | inl e ↦ rw (e) refl
    | inr e ↦ elim (Option-cases (mesh_path_lookup k dst m).1) [
      | inr (p, f) ↦ elim (Bool-cases (p.fixed || p.active && ltb p.metric metric)) [
        | inl g ↦ rw (e, f, g) (lookup-others m)
        | inr g ↦ rw (e, f, g) (changed-others _ m _ (lookup-others m))
      ]
      | inl f ↦ elim (Option-cases (mesh_path_add k dst (mesh_path_lookup k dst m).0).1) [
        | inl g ↦ rw (e, f, g) (added-others m)
        | inr (p, g) ↦ rw (e, f, g) (changed-others _ m _ (added-others m))
      ]
    ]
  ]

pub update_originator-others :
    (k : HwmpKernel) (sta : MeshPeer) (info : RouteInfo) (metric exp_time d : ℕ) (m : MeshPaths)
    → (d == info.orig_addr) ≡ false
    → (update_originator k sta info metric exp_time m).0.paths d ≡ m.paths d
unfolding update_originator is_stale
update_originator-others k sta info metric exp_time d m other =
    let dst : ℕ = info.orig_addr in
    elim (Bool-cases (dst == m.own_addr)) [
      | inl e ↦ rw (e) refl
      | inr e ↦ elim (Option-cases (mesh_path_lookup k dst m).1) [
        | inr (p, f) ↦ elim (Bool-cases p.fixed) [
          | inl g ↦ rw (e, f, g) (lookup-others k dst d other m)
          | inr g ↦ elim (Bool-cases (is_stale p info.orig_sn metric)) [
            | inl h ↦ rw (e, f, g, h) (lookup-others k dst d other m)
            | inr h ↦
                rw (e, f, g, h) (changed-others k dst d other _ m _ (lookup-others k dst d other m))
          ]
        ]
        | inl f ↦ elim (Option-cases (mesh_path_add k dst (mesh_path_lookup k dst m).0).1) [
          | inl g ↦ rw (e, f, g) (added-others k dst d other m)
          | inr (p, g) ↦
              rw (e, f, g) (changed-others k dst d other _ m _ (added-others k dst d other m))
        ]
      ]
    ]

-- The path to the originator stays in the second half.
pub update_transmitter-originator :
    (k : HwmpKernel) (sta : MeshPeer) (d sa orig metric exp_time : ℕ) (m : MeshPaths)
    → (d == orig) ≡ true
    → (update_transmitter k sta sa orig metric exp_time m).0.paths d ≡ m.paths d
unfolding update_transmitter
update_transmitter-originator k sta d sa orig metric exp_time m same =
    elim (Bool-cases (orig == sa)) [
      | inl e ↦ rw (e) refl
      | inr e ↦
          update_transmitter-others k sa d (ground (arith, same, e)) sta orig metric exp_time m
    ]

-- A path that is found is in the table then.
pub lookup-found :
    (k : HwmpKernel) (dst : ℕ) (m : MeshPaths) (p : MeshPath)
    → (mesh_path_lookup k dst m).1 ≡ some p
    → (mesh_path_lookup k dst m).0.paths dst ≡ some p
unfolding mesh_path_lookup
lookup-found k dst m p e = elim (Option-cases (m.paths dst)) [
  | inl gone ↦ absurd (none-ne-some _ (rw (gone, mesh_path_lookup) at e))
  | inr (q, here) ↦
      rw (here, mesh_path_lookup) (here_again dst _ _ ∙ rw (here, mesh_path_lookup) at e)
]
