-- ===== src/Hwmp/Leads.antt =====
-- mesh_hwmp.c: what a frame that is to be processed has done to the path to its originator.
use native.Mathlib.Nat.{lt_irrefl}
use mac.Base.{
  ℕ, ◌+◌, ◌%◌, ◌^◌, ◌<◌, ◌≡◌, ◌⊎◌, inl, inr, refl, ◌∙◌, Bool, true, false, List, [], Option, none,
  some, ◌==◌, Bool-cases, Option-cases, eq→==,
}
use mac.Hwmp.{
  MeshPeer, MeshPath, MeshPaths, HwmpKernel, mesh_path_lookup, mesh_path_add,
  mesh_path_assign_nexthop, mesh_path_tx_pending,
}
use mac.Hwmp.Metric.{airtime_link_metric_get}
use mac.Hwmp.Route.{
  FrameType, RouteInfo, route_info, add_metric, learn_originator, is_stale, update_originator,
  update_transmitter, update_routes, hwmp_route_info_get,
}
use mac.Hwmp.Better.{tx_pending-paths, here_again}
use mac.Hwmp.Others.{lookup-found, update_transmitter-originator}

-- The path to the originator is fixed, or leads through the sender with what the frame says.
pub record Leads (sender : ℕ) (info : RouteInfo) (metric : ℕ) (m : MeshPaths) : Type 0 where
  pub path : MeshPath
  pub found : m.paths info.orig_addr ≡ some path
  pub route :
      (path.fixed ≡ true)
      ⊎ ((path.active ≡ true)
          × (path.next_hop ≡ some sender)
          × (path.sn_valid ≡ true)
          × (path.sn ≡ info.orig_sn)
          × (path.metric ≡ metric))

module _ (k : HwmpKernel) (sta : MeshPeer) (info : RouteInfo) (metric exp_time : ℕ) where
  learnt-Leads :
      (p : MeshPath) (m m' : MeshPaths)
      → Leads sta.addr info metric (
          mesh_path_tx_pending info.orig_addr
            (learn_originator k m sta info.orig_sn metric exp_time p)
            m')
  unfolding learn_originator mesh_path_assign_nexthop
  learnt-Leads p m m' = record {
    path = record (learn_originator k m sta info.orig_sn metric exp_time p) { frame_queue = [] };
    found =
        tx_pending-paths info.orig_addr (learn_originator k m sta info.orig_sn metric exp_time p) m'
          info.orig_addr refl
        ∙ here_again info.orig_addr _ _;
    route = inr (refl, refl, refl, refl, refl);
  }

  -- What the first half comes to.
  abbrev Outcome : MeshPaths → MeshPaths × Option Bool → Type 0
  Outcome m r =
      (r.1 ≡ none)
      ⊎ ((r.1 ≡ some false)
          ⊎ ((r.1 ≡ some true)
              × ((info.orig_addr == m.own_addr) ≡ false)
              × Leads sta.addr info metric r.0))

  update_originator-Outcome :
      (m : MeshPaths) → Outcome m (update_originator k sta info metric exp_time m)
  unfolding update_originator is_stale
  update_originator-Outcome m =
      let dst : ℕ = info.orig_addr in
      elim (Bool-cases (dst == m.own_addr)) [
        | inl own ↦ rw (own) (inr (inl refl))
        | inr other ↦ elim (Option-cases (mesh_path_lookup k dst m).1) [
          | inr (p, f) ↦ elim (Bool-cases p.fixed) [
            | inl g ↦
                rw (other, f, g)
                  (inr (
                    inr (
                      refl,
                      refl,
                      record { path = p; found = lookup-found k dst m p f; route = inl g },
                    )))
            | inr g ↦ elim (Bool-cases (is_stale p info.orig_sn metric)) [
              | inl h ↦ rw (other, f, g, h) (inr (inl refl))
              | inr h ↦ rw (other, f, g, h) (inr (inr (refl, refl, learnt-Leads _ m _)))
            ]
          ]
          | inl f ↦ elim (Option-cases (mesh_path_add k dst (mesh_path_lookup k dst m).0).1) [
            | inl g ↦ rw (other, f, g) (inl refl)
            | inr (p, g) ↦ rw (other, f, g) (inr (inr (refl, refl, learnt-Leads p m _)))
          ]
        ]
      ]

update_routes-Leads :
    (k : HwmpKernel) (sta : MeshPeer) (sa : ℕ) (info : RouteInfo) (m : MeshPaths)
    → 0 < (update_routes k sta sa info m).1
    → let metric : ℕ = add_metric info.orig_metric (airtime_link_metric_get sta) in
      ((update_routes k sta sa info m).1 ≡ metric)
      × ((info.orig_addr == m.own_addr) ≡ false)
      × Leads sta.addr info metric (update_routes k sta sa info m).0
unfolding update_routes
update_routes-Leads k sta sa info m positive =
    let last_hop : ℕ = airtime_link_metric_get sta in
    let metric : ℕ = add_metric info.orig_metric last_hop in
    let exp_time : ℕ = (k.jiffies + k.tu_to_jiffies info.orig_lifetime) % 2 ^ k.long_bits in
    let first : MeshPaths × Option Bool = update_originator k sta info metric exp_time m in
    elim (update_originator-Outcome k sta info metric exp_time m) [
      | inl e ↦ absurd (lt_irrefl 0 (rw (e, update_routes) at positive))
      | inr (inl e) ↦ absurd (lt_irrefl 0 (rw (e, update_routes) at positive))
      | inr (inr (e, other, leads)) ↦
          elim (Bool-cases
            (update_transmitter k sta sa info.orig_addr last_hop exp_time first.0).1) [
              | inl f ↦
                  rw (e, update_routes, f)
                    (
                      refl,
                      other,
                      record {
                        path = leads.path;
                        found =
                            update_transmitter-originator k sta info.orig_addr sa info.orig_addr
                              last_hop exp_time first.0 (eq→== info.orig_addr info.orig_addr refl)
                            ∙ leads.found;
                        route = leads.route;
                      },
                    )
              | inr f ↦ absurd (lt_irrefl 0 (rw (e, update_routes, f) at positive))
            ]
    ]

-- Let a request or a reply come from a neighbour, and the function return a metric that is not 0, so that the
-- frame is processed further. Then its originator is another station, and the table has a path to it, which is
-- fixed, or is active and leads through the neighbour with the sequence number of the frame and the returned
-- metric.
pub hwmp_route_info_get-Leads :
    (k : HwmpKernel) (sa : ℕ) (sta : MeshPeer) (elem : List ℕ) (action : FrameType) (m : MeshPaths)
    → m.peers sa ≡ some sta
    → 0 < (hwmp_route_info_get k sa elem action m).1
    → (info : RouteInfo) × (route_info action elem ≡ some info)
      × ((info.orig_addr == m.own_addr) ≡ false)
      × Leads sta.addr info
          (hwmp_route_info_get k sa elem action m).1
          (hwmp_route_info_get k sa elem action m).0
unfolding hwmp_route_info_get
hwmp_route_info_get-Leads k sa sta elem action m peer positive =
    elim (Option-cases (route_info action elem)) [
      | inl e ↦ absurd (lt_irrefl 0 (rw (peer, hwmp_route_info_get, e) at positive))
      | inr (info, e) ↦
          let got =
            update_routes-Leads k sta sa info m (rw (peer, hwmp_route_info_get, e) at positive) in
          (info, e, got.1, rw (peer, hwmp_route_info_get, e, got.0) got.2)
    ]
