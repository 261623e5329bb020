-- ===== src/Hwmp/Routes.antt =====
-- mesh_hwmp.c: what a request or a reply makes of the paths that are in use.
use native.Mathlib.Nat.{mod-lt}
use mac.Base.{
  ℕ, ◌+◌, ◌%◌, ◌^◌, ◌<◌, ◌≡◌, sym, ap, ◌∙◌, arith, Bool, false, List, some, ◌==◌, Bool-cases,
  Option-cases, ==→eq, inl, inr,
}
use mac.Hwmp.{MeshPeer, MeshPath, MeshPaths, HwmpKernel}
use mac.Hwmp.Metric.{airtime_link_metric_get}
use mac.Hwmp.Route.{
  FrameType, preq, prep, perr, rann, RouteInfo, route_info, u32_field_get, add_metric,
  update_originator, update_transmitter, update_routes, hwmp_route_info_get,
}
use mac.Hwmp.Better.{
  NoWorse, IsUsable, NoWorse-refl, update_originator-NoWorse, update_transmitter-NoWorse,
}
use mac.Hwmp.Others.{
  update_originator-others, update_transmitter-others, update_transmitter-originator,
}

-- A path that is in the table and no worse than it was.
abbrev Keeps : MeshPeer → MeshPath → ℕ → MeshPaths → Type 0
Keeps sta p d m = (q : MeshPath) × (m.paths d ≡ some q) × NoWorse sta.addr p q

module _ (k : HwmpKernel) (sta : MeshPeer) (d : ℕ) (p : MeshPath) (usable : IsUsable k p) where
  halves-Keeps :
      (sa : ℕ) (info : RouteInfo) (metric last_hop exp_time : ℕ) (m : MeshPaths)
      → info.orig_sn < 2 ^ 32
      → m.paths d ≡ some p
      → let first : MeshPaths = (update_originator k sta info metric exp_time m).0 in
        Keeps sta p d first
        × Keeps sta p d (update_transmitter k sta sa info.orig_addr last_hop exp_time first).0
  halves-Keeps sa info metric last_hop exp_time m word here =
      let first : MeshPaths = (update_originator k sta info metric exp_time m).0 in
      let second : MeshPaths =
        (update_transmitter k sta sa info.orig_addr last_hop exp_time first).0 in
      elim (Bool-cases (d == info.orig_addr)) [
        | inl same ↦
            let e = ==→eq d info.orig_addr same in
            let kept =
              update_originator-NoWorse k sta m p usable info metric exp_time word
                (ap m.paths (sym e) ∙ here) in
            let found = ap first.paths e ∙ kept.1 in
            (
              (kept.0, found, kept.2),
              (
                kept.0,
                update_transmitter-originator k sta d sa info.orig_addr last_hop exp_time first same
                    ∙ found,
                kept.2,
              ),
            )
        | inr other ↦
            let found = update_originator-others k sta info metric exp_time d m other ∙ here in
            (
              (p, found, NoWorse-refl k sta.addr p usable),
              elim (Bool-cases (d == sa)) [
                | inl at ↦
                    let e = ==→eq d sa at in
                    let kept =
                      update_transmitter-NoWorse k sta first p usable sa info.orig_addr last_hop
                        exp_time (ap first.paths (sym e) ∙ found) in
                    (kept.0, ap second.paths e ∙ kept.1, kept.2)
                | inr away ↦ (
                  p,
                  update_transmitter-others k sa d away sta info.orig_addr last_hop exp_time first
                      ∙ found,
                  NoWorse-refl k sta.addr p usable,
                )
              ],
            )
      ]

  update_routes-Keeps :
      (sa : ℕ) (info : RouteInfo) (m : MeshPaths)
      → info.orig_sn < 2 ^ 32
      → m.paths d ≡ some p
      → Keeps sta p d (update_routes k sta sa info m).0
  unfolding update_routes
  update_routes-Keeps sa info m word here =
      let last_hop : ℕ = airtime_link_metric_get sta in
      let metric : ℕ = add_metric info.orig_metric last_hop in
      let exp_time : ℕ = (k.jiffies + k.tu_to_jiffies info.orig_lifetime) % 2 ^ k.long_bits in
      let halves = halves-Keeps sa info metric last_hop exp_time m word here in
      elim (Option-cases (update_originator k sta info metric exp_time m).1) [
        | inl e ↦ rw (e, update_routes) halves.0
        | inr (process, e) ↦ rw (e, update_routes) halves.1
      ]

u32_field_get-lt : (elem : List ℕ) (offset : ℕ) (ae : Bool) → u32_field_get elem offset ae < 2 ^ 32
unfolding u32_field_get
u32_field_get-lt elem offset ae = mod-lt _ (omega arith)

-- A path that is active, has a valid sequence number of 32 bits and is not over stays in the table, active and
-- with a valid number, whatever element of whatever kind `hwmp_route_info_get` is given from a neighbour: of the
-- kinds only requests and replies change a path there. A fixed path keeps its next hop, its
-- number and its metric. Any other keeps these three, or leads through the neighbour with a newer number, or
-- with the same number and a metric that is not greater.
pub hwmp_route_info_get-NoWorse :
    (k : HwmpKernel) (sa : ℕ) (sta : MeshPeer) (elem : List ℕ) (action : FrameType) (m : MeshPaths)
    (d : ℕ) (p : MeshPath)
    → m.peers sa ≡ some sta
    → m.paths d ≡ some p
    → IsUsable k p
    → (q : MeshPath) × ((hwmp_route_info_get k sa elem action m).0.paths d ≡ some q)
      × NoWorse sta.addr p q
unfolding hwmp_route_info_get route_info
hwmp_route_info_get-NoWorse k sa sta elem preq m d p peer here usable =
    rw (peer, hwmp_route_info_get)
      (update_routes-Keeps k sta d p usable sa _ m (u32_field_get-lt elem 13 false) here)
hwmp_route_info_get-NoWorse k sa sta elem prep m d p peer here usable =
    rw (peer, hwmp_route_info_get)
      (update_routes-Keeps k sta d p usable sa _ m (u32_field_get-lt elem 9 false) here)
hwmp_route_info_get-NoWorse k sa sta elem perr m d p peer here usable =
    rw (peer, hwmp_route_info_get) (p, here, NoWorse-refl k sta.addr p usable)
hwmp_route_info_get-NoWorse k sa sta elem rann m d p peer here usable =
    rw (peer, hwmp_route_info_get) (p, here, NoWorse-refl k sta.addr p usable)
