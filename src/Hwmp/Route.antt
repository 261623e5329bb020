-- ===== src/Hwmp/Route.antt =====
-- mesh_hwmp.c: a path request or a path reply says what is new of the paths to its originator and its sender.
use mac.Base.{
  ℕ, ◌+◌, ◌-◌, ◌*◌, ◌/◌, ◌%◌, ◌^◌, Bool, true, false, ◌&&◌, ◌||◌, List, Option, none, some, ltb,
  leb, ◌==◌, if◌then◌else◌, get_or,
}
use mac.Hwmp.{
  MeshPeer, MeshPath, MeshPaths, HwmpKernel, time_after, mesh_path_lookup, mesh_path_add,
  mesh_path_assign_nexthop, mesh_path_activate, mesh_path_tx_pending,
}
use mac.Hwmp.Metric.{airtime_link_metric_get}

-- `MPATH_*`
pub data FrameType : Type 0 where
  preq prep perr rann : FrameType

-- An element: its bytes from the flags on.
abbrev le32 : List ℕ → ℕ → ℕ
le32 elem at =
    (get_or elem at 0
      + get_or elem (at + 1) 0 * 2 ^ 8
      + get_or elem (at + 2) 0 * 2 ^ 16
      + get_or elem (at + 3) 0 * 2 ^ 24)
    % 2 ^ 32

-- `AE_F_SET`
abbrev ae_set : List ℕ → Bool
ae_set elem = get_or elem 0 0 / 2 ^ 6 % 2 == 1

unfoldable pub u32_field_get : List ℕ → ℕ → Bool → ℕ
u32_field_get elem offset ae = le32 elem (if ae then offset + 6 else offset)

-- The number of the six bytes of an address.
unfoldable pub address_at : List ℕ → ℕ → ℕ
address_at elem offset =
    le32 elem offset
    + (get_or elem (offset + 4) 0 + get_or elem (offset + 5) 0 * 2 ^ 8) % 2 ^ 16 * 2 ^ 32

pub record RouteInfo : Type 0 where
  pub orig_addr : ℕ
  pub orig_sn : ℕ
  pub orig_lifetime : ℕ
  pub orig_metric : ℕ

-- What the element says; the originator of a reply is the target.
unfoldable pub route_info : FrameType → List ℕ → Option RouteInfo
route_info preq elem = some (record {
  orig_addr = address_at elem 7;
  orig_sn = u32_field_get elem 13 false;
  orig_lifetime = u32_field_get elem 17 (ae_set elem);
  orig_metric = u32_field_get elem 21 (ae_set elem);
})
route_info prep elem = some (record {
  orig_addr = address_at elem 3;
  orig_sn = u32_field_get elem 9 false;
  orig_lifetime = u32_field_get elem 13 (ae_set elem);
  orig_metric = u32_field_get elem 17 (ae_set elem);
})
route_info perr elem = none
route_info rann elem = none

-- The sum of the metrics, at most the greatest.
unfoldable pub add_metric : ℕ → ℕ → ℕ
add_metric orig_metric last_hop_metric =
    let new_metric = (orig_metric + last_hop_metric) % 2 ^ 32 in
    if ltb new_metric orig_metric then 2 ^ 32 - 1 else new_metric

-- (s32)(y - x) < 0
unfoldable pub sn_gt : ℕ → ℕ → Bool
sn_gt x y = leb (2 ^ 31) ((y + 2 ^ 32 - x) % 2 ^ 32)

abbrev later : HwmpKernel → MeshPath → ℕ → ℕ
later k p exp_time = if time_after k p.exp_time exp_time then p.exp_time else exp_time

-- The path to the originator as new information makes it.
unfoldable pub learn_originator :
    HwmpKernel → MeshPaths → MeshPeer → (sn metric exp_time : ℕ) → MeshPath → MeshPath
learn_originator k m sta sn metric exp_time p =
    mesh_path_activate (record (mesh_path_assign_nexthop k m sta p) {
      sn_valid = true;
      metric = metric;
      sn = sn;
      exp_time = later k p exp_time;
    })

unfoldable pub learn_transmitter :
    HwmpKernel → MeshPaths → MeshPeer → (metric exp_time : ℕ) → MeshPath → MeshPath
learn_transmitter k m sta metric exp_time p =
    mesh_path_activate (record (mesh_path_assign_nexthop k m sta p) {
      metric = metric;
      exp_time = later k p exp_time;
    })

-- The path is active, and the information not newer or not better.
unfoldable pub is_stale : MeshPath → (sn metric : ℕ) → Bool
is_stale p sn metric =
    p.active && p.sn_valid && (sn_gt p.sn sn || p.sn == sn && leb p.metric metric)

-- The first half: `none` is that the function returns 0 at once, and else whether the frame is to be
-- processed.
unfoldable pub update_originator :
    HwmpKernel → MeshPeer → RouteInfo → (metric exp_time : ℕ) → MeshPaths → MeshPaths × Option Bool
update_originator k sta info metric exp_time m =
    let dst = info.orig_addr in
    let learn = learn_originator k m sta info.orig_sn metric exp_time in
    let found = mesh_path_lookup k dst m in
    let added = mesh_path_add k dst found.0 in
    if dst == m.own_addr then (m, some false) else elim found.1 [
      | some p ↦
          if p.fixed
          then (found.0, some true)
          else if is_stale p info.orig_sn metric
          then (found.0, some false)
          else (mesh_path_tx_pending dst (learn p) found.0, some true)
      | none ↦ elim added.1 [
        | none ↦ (added.0, none)
        | some p ↦ (mesh_path_tx_pending dst (learn p) added.0, some true)
      ]
    ]

-- The second half; whether it comes to its end.
unfoldable pub update_transmitter :
    HwmpKernel → MeshPeer → (dst orig_addr metric exp_time : ℕ) → MeshPaths → MeshPaths × Bool
update_transmitter k sta dst orig_addr metric exp_time m =
    let learn = learn_transmitter k m sta metric exp_time in
    let found = mesh_path_lookup k dst m in
    let added = mesh_path_add k dst found.0 in
    if orig_addr == dst then (m, true) else elim found.1 [
      | some p ↦
          if p.fixed || p.active && ltb p.metric metric
          then (found.0, true)
          else (mesh_path_tx_pending dst (learn p) found.0, true)
      | none ↦ elim added.1 [
        | none ↦ (added.0, false)
        | some p ↦ (mesh_path_tx_pending dst (learn p) added.0, true)
      ]
    ]

-- The two halves; the number is the metric, or 0.
unfoldable pub update_routes :
    HwmpKernel → MeshPeer → (sa : ℕ) → RouteInfo → MeshPaths → MeshPaths × ℕ
update_routes k sta sa info m =
    let last_hop = airtime_link_metric_get sta in
    let metric = add_metric info.orig_metric last_hop in
    let exp_time = (k.jiffies + k.tu_to_jiffies info.orig_lifetime) % 2 ^ k.long_bits in
    let first = update_originator k sta info metric exp_time m in
    let second = update_transmitter k sta sa info.orig_addr last_hop exp_time first.0 in
    elim first.1 [
      | none ↦ (first.0, 0)
      | some process ↦ (second.0, if process && second.1 then metric else 0)
    ]

-- `sa` is the address of the sender.
unfoldable pub hwmp_route_info_get :
    HwmpKernel → (sa : ℕ) → List ℕ → FrameType → MeshPaths → MeshPaths × ℕ
hwmp_route_info_get k sa elem action m = elim (m.peers sa) [
  | none ↦ (m, 0)
  | some sta ↦ elim (route_info action elem) [
    | none ↦ (m, 0)
    | some info ↦ update_routes k sta sa info m
  ]
]
