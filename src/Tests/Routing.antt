-- ===== src/Tests/Routing.antt =====
-- mesh_hwmp.c: runs of the routing code, and the theorems applied to them.
use mac.Base.{
  Option, ◌^◌, ◌⊎◌, inl, inr, Bool-cases, ◌-◌, ℕ, ◌≤◌, ◌≡◌, refl, arith, true, false, List, [], ◌∷◌,
  none, some, ltb, ◌==◌, if◌then◌else◌,
}
use mac.Hwmp.{
  active_mode, deep_sleep, MeshPeer, MeshPath, MeshPaths, HwmpKernel, time_after, mpath_expired,
  mesh_path_lookup, mesh_path_add, new_path, mps_set_frame_flags, mesh_path_assign_nexthop,
  mesh_path_tx_pending,
}
use mac.Hwmp.Metric.{airtime_link_metric_get, update_metrics, airtime}
use mac.Hwmp.Airtime.{update_metrics-airtime}
use mac.Hwmp.Route.{
  preq, RouteInfo, address_at, u32_field_get, route_info, add_metric, sn_gt, learn_originator,
  learn_transmitter, is_stale, update_originator, update_transmitter, update_routes,
  hwmp_route_info_get,
}
use mac.Hwmp.Better.{NoWorse, IsUsable}
use mac.Hwmp.Perr.{
  PathErrors, PerrConfig, hwmp_perr_frame_process, break_and_tell, mesh_path_error_tx, perr_element,
}
use mac.Hwmp.Broken.{HasHops, IsBroken, hwmp_perr_frame_process-IsBroken}
use mac.Hwmp.Leads.{Leads, hwmp_route_info_get-Leads}
use mac.Hwmp.Routes.{hwmp_route_info_get-NoWorse}

abbrev kernel : HwmpKernel
kernel = record {
  long_bits = 32;
  jiffies = 1000;
  tu_to_jiffies = λ x. x;
  fctl_pm = 0x1000;
  mesh_ps_level = 0x0200;
  is_data_qos = λ fc. true;
  finds_path = true;
  finds_node = true;
}

abbrev peer : MeshPeer
peer = record { addr = 4; established = true; local_pm = deep_sleep; fail_avg = 0; bitrate = 540 }

-- A path to the station 6 by the station 8, with a frame that waits.
abbrev path : MeshPath
path = record {
  next_hop = some 8;
  frame_queue = record { frame_control = 0x88; addr1 = 8; addr2 = 2; qc = 0; rest = [] } ∷ [];
  sn = 5;
  metric = 900;
  hop_count = 2;
  exp_time = 1500;
  active = true;
  resolving = false;
  sn_valid = true;
  fixed = false;
  resolved = true;
  req_queued = false;
}

abbrev table : MeshPaths
table = record {
  own_addr = 2;
  nonpeer_pm = active_mode;
  ps_peers_deep_sleep = 0;
  peers = λ addr. if addr == 4 then some peer else none;
  paths = λ addr. if addr == 6 then some path else none;
  mpaths = 1;
  entries = 1;
  max_entries = 8;
  generation = 1;
  grow_work = false;
  pending = [];
}

-- A request of the station 6 with the given number and the metric 300.
abbrev request : ℕ → List ℕ
request sn =
    0 ∷ 1 ∷ 31 ∷ 1 ∷ 0 ∷ 0 ∷ 0 ∷ 6 ∷ 0 ∷ 0 ∷ 0 ∷ 0 ∷ 0 ∷ sn ∷ 0 ∷ 0 ∷ 0 ∷ 200 ∷ 0 ∷ 0 ∷ 0 ∷ 44 ∷ 1
    ∷ 0 ∷ 0 ∷ []

-- The station 6 and the sender are reached by the sender.
learns :
    let r = hwmp_route_info_get kernel 4 (request 6) preq table in
    (r.1 ≡ 452)
    × (r.0.mpaths ≡ 2)
    × (r.0.pending
        ≡ record { frame_control = 0x1088; addr1 = 4; addr2 = 2; qc = 2; rest = [] } ∷ [])
unfolding hwmp_route_info_get route_info update_routes update_originator update_transmitter
    airtime_link_metric_get add_metric mesh_path_lookup mesh_path_add mesh_path_tx_pending
    learn_originator learn_transmitter mesh_path_assign_nexthop mps_set_frame_flags new_path
    time_after mpath_expired is_stale sn_gt u32_field_get address_at
learns = (refl, refl, refl)

-- An older number is not processed.
ignores : (hwmp_route_info_get kernel 4 (request 4) preq table).1 ≡ 0
unfolding hwmp_route_info_get route_info update_routes update_originator update_transmitter
    airtime_link_metric_get add_metric mesh_path_lookup mesh_path_add mesh_path_tx_pending
    learn_originator learn_transmitter mesh_path_assign_nexthop mps_set_frame_flags new_path
    time_after mpath_expired is_stale sn_gt u32_field_get address_at
ignores = refl

usable : IsUsable kernel path
unfolding mpath_expired time_after
usable = record { active = refl; sn_valid = refl; lasts = refl; word = omega arith }

hwmp_route_info_get-NoWorse_example :
    (q : MeshPath) × ((hwmp_route_info_get kernel 4 (request 6) preq table).0.paths 6 ≡ some q)
    × NoWorse 4 path q
hwmp_route_info_get-NoWorse_example =
    hwmp_route_info_get-NoWorse kernel 4 peer (request 6) preq table 6 path refl refl usable

update_metrics-airtime_example :
    let after = (update_metrics (false ∷ true ∷ false ∷ []) peer).0 in
    (after.fail_avg ≤ 96)
    × (airtime_link_metric_get after ≡ airtime after.fail_avg 540)
    × (1 ≤ airtime_link_metric_get after)
    × (airtime_link_metric_get after ≤ 63575)
update_metrics-airtime_example =
    update_metrics-airtime (false ∷ true ∷ false ∷ []) peer (omega arith) (omega arith)

-- At 1 Mb/s the product does not fit 32 bits: a link that loses nine frames of ten looks better than one that
-- loses eight.
overflows :
    ltb
      (airtime_link_metric_get (record peer { fail_avg = 90; bitrate = 10 }))
      (airtime_link_metric_get (record peer { fail_avg = 80; bitrate = 10 }))
    ≡ true
unfolding airtime_link_metric_get
overflows = refl

hwmp_route_info_get-Leads_example :
    let r = hwmp_route_info_get kernel 4 (request 6) preq table in
    (info : RouteInfo) × (route_info preq (request 6) ≡ some info)
    × ((info.orig_addr == 2) ≡ false)
    × Leads 4 info r.1 r.0
hwmp_route_info_get-Leads_example =
    hwmp_route_info_get-Leads kernel 4 peer (request 6) preq table refl
      (rw (learns.0) (omega arith))

abbrev errors : PathErrors
errors = record { table = table; next_perr = 900; dropped_frames_ttl = 0; sent = [] }

abbrev perr_config : PerrConfig
perr_config = record {
  eid_perr = 132;
  perr_min_interval = 100;
  forwarding = true;
  finds_skb = true;
}

-- The station 6 is lost, with the number 7 and the reason 63.
abbrev lost : List ℕ
lost = 31 ∷ 1 ∷ 2 ∷ 6 ∷ 0 ∷ 0 ∷ 0 ∷ 0 ∷ 0 ∷ 7 ∷ 0 ∷ 0 ∷ 0 ∷ 63 ∷ 0 ∷ []

abbrev sent_of : Option PathErrors → Option (List (ℕ × List ℕ))
sent_of none = none
sent_of (some s) = some s.sent

-- The error of the next hop goes on, and one of another station does not.
tells :
    (sent_of (hwmp_perr_frame_process kernel perr_config 8 lost errors)
      ≡ some (
          (2 ^ 48 - 1, 132 ∷ 15 ∷ 30 ∷ 1 ∷ 2 ∷ 6 ∷ 0 ∷ 0 ∷ 0 ∷ 0 ∷ 0 ∷ 7 ∷ 0 ∷ 0 ∷ 0 ∷ 63 ∷ 0 ∷ [])
          ∷ []))
    × (sent_of (hwmp_perr_frame_process kernel perr_config 4 lost errors) ≡ some [])
unfolding hwmp_perr_frame_process break_and_tell mesh_path_error_tx perr_element mesh_path_lookup
    time_after mpath_expired sn_gt u32_field_get address_at
tells = (refl, refl)

hops : HasHops table
unfolding HasHops
hops d = elim (Bool-cases (d == 6)) [
  | inl here ↦ rw (here) (λ active. (8, refl))
  | inr away ↦ rw (away) tt
]

hwmp_perr_frame_process-IsBroken_example :
    (s' : PathErrors) × (hwmp_perr_frame_process kernel perr_config 8 lost errors ≡ some s')
    × HasHops s'.table
    × ((s'.table.paths 6 ≡ some path)
        ⊎ IsBroken 8 (address_at lost 3) (u32_field_get lost 9 false) 6 path s'.table)
hwmp_perr_frame_process-IsBroken_example =
    hwmp_perr_frame_process-IsBroken kernel perr_config 8 lost errors 6 path hops refl usable
