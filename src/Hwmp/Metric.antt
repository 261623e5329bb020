-- ===== src/Hwmp/Metric.antt =====
-- mesh_hwmp.c: the metric of a link, from its rate and the part of the frames that fail.
use mac.Base.{
  ℕ, ◌+◌, ◌-◌, ◌*◌, ◌/◌, ◌%◌, ◌^◌, ◌||◌, List, [], ◌∷◌, Bool, true, false, ltb, leb, ◌==◌,
  if◌then◌else◌,
}
use mac.Hwmp.{MeshPeer}

-- `ieee80211s_update_metric`: whether the frame is data and is acknowledged; the answer is whether the link is
-- taken for broken.
unfoldable pub update_metric : (is_data acked : Bool) → MeshPeer → MeshPeer × Bool
update_metric is_data acked sta =
    let failed = if acked then 0 else 1 in
    let fail_avg = ((80 * sta.fail_avg + 5) % 2 ^ 32 / 100 + 20 * failed) % 2 ^ 32 in
    if is_data then (record sta { fail_avg = fail_avg }, ltb 95 fail_avg) else (sta, false)

unfoldable pub airtime_link_metric_get : MeshPeer → ℕ
airtime_link_metric_get sta =
    let err = sta.fail_avg * 2 ^ 8 / 100 in
    let tx_time = 2 ^ 8 + 10 * (8192 * 2 ^ 8) / sta.bitrate in
    let estimated_retx = 2 ^ 16 / (2 ^ 8 - err) in
    if leb 100 sta.fail_avg || sta.bitrate == 0
    then 2 ^ 32 - 1
    else tx_time * estimated_retx % 2 ^ 32 / 2 ^ 16

-- The metric without bounds on the numbers.
unfoldable pub airtime : (fail_avg bitrate : ℕ) → ℕ
airtime fail_avg bitrate =
    (2 ^ 8 + 20971520 / bitrate) * (2 ^ 16 / (2 ^ 8 - fail_avg * 2 ^ 8 / 100)) / 2 ^ 16

-- After frames that are acknowledged or not; whether the link has been taken for broken.
unfoldable pub update_metrics : List Bool → MeshPeer → MeshPeer × Bool
update_metrics [] sta = (sta, false)
update_metrics (acked ∷ frames) sta =
    let next = update_metric true acked sta in
    let rest = update_metrics frames next.0 in (rest.0, next.1 || rest.1)
