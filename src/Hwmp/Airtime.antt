-- ===== src/Hwmp/Airtime.antt =====
-- mesh_hwmp.c: how much of the frames fails, and the metric that this gives.
use native.Mathlib.Nat.{
  div-le_of_le-mul, mul-le-mul, le_refl, le_trans, mod-eq_of_lt, lt_of_le_of_lt, le-div_iff_mul-le,
}
use mac.Base.{
  ℕ, ◌+◌, ◌-◌, ◌*◌, ◌/◌, ◌^◌, ◌≤◌, ◌<◌, ◌≡◌, refl, ap, ◌∙◌, arith, List, [], ◌∷◌, Bool, true, false,
  leb, ◌||◌, ◌==◌,
}
use mac.Hwmp.{MeshPeer}
use mac.Hwmp.Metric.{update_metric, airtime_link_metric_get, update_metrics, airtime}

update_metric_le :
    (acked : Bool) (sta : MeshPeer)
    → sta.fail_avg ≤ 96
    → ((update_metric true acked sta).0.fail_avg ≤ 96)
      × ((update_metric true acked sta).0.bitrate ≡ sta.bitrate)
unfolding update_metric
update_metric_le true sta small = (omega arith, refl)
update_metric_le false sta small = (omega arith, refl)

update_metrics_le :
    (frames : List Bool) (sta : MeshPeer)
    → sta.fail_avg ≤ 96
    → ((update_metrics frames sta).0.fail_avg ≤ 96)
      × ((update_metrics frames sta).0.bitrate ≡ sta.bitrate)
unfolding update_metrics
update_metrics_le [] sta small = (small, refl)
update_metrics_le (acked ∷ frames) sta small =
    let one = update_metric_le acked sta small in
    let rest = update_metrics_le frames (update_metric true acked sta).0 one.0 in
    (rest.0, rest.1 ∙ one.1)

-- The product of the metric is between these numbers.
product_le :
    (fail_avg bitrate : ℕ)
    → fail_avg ≤ 96
    → 30 ≤ bitrate
    → let product = (2 ^ 8 + 20971520 / bitrate) * (2 ^ 16 / (2 ^ 8 - fail_avg * 2 ^ 8 / 100)) in
      (product ≤ 4166471106) × (65536 ≤ product)
product_le fail_avg bitrate small fast =
    let err : ℕ = fail_avg * 2 ^ 8 / 100 in
    let left : ℕ = 2 ^ 8 - err in
    let some_left : 11 ≤ left = omega arith in
    let tx : 20971520 / bitrate ≤ 699051 =
      div-le_of_le-mul bitrate (le_trans (omega arith) (mul-le-mul fast (le_refl 699051))) in
    let retx : 65536 / left ≤ 5958 =
      div-le_of_le-mul left (le_trans (omega arith) (mul-le-mul some_left (le_refl 5958))) in
    let sum : 256 + 20971520 / bitrate ≤ 699307 = omega arith in
    let retx_ge : 256 ≤ 65536 / left =
      (le-div_iff_mul-le {k = left} {x = 256} {y = 65536} (omega arith)).1 (omega arith) in
    let sum_ge : 256 ≤ 256 + 20971520 / bitrate = omega arith in
    (mul-le-mul sum retx, mul-le-mul sum_ge retx_ge)

-- The numbers stay in 32 bits.
airtime_link_metric_get-airtime :
    (sta : MeshPeer)
    → sta.fail_avg ≤ 96
    → 30 ≤ sta.bitrate
    → airtime_link_metric_get sta ≡ airtime sta.fail_avg sta.bitrate
unfolding airtime_link_metric_get airtime
airtime_link_metric_get-airtime sta small fast =
    let product = (product_le sta.fail_avg sta.bitrate small fast).0 in
    let fits : (256 + 20971520 / sta.bitrate) * (65536 / (256 - sta.fail_avg * 256 / 100))
        < 4294967296 =
      lt_of_le_of_lt product (omega arith) in
    let counts : (leb 100 sta.fail_avg || sta.bitrate == 0) ≡ false = ground arith in
    rw (counts, mod-eq_of_lt fits) refl

airtime_le :
    (fail_avg bitrate : ℕ)
    → fail_avg ≤ 96
    → 30 ≤ bitrate
    → (1 ≤ airtime fail_avg bitrate) × (airtime fail_avg bitrate ≤ 63575)
unfolding airtime
airtime_le fail_avg bitrate small fast =
    let product = product_le fail_avg bitrate small fast in (omega arith, omega arith)

-- A link whose average of failures is at most 96 of a hundred, and whose rate is at least 3 Mb/s, keeps an
-- average of at most 96 whatever data frames are acknowledged or not. Its metric is then the quotient computed
-- without bounds on the numbers; it is not 0, which would say that the frame is not to be processed, and at
-- most 63575.
pub update_metrics-airtime :
    (frames : List Bool) (sta : MeshPeer)
    → sta.fail_avg ≤ 96
    → 30 ≤ sta.bitrate
    → let after = (update_metrics frames sta).0 in
      (after.fail_avg ≤ 96)
      × (airtime_link_metric_get after ≡ airtime after.fail_avg sta.bitrate)
      × (1 ≤ airtime_link_metric_get after)
      × (airtime_link_metric_get after ≤ 63575)
update_metrics-airtime frames sta small fast =
    let kept = update_metrics_le frames sta small in
    let after : MeshPeer = (update_metrics frames sta).0 in
    let rate : 30 ≤ after.bitrate = omega (arith, kept.1) in
    let metric = airtime_link_metric_get-airtime after kept.0 rate in
    let bounds = airtime_le after.fail_avg after.bitrate kept.0 rate in
    (
      kept.0,
      metric ∙ ap (airtime after.fail_avg) kept.1,
      rw (metric) bounds.0,
      rw (metric) bounds.1,
    )
