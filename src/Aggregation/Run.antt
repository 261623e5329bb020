-- ===== src/Aggregation/Run.antt =====
-- agg-rx.c, ht.c, rx.c: whatever happens to a station.
use mac.Base.{◌>>=◌, ℕ, Bool, true, false, List, [], ◌∷◌, Option, some}
use mac.Reorder.{SeqNum}
use mac.Aggregation.{AmpduSta, AmpduKernel, AddBa}
use mac.Aggregation.Start.{
  start_rx_ba_session, process_addba_request, session_timer_expired, request_stop, ba_session_work,
  process_delba, tear_down_ba_sessions,
}
use mac.Aggregation.Receive.{AmpduFrame, rx_reorder_ampdu, back_req, release_reorder_timeout}
use mac.Aggregation.Sessions.{
  HasSessions, IsSane, start-HasSessions, work-HasSessions, tear_down-HasSessions,
  delba-HasSessions, session_timer-HasSessions,
}
use mac.Aggregation.Frames.{
  Continues, some-Continues, reorder_ampdu-Continues, bar-HasSessions, reorder_timeout-Continues,
}

-- What can happen to a station.
pub data StaEvent : Type 0 where
  addba_request : (token timeout ssn capab : ℕ) → StaEvent
  start_offloaded : AddBa → StaEvent
  stop_request : (ℕ → Bool) → StaEvent
  delba_frame : (params : ℕ) → StaEvent
  session_timer : (tid : ℕ) → StaEvent
  reorder_timer : (tid : ℕ) → StaEvent
  work : StaEvent
  tear_down : (tx : Bool) → StaEvent
  frame : AmpduFrame → StaEvent
  bar : (control start : ℕ) → StaEvent

pub sta_step : SeqNum → AmpduKernel → StaEvent → AmpduSta → Option AmpduSta
sta_step sn k (addba_request token timeout ssn capab) sta =
    some (process_addba_request k token timeout ssn capab sta)
sta_step sn k (start_offloaded req) sta = some (start_rx_ba_session k req false true sta)
sta_step sn k (stop_request bitmap) sta = some (request_stop bitmap sta)
sta_step sn k (delba_frame params) sta = some (process_delba params sta)
sta_step sn k (session_timer tid) sta = some (session_timer_expired k tid sta)
sta_step sn k (reorder_timer tid) sta = release_reorder_timeout sn k tid sta
sta_step sn k work sta = some (ba_session_work sta)
sta_step sn k (tear_down tx) sta = some (tear_down_ba_sessions tx sta)
sta_step sn k (frame f) sta = rx_reorder_ampdu sn k f sta
sta_step sn k (bar control start) sta = some (back_req sn k control start sta)

-- One event after another, each with what the kernel says at its time.
pub sta_run : SeqNum → List (AmpduKernel × StaEvent) → AmpduSta → Option AmpduSta
sta_run sn [] sta = some sta
sta_run sn ((k, e) ∷ events) sta = sta_step sn k e sta >>= sta_run sn events

sta_step-Continues :
    (sn : SeqNum) (k : AmpduKernel) (e : StaEvent) (sta : AmpduSta)
    → IsSane k
    → HasSessions sta
    → Continues (sta_step sn k e sta)
unfolding sta_step process_addba_request request_stop
sta_step-Continues sn k (addba_request token timeout ssn capab) sta sane v =
    some-Continues _ (start-HasSessions k _ true false sta sane v)
sta_step-Continues sn k (start_offloaded req) sta sane v =
    some-Continues _ (start-HasSessions k req false true sta sane v)
sta_step-Continues sn k (stop_request bitmap) sta sane v =
    some-Continues (request_stop bitmap sta) v
sta_step-Continues sn k (delba_frame params) sta sane v =
    some-Continues _ (delba-HasSessions params sta v)
sta_step-Continues sn k (session_timer tid) sta sane v =
    some-Continues _ (session_timer-HasSessions k tid sta v)
sta_step-Continues sn k (reorder_timer tid) sta sane v = reorder_timeout-Continues sn k tid sta v
sta_step-Continues sn k work sta sane v = some-Continues _ (work-HasSessions sta v)
sta_step-Continues sn k (tear_down tx) sta sane v =
    some-Continues _ (tear_down-HasSessions tx sta v)
sta_step-Continues sn k (frame f) sta sane v = reorder_ampdu-Continues sn k f sta v
sta_step-Continues sn k (bar control start) sta sane v =
    some-Continues _ (bar-HasSessions sn k control start sta v)

abbrev pub AllSane : List (AmpduKernel × StaEvent) → Type 0
AllSane [] = Unit {0}
AllSane ((k, e) ∷ events) = IsSane k × AllSane events

-- Let the bounds on buffers be positive and fit 16 bits, and let every session of a station have slots and
-- count its ready ones. Then every sequence of requests, frames, timers, and calls that end sessions is
-- handled without a modulus by zero, whatever memory and the driver say and whatever the kernel's arithmetic of
-- sequence numbers is, and every session then has slots and counts its ready ones; the loop that releases
-- frames up to a new head is taken for at most 4096 rounds each time, within which it ends in arithmetic of
-- twelve bits.
pub sta_run-Continues :
    (sn : SeqNum) (events : List (AmpduKernel × StaEvent)) (sta : AmpduSta)
    → AllSane events
    → HasSessions sta
    → Continues (sta_run sn events sta)
unfolding sta_run
sta_run-Continues sn [] sta sane v = some-Continues sta v
sta_run-Continues sn ((k, e) ∷ events) sta (sane, others) v =
    let once = sta_step-Continues sn k e sta sane v in
    rw (sta_run, once.1) (sta_run-Continues sn events once.0 others once.2)
