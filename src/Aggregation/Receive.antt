-- ===== src/Aggregation/Receive.antt =====
-- rx.c: received frames, requests to release frames, and the timer of the reorder buffer, by session.
use mac.Base.{
  ◌>>=◌, ℕ, ◌+◌, ◌/◌, ◌^◌, Bool, not, ◌||◌, [], ◌∷◌, ◌++◌, Option, none, some, ◌==◌, if◌then◌else◌,
}
use mac.Reorder.{Mpdu, SeqNum, Rx}
use mac.Reorder.Release.{release_reorder_frames, sta_reorder_release, sta_manage_reorder_buf}
use mac.Aggregation.{Session, AmpduSta, AmpduKernel, at_tid}

-- What is read of a received data frame; `in_session` is that its way of acknowledgement is one of a session,
-- `ra_match` that it is for this receiver.
pub record AmpduFrame : Type 0 where
  pub mpdu : Mpdu
  pub data_qos : Bool
  pub multicast : Bool
  pub tid : ℕ
  pub nullfunc : Bool
  pub in_session : Bool
  pub ra_match : Bool
  pub fragment : Bool

abbrev put_session : ℕ → Session → Rx → AmpduSta → AmpduSta
put_session tid s r sta = record sta {
  tid_rx = at_tid tid (some (record s { rx = r.0 })) sta.tid_rx;
  frames = r.1;
}

-- The frame goes on to the receive handlers.
abbrev dont_reorder : AmpduFrame → AmpduSta → AmpduSta
dont_reorder f sta = record sta { frames = sta.frames ++ (f.mpdu ∷ []) }

-- A frame of a session.
unfoldable pub session_frame :
    SeqNum → AmpduKernel → AmpduFrame → Session → AmpduSta → Option AmpduSta
session_frame sn k f s sta =
    let used = record s { last_rx = if s.timeout == 0 then s.last_rx else k.clock.jiffies } in
    let kept = record sta { tid_rx = at_tid f.tid (some used) sta.tid_rx } in
    if f.fragment
    then some (record kept { skb_queue = kept.skb_queue ++ (f.mpdu ∷ []) })
    else sta_manage_reorder_buf sn k.clock f.mpdu (used.rx, sta.frames) >>= λ r.
        let put = put_session f.tid used r.0 sta in some (if r.1 then put else dont_reorder f put)

unfoldable pub rx_reorder_ampdu : SeqNum → AmpduKernel → AmpduFrame → AmpduSta → Option AmpduSta
rx_reorder_ampdu sn k f sta =
    if not f.data_qos || f.multicast then some (dont_reorder f sta) else elim (sta.tid_rx f.tid) [
      | none ↦ some (dont_reorder f sta)
      | some s ↦
          if f.nullfunc || not f.in_session || not f.ra_match
          then some (dont_reorder f sta)
          else session_frame sn k f s sta
    ]

-- A request to release frames, in `ieee80211_rx_h_ctrl`; `control` and `start` are two bytes each.
unfoldable pub back_req : SeqNum → AmpduKernel → (control start : ℕ) → AmpduSta → AmpduSta
back_req sn k control start sta =
    let tid = control / 2 ^ 12 in
    elim (sta.tid_rx tid) [
      | none ↦ sta
      | some s ↦
          let timed = record s {
            session_timer =
                if s.timeout == 0
                then s.session_timer
                else some (k.clock.jiffies + k.tu_to_jiffies s.timeout);
          } in
          put_session tid timed
            (release_reorder_frames sn 4096 (start / 2 ^ 4) (timed.rx, sta.frames)) sta
    ]

unfoldable pub release_reorder_timeout : SeqNum → AmpduKernel → ℕ → AmpduSta → Option AmpduSta
release_reorder_timeout sn k tid sta = elim (sta.tid_rx tid) [
  | none ↦ some sta
  | some s ↦
      sta_reorder_release sn k.clock (s.rx, sta.frames) >>= λ r. some (put_session tid s r sta)
]
