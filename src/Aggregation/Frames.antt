-- ===== src/Aggregation/Frames.antt =====
-- rx.c: the buffers of all sessions are sound when frames are received.
use mac.Base.{ℕ, ◌/◌, ◌^◌, ◌≡◌, refl, not, ◌||◌, Option, some, Bool-cases, Option-cases, inl, inr}
use mac.Reorder.{SeqNum}
use mac.Reorder.Count.{IsCounted, release_reorder_frames-IsCounted}
use mac.Reorder.Rearm.{sta_reorder_release-Keeps}
use mac.Reorder.Keeps.{sta_manage_reorder_buf-Handles}
use mac.Aggregation.{Session, AmpduSta, AmpduKernel}
use mac.Aggregation.Receive.{
  AmpduFrame, session_frame, rx_reorder_ampdu, back_req, release_reorder_timeout,
}
use mac.Aggregation.Sessions.{HasSessions, put-AllCounted}

abbrev pub Continues : Option AmpduSta → Type 0
Continues o = (sta : AmpduSta) × (o ≡ some sta) × HasSessions sta

pub some-Continues : (sta : AmpduSta) → HasSessions sta → Continues (some sta)
some-Continues sta v = (sta, refl, v)

session_frame-Continues :
    (sn : SeqNum) (k : AmpduKernel) (f : AmpduFrame) (s : Session) (sta : AmpduSta)
    → IsCounted s.rx
    → HasSessions sta
    → Continues (session_frame sn k f s sta)
unfolding session_frame
session_frame-Continues sn k f s sta counted v = elim (Bool-cases f.fragment) [
  | inl e ↦ rw (session_frame, e) (some-Continues _ (put-AllCounted f.tid _ sta.tid_rx counted v))
  | inr e ↦
      let r = sta_manage_reorder_buf-Handles sn k.clock f.mpdu (s.rx, sta.frames) counted in
      elim (Bool-cases r.0.1) [
        | inl stored ↦
            rw (session_frame, e, r.1, stored)
              (some-Continues _ (put-AllCounted f.tid _ sta.tid_rx r.2 v))
        | inr direct ↦
            rw (session_frame, e, r.1, direct)
              (some-Continues _ (put-AllCounted f.tid _ sta.tid_rx r.2 v))
      ]
]

pub reorder_ampdu-Continues :
    (sn : SeqNum) (k : AmpduKernel) (f : AmpduFrame) (sta : AmpduSta)
    → HasSessions sta
    → Continues (rx_reorder_ampdu sn k f sta)
unfolding rx_reorder_ampdu
reorder_ampdu-Continues sn k f sta v = elim (Bool-cases (not f.data_qos || f.multicast)) [
  | inl e ↦ rw (rx_reorder_ampdu, e) (some-Continues _ v)
  | inr qos ↦ elim (Option-cases (sta.tid_rx f.tid)) [
    | inl e ↦ rw (rx_reorder_ampdu, qos, e) (some-Continues _ v)
    | inr s ↦ elim (Bool-cases (f.nullfunc || not f.in_session || not f.ra_match)) [
      | inl e ↦ rw (rx_reorder_ampdu, qos, s.1, e) (some-Continues _ v)
      | inr e ↦
          rw (rx_reorder_ampdu, qos, s.1, e)
            (session_frame-Continues sn k f s.0 sta (v f.tid s.0 s.1) v)
    ]
  ]
]

pub bar-HasSessions :
    (sn : SeqNum) (k : AmpduKernel) (control start : ℕ) (sta : AmpduSta)
    → HasSessions sta
    → HasSessions (back_req sn k control start sta)
unfolding back_req
bar-HasSessions sn k control start sta v = elim (Option-cases (sta.tid_rx (control / 2 ^ 12))) [
  | inl e ↦ rw (back_req, e) v
  | inr s ↦
      rw (back_req, s.1)
        (put-AllCounted (control / 2 ^ 12) _ sta.tid_rx
          (release_reorder_frames-IsCounted sn 4096 (start / 2 ^ 4) (s.0.rx, sta.frames)
            (v (control / 2 ^ 12) s.0 s.1))
          v)
]

pub reorder_timeout-Continues :
    (sn : SeqNum) (k : AmpduKernel) (tid : ℕ) (sta : AmpduSta)
    → HasSessions sta
    → Continues (release_reorder_timeout sn k tid sta)
unfolding release_reorder_timeout
reorder_timeout-Continues sn k tid sta v = elim (Option-cases (sta.tid_rx tid)) [
  | inl e ↦ rw (release_reorder_timeout, e) (some-Continues _ v)
  | inr s ↦
      let r = sta_reorder_release-Keeps sn k.clock (s.0.rx, sta.frames) (v tid s.0 s.1) in
      rw (release_reorder_timeout, s.1, r.1)
        (some-Continues _ (put-AllCounted tid _ sta.tid_rx r.2 v))
]
