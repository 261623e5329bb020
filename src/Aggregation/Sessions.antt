-- ===== src/Aggregation/Sessions.antt =====
-- agg-rx.c, ht.c, sta_info.h: the buffers of all sessions are sound when sessions start and end.
use mac.Base.{
  ℕ, zero, suc, ◌+◌, ◌/◌, ◌%◌, ◌^◌, ◌<◌, ◌≤◌, ◌≡◌, refl, sym, arith, Bool, true, false, not, ◌&&◌,
  ◌||◌, [], Option, none, some, ltb, ◌==◌, if◌then◌else◌, for_range_inv, Bool-cases, Option-cases,
  inl, inr,
}
use mathlib.Core.Path.{subst}
use mac.Reorder.{rx_reorder_ready}
use mac.Reorder.Count.{IsCounted, count}
use mac.Aggregation.{
  Status, request_declined, invalid_qos_param, recipient, unspecified_qos, qsta_timeout,
  unspecified, qsta_leave_qbss, no_reason, initiator, Initiator, StopReason, Session, AmpduSta,
  AmpduKernel, AddBa, at_tid,
}
use mac.Aggregation.Start.{
  stop_rx_ba_session, agreed_size, new_session, examine_state, send_addba_resp, start_rx_ba_session,
  session_timer_expired, ba_session_round, ba_session_work, process_delba, tear_down_ba_sessions,
}

-- The bounds on buffers are positive and fit the fields.
pub record IsSane (k : AmpduKernel) : Type 0 where
  pub some_subframes : 0 < k.max_rx_aggregation_subframes
  pub some_buf : 0 < k.max_ampdu_buf
  pub small_buf : k.max_ampdu_buf < 2 ^ 16

-- Every session's buffer has slots, and its counter is the number of its ready slots.
abbrev pub AllCounted : (ℕ → Option Session) → Type 0
AllCounted f = (tid : ℕ) (s : Session) → f tid ≡ some s → IsCounted s.rx

abbrev pub HasSessions : AmpduSta → Type 0
HasSessions sta = AllCounted sta.tid_rx

pub at_tid-IsCounted :
    (tid : ℕ) (o : Option Session) (f : ℕ → Option Session)
    → ((s : Session) → o ≡ some s → IsCounted s.rx)
    → ((i : ℕ) (s : Session) → f i ≡ some s → IsCounted s.rx)
    → (i : ℕ) (s : Session) → at_tid tid o f i ≡ some s
    → IsCounted s.rx
at_tid-IsCounted tid o f new old i s e = elim (Bool-cases (i == tid)) [
  | inl here ↦ new s (rw (here) at e)
  | inr there ↦ old i s (rw (there) at e)
]

pub stop-HasSessions :
    (by : Initiator) (why : StopReason) (tx : Bool) (tid : ℕ) (sta : AmpduSta)
    → HasSessions sta
    → HasSessions (stop_rx_ba_session by why tx tid sta)
unfolding stop_rx_ba_session
stop-HasSessions by why tx tid sta v = elim (Option-cases (sta.tid_rx tid)) [
  | inl e ↦ rw (stop_rx_ba_session, e) v
  | inr e ↦ rw (stop_rx_ba_session, e.1) (at_tid-IsCounted tid none sta.tid_rx (λ s q. cc) v)
]

agreed_size-bounds :
    (k : AmpduKernel) (n : ℕ)
    → IsSane k
    → n ≤ k.max_ampdu_buf
    → (0 < agreed_size k n) × (agreed_size k n < 2 ^ 16)
unfolding agreed_size
agreed_size-bounds k n sane small =
    ground (arith, sane.some_subframes, sane.some_buf, sane.small_buf)

count_empty : (n : ℕ) → count n (λ index. []) ≡ 0
unfolding count rx_reorder_ready
count_empty zero = refl
count_empty (suc n) = omega (arith, count_empty n)

new_session-IsCounted :
    (k : AmpduKernel) (req : AddBa) (auto_seq : Bool) (size ssn : ℕ)
    → (0 < size) × (size < 2 ^ 16)
    → IsCounted (new_session k req auto_seq size ssn).rx
unfolding new_session
new_session-IsCounted k req auto_seq size ssn (low, high) = record {
  some_slots = low;
  few_slots = high;
  stored = sym (count_empty size);
}

pub put-AllCounted :
    (tid : ℕ) (s : Session) (f : ℕ → Option Session)
    → IsCounted s.rx
    → AllCounted f
    → AllCounted (at_tid tid (some s) f)
put-AllCounted tid s f counted v =
    at_tid-IsCounted tid (some s) f
      (λ s' q. let same : s ≡ s' = cc in subst (λ (x : Session). IsCounted x.rx) same counted) v

examine_state-HasSessions :
    (k : AmpduKernel) (req : AddBa) (auto_seq : Bool) (size : ℕ) (sta : AmpduSta)
    → (0 < size) × (size < 2 ^ 16)
    → HasSessions sta
    → HasSessions (examine_state k req auto_seq size sta).0
unfolding examine_state
examine_state-HasSessions k req auto_seq size sta bounds v =
    let stopped = stop-HasSessions recipient unspecified_qos false req.tid sta v in
    elim (Bool-cases (not k.finds_session || not k.finds_reorder_buf || not k.finds_reorder_time)) [
      | inl lost ↦ rw (lost) stopped
      | inr found ↦ elim (Option-cases (k.drv_ampdu_start req.start_seq_num)) [
        | inl e ↦ rw (found, e) stopped
        | inr e ↦
            rw (found, e.1)
              (put-AllCounted req.tid _ _ (new_session-IsCounted k req auto_seq size e.0 bounds)
                stopped)
      ]
    ]

send_addba_resp-tid_rx :
    (tx : Bool) (req : AddBa) (size : ℕ) (r : AmpduSta × Status)
    → (send_addba_resp tx req size r).tid_rx ≡ r.0.tid_rx
unfolding send_addba_resp
send_addba_resp-tid_rx true req size (sta, status) = refl
send_addba_resp-tid_rx false req size (sta, status) = refl

HasSessions-congr :
    (sta sta' : AmpduSta) → sta'.tid_rx ≡ sta.tid_rx → HasSessions sta → HasSessions sta'
HasSessions-congr sta sta' e v tid s q = v tid s (rw (e) at q)

pub start-HasSessions :
    (k : AmpduKernel) (req : AddBa) (tx auto_seq : Bool) (sta : AmpduSta)
    → IsSane k
    → HasSessions sta
    → HasSessions (start_rx_ba_session k req tx auto_seq sta)
unfolding start_rx_ba_session
start-HasSessions k req tx auto_seq sta sane v =
    let kept = λ (r : AmpduSta × Status) (size : ℕ) (w : HasSessions r.0).
      HasSessions-congr r.0 (send_addba_resp tx req size r) (send_addba_resp-tid_rx tx req size r)
        w in
    elim (Bool-cases (not sta.ht_supported || sta.block_ba)) [
      | inl e ↦ rw (start_rx_ba_session, e) (kept (sta, request_declined) req.buf_size v)
      | inr able ↦
          elim (Bool-cases (
            not (req.ba_policy == 1) && not sta.cap_delay_ba || ltb k.max_ampdu_buf req.buf_size)) [
              | inl e ↦
                  rw (start_rx_ba_session, able, e) (kept (sta, invalid_qos_param) req.buf_size v)
              | inr e ↦
                  let small : req.buf_size ≤ k.max_ampdu_buf = ground (arith, e) in
                  rw (start_rx_ba_session, able, e)
                    (kept _ (agreed_size k req.buf_size) (
                      examine_state-HasSessions k req auto_seq (agreed_size k req.buf_size) sta
                        (agreed_size-bounds k req.buf_size sane small) v))
            ]
    ]

pub if-HasSessions :
    (b : Bool) (x y : AmpduSta) → HasSessions x → HasSessions y → HasSessions (if b then x else y)
if-HasSessions true x y v w = v
if-HasSessions false x y v w = w

round-HasSessions :
    (tid : ℕ) (sta : AmpduSta) → HasSessions sta → HasSessions (ba_session_round tid sta)
unfolding ba_session_round
round-HasSessions tid sta v =
    let timed =
      if-HasSessions (sta.tid_rx_timer_expired tid) _ sta
        (stop-HasSessions recipient qsta_timeout true tid
          (record sta { tid_rx_timer_expired = at_tid tid false sta.tid_rx_timer_expired }) v)
        v in
    if-HasSessions _ _ _ (stop-HasSessions recipient unspecified true tid _ timed) timed

pub work-HasSessions : (sta : AmpduSta) → HasSessions sta → HasSessions (ba_session_work sta)
unfolding ba_session_work
work-HasSessions sta v = if-HasSessions sta.block_ba _ _ v (
    for_range_inv (λ i. HasSessions) ba_session_round 0 16
      (λ i s low high w. round-HasSessions i s w) 16 0 (record sta { work_queued = false })
      (omega arith) (omega arith) v)

pub tear_down-HasSessions :
    (tx : Bool) (sta : AmpduSta) → HasSessions sta → HasSessions (tear_down_ba_sessions tx sta)
unfolding tear_down_ba_sessions
tear_down-HasSessions tx sta v =
    for_range_inv (λ i. HasSessions) (stop_rx_ba_session recipient qsta_leave_qbss tx) 0 16
      (λ i s low high w. stop-HasSessions recipient qsta_leave_qbss tx i s w) 16 0
      (record sta { work_queued = false }) (omega arith) (omega arith) v

pub delba-HasSessions :
    (params : ℕ) (sta : AmpduSta) → HasSessions sta → HasSessions (process_delba params sta)
unfolding process_delba
delba-HasSessions params sta v =
    if-HasSessions (params / 2 ^ 11 % 2 == 1) _ sta
      (stop-HasSessions initiator no_reason true (params / 2 ^ 12 % 2 ^ 4) sta v) v

pub session_timer-HasSessions :
    (k : AmpduKernel) (tid : ℕ) (sta : AmpduSta)
    → HasSessions sta
    → HasSessions (session_timer_expired k tid sta)
unfolding session_timer_expired
session_timer-HasSessions k tid sta v = elim (Option-cases (sta.tid_rx tid)) [
  | inl e ↦ rw (session_timer_expired, e) v
  | inr s ↦
      rw (session_timer_expired, s.1)
        (if-HasSessions (ltb k.clock.jiffies (s.0.last_rx + k.tu_to_jiffies s.0.timeout)) _ _
          (put-AllCounted tid _ sta.tid_rx (v tid s.0 s.1) v) v)
]
