-- ===== src/Aggregation/Start.antt =====
-- agg-rx.c, ht.c: sessions are started and ended.
use mac.Base.{
  ℕ, ◌+◌, ◌/◌, ◌%◌, ◌^◌, Bool, true, false, not, ◌&&◌, ◌||◌, [], ◌∷◌, ◌++◌, none, some, ltb, ◌==◌,
  if◌then◌else◌, for_range,
}
use mac.Aggregation.{
  Initiator, recipient, initiator, Status, success, request_declined, invalid_qos_param, StopReason,
  unspecified_qos, qsta_timeout, unspecified, qsta_leave_qbss, no_reason, addba_resp, delba,
  Session, AmpduSta, AmpduKernel, AddBa, at_tid,
}

abbrev by_recipient : Initiator → Bool
by_recipient recipient = true
by_recipient initiator = false

-- `___ieee80211_stop_rx_ba_session`; the session is freed with its timers and the frames it holds.
unfoldable pub stop_rx_ba_session : Initiator → StopReason → Bool → ℕ → AmpduSta → AmpduSta
stop_rx_ba_session by reason tx tid sta = elim (sta.tid_rx tid) [
  | none ↦ sta
  | some old ↦ record sta {
    tid_rx = at_tid tid none sta.tid_rx;
    sent =
        if by_recipient by && tx then sta.sent ++ (delba tid recipient reason ∷ []) else sta.sent;
  }
]

-- The size of the buffer: the default for zero, and what the hardware can do.
unfoldable pub agreed_size : AmpduKernel → ℕ → ℕ
agreed_size k buf_size =
    let wanted = if buf_size == 0 then k.max_ampdu_buf else buf_size in
    if ltb k.max_rx_aggregation_subframes wanted then k.max_rx_aggregation_subframes else wanted

-- A session as its fields are set.
unfoldable pub new_session : AmpduKernel → AddBa → Bool → ℕ → ℕ → Session
new_session k req auto_seq buf_size ssn = record {
  rx = record {
    reorder_buf = λ index. [];
    reorder_time = λ index. 0;
    reorder_timer = none;
    head_seq_num = ssn;
    stored_mpdu_num = 0;
    ssn = ssn;
    buf_size = buf_size;
    auto_seq = auto_seq;
    removed = k.old_removed;
  };
  session_timer =
      if req.timeout == 0 then none else some (k.clock.jiffies + k.tu_to_jiffies req.timeout);
  last_rx = if req.timeout == 0 then k.old_last_rx else k.clock.jiffies;
  timeout = req.timeout;
  dialog_token = req.dialog_token;
}

-- From the state machine on: an old session is ended, and a new one made.
unfoldable pub examine_state : AmpduKernel → AddBa → Bool → ℕ → AmpduSta → AmpduSta × Status
examine_state k req auto_seq buf_size sta =
    let stopped = stop_rx_ba_session recipient unspecified_qos false req.tid sta in
    if not k.finds_session || not k.finds_reorder_buf || not k.finds_reorder_time
    then (stopped, request_declined)
    else elim (k.drv_ampdu_start req.start_seq_num) [
      | none ↦ (stopped, request_declined)
      | some ssn ↦ (
        record stopped {
          tid_rx = at_tid req.tid (some (new_session k req auto_seq buf_size ssn)) stopped.tid_rx;
        },
        success,
      )
    ]

unfoldable pub send_addba_resp : Bool → AddBa → ℕ → AmpduSta × Status → AmpduSta
send_addba_resp tx req buf_size (sta, status) =
    if tx
    then record sta {
      sent = sta.sent ++ (addba_resp req.tid req.dialog_token status 1 buf_size req.timeout ∷ []);
    }
    else sta

-- `__ieee80211_start_rx_ba_session`
unfoldable pub start_rx_ba_session : AmpduKernel → AddBa → Bool → Bool → AmpduSta → AmpduSta
start_rx_ba_session k req tx auto_seq sta =
    let size = agreed_size k req.buf_size in
    if not sta.ht_supported || sta.block_ba
    then send_addba_resp tx req req.buf_size (sta, request_declined)
    else if not (req.ba_policy == 1) && not sta.cap_delay_ba || ltb k.max_ampdu_buf req.buf_size
    then send_addba_resp tx req req.buf_size (sta, invalid_qos_param)
    else send_addba_resp tx req size (examine_state k req auto_seq size sta)

-- The fields of a request, of two bytes each but for the first.
unfoldable pub process_addba_request :
    AmpduKernel → (token timeout ssn capab : ℕ) → AmpduSta → AmpduSta
process_addba_request k token timeout ssn capab =
    start_rx_ba_session k
      (record {
        dialog_token = token;
        timeout = timeout;
        start_seq_num = ssn / 2 ^ 4;
        ba_policy = capab / 2 % 2;
        tid = capab / 2 ^ 2 % 2 ^ 4;
        buf_size = capab / 2 ^ 6;
      })
      true false

-- The timer of a session that has run; where the time is not over it is set again.
unfoldable pub session_timer_expired : AmpduKernel → ℕ → AmpduSta → AmpduSta
session_timer_expired k tid sta = elim (sta.tid_rx tid) [
  | none ↦ sta
  | some s ↦
      let timeout = s.last_rx + k.tu_to_jiffies s.timeout in
      if ltb k.clock.jiffies timeout
      then record sta {
        tid_rx = at_tid tid (some (record s { session_timer = some timeout })) sta.tid_rx;
      }
      else record sta {
        tid_rx_timer_expired = at_tid tid true sta.tid_rx_timer_expired;
        work_queued = true;
      }
]

-- `ieee80211_stop_rx_ba_session`; the bits of the mask are a function.
unfoldable pub request_stop : (ℕ → Bool) → AmpduSta → AmpduSta
request_stop bitmap sta = record sta {
  tid_rx_stop_requested = λ i. if ltb i 16 && bitmap i then true else sta.tid_rx_stop_requested i;
  work_queued = true;
}

-- One round of the work function, without the sessions of the sending side.
unfoldable pub ba_session_round : ℕ → AmpduSta → AmpduSta
ba_session_round tid sta =
    let expired = record sta { tid_rx_timer_expired = at_tid tid false sta.tid_rx_timer_expired } in
    let timed =
      if sta.tid_rx_timer_expired tid
      then stop_rx_ba_session recipient qsta_timeout true tid expired
      else sta in
    let asked = record timed {
      tid_rx_stop_requested = at_tid tid false timed.tid_rx_stop_requested;
    } in
    if timed.tid_rx_stop_requested tid
    then stop_rx_ba_session recipient unspecified true tid asked
    else timed

unfoldable pub ba_session_work : AmpduSta → AmpduSta
ba_session_work sta =
    let idle = record sta { work_queued = false } in
    if sta.block_ba then idle else for_range 16 0 ba_session_round idle

-- The receiving side of `ieee80211_process_delba`; `params` are the two bytes.
unfoldable pub process_delba : ℕ → AmpduSta → AmpduSta
process_delba params sta =
    if params / 2 ^ 11 % 2 == 1
    then stop_rx_ba_session initiator no_reason true (params / 2 ^ 12 % 2 ^ 4) sta
    else sta

-- The receiving side of `ieee80211_sta_tear_down_BA_sessions`; `tx` is that the station is told.
unfoldable pub tear_down_ba_sessions : Bool → AmpduSta → AmpduSta
tear_down_ba_sessions tx sta =
    for_range 16 0 (stop_rx_ba_session recipient qsta_leave_qbss tx)
      (record sta { work_queued = false })
