-- ===== src/Aggregation/Answers.antt =====
-- agg-rx.c: what the answer to a request says is what the station has.
use mac.Base.{
  ℕ, ◌≤◌, ◌≡◌, refl, arith, Bool, true, false, not, ◌&&◌, ◌||◌, [], ◌∷◌, ◌++◌, Option, none, some,
  ltb, ◌==◌, Bool-cases, Option-cases, inl, inr, ◌⊎◌,
}
use mac.Aggregation.{
  Status, success, request_declined, invalid_qos_param, recipient, unspecified_qos, addba_resp,
  Session, AmpduSta, AmpduKernel, AddBa,
}
use mac.Aggregation.Start.{
  stop_rx_ba_session, agreed_size, new_session, examine_state, send_addba_resp, start_rx_ba_session,
}

-- What the answer says of the session of the request, `after`; `old` is the one before.
abbrev pub AnswerHolds :
    AmpduKernel → AddBa → Bool → AmpduSta → Status → ℕ → Option Session → Type 0
AnswerHolds k req auto_seq sta success size after =
    (ssn : ℕ) × (after ≡ some (new_session k req auto_seq size ssn))
    × (k.drv_ampdu_start req.start_seq_num ≡ some ssn)
    × (sta.ht_supported ≡ true)
    × (sta.block_ba ≡ false)
    × (req.buf_size ≤ k.max_ampdu_buf)
    × (size ≤ k.max_rx_aggregation_subframes)
    × ((req.buf_size ≡ 0) ⊎ (size ≤ req.buf_size))
AnswerHolds k req auto_seq sta request_declined size after =
    (after ≡ sta.tid_rx req.tid) ⊎ (after ≡ none)
AnswerHolds k req auto_seq sta invalid_qos_param size after = after ≡ sta.tid_rx req.tid

pub record Answered (k : AmpduKernel) (req : AddBa) (auto_seq : Bool) (sta sta' : AmpduSta)
    : Type 0 where
  pub status : Status
  pub size : ℕ
  pub sent :
      sta'.sent ≡ sta.sent ++ (addba_resp req.tid req.dialog_token status 1 size req.timeout ∷ [])
  pub others : (t : ℕ) → (t == req.tid) ≡ false → sta'.tid_rx t ≡ sta.tid_rx t
  pub outcome : AnswerHolds k req auto_seq sta status size (sta'.tid_rx req.tid)

-- A session that is replaced sends nothing.
stop-tid_rx :
    (tid : ℕ) (sta : AmpduSta)
    → let sta' = stop_rx_ba_session recipient unspecified_qos false tid sta in
      (sta'.sent ≡ sta.sent)
      × (sta'.tid_rx tid ≡ none)
      × ((t : ℕ) → (t == tid) ≡ false → sta'.tid_rx t ≡ sta.tid_rx t)
unfolding stop_rx_ba_session
stop-tid_rx tid sta =
    let here : (tid == tid) ≡ true = ground arith in
    elim (Option-cases (sta.tid_rx tid)) [
      | inl e ↦ (
        rw (stop_rx_ba_session, e) refl,
        rw (stop_rx_ba_session, e) e,
        λ t other. rw (stop_rx_ba_session, e) refl,
      )
      | inr e ↦ (
        rw (stop_rx_ba_session, e.1) refl,
        rw (stop_rx_ba_session, e.1, here) refl,
        λ t other. rw (stop_rx_ba_session, e.1, other) refl,
      )
    ]

agreed_size_le :
    (k : AmpduKernel) (n : ℕ)
    → (agreed_size k n ≤ k.max_rx_aggregation_subframes) × ((n ≡ 0) ⊎ (agreed_size k n ≤ n))
unfolding agreed_size
agreed_size_le k n = ground arith

-- The part of the request that examines the state.
Examined : AmpduKernel → AddBa → Bool → ℕ → AmpduSta → AmpduSta × Status → Type 0
Examined k req auto_seq size sta r =
    (r.0.sent ≡ sta.sent)
    × ((t : ℕ) → (t == req.tid) ≡ false → r.0.tid_rx t ≡ sta.tid_rx t)
    × (((r.1 ≡ request_declined) × (r.0.tid_rx req.tid ≡ none))
        ⊎ ((ssn : ℕ) × (r.1 ≡ success)
            × (r.0.tid_rx req.tid ≡ some (new_session k req auto_seq size ssn))
            × (k.drv_ampdu_start req.start_seq_num ≡ some ssn)))

examine_state-Examined :
    (k : AmpduKernel) (req : AddBa) (auto_seq : Bool) (size : ℕ) (sta : AmpduSta)
    → Examined k req auto_seq size sta (examine_state k req auto_seq size sta)
unfolding examine_state Examined
examine_state-Examined k req auto_seq size sta =
    let stopped = stop-tid_rx req.tid sta in
    let here : (req.tid == req.tid) ≡ true = ground arith in
    elim (Bool-cases (not k.finds_session || not k.finds_reorder_buf || not k.finds_reorder_time)) [
      | inl e ↦ rw (e) (stopped.0, stopped.2, inl (refl, stopped.1))
      | inr found ↦ elim (Option-cases (k.drv_ampdu_start req.start_seq_num)) [
        | inl e ↦ rw (found, e) (stopped.0, stopped.2, inl (refl, stopped.1))
        | inr e ↦
            rw (found, e.1)
              (
                stopped.0,
                λ t other. rw (other) (stopped.2 t other),
                inr (e.0, refl, rw (here) refl, refl),
              )
      ]
    ]

-- An answer that leaves the sessions as they are.
refuse-Answered :
    (k : AmpduKernel) (req : AddBa) (auto_seq : Bool) (sta : AmpduSta) (status : Status)
    → AnswerHolds k req auto_seq sta status req.buf_size (sta.tid_rx req.tid)
    → Answered k req auto_seq sta (send_addba_resp true req req.buf_size (sta, status))
unfolding send_addba_resp
refuse-Answered k req auto_seq sta status outcome = record {
  status = status;
  size = req.buf_size;
  sent = refl;
  others = λ t other. refl;
  outcome = outcome;
}

Examined-Answered :
    (k : AmpduKernel) (req : AddBa) (auto_seq : Bool) (sta : AmpduSta) (r : AmpduSta × Status)
    → sta.ht_supported ≡ true
    → sta.block_ba ≡ false
    → req.buf_size ≤ k.max_ampdu_buf
    → let size = agreed_size k req.buf_size in
      Examined k req auto_seq size sta r
      → Answered k req auto_seq sta (send_addba_resp true req size r)
unfolding send_addba_resp Examined
Examined-Answered k req auto_seq sta (after, status) ht open_ small (sent, others, inl (e, gone)) =
    record {
      status = request_declined;
      size = agreed_size k req.buf_size;
      sent = rw (sent, e) refl;
      others = others;
      outcome = inr gone;
    }
Examined-Answered k req auto_seq sta (after, status) ht open_ small
      (sent, others, inr (ssn, e, made, drv)) =
    let size = agreed_size_le k req.buf_size in
    record {
      status = success;
      size = agreed_size k req.buf_size;
      sent = rw (sent, e) refl;
      others = others;
      outcome = (ssn, made, drv, ht, open_, small, size.0, size.1);
    }

-- A request is answered once. If the answer is success, then the session of its identifier is a new one, with
-- no frames, of the size that the answer says, which is at most what the hardware can do and what the
-- request asks for, and starting where the driver says; the station supports it and does not block it. If
-- the parameters are refused, nothing has changed; if the request is declined, the session is as before or
-- there is none. The sessions of other identifiers are as before.
pub start_rx_ba_session-Answered :
    (k : AmpduKernel) (req : AddBa) (auto_seq : Bool) (sta : AmpduSta)
    → Answered k req auto_seq sta (start_rx_ba_session k req true auto_seq sta)
unfolding start_rx_ba_session
start_rx_ba_session-Answered k req auto_seq sta =
    elim (Bool-cases (not sta.ht_supported || sta.block_ba)) [
      | inl e ↦
          rw (start_rx_ba_session, e)
            (refuse-Answered k req auto_seq sta request_declined (inl refl))
      | inr able ↦
          elim (Bool-cases (
            not (req.ba_policy == 1) && not sta.cap_delay_ba || ltb k.max_ampdu_buf req.buf_size)) [
              | inl e ↦
                  rw (start_rx_ba_session, able, e)
                    (refuse-Answered k req auto_seq sta invalid_qos_param refl)
              | inr e ↦
                  rw (start_rx_ba_session, able, e)
                    (Examined-Answered k req auto_seq sta _ (ground (arith, able))
                      (ground (arith, able)) (ground (arith, e))
                      (examine_state-Examined k req auto_seq (agreed_size k req.buf_size) sta))
            ]
    ]
