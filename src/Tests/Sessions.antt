-- ===== src/Tests/Sessions.antt =====
-- agg-rx.c, rx.c: a session is asked for, receives a frame, and is ended.
use mac.Base.{◌+◌, ◌*◌, ◌%◌, arith, true, false, [], ◌∷◌, none, some}
use mac.Reorder.{SeqNum}
use mac.Aggregation.{AmpduSta, AmpduKernel, AddBa}
use mac.Aggregation.Start.{start_rx_ba_session}
use mac.Aggregation.Receive.{AmpduFrame}
use mac.Aggregation.Frames.{Continues}
use mac.Aggregation.Run.{addba_request, frame, delba_frame, sta_run, sta_run-Continues}
use mac.Aggregation.Answers.{Answered, start_rx_ba_session-Answered}
use mac.Base.{ltb, ◌-◌}

abbrev twelve_bits : SeqNum
twelve_bits = record {
  sn_less = λ a b. ltb 2048 ((a + 4096 - b % 4096) % 4096);
  sn_inc = λ a. (a + 1) % 4096;
  sn_sub = λ a b. (a + 4096 - b % 4096) % 4096;
  sn_mask = λ a. a % 4096;
}

abbrev kernel : AmpduKernel
kernel = record {
  clock = record { jiffies = 500; timeout = 10 };
  tu_to_jiffies = λ x. x;
  max_ampdu_buf = 64;
  max_rx_aggregation_subframes = 16;
  finds_session = true;
  finds_reorder_buf = true;
  finds_reorder_time = true;
  drv_ampdu_start = λ ssn. some ssn;
  old_removed = false;
  old_last_rx = 0;
}

abbrev sta : AmpduSta
sta = record {
  ht_supported = true;
  cap_delay_ba = false;
  block_ba = false;
  tid_rx = λ tid. none;
  tid_rx_timer_expired = λ tid. false;
  tid_rx_stop_requested = λ tid. false;
  work_queued = false;
  sent = [];
  frames = [];
  skb_queue = [];
}

-- The frame behind the first one of the window.
abbrev second : AmpduFrame
second = record {
  mpdu = record { seq_num = 101; amsdu_more = false; content = 1 };
  data_qos = true;
  multicast = false;
  tid = 5;
  nullfunc = false;
  in_session = true;
  ra_match = true;
  fragment = false;
}

sta_run-Continues_example : Continues (
    sta_run twelve_bits
      ((kernel, addba_request 7 0 1600 (2 + 5 * 4 + 8 * 64))
        ∷ (kernel, frame second)
        ∷ (kernel, delba_frame (5 * 4096 + 2048))
        ∷ [])
      sta)
sta_run-Continues_example =
    sta_run-Continues twelve_bits _ sta
      (
        record { some_subframes = omega arith; some_buf = omega arith; small_buf = omega arith },
        (
          record { some_subframes = omega arith; some_buf = omega arith; small_buf = omega arith },
          (
            record {
              some_subframes = omega arith;
              some_buf = omega arith;
              small_buf = omega arith;
            },
            tt,
          ),
        ),
      )
      (λ tid s e. cc)

abbrev request : AddBa
request = record {
  dialog_token = 7;
  timeout = 0;
  start_seq_num = 100;
  ba_policy = 1;
  tid = 5;
  buf_size = 0;
}

start_rx_ba_session-Answered_example :
    Answered kernel request false sta (start_rx_ba_session kernel request true false sta)
start_rx_ba_session-Answered_example = start_rx_ba_session-Answered kernel request false sta
