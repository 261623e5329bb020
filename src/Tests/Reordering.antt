-- ===== src/Tests/Reordering.antt =====
-- rx.c on a window of four slots.
use mac.Base.{ℕ, ◌+◌, ◌-◌, ◌%◌, ◌≡◌, refl, arith, false, [], ◌∷◌, none, ltb, ◌==◌, if◌then◌else◌}
use mac.Reorder.{Mpdu, TidAmpduRx, SeqNum, rx_reorder_ready}
use mac.Reorder.Release.{Clock, release_reorder_frames, sta_manage_reorder_buf}
use mac.Reorder.Count.{IsCounted, count}
use mac.Reorder.Keeps.{Handles, sta_manage_reorder_buf-Handles}
use mac.Reorder.Reaches.{IsTwelveBit, release_reorder_frames-reaches}

abbrev sn : SeqNum
sn = record {
  sn_less = λ a b. ltb 2048 ((a + 4096 - b % 4096) % 4096);
  sn_inc = λ a. (a + 1) % 4096;
  sn_sub = λ a b. (a + 4096 - b % 4096) % 4096;
  sn_mask = λ a. a % 4096;
}

abbrev mpdu : ℕ → Mpdu
mpdu n = record { seq_num = n; amsdu_more = false; content = n }

-- Frame 2 is there, frame 1 is missing.
abbrev session : TidAmpduRx
session = record {
  reorder_buf = λ i. if i == 2 then mpdu 2 ∷ [] else [];
  reorder_time = λ i. 5;
  reorder_timer = none;
  head_seq_num = 1;
  stored_mpdu_num = 1;
  ssn = 0;
  buf_size = 4;
  auto_seq = false;
  removed = false;
}

session-IsCounted : IsCounted session
unfolding count rx_reorder_ready
session-IsCounted = record { some_slots = omega arith; few_slots = omega arith; stored = refl }

abbrev clock : Clock
clock = record { jiffies = 7; timeout = 10 }

sta_manage_reorder_buf-Handles_example :
    Handles (sta_manage_reorder_buf sn clock (mpdu 1) (session, []))
sta_manage_reorder_buf-Handles_example =
    sta_manage_reorder_buf-Handles sn clock (mpdu 1) (session, []) session-IsCounted

sn-IsTwelveBit : IsTwelveBit sn
sn-IsTwelveBit = record {
  less = λ a b h k. let small : b % 4096 ≡ b = omega arith in rw (small) refl;
  inc = λ a h. refl;
}

release_reorder_frames-reaches_example :
    let after = release_reorder_frames sn 4096 3 (session, []) in
    (after.0.head_seq_num ≡ 3) × (sn.sn_less after.0.head_seq_num 3 ≡ false)
release_reorder_frames-reaches_example =
    release_reorder_frames-reaches sn 3 (session, []) sn-IsTwelveBit (omega arith) (omega arith)
