-- ===== src/Tests/Queue.antt =====
-- mnc_rx.c: the queues of two generations, of which one waits too long.
use mac.Base.{ℕ, ◌*◌, ◌≡◌, refl, [], ◌∷◌, ◌++◌, true, if◌then◌else◌, ◌==◌}
use mac.Mnc.Queue.{
  Packet, mnc_queue_head_check_etime, mnc_queue_head_find_eid, Decoder, dropped, queued,
  enter_queue,
}
use mac.Mnc.Queue.Laws.{OneQueue, enter_queue-OneQueue}
use mac.Mnc.Queue.Waiting.{waiting, waiting-enter_queue}

abbrev packet : ℕ → ℕ → Packet
packet eid m = record {
  len = 60;
  content = λ o. if o == 0 then 10 else if o == 1 then eid else m * 4;
}

abbrev state : Decoder
state = record {
  list =
      record { eid = 7; ejiffies = 100; kp = 10; sys = true; skbs = packet 7 0 ∷ [] }
      ∷ record { eid = 8; ejiffies = 10; kp = 10; sys = true; skbs = packet 8 1 ∷ [] }
      ∷ [];
  last0 = 6;
  last1 = 5;
  last2 = 0;
}

enter_queue-OneQueue_example : OneQueue (enter_queue 200 (packet 7 63) state).0.list
unfolding mnc_queue_head_find_eid
enter_queue-OneQueue_example = enter_queue-OneQueue 200 (packet 7 63) state (refl, (refl, tt))

waiting-enter_queue_example :
    let before = waiting (mnc_queue_head_check_etime state.list 200) 7 in
    let r = enter_queue 200 (packet 7 63) state in
    waiting r.0.list 7 ≡ (elim r.1 [
      | dropped ↦ before
      | queued original ↦ if 7 == 7 then before ++ packet 7 63 ∷ [] else before
    ])
waiting-enter_queue_example = waiting-enter_queue 200 (packet 7 63) state 7
