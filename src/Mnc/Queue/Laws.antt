-- ===== src/Mnc/Queue/Laws.antt =====
-- mnc_rx.c: one queue for each generation.
use mac.Base.{
  ℕ, ◌/◌, ◌≡◌, refl, arith, Bool, true, false, not, ◌||◌, List, [], ◌∷◌, none, ◌==◌, if◌then◌else◌,
  Bool-cases, Option-cases, inl, inr,
}
use mac.Mnc.Queue.{
  Packet, MncQueue, mnc_queue_create, mnc_queue_insert, mnc_queue_head_find_eid, expired,
  mnc_queue_head_check_etime, update_queue, Decoder, Outcome, dropped, queued, add_packet,
  with_queue, wrong_kp, enter_queue,
}

-- No generation has two queues.
abbrev pub OneQueue : List MncQueue → Type 0
OneQueue [] = Unit {0}
OneQueue (q ∷ qs) = (mnc_queue_head_find_eid qs q.eid ≡ none) × OneQueue qs

check_etime-none :
    (qs : List MncQueue) (cjiffies eid : ℕ)
    → mnc_queue_head_find_eid qs eid ≡ none
    → mnc_queue_head_find_eid (mnc_queue_head_check_etime qs cjiffies) eid ≡ none
unfolding mnc_queue_head_find_eid mnc_queue_head_check_etime
check_etime-none [] cjiffies eid h = refl
check_etime-none (q ∷ qs) cjiffies eid h = ground (arith, check_etime-none qs cjiffies eid)

check_etime-OneQueue :
    (qs : List MncQueue) (cjiffies : ℕ)
    → OneQueue qs
    → OneQueue (mnc_queue_head_check_etime qs cjiffies)
unfolding mnc_queue_head_check_etime
check_etime-OneQueue [] cjiffies d = tt
check_etime-OneQueue (q ∷ qs) cjiffies d = elim (Bool-cases (expired cjiffies q)) [
  | inl e ↦ rw e (check_etime-OneQueue qs cjiffies d.1)
  | inr e ↦ rw e (check_etime-none qs cjiffies q.eid d.0, check_etime-OneQueue qs cjiffies d.1)
]

insert-none :
    (qs : List MncQueue) (new : MncQueue) (eid : ℕ)
    → mnc_queue_head_find_eid qs eid ≡ none
    → (new.eid == eid) ≡ false
    → mnc_queue_head_find_eid (mnc_queue_insert qs new) eid ≡ none
unfolding mnc_queue_head_find_eid mnc_queue_insert
insert-none [] new eid h e = ground arith
insert-none (q ∷ qs) new eid h e = ground (arith, insert-none qs new eid)

insert-OneQueue :
    (qs : List MncQueue) (new : MncQueue)
    → OneQueue qs
    → mnc_queue_head_find_eid qs new.eid ≡ none
    → OneQueue (mnc_queue_insert qs new)
unfolding mnc_queue_head_find_eid mnc_queue_insert
insert-OneQueue [] new d h = (refl, tt)
insert-OneQueue (q ∷ qs) new d h =
    (insert-none qs new q.eid d.0 (ground arith), insert-OneQueue qs new d.1 (ground arith))

update-none :
    (qs : List MncQueue) (eid other : ℕ) (original : Bool) (skb : Packet)
    → mnc_queue_head_find_eid qs other ≡ none
    → mnc_queue_head_find_eid (update_queue qs eid (add_packet original skb)) other ≡ none
unfolding mnc_queue_head_find_eid update_queue add_packet
update-none [] eid other original skb h = refl
update-none (q ∷ qs) eid other original skb h =
    ground (arith, update-none qs eid other original skb)

update-OneQueue :
    (qs : List MncQueue) (eid : ℕ) (original : Bool) (skb : Packet)
    → OneQueue qs
    → OneQueue (update_queue qs eid (add_packet original skb))
unfolding update_queue add_packet
update-OneQueue [] eid original skb d = tt
update-OneQueue (q ∷ qs) eid original skb d = elim (Bool-cases (q.eid == eid)) [
  | inl e ↦ rw e (d.0, d.1)
  | inr e ↦
      rw e (update-none qs eid q.eid original skb d.0, update-OneQueue qs eid original skb d.1)
]

with_queue-OneQueue :
    (qs : List MncQueue) (eid cjiffies kp : ℕ)
    → OneQueue qs
    → OneQueue (with_queue qs eid cjiffies kp)
unfolding with_queue mnc_queue_create
with_queue-OneQueue qs eid cjiffies kp d = elim (Option-cases (mnc_queue_head_find_eid qs eid)) [
  | inl e ↦ rw (with_queue, e) (insert-OneQueue qs (mnc_queue_create eid cjiffies kp) d e)
  | inr e ↦ rw (with_queue, e.1) d
]

if-list :
    (b : Bool) (x y : Decoder × Outcome)
    → OneQueue x.0.list
    → OneQueue y.0.list
    → OneQueue (if b then x else y).0.list
if-list true x y v w = v
if-list false x y v w = w

-- If no generation has two queues, then none has two after a frame is received, whether it is dropped
-- or put into a queue.
pub enter_queue-OneQueue :
    (cjiffies : ℕ) (skb : Packet) (s : Decoder)
    → OneQueue s.list
    → OneQueue (enter_queue cjiffies skb s).0.list
unfolding enter_queue
enter_queue-OneQueue cjiffies skb s d =
    let eid = skb.content 1 in
    let kp = skb.content 0 in
    let original = not (skb.content 2 / 4 == 0x3f) in
    let list = mnc_queue_head_check_etime s.list cjiffies in
    let v = check_etime-OneQueue s.list cjiffies d in
    let list' = with_queue list eid cjiffies kp in
    let w = with_queue-OneQueue list eid cjiffies kp v in
    if-list (eid == s.last0 || eid == s.last1 || eid == s.last2) (record s { list = list }, dropped)
      _ v
      (if-list (wrong_kp list' eid kp) (record s { list = list' }, dropped)
        (record s { list = update_queue list' eid (add_packet original skb) }, queued original) w
        (update-OneQueue list' eid original skb w))
