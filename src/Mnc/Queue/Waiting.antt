-- ===== src/Mnc/Queue/Waiting.antt =====
-- mnc_rx.c: what a received frame changes in the queues.
use mac.Base.{
  ℕ, ◌/◌, ◌≡◌, refl, arith, Bool, not, ◌||◌, List, [], ◌∷◌, ◌++◌, none, some, ◌==◌, if◌then◌else◌,
  Bool-cases, Option-cases, inl, inr,
}
use mac.Mnc.Queue.{
  Packet, MncQueue, mnc_queue_create, mnc_queue_insert, mnc_queue_head_find_eid,
  mnc_queue_head_check_etime, update_queue, Decoder, dropped, queued, add_packet, with_queue,
  wrong_kp, enter_queue,
}

-- The frames that the list holds for a generation.
unfoldable pub waiting : List MncQueue → ℕ → List Packet
waiting [] eid = []
waiting (q ∷ qs) eid = if q.eid == eid then q.skbs else waiting qs eid

waiting-insert :
    (qs : List MncQueue) (new : MncQueue) (other : ℕ)
    → new.skbs ≡ []
    → waiting (mnc_queue_insert qs new) other ≡ waiting qs other
unfolding mnc_queue_insert waiting
waiting-insert [] new other h = ground arith
waiting-insert (q ∷ qs) new other h = ground (arith, waiting-insert qs new other h)

waiting-with_queue :
    (qs : List MncQueue) (eid cjiffies kp other : ℕ)
    → waiting (with_queue qs eid cjiffies kp) other ≡ waiting qs other
unfolding with_queue mnc_queue_create
waiting-with_queue qs eid cjiffies kp other = elim (Option-cases (mnc_queue_head_find_eid qs eid)) [
  | inl e ↦ rw (with_queue, e) (waiting-insert qs (mnc_queue_create eid cjiffies kp) other refl)
  | inr e ↦ rw (with_queue, e.1) refl
]

find-insert :
    (qs : List MncQueue) (new : MncQueue)
    → mnc_queue_head_find_eid qs new.eid ≡ none
    → mnc_queue_head_find_eid (mnc_queue_insert qs new) new.eid ≡ some new
unfolding mnc_queue_insert mnc_queue_head_find_eid
find-insert [] new h = ground arith
find-insert (q ∷ qs) new h = ground (arith, find-insert qs new)

-- The queue of the frame is in the list.
find-with_queue :
    (qs : List MncQueue) (eid cjiffies kp : ℕ)
    → (q : MncQueue) × (mnc_queue_head_find_eid (with_queue qs eid cjiffies kp) eid ≡ some q)
unfolding with_queue mnc_queue_create
find-with_queue qs eid cjiffies kp = elim (Option-cases (mnc_queue_head_find_eid qs eid)) [
  | inl e ↦ (
    mnc_queue_create eid cjiffies kp,
    rw (with_queue, e) (find-insert qs (mnc_queue_create eid cjiffies kp) e),
  )
  | inr e ↦ (e.0, rw (with_queue, e.1) e.1)
]

waiting-update :
    (qs : List MncQueue) (eid other : ℕ) (original : Bool) (skb : Packet) (q : MncQueue)
    → mnc_queue_head_find_eid qs eid ≡ some q
    → waiting (update_queue qs eid (add_packet original skb)) other
      ≡ (if eid == other then waiting qs other ++ skb ∷ [] else waiting qs other)
unfolding update_queue mnc_queue_head_find_eid add_packet waiting
waiting-update [] eid other original skb q h = ground arith
waiting-update (p ∷ qs) eid other original skb q h =
    ground (arith, waiting-update qs eid other original skb q)

-- A frame that is queued is put behind the waiting frames of its own generation, and every other
-- generation has the frames it had; a frame that is dropped changes no generation's frames. The frames
-- meant are those left by the check of the times.
pub waiting-enter_queue :
    (cjiffies : ℕ) (skb : Packet) (s : Decoder) (other : ℕ)
    → let before = waiting (mnc_queue_head_check_etime s.list cjiffies) other in
      let r = enter_queue cjiffies skb s in
      waiting r.0.list other ≡ (elim r.1 [
        | dropped ↦ before
        | queued original ↦ if skb.content 1 == other then before ++ skb ∷ [] else before
      ])
unfolding enter_queue
waiting-enter_queue cjiffies skb s other =
    let eid = skb.content 1 in
    let kp = skb.content 0 in
    let original = not (skb.content 2 / 4 == 0x3f) in
    let list = mnc_queue_head_check_etime s.list cjiffies in
    let list' = with_queue list eid cjiffies kp in
    let same = waiting-with_queue list eid cjiffies kp other in
    let found = find-with_queue list eid cjiffies kp in
    let added = waiting-update list' eid other original skb found.0 found.1 in
    elim (Bool-cases (eid == s.last0 || eid == s.last1 || eid == s.last2)) [
      | inl e ↦ rw (enter_queue, e) refl
      | inr e ↦ elim (Bool-cases (wrong_kp list' eid kp)) [
        | inl w ↦ rw (enter_queue, e, w) same
        | inr w ↦ rw (enter_queue, e, w) (rw (same) at added)
      ]
    ]
