-- ===== src/Mnc/Queue.antt =====
-- mnc_rx.c, mnc_rx.h: the queues of frames that wait for the rest of their generation, and the part of
-- `decoding_try` that puts a frame into its queue. A doubly linked list is the sequence of its nodes;
-- a pointer to a queue is its `eid`.
pub mod Laws
pub mod Waiting
pub mod Free
use mac.Base.{
  ℕ, zero, suc, ◌+◌, ◌-◌, ◌/◌, ◌%◌, ◌^◌, Bool, true, false, not, ◌||◌, List, [], ◌∷◌, ◌++◌, Option,
  none, some, ◌==◌, ltb, if◌then◌else◌,
}
use mac.Mnc.Substitute.{Vector, store}

pub record Packet : Type 0 where
  pub len : ℕ
  pub content : Vector

pub record MncQueue : Type 0 where
  pub eid : ℕ
  pub ejiffies : ℕ
  pub kp : ℕ
  pub sys : Bool
  pub skbs : List Packet

unfoldable pub mnc_queue_create : ℕ → ℕ → ℕ → MncQueue
mnc_queue_create eid ejiffies kp = record {
  eid = eid;
  ejiffies = ejiffies;
  kp = kp;
  sys = true;
  skbs = [];
}

unfoldable pub mnc_queue_insert : List MncQueue → MncQueue → List MncQueue
mnc_queue_insert [] new = new ∷ []
mnc_queue_insert (q ∷ qs) new = q ∷ mnc_queue_insert qs new

unfoldable pub mnc_queue_head_find_eid : List MncQueue → ℕ → Option MncQueue
mnc_queue_head_find_eid [] eid = none
mnc_queue_head_find_eid (q ∷ qs) eid =
    if q.eid == eid then some q else mnc_queue_head_find_eid qs eid

-- `cjiffies - ejiffies` wraps at 64 bits.
unfoldable pub expired : ℕ → MncQueue → Bool
expired cjiffies q = ltb 125 ((cjiffies + 2 ^ 64 - q.ejiffies) % 2 ^ 64)

-- A queue that waits too long is unlinked and freed.
unfoldable pub mnc_queue_head_check_etime : List MncQueue → ℕ → List MncQueue
mnc_queue_head_check_etime [] cjiffies = []
mnc_queue_head_check_etime (q ∷ qs) cjiffies =
    if expired cjiffies q
    then mnc_queue_head_check_etime qs cjiffies
    else q ∷ mnc_queue_head_check_etime qs cjiffies

-- A change through the pointer that `mnc_queue_head_find_eid` returns.
unfoldable pub update_queue : List MncQueue → ℕ → (MncQueue → MncQueue) → List MncQueue
update_queue [] eid f = []
update_queue (q ∷ qs) eid f = if q.eid == eid then f q ∷ qs else q ∷ update_queue qs eid f

-- The static `list` and `last_did`.
pub record Decoder : Type 0 where
  pub list : List MncQueue
  pub last0 : ℕ
  pub last1 : ℕ
  pub last2 : ℕ

-- What happens to the frame; one that is queued may be an original packet, which is also passed up.
pub data Outcome : Type 0 where
  dropped : Outcome
  queued : Bool → Outcome

unfoldable pub add_packet : Bool → Packet → MncQueue → MncQueue
add_packet original skb q = record q {
  sys = if original then q.sys else false;
  skbs = q.skbs ++ skb ∷ [];
}

-- The list once the frame's queue is in it.
unfoldable pub with_queue : List MncQueue → ℕ → ℕ → ℕ → List MncQueue
with_queue list eid cjiffies kp = elim (mnc_queue_head_find_eid list eid) [
  | none ↦ mnc_queue_insert list (mnc_queue_create eid cjiffies kp)
  | some q ↦ list
]

unfoldable pub wrong_kp : List MncQueue → ℕ → ℕ → Bool
wrong_kp list eid kp = elim (mnc_queue_head_find_eid list eid) [
  | none ↦ false
  | some q ↦ not (kp == q.kp)
]

-- From the check of the times to `skb_queue_tail`.
unfoldable pub enter_queue : ℕ → Packet → Decoder → Decoder × Outcome
enter_queue cjiffies skb s =
    let eid = skb.content 1 in
    let kp = skb.content 0 in
    let original = not (skb.content 2 / 4 == 0x3f) in
    let list = mnc_queue_head_check_etime s.list cjiffies in
    if eid == s.last0 || eid == s.last1 || eid == s.last2
    then (record s { list = list }, dropped)
    else let list' = with_queue list eid cjiffies kp in
      if wrong_kp list' eid kp
      then (record s { list = list' }, dropped)
      else (record s { list = update_queue list' eid (add_packet original skb) }, queued original)

-- The queue that `mnc_queue_head_find_eid` returns is unlinked and freed.
unfoldable pub mnc_queue_free : List MncQueue → ℕ → List MncQueue
mnc_queue_free [] eid = []
mnc_queue_free (q ∷ qs) eid = if q.eid == eid then qs else q ∷ mnc_queue_free qs eid

-- The loop of `skb_decoding_sys` with the rounds left: the 14 bytes of the header, which begins at
-- `mh`, move 3 bytes on, the last byte first.
unfoldable pub move_header : ℕ → ℕ → Vector → Vector
move_header zero mh v = v
move_header (suc left) mh v = move_header left mh (store v (mh + left + 3) (v (mh + left)))

-- The data, and the places of the header and of the first byte.
unfoldable pub skb_decoding_sys : ℕ → ℕ → Vector → Vector × ℕ × ℕ
unfolding move_header
skb_decoding_sys mh start v = (move_header 14 mh v, mh + 3, start + 3)
