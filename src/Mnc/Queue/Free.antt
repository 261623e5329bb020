-- ===== src/Mnc/Queue/Free.antt =====
-- mnc_rx.c: a queue that is freed, and the header of an original packet that is passed up.
use mac.Base.{
  ℕ, zero, suc, ◌+◌, ◌≡◌, refl, ap, ◌∙◌, arith, ◌&&◌, List, [], ◌∷◌, none, ◌==◌, ltb, leb, ◌-◌,
  if◌then◌else◌, Bool-cases, inl, inr, ==→eq,
}
use mac.Mnc.Substitute.{Vector, store}
use mac.Mnc.Queue.{MncQueue, mnc_queue_head_find_eid, mnc_queue_free, move_header, skb_decoding_sys}
use mac.Mnc.Queue.Laws.{OneQueue}

-- If no generation has two queues, then after a generation's queue is freed that generation has none,
-- and every other generation has the queue it had.
pub find_eid-free :
    (qs : List MncQueue) (eid other : ℕ)
    → OneQueue qs
    → mnc_queue_head_find_eid (mnc_queue_free qs eid) other
      ≡ (if eid == other then none else mnc_queue_head_find_eid qs other)
unfolding mnc_queue_head_find_eid mnc_queue_free
find_eid-free [] eid other d = ground arith
find_eid-free (q ∷ qs) eid other d = elim (Bool-cases (q.eid == eid)) [
  | inl e ↦
      let same = ap (mnc_queue_head_find_eid qs) (==→eq q.eid eid e) in
      elim (Bool-cases (eid == other)) [
        | inl f ↦
            let last = ap (mnc_queue_head_find_eid qs) (==→eq eid other f) in
            ground (arith, same, last, d.0)
        | inr f ↦ ground arith
      ]
  | inr e ↦ ground (arith, find_eid-free qs eid other d.1)
]

move_header_lem :
    (n mh : ℕ) (v : Vector) (o : ℕ)
    → move_header n mh v o ≡ (if leb (mh + 3) o && ltb o (mh + 3 + n) then v (o - 3) else v o)
unfolding move_header
move_header_lem zero mh v o = ground arith
move_header_lem (suc n) mh v o =
    ground (arith, move_header_lem n mh (store v (mh + n + 3) (v (mh + n))) o, ap v (back (mh + n)))
  where
    back : (m : ℕ) → m + 3 - 3 ≡ m
    back m = omega arith

-- Although the old and the new place overlap, each of the 14 bytes of the header is found 3 bytes on,
-- at the new place of the header, and the bytes behind the new header are as they were.
pub skb_decoding_sys_lem :
    (mh start : ℕ) (v : Vector) (i : ℕ)
    → let r = skb_decoding_sys mh start v in
      (r.0 (r.1 + i) ≡ (if ltb i 14 then v (mh + i) else v (r.1 + i)))
      × (r.1 ≡ mh + 3)
      × (r.2 ≡ start + 3)
unfolding skb_decoding_sys
skb_decoding_sys_lem mh start v i =
    let back : mh + 3 + i - 3 ≡ mh + i = omega arith in
    let inside : (leb (mh + 3) (mh + 3 + i) && ltb (mh + 3 + i) (mh + 3 + 14)) ≡ ltb i 14 =
      inside_header (mh + 3) i in
    let moved : move_header 14 mh v (mh + 3 + i)
        ≡ (if ltb i 14 then v (mh + i) else v (mh + 3 + i)) =
      move_header_lem 14 mh v (mh + 3 + i)
      ∙ ap (λ b. if b then v (mh + 3 + i - 3) else v (mh + 3 + i)) inside
      ∙ ap (λ o. if ltb i 14 then v o else v (mh + 3 + i)) back in
    (moved, refl, refl)
  where
    inside_header : (b i : ℕ) → (leb b (b + i) && ltb (b + i) (b + 14)) ≡ ltb i 14
    inside_header b i = ground arith
