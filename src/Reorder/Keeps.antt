-- ===== src/Reorder/Keeps.antt =====
-- rx.c: every received frame is handled to the end, and the counter stays right.
use mac.Base.{
  ℕ, ◌+◌, ◌%◌, ◌^◌, ◌<◌, ◌≡◌, refl, ◌∙◌, arith, Bool, true, false, not, ◌&&◌, List, [], ◌∷◌, ◌++◌,
  Option, some, ◌==◌, if◌then◌else◌, Bool-cases, inl, inr,
}
use mac.Reorder.{Mpdu, TidAmpduRx, SeqNum, rx_reorder_ready, Rx, set_slot}
use mac.Reorder.Release.{
  Clock, sta_reorder_release, start_auto, make_room, store_frame, place_frame,
  sta_manage_reorder_buf,
}
use mac.Reorder.Count.{
  count, count_le, count-set_slot, IsCounted, slot_lt, release_reorder_frames-IsCounted,
}
use mac.Reorder.Rearm.{Keeps, sta_reorder_release-Keeps}

ready_append :
    (list : List Mpdu) (skb : Mpdu)
    → rx_reorder_ready (list ++ skb ∷ []) ≡ (if skb.amsdu_more then false else true)
unfolding rx_reorder_ready
ready_append [] skb = refl
ready_append (x ∷ []) skb = refl
ready_append (x ∷ y ∷ rest) skb = ready_append (y ∷ rest) skb

store_frame-Keeps :
    (sn : SeqNum) (now : Clock) (index : ℕ) (skb : Mpdu) (r : Rx)
    → index < r.0.buf_size
    → rx_reorder_ready (r.0.reorder_buf index) ≡ false
    → IsCounted r.0
    → Keeps (store_frame sn now index skb r)
unfolding store_frame
store_frame-Keeps sn now index skb (t, frames) inside empty v =
    let list : List Mpdu = t.reorder_buf index ++ skb ∷ [] in
    let set = count-set_slot t.buf_size t.reorder_buf index list inside in
    let added = ready_append (t.reorder_buf index) skb in
    let most = count_le t.buf_size (set_slot t.reorder_buf index list) in
    elim (Bool-cases skb.amsdu_more) [
      | inl more ↦ (
        (record t { reorder_buf = set_slot t.reorder_buf index list }, frames),
        rw (more) refl,
        record {
          some_slots = v.some_slots;
          few_slots = v.few_slots;
          stored = ground (arith, set, added, empty, more, v.stored);
        },
      )
      | inr last ↦
          let u : TidAmpduRx = record t {
            reorder_buf = set_slot t.reorder_buf index list;
            reorder_time = λ i. if i == index then now.jiffies else t.reorder_time i;
            stored_mpdu_num = (t.stored_mpdu_num + 1) % 2 ^ 16;
          } in
          let one : count t.buf_size (set_slot t.reorder_buf index list)
              ≡ count t.buf_size t.reorder_buf + 1 =
            ground (arith, set, added, empty, last) in
          let r =
            sta_reorder_release-Keeps sn now (u, frames)
              (record {
                some_slots = v.some_slots;
                few_slots = v.few_slots;
                stored = omega (arith, one, most, v.stored, v.few_slots);
              }) in
          let step : store_frame sn now index skb (t, frames)
              ≡ sta_reorder_release sn now (u, frames) =
            rw (last) refl in
          (r.0, step ∙ r.1, r.2)
    ]

start_auto-IsCounted : (skb : Mpdu) (t : TidAmpduRx) → IsCounted t → IsCounted (start_auto skb t)
unfolding start_auto
start_auto-IsCounted skb t v = elim (Bool-cases t.auto_seq) [
  | inl e ↦
      rw (e) (record { some_slots = v.some_slots; few_slots = v.few_slots; stored = v.stored })
  | inr e ↦
      rw (e) (record { some_slots = v.some_slots; few_slots = v.few_slots; stored = v.stored })
]

make_room-IsCounted :
    (sn : SeqNum) (seq : ℕ) (r : Rx) → IsCounted r.0 → IsCounted (make_room sn seq r).0
unfolding make_room
make_room-IsCounted sn seq (t, frames) v =
    elim (Bool-cases (not (sn.sn_less seq (t.head_seq_num + t.buf_size)))) [
      | inl e ↦ rw (e) (release_reorder_frames-IsCounted sn 4096 _ (t, frames) v)
      | inr e ↦ rw (e) v
    ]

abbrev pub Handles : Option (Rx × Bool) → Type 0
Handles o = (r : Rx × Bool) × (o ≡ some r) × IsCounted r.0.0

moved_head-IsCounted :
    (more : Bool) (head : ℕ) (t : TidAmpduRx)
    → IsCounted t
    → IsCounted (if more then t else record t { head_seq_num = head })
moved_head-IsCounted true head t v = v
moved_head-IsCounted false head t v = record {
  some_slots = v.some_slots;
  few_slots = v.few_slots;
  stored = v.stored;
}

place_frame-Handles :
    (sn : SeqNum) (now : Clock) (skb : Mpdu) (r : Rx)
    → IsCounted r.0
    → Handles (place_frame sn now skb r)
unfolding place_frame
place_frame-Handles sn now skb (t, frames) v =
    let index : ℕ = skb.seq_num % t.buf_size in
    elim (Bool-cases (rx_reorder_ready (t.reorder_buf index))) [
      | inl stored ↦ (((t, frames), true), rw (stored) refl, v)
      | inr empty ↦ elim (Bool-cases (skb.seq_num == t.head_seq_num && t.stored_mpdu_num == 0)) [
        | inl direct ↦
            let u : TidAmpduRx =
              if skb.amsdu_more then t else record t { head_seq_num = sn.sn_inc t.head_seq_num } in
            (
              ((u, frames), false),
              rw (empty, direct) refl,
              moved_head-IsCounted skb.amsdu_more (sn.sn_inc t.head_seq_num) t v,
            )
        | inr buffered ↦
            let r =
              store_frame-Keeps sn now index skb (t, frames) (slot_lt t skb.seq_num v) empty v in
            ((r.0, true), rw (empty, buffered, r.1) refl, r.2)
      ]
    ]

-- If a session has at least one slot and fewer than 2 ^ 16, and its counter is the number of its ready
-- slots, then a received frame is handled to the end, whatever the kernel's arithmetic of sequence
-- numbers is, and the counter is again the number of ready slots; the loop that makes room is taken for at
-- most 4096 rounds.
pub sta_manage_reorder_buf-Handles :
    (sn : SeqNum) (now : Clock) (skb : Mpdu) (r : Rx)
    → IsCounted r.0
    → Handles (sta_manage_reorder_buf sn now skb r)
unfolding sta_manage_reorder_buf
sta_manage_reorder_buf-Handles sn now skb (t, frames) v =
    let s : TidAmpduRx = start_auto skb t in
    let started : IsCounted s = start_auto-IsCounted skb t v in
    elim (Bool-cases (sn.sn_less skb.seq_num s.head_seq_num)) [
      | inl old ↦ (((s, frames), true), rw (old) refl, started)
      | inr new ↦
          let r =
            place_frame-Handles sn now skb (make_room sn skb.seq_num (s, frames))
              (make_room-IsCounted sn skb.seq_num (s, frames) started) in
          let step : sta_manage_reorder_buf sn now skb (t, frames)
              ≡ place_frame sn now skb (make_room sn skb.seq_num (s, frames)) =
            rw (new) refl in
          (r.0, step ∙ r.1, r.2)
    ]
