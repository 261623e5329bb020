-- ===== src/Tl/Destination/Fault.antt =====
-- tl_rx_dst.c: the rate that passes the test of `tl_receive_skb_dst` but has no counter.
use mac.Base.{
  ◌>>=◌, if-true, if-false, Option, ℕ, zero, suc, ◌≡◌, refl, ap, ◌∙◌, arith, true, false, ◌&&◌,
  List, [], ◌∷◌, none, some, ◌==◌, ltb, if◌then◌else◌, length, inl, inr, Bool-cases,
}
use mac.Tl.Types.{same_addr, TrInfo}
use mac.Tl.Lists.{tr_info_create}
use mac.Tl.Message.{Tf, read_tf}
use mac.Tl.Source.State.{Kernel, Skb}
use mac.Tl.Destination.State.{Destination, count_frame, increment}
use mac.Tl.Destination.Receive.{
  reset_info, new_info, count_first, count_first_or_new, receive_first, init_destination,
  tl_receive_skb_dst, bytes_read,
}
use mac.Tl.Destination.Count.{made_info, HasCounters, IsSound}

increment-none : (m : ℕ) (ns : List ℕ) → length ns ≡ m → increment m ns ≡ none
unfolding increment
increment-none m [] h = refl
increment-none zero (n ∷ ns) h = absurd (omega arith)
increment-none (suc m) (n ∷ ns) h = rw (increment-none m ns (omega arith)) refl

count_frame-none : (i : TrInfo) → length i.rcv_num ≡ 8 → count_frame 8 i ≡ none
unfolding count_frame
count_frame-none i h = rw (count_frame, increment-none 8 i.rcv_num h) refl

-- No branch of the counting has a counter for the rate eight.
count_first-none :
    (kernel : Kernel) (skb : Skb) (m : Tf) (i : TrInfo) (s : Destination)
    → m.mcs ≡ 8
    → length i.rcv_num ≡ 8
    → count_first kernel skb m i s ≡ none
unfolding count_first
count_first-none kernel skb m i s e h =
    let same = ap (λ r. count_frame r i) e ∙ count_frame-none i h in
    let other =
      ap (λ r. count_frame r (reset_info skb m i)) e ∙ count_frame-none (reset_info skb m i) refl in
    elim (Bool-cases (same_addr i.addr skb.saddr && s.tf1_cur_index == m.index)) [
      | inl b ↦ rw (count_first, b, same) refl
      | inr b ↦ rw (count_first, b, other) refl
    ]

-- Whether memory is found for the node or not.
new_info-none :
    (kernel : Kernel) (skb : Skb) (m : Tf) (f : TrInfo → Option Destination)
    → f (made_info skb m) ≡ none
    → (new_info kernel skb m >>= f) ≡ none
unfolding tr_info_create
new_info-none kernel skb m f e = elim (Bool-cases kernel.finds_node) [
  | inl found ↦ ap (λ o. o >>= f) (if-true _ _ found) ∙ e
  | inr lacks ↦ ap (λ o. o >>= f) (if-false _ _ lacks)
]

count_first_or_new-none :
    (kernel : Kernel) (skb : Skb) (m : Tf) (s : Destination)
    → m.mcs ≡ 8
    → HasCounters s.tf1_info
    → count_first_or_new kernel skb m s ≡ none
unfolding count_first_or_new
count_first_or_new-none kernel skb m s e v =
    elim s.tf1_info
        as (λ o.
          HasCounters o
          → (elim o [
            | none ↦ new_info kernel skb m >>= λ i.
                count_first kernel skb m i (record s { tf1_cur_index = m.index })
            | some i ↦ count_first kernel skb m i s
          ])
            ≡ none) [
              | none ↦ λ _.
                  new_info-none kernel skb m
                    (λ i. count_first kernel skb m i (record s { tf1_cur_index = m.index }))
                    (count_first-none kernel skb m (made_info skb m)
                      (record s { tf1_cur_index = m.index }) e refl)
              | some i ↦ λ h. count_first-none kernel skb m i s e h
            ]
      v

-- In a sound state a training frame of the first kind with the rate eight, whose number is not above
-- its count, passes the handler's test of the rate, and then, where the frame has all its bytes and memory is
-- found, a counter outside the array is written; where not, there is a fault before.
pub tl_receive_skb_dst-fault :
    (kernel : Kernel) (skb : Skb) (s : Destination)
    → skb.content 0 ≡ 1
    → (read_tf skb.content).mcs ≡ 8
    → ltb (read_tf skb.content).k (read_tf skb.content).seq ≡ false
    → IsSound s
    → tl_receive_skb_dst kernel skb s ≡ none
unfolding tl_receive_skb_dst receive_first init_destination
tl_receive_skb_dst-fault kernel skb s kind rate order v =
    let d = init_destination s in
    let first : HasCounters d.tf1_info =
      elim s.for_init
        as (λ b.
          HasCounters
            (if b
              then record s {
                for_init = false;
                tr2_list = [];
                tf1_timer = none;
                tf2_timer = none;
                tr2_timer = none;
              }
              else s).tf1_info) [ true ↦ v.first | false ↦ v.first ] in
    let e = count_first_or_new-none kernel skb (read_tf skb.content) d rate first in
    elim (Bool-cases (ltb skb.len (bytes_read skb))) [
      | inl short ↦ rw (tl_receive_skb_dst, short) refl
      | inr long ↦ rw (tl_receive_skb_dst, long, receive_first, kind, rate, order, e) refl
    ]
