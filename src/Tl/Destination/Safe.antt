-- ===== src/Tl/Destination/Safe.antt =====
-- tl_rx_dst.c: which frames are received without an access through NULL or outside an array.
use mac.Base.{
  ◌>>=◌, if-true, ◌≤◌, Option-cases, List, ℕ, zero, suc, ◌+◌, ◌/◌, ◌<◌, ◌≡◌, refl, ◌∙◌, arith, Bool,
  true, false, not, [], ◌∷◌, none, some, ◌==◌, ltb, if◌then◌else◌, inl, inr, Bool-cases, ◌++◌,
}
use mathlib.Core.Path.{subst}
use mathlib.Core.Option.{some-ne-none}
use mac.Tl.Types.{Addr, Device, same_addr, TrInfo}
use mac.Tl.Lists.{tr_info_create, info_made, tr_info_find_addr}
use mac.Tl.Rates.{u64, u8}
use mac.Tl.Message.{
  type_one_tf, type_two_tf, type_two_tr, send_tf, set_relay, type_code, get32, read_tr, read_tf,
  tl_alloc_skb, write_tf,
}
use mac.Tl.Source.State.{Kernel, Skb}
use mac.Tl.Source.Training.{multicast_addr}
use mac.Tl.Source.Receive.{learn_node}
use mac.Tl.Destination.State.{Destination, eight_zeros}
use mac.Tl.Destination.Report.{tl_2hop_mcs_send_timer_func, start_second, send_second}
use mac.Tl.Destination.Receive.{
  receive_second_report, receive_send, receive_relay, init_destination, bytes_read,
  tl_receive_skb_dst,
}
use mac.Tl.Destination.Count.{
  HasCounters, IsSound, Runs, cal_tx_time-some, if-Runs, receive_first-Runs, receive_second-Runs,
  free_skb-Runs, bind-Runs,
}

-- What the training frames of the second hop leave as it is.
record Keeps (s t : Destination) : Type 0 where
  first : t.tf1_info ≡ s.tf1_info
  second : t.tf2_info ≡ s.tf2_info
  rate : t.mcs ≡ s.mcs
  freed : t.freed ≡ s.freed

send_second-Keeps :
    (kernel : Kernel) (left i : ℕ) (sdf : TrInfo) (s : Destination)
    → Keeps s (send_second kernel left i sdf s)
unfolding send_second
send_second-Keeps kernel zero i sdf s = record {
  first = refl;
  second = refl;
  rate = refl;
  freed = refl;
}
send_second-Keeps kernel (suc left) i sdf s =
    elim (tl_alloc_skb (kernel.room i) kernel.junk s.dev_send2 multicast_addr s.dev_send2.dev_addr
        1370 type_two_tf)
      as (λ a. Keeps s (
        send_second kernel left (suc i) sdf (elim a [
          | none ↦ s
          | some f ↦ record s {
            sent =
                s.sent
                ++ (record f { bytes = write_tf sdf.total_num i s.tr_id s.mcs f.bytes }, some s.mcs)
                  ∷ [];
          }
        ]))) [
          | none ↦ send_second-Keeps kernel left (suc i) sdf s
          | some f ↦
              let k = send_second-Keeps kernel left (suc i) sdf _ in
              record { first = k.first; second = k.second; rate = k.rate; freed = k.freed }
        ]

start_second-Keeps : (kernel : Kernel) (s : Destination) → Keeps s (start_second kernel s)
unfolding start_second
start_second-Keeps kernel s =
    elim (s.mcs == 0)
      as (λ b.
        Keeps s (if b then record s { hop_timer = none; tr_id = id; last_tf2_id = id } else s)) [
          | true ↦ record { first = refl; second = refl; rate = refl; freed = refl }
          | false ↦ record { first = refl; second = refl; rate = refl; freed = refl }
        ]
  where
    id : ℕ
    id = if kernel.random_id == s.last_tf2_id then kernel.second_id else kernel.random_id

-- With a node to answer, the sending of a training round of the second hop returns.
hop_timer-Runs :
    (kernel : Kernel) (sdf : TrInfo) (s : Destination)
    → s.sdf_info ≡ some sdf
    → IsSound s
    → Runs s.freed (tl_2hop_mcs_send_timer_func kernel s)
unfolding tl_2hop_mcs_send_timer_func
hop_timer-Runs kernel sdf s e v =
    let s1 = start_second kernel s in
    let a = start_second-Keeps kernel s in
    let s2 = send_second kernel sdf.total_num 0 sdf s1 in
    let b = send_second-Keeps kernel sdf.total_num 0 sdf s1 in
    let rate : s2.mcs < 8 = rw (b.rate, a.rate) v.rate in
    let one : HasCounters s2.tf1_info = rw (b.first, a.first) v.first in
    let two : HasCounters s2.tf2_info = rw (b.second, a.second) v.second in
    let freed : s2.freed ≡ s.freed = b.freed ∙ a.freed in
    let time = cal_tx_time-some s2.mcs (u8 sdf.total_num) rate in
    elim (Bool-cases (ltb s2.mcs 7)) [
      | inl t ↦
          rw (tl_2hop_mcs_send_timer_func, e, t, time.1)
            (record { first = one; second = two; rate = ground arith }, freed)
      | inr f ↦
          rw (tl_2hop_mcs_send_timer_func, e, f)
            (record { first = one; second = two; rate = omega arith }, freed)
    ]

tr_info_create-some :
    (room : Bool) (addr : Addr) (dev : Device) (k : ℕ) (rcv : List ℕ) (rssi batt : ℕ)
    → room ≡ true
    → tr_info_create room addr dev k rcv rssi batt ≡ some (info_made addr dev k rcv rssi batt)
unfolding tr_info_create
tr_info_create-some room addr dev k rcv rssi batt found = if-true _ _ found

learn_node-some :
    (room : Bool) (skb : Skb) (k rssi batt : ℕ) (rcv : List ℕ) (list : List TrInfo)
    → room ≡ true
    → (list' : List TrInfo) × (learn_node room skb k rssi batt rcv list ≡ some list')
unfolding learn_node
learn_node-some room skb k rssi batt rcv list found =
    elim (Option-cases (learn_node room skb k rssi batt rcv list)) [
      | inr r ↦ r
      | inl n ↦ absurd (elim (Option-cases (tr_info_find_addr list skb.saddr)) [
        | inl e ↦ some-ne-none _ (
            rw (learn_node, e, tr_info_create-some room skb.saddr skb.dev k rcv rssi batt found) at
              n)
        | inr (i, e) ↦ some-ne-none _ (rw (learn_node, e) at n)
      ])
    ]

receive_send-Runs :
    (kernel : Kernel) (skb : Skb) (s : Destination)
    → kernel.finds_node ≡ true
    → IsSound s
    → Runs s.freed (receive_send kernel skb s)
unfolding receive_send
receive_send-Runs kernel skb s found v =
    let k : ℕ = get32 skb.content 1 in
    let sdf : TrInfo = info_made skb.saddr skb.dev k eight_zeros 0 0 in
    let made : tr_info_create kernel.finds_node skb.saddr skb.dev k eight_zeros 0 0 ≡ some sdf =
      tr_info_create-some _ skb.saddr skb.dev k eight_zeros 0 0 found in
    if-Runs s.freed (not (same_addr skb.dev.dev_addr skb.daddr)) _ _ (v, refl)
      (elim s.sdf_info
        as (λ o. Runs s.freed (elim o [
          | none ↦ tr_info_create kernel.finds_node skb.saddr skb.dev k eight_zeros 0 0 >>= λ sdf.
              tl_2hop_mcs_send_timer_func kernel
                (record s { dev_send2 = skb.dev; sdf_info = some sdf })
          | some i ↦ some s
        ])) [
          | none ↦ bind-Runs _ _ made (
              hop_timer-Runs kernel sdf (record s { dev_send2 = skb.dev; sdf_info = some sdf }) refl
                (record { first = v.first; second = v.second; rate = v.rate }))
          | some i ↦ (v, refl)
        ])

some_if-Runs :
    (n : ℕ) (b : Bool) (x y : Destination)
    → Runs n (some x)
    → Runs n (some y)
    → Runs n (some (if b then x else y))
some_if-Runs n true x y v w = v
some_if-Runs n false x y v w = w

receive_second_report-Runs :
    (kernel : Kernel) (skb : Skb) (s : Destination)
    → kernel.finds_node ≡ true
    → IsSound s
    → Runs s.freed (receive_second_report kernel skb s)
unfolding receive_second_report
receive_second_report-Runs kernel skb s found v =
    let m = read_tr skb.content in
    if-Runs s.freed (not (same_addr skb.dev.dev_addr skb.daddr)) _ _ (v, refl)
      (elim s.sdf_info
        as (λ o. Runs s.freed (elim o [
          | none ↦ some s
          | some sdf ↦
              learn_node kernel.finds_node skb sdf.total_num m.rssi m.batt m.rcv s.tr2_list
              >>= λ list. some (record s {
                tr2_list = list;
                tr2_timer = some (u64 (kernel.jiffies + kernel.hz / 5));
              })
        ])) [
          | none ↦ (v, refl)
          | some sdf ↦
              let r =
                learn_node-some kernel.finds_node skb sdf.total_num m.rssi m.batt m.rcv s.tr2_list
                  found in
              bind-Runs _ _ r.1 (record { first = v.first; second = v.second; rate = v.rate }, refl)
        ])

receive_relay-Runs :
    (skb : Skb) (s : Destination) → IsSound s → Runs s.freed (some (receive_relay skb s))
unfolding receive_relay
receive_relay-Runs skb s v =
    some_if-Runs s.freed (not (same_addr skb.dev.dev_addr skb.daddr)) _ _ (v, refl)
      (record { first = v.first; second = v.second; rate = v.rate }, refl)

init_destination-Runs : (s : Destination) → IsSound s → Runs s.freed (some (init_destination s))
unfolding init_destination
init_destination-Runs s v =
    some_if-Runs s.freed s.for_init _ _
      (record { first = v.first; second = v.second; rate = v.rate }, refl) (v, refl)

-- Let memory be found for a node, both counted nodes have eight counters, and the rate of the second hop be
-- below eight. A frame that has all bytes that the handler reads, with a rate below eight at the place of a
-- training frame's rate, is then received without a memory fault: the handler returns in such a state again,
-- with the frame freed once.
pub tl_receive_skb_dst-Runs :
    (kernel : Kernel) (skb : Skb) (s : Destination)
    → kernel.finds_node ≡ true
    → bytes_read skb ≤ skb.len
    → (read_tf skb.content).mcs < 8
    → IsSound s
    → Runs (suc s.freed) (tl_receive_skb_dst kernel skb s)
unfolding tl_receive_skb_dst
tl_receive_skb_dst-Runs kernel skb s found whole h v =
    let d = init_destination s in
    let w = init_destination-Runs s v in
    let long : ltb skb.len (bytes_read skb) ≡ false = ground (arith, whole) in
    let all : Runs (suc d.freed) (tl_receive_skb_dst kernel skb s) = rw (long) (
      if-Runs (suc d.freed) (skb.content 0 == type_code type_one_tf) _ _
        (receive_first-Runs kernel skb d found h w.0)
        (if-Runs (suc d.freed) (skb.content 0 == type_code type_two_tf) _ _
          (free_skb-Runs d.freed _ (receive_second-Runs kernel skb d found h w.0))
          (if-Runs (suc d.freed) (skb.content 0 == type_code type_two_tr) _ _
            (free_skb-Runs d.freed _ (receive_second_report-Runs kernel skb d found w.0))
            (if-Runs (suc d.freed) (skb.content 0 == type_code send_tf) _ _
              (free_skb-Runs d.freed _ (receive_send-Runs kernel skb d found w.0))
              (if-Runs (suc d.freed) (skb.content 0 == type_code set_relay) _ _
                (free_skb-Runs d.freed (some (receive_relay skb d)) (receive_relay-Runs skb d w.0))
                (free_skb-Runs d.freed (some d) (w.0, refl))))))) in
    subst (λ n. Runs (suc n) (tl_receive_skb_dst kernel skb s)) w.1 all
