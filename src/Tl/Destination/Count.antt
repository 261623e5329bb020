-- ===== src/Tl/Destination/Count.antt =====
-- tl_rx_dst.c: the training frames that are counted, without a memory fault.
use mac.Base.{
  ◌>>=◌, if-true, sym, ℕ, zero, suc, ◌<◌, ◌≡◌, refl, ap, ◌∙◌, arith, Bool, true, false, ◌&&◌, List,
  [], ◌∷◌, Option, none, some, ◌==◌, ltb, if◌then◌else◌, length,
}
use mathlib.Core.Path.{subst}
use mac.Tl.Types.{same_addr, TrInfo}
use mac.Tl.Lists.{tr_info_create, info_made}
use mac.Tl.Rates.{cal_tx_time, quotient}
use mac.Tl.Message.{Tf, read_tf}
use mac.Tl.Source.State.{Kernel, Skb}
use mac.Tl.Destination.State.{Destination, count_frame, increment, eight_zeros}
use mac.Tl.Destination.Receive.{
  reset_info, new_info, count_first, count_first_or_new, receive_first, count_second,
  receive_second, free_skb, free_skb_if,
}

-- Eight counters, if there is a node.
abbrev pub HasCounters : Option TrInfo → Type 0
HasCounters none = Unit {0}
HasCounters (some i) = length i.rcv_num ≡ 8

-- Both nodes that are counted have eight counters, and the rate of the second hop is in the table.
pub record IsSound (s : Destination) : Type 0 where
  pub first : HasCounters s.tf1_info
  pub second : HasCounters s.tf2_info
  pub rate : s.mcs < 8

-- The handler returns, in a sound state, with `n` frames freed.
abbrev pub Runs : ℕ → Option Destination → Type 0
Runs n none = ⊥
Runs n (some t) = IsSound t × (t.freed ≡ n)

increment-length :
    (m : ℕ) (ns : List ℕ)
    → m < length ns
    → (r : List ℕ) × (increment m ns ≡ some r) × (length r ≡ length ns)
unfolding increment
increment-length m [] h = absurd (omega arith)
increment-length zero (n ∷ ns) h = (_, refl, refl)
increment-length (suc m) (n ∷ ns) h =
    let r = increment-length m ns (omega arith) in (n ∷ r.0, rw (r.1) refl, ap suc r.2)

count_frame-HasCounters :
    (m : ℕ) (i : TrInfo)
    → m < 8
    → length i.rcv_num ≡ 8
    → (j : TrInfo) × (count_frame m i ≡ some j) × (length j.rcv_num ≡ 8)
unfolding count_frame
count_frame-HasCounters m i h e =
    let r = increment-length m i.rcv_num (omega arith) in
    (
      record i { node = record i.node { rcv_num = r.0 } },
      ap
          (λ o. elim o [
            | none ↦ none
            | some rcv ↦ some (record i { node = record i.node { rcv_num = rcv } })
          ])
          r.1,
      r.2 ∙ e,
    )

pub cal_tx_time-some : (m n : ℕ) → m < 8 → (t : ℕ) × (cal_tx_time m n 1370 ≡ some t)
unfolding cal_tx_time quotient
cal_tx_time-some zero n h = (_, refl)
cal_tx_time-some (suc zero) n h = (_, refl)
cal_tx_time-some (suc (suc zero)) n h = (_, refl)
cal_tx_time-some (suc (suc (suc zero))) n h = (_, refl)
cal_tx_time-some (suc (suc (suc (suc zero)))) n h = (_, refl)
cal_tx_time-some (suc (suc (suc (suc (suc zero))))) n h = (_, refl)
cal_tx_time-some (suc (suc (suc (suc (suc (suc zero)))))) n h = (_, refl)
cal_tx_time-some (suc (suc (suc (suc (suc (suc (suc zero))))))) n h = (_, refl)
cal_tx_time-some (suc (suc (suc (suc (suc (suc (suc (suc m)))))))) n h = absurd (omega arith)

pub if-Runs :
    (n : ℕ) (b : Bool) (x y : Option Destination)
    → Runs n x
    → Runs n y
    → Runs n (if b then x else y)
if-Runs n true x y v w = v
if-Runs n false x y v w = w

count_first-Runs :
    (kernel : Kernel) (skb : Skb) (m : Tf) (i : TrInfo) (s : Destination)
    → m.mcs < 8
    → length i.rcv_num ≡ 8
    → IsSound s
    → Runs s.freed (count_first kernel skb m i s)
unfolding count_first
count_first-Runs kernel skb m i s h e v =
    let c = count_frame-HasCounters m.mcs i h e in
    let r = count_frame-HasCounters m.mcs (reset_info skb m i) h refl in
    if-Runs s.freed (same_addr i.addr skb.saddr && s.tf1_cur_index == m.index) _ _
      (rw (c.1) (record { first = c.2; second = v.second; rate = v.rate }, refl))
      (rw (r.1) (record { first = r.2; second = tt; rate = v.rate }, refl))

-- The node that `new_info` makes where memory is found.
abbrev pub made_info : Skb → Tf → TrInfo
made_info skb m = info_made skb.saddr skb.dev m.k eight_zeros 0 0

pub new_info-some :
    (kernel : Kernel) (skb : Skb) (m : Tf)
    → kernel.finds_node ≡ true
    → new_info kernel skb m ≡ some (made_info skb m)
unfolding tr_info_create
new_info-some kernel skb m found = if-true _ _ found

-- The next step after one that returns.
pub bind-Runs {ℓ} :
    {A : Type ℓ} (n : ℕ) {o : Option A} {a : A} (f : A → Option Destination)
    → o ≡ some a
    → Runs n (f a)
    → Runs n (o >>= f)
bind-Runs n f e v = subst (λ o. Runs n (o >>= f)) (sym e) v

count_second-Runs :
    (kernel : Kernel) (skb : Skb) (m : Tf) (i : TrInfo) (s : Destination)
    → kernel.finds_node ≡ true
    → m.mcs < 8
    → length i.rcv_num ≡ 8
    → IsSound s
    → Runs s.freed (count_second kernel skb m i s)
unfolding count_second
count_second-Runs kernel skb m i s found h e v =
    let c = count_frame-HasCounters m.mcs i h e in
    let r = count_frame-HasCounters m.mcs (reset_info skb m (made_info skb m)) h refl in
    if-Runs s.freed (same_addr i.addr skb.saddr && s.tf2_cur_index == m.index) _ _
      (rw (c.1) (record { first = v.first; second = c.2; rate = v.rate }, refl))
      (rw (new_info-some kernel skb m found, r.1)
        (record { first = tt; second = r.2; rate = v.rate }, refl))

pub receive_second-Runs :
    (kernel : Kernel) (skb : Skb) (s : Destination)
    → kernel.finds_node ≡ true
    → (read_tf skb.content).mcs < 8
    → IsSound s
    → Runs s.freed (receive_second kernel skb s)
unfolding receive_second
receive_second-Runs kernel skb s found h v =
    let m = read_tf skb.content in
    if-Runs s.freed (ltb m.k m.seq) _ _ (v, refl)
      (elim s.tf2_info
          as (λ o.
            HasCounters o
            → Runs s.freed (elim o [
              | none ↦ new_info kernel skb m >>= λ i. count_second kernel skb m i s
              | some i ↦ count_second kernel skb m i s
            ])) [
              | none ↦ λ _.
                  bind-Runs _ _ (new_info-some kernel skb m found)
                    (count_second-Runs kernel skb m (made_info skb m) s found h refl v)
              | some i ↦ λ e. count_second-Runs kernel skb m i s found h e v
            ]
        v.second)

count_first_or_new-Runs :
    (kernel : Kernel) (skb : Skb) (m : Tf) (s : Destination)
    → kernel.finds_node ≡ true
    → m.mcs < 8
    → IsSound s
    → Runs s.freed (count_first_or_new kernel skb m s)
unfolding count_first_or_new
count_first_or_new-Runs kernel skb m s found h v =
    elim s.tf1_info
        as (λ o.
          HasCounters o
          → Runs s.freed (elim o [
            | none ↦ new_info kernel skb m >>= λ i.
                count_first kernel skb m i (record s { tf1_cur_index = m.index })
            | some i ↦ count_first kernel skb m i s
          ])) [
            | none ↦ λ _. bind-Runs _ _ (new_info-some kernel skb m found) (
                count_first-Runs kernel skb m (made_info skb m)
                  (record s { tf1_cur_index = m.index }) h refl
                  (record { first = v.first; second = v.second; rate = v.rate }))
            | some i ↦ λ e. count_first-Runs kernel skb m i s h e v
          ]
      v.first

pub free_skb-Runs : (n : ℕ) (o : Option Destination) → Runs n o → Runs (suc n) (free_skb o)
free_skb-Runs n none v = v
free_skb-Runs n (some t) v =
    (record { first = v.0.first; second = v.0.second; rate = v.0.rate }, ap suc v.1)

-- Both ends of `receive_first` for a rate that the table has free the frame.
free_skb_if-Runs :
    (n : ℕ) (b : Bool) (s : Destination) (o : Option Destination)
    → IsSound s
    → s.freed ≡ n
    → Runs n o
    → Runs (suc n) (
        free_skb_if
          (if b then some (s, true) else elim o [ none ↦ none | some t ↦ some (t, true) ]))
free_skb_if-Runs n true s o v e w = free_skb-Runs n (some s) (v, e)
free_skb_if-Runs n false s none v e w = w
free_skb_if-Runs n false s (some t) v e w = free_skb-Runs n (some t) w

ltb_above : (m : ℕ) → m < 8 → ltb 8 m ≡ false
ltb_above m h = ground arith

pub receive_first-Runs :
    (kernel : Kernel) (skb : Skb) (s : Destination)
    → kernel.finds_node ≡ true
    → (read_tf skb.content).mcs < 8
    → IsSound s
    → Runs (suc s.freed) (free_skb_if (receive_first kernel skb s))
unfolding receive_first
receive_first-Runs kernel skb s found h v =
    let m = read_tf skb.content in
    rw (receive_first, ltb_above m.mcs h)
      (free_skb_if-Runs s.freed (ltb m.k m.seq) s (count_first_or_new kernel skb m s) v refl
        (count_first_or_new-Runs kernel skb m s found h v))
