-- ===== src/Tl/Source/Keeps.antt =====
-- tl_rx_src.c: what the training frames leave as it is.
use mac.Base.{
  ℕ, zero, suc, ◌+◌, ◌≡◌, refl, arith, true, false, [], ◌∷◌, none, some, if◌then◌else◌, ◌==◌, ◌∙◌,
  ap, ltb, ◌/◌, not, ◌++◌,
}
use mathlib.Core.Option.{none-ne-some}
use mathlib.Core.Path.{subst}
use mac.Tl.Types.{tr_set_param}
use mac.Mnc.Substitute.{Vector}
use mac.Tl.Rates.{u8, u64, cal_tx_time}
use mac.Tl.Message.{type_one_tf, tl_alloc_skb, write_tf}
use mac.Tl.Source.State.{Kernel, Skb, Source, pending}
use mac.Tl.Source.Training.{
  multicast_addr, send_training, start_round, tl_mcs_send_timer_func, tl_start_check,
}

-- What the training frames leave as it is.
pub record Keeps (s t : Source) : Type 0 where
  pub polling : t.polling_state ≡ s.polling_state
  pub list : t.src_nbr_list ≡ s.src_nbr_list
  pub timer : t.tr1_timer ≡ s.tr1_timer

Keeps-trans : {s t u : Source} → Keeps s t → Keeps t u → Keeps s u
Keeps-trans a b = record {
  polling = b.polling ∙ a.polling;
  list = b.list ∙ a.list;
  timer = b.timer ∙ a.timer;
}

some-Keeps : {s t u : Source} → Keeps s t → some t ≡ some u → Keeps s u
some-Keeps {s} {t} v e = subst (Keeps s) (ap (λ o. elim o [ none ↦ t | some x ↦ x ]) e) v

send_training-Keeps :
    (kernel : Kernel) (left i : ℕ) (s : Source) → Keeps s (send_training kernel left i s)
unfolding send_training
send_training-Keeps kernel zero i s = record { polling = refl; list = refl; timer = refl }
send_training-Keeps kernel (suc left) i s =
    elim (tl_alloc_skb (kernel.room i) kernel.junk s.dev_send multicast_addr s.dev_send.dev_addr
        1370 type_one_tf)
      as (λ a. Keeps s (
        send_training kernel left (suc i) (elim a [
          | none ↦ s
          | some f ↦ record s {
            sent =
                s.sent
                ++ (record f { bytes = write_tf s.param.tf_k i s.tr_id s.mcs f.bytes }, some s.mcs)
                  ∷ [];
          }
        ]))) [
          | none ↦ send_training-Keeps kernel left (suc i) s
          | some f ↦
              let k = send_training-Keeps kernel left (suc i) _ in
              record { polling = k.polling; list = k.list; timer = k.timer }
        ]

start_round-Keeps : (kernel : Kernel) (s : Source) → Keeps s (start_round kernel s)
unfolding start_round
start_round-Keeps kernel s =
    elim (s.mcs == 0)
      as (λ b.
        Keeps s (if b then record s { mcs_timer = none; tr_id = id; last_tr_id = id } else s)) [
          | true ↦ record { polling = refl; list = refl; timer = refl }
          | false ↦ record { polling = refl; list = refl; timer = refl }
        ]
  where
    id : ℕ
    id = if kernel.random_id == s.last_tr_id then kernel.second_id else kernel.random_id

pub mcs_timer-Keeps :
    (kernel : Kernel) (s t : Source) → tl_mcs_send_timer_func kernel s ≡ some t → Keeps s t
unfolding tl_mcs_send_timer_func
mcs_timer-Keeps kernel s t e =
    let s1 = start_round kernel s in
    let s2 = send_training kernel s1.param.tf_k 0 s1 in
    let v2 =
      Keeps-trans (start_round-Keeps kernel s) (send_training-Keeps kernel s1.param.tf_k 0 s1) in
    elim (ltb s2.mcs 7)
        as (λ b.
          (if b
              then elim (cal_tx_time s2.mcs (u8 s2.param.tf_k) 1370) [
                | none ↦ none
                | some time ↦ some (record s2 {
                  mcs_timer =
                      if pending s2.mcs_timer
                      then s2.mcs_timer
                      else some (u64 (kernel.jiffies + kernel.ms_to_jiffies (time / 1000)));
                  mcs = suc s2.mcs;
                })
              ]
              else some (record s2 { mcs_timer = none; mcs = 0 }))
            ≡ some t
          → Keeps s t) [
            | true ↦
                elim (cal_tx_time s2.mcs (u8 s2.param.tf_k) 1370)
                  as (λ c.
                    (elim c [
                      | none ↦ none
                      | some time ↦ some (record s2 {
                        mcs_timer =
                            if pending s2.mcs_timer
                            then s2.mcs_timer
                            else some (u64 (kernel.jiffies + kernel.ms_to_jiffies (time / 1000)));
                        mcs = suc s2.mcs;
                      })
                    ])
                      ≡ some t
                    → Keeps s t) [
                      | none ↦ λ e. absurd (none-ne-some t e)
                      | some time ↦
                          some-Keeps
                            (record { polling = v2.polling; list = v2.list; timer = v2.timer })
                    ]
            | false ↦ some-Keeps (record { polling = v2.polling; list = v2.list; timer = v2.timer })
          ]
      e

pub start_check-restarts :
    (kernel : Kernel) (skb : Skb) (s t : Source)
    → tl_start_check kernel skb s ≡ some (t, true)
    → (t.src_nbr_list ≡ []) × (t.tr1_timer ≡ s.tr1_timer)
unfolding tl_start_check
start_check-restarts kernel skb s t h =
    let d : Vector = λ o. skb.content (42 + o) in
    let x : Source = record (record s { tl_start = kernel.now }) {
      dev_send = skb.dev;
      param = tr_set_param true (not (d 16 == 0)) (d 17) (d 18) (d 19) (d 20) (d 21);
      src_nbr_list = [];
    } in
    let list : tl_mcs_send_timer_func kernel x ≡ some t → t.src_nbr_list ≡ [] =
      λ e. (mcs_timer-Keeps kernel x t e).list in
    let timer : tl_mcs_send_timer_func kernel x ≡ some t → t.tr1_timer ≡ s.tr1_timer =
      λ e. (mcs_timer-Keeps kernel x t e).timer in
    ground arith

-- A frame that starts no training leaves the list and the timer.
pub start_check-stays :
    (kernel : Kernel) (skb : Skb) (s t : Source)
    → tl_start_check kernel skb s ≡ some (t, false)
    → (t.src_nbr_list ≡ s.src_nbr_list) × (t.tr1_timer ≡ s.tr1_timer)
unfolding tl_start_check
start_check-stays kernel skb s t h = ground arith
