-- ===== src/Tl/Source/Training.antt =====
-- tl_rx_src.c: the start of a training and the training frames.
use mac.Base.{
  ℕ, zero, suc, ◌+◌, ◌*◌, ◌/◌, Bool, true, false, not, ◌&&◌, [], ◌∷◌, ◌++◌, Option, none, some,
  ◌==◌, ltb, if◌then◌else◌,
}
use mac.Mnc.Substitute.{Vector}
use mac.Tl.Types.{Addr, tr_set_param}
use mac.Tl.Rates.{u64, u8, cal_tx_time}
use mac.Tl.Message.{type_one_tf, tl_alloc_skb, write_tf}
use mac.Tl.Source.State.{Kernel, Skb, Source, pending}

abbrev pub multicast_addr : Addr
multicast_addr = 0x01 ∷ 0x00 ∷ 0x5e ∷ 0x00 ∷ 0x00 ∷ 0x01 ∷ []

-- The loop of `tl_mcs_send_timer_func`: frame `i`, with the rounds left; a failed allocation sends none.
unfoldable pub send_training : Kernel → ℕ → ℕ → Source → Source
send_training kernel zero i s = s
send_training kernel (suc left) i s =
    let frame =
      tl_alloc_skb (kernel.room i) kernel.junk s.dev_send multicast_addr s.dev_send.dev_addr 1370
        type_one_tf in
    let s' : Source = elim frame [
      | none ↦ s
      | some f ↦ record s {
        sent =
            s.sent
            ++ (record f { bytes = write_tf s.param.tf_k i s.tr_id s.mcs f.bytes }, some s.mcs)
              ∷ [];
      }
    ] in
    send_training kernel left (suc i) s'

-- A new identifier when a round starts; `setup_timer` leaves the timer idle.
unfoldable pub start_round : Kernel → Source → Source
start_round kernel s =
    let id = if kernel.random_id == s.last_tr_id then kernel.second_id else kernel.random_id in
    if s.mcs == 0 then record s { mcs_timer = none; tr_id = id; last_tr_id = id } else s

-- `none` is an index outside the rate table.
unfoldable pub tl_mcs_send_timer_func : Kernel → Source → Option Source
unfolding start_round send_training
tl_mcs_send_timer_func kernel s =
    let s1 = start_round kernel s in
    let s2 = send_training kernel s1.param.tf_k 0 s1 in
    if ltb s2.mcs 7
    then elim (cal_tx_time s2.mcs (u8 s2.param.tf_k) 1370) [
      | none ↦ none
      | some time ↦ some (record s2 {
        mcs_timer =
            if pending s2.mcs_timer
            then s2.mcs_timer
            else some (u64 (kernel.jiffies + kernel.ms_to_jiffies (time / 1000)));
        mcs = suc s2.mcs;
      })
    ]
    else some (record s2 { mcs_timer = none; mcs = 0 })

-- `memcmp(port, data + ii, 2)` for the eight places.
unfoldable pub ports_match : ℕ → ℕ → Vector → Vector → Bool
ports_match zero i port d = true
ports_match (suc left) i port d =
    if port 0 == d (i * 2) && port 1 == d (i * 2 + 1)
    then ports_match left (suc i) port d
    else false

-- The new state, and whether the frame started a training.
unfoldable pub tl_start_check : Kernel → Skb → Source → Option (Source × Bool)
unfolding ports_match tl_mcs_send_timer_func tr_set_param
tl_start_check kernel skb s =
    let d : Vector = λ o. skb.content (42 + o) in
    if ltb skb.len 64
    then some (s, false)
    else if not (ports_match 8 0 skb.transport d)
    then some (s, false)
    else let s' = record s { tl_start = kernel.now } in
      if s.polling_state
      then some (s', false)
      else elim (tl_mcs_send_timer_func kernel (record s' {
        dev_send = skb.dev;
        param = tr_set_param true (not (d 16 == 0)) (d 17) (d 18) (d 19) (d 20) (d 21);
        src_nbr_list = [];
      })) [ none ↦ none | some t ↦ some (t, true) ]
