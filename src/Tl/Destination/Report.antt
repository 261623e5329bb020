-- ===== src/Tl/Destination/Report.antt =====
-- tl_rx_dst.c: the timers, which send the reports and the training frames of the second hop. `none` is
-- an access through NULL or outside an array.
use mac.Base.{
  ℕ, zero, suc, ◌+◌, ◌*◌, ◌/◌, List, [], ◌∷◌, ◌++◌, Option, none, some, ◌==◌, ltb, if◌then◌else◌,
  length, map,
}
use mac.Mnc.Substitute.{store}
use mac.Tl.Types.{TrInfo}
use mac.Tl.Rates.{u32, u64, u8, cal_tx_time, get_tot_rcv}
use mac.Tl.Message.{
  Frame, TrType, type_two_tf, type_one_tr, type_two_tr, send_tf, set_relay, type_one_tf, nbr_rpt,
  tl_alloc_skb, put32, write_tr, write_tf, write_nbrs,
}
use mac.Tl.Source.State.{Kernel, pending}
use mac.Tl.Source.Training.{multicast_addr}
use mac.Tl.Destination.State.{Destination}

unfoldable pub tl_rx_tr2_timer_func : Kernel → Destination → Destination
tl_rx_tr2_timer_func kernel s = elim s.tr2_list [
  | [] ↦ s
  | info ∷ rest ↦ elim s.sdf_info [
    | none ↦ s
    | some sdf ↦
        let qlen = length (info ∷ rest) in
        elim (tl_alloc_skb (kernel.room 0) kernel.junk info.dev sdf.addr info.dev.dev_addr
          (u32 (14 + 6 + 40 * qlen)) nbr_rpt) [
            | none ↦ record s { sdf_info = none }
            | some f ↦ record s {
              sdf_info = none;
              tr2_list = [];
              sent =
                  s.sent
                  ++ (
                    record f {
                      bytes =
                          write_nbrs 0 (map (λ (i : TrInfo). i.node) (info ∷ rest))
                            (store (put32 15 sdf.total_num f.bytes) 19 (u8 qlen));
                    },
                    none,
                  )
                    ∷ [];
            }
          ]
  ]
]

-- The report of the round whose frames are no longer coming.
unfoldable pub send_report :
    Kernel → TrType → TrInfo → List (Frame × Option ℕ) → List (Frame × Option ℕ)
send_report kernel rpt_type i sent =
    elim (tl_alloc_skb (kernel.room 0) kernel.junk i.dev i.addr i.dev.dev_addr 49 rpt_type) [
      | none ↦ sent
      | some f ↦ sent ++ (record f { bytes = write_tr i.node f.bytes }, none) ∷ []
    ]

unfoldable pub tl_rx_tf_timer_func : Kernel → TrType → Destination → Option Destination
unfolding send_report
tl_rx_tf_timer_func kernel type_one_tr s = elim s.tf1_info [
  | none ↦ none
  | some i ↦
      if ltb s.tf1_prev_rcv_num (get_tot_rcv i.rcv_num)
      then some (record s {
        tf1_prev_rcv_num = get_tot_rcv i.rcv_num;
        tf1_timer = some (u64 (kernel.jiffies + kernel.hz));
      })
      else some (record s { tf1_timer = none; sent = send_report kernel type_one_tr i s.sent })
]
tl_rx_tf_timer_func kernel type_two_tr s = elim s.tf2_info [
  | none ↦ none
  | some i ↦
      if ltb s.tf2_prev_rcv_num (get_tot_rcv i.rcv_num)
      then some (record s {
        tf2_prev_rcv_num = get_tot_rcv i.rcv_num;
        tf2_timer = some (u64 (kernel.jiffies + kernel.hz));
      })
      else some (record s { tf2_timer = none; sent = send_report kernel type_two_tr i s.sent })
]
tl_rx_tf_timer_func kernel type_one_tf s = some s
tl_rx_tf_timer_func kernel type_two_tf s = some s
tl_rx_tf_timer_func kernel send_tf s = some s
tl_rx_tf_timer_func kernel nbr_rpt s = some s
tl_rx_tf_timer_func kernel set_relay s = some s

-- The loop of `tl_2hop_mcs_send_timer_func`: frame `i`, with the rounds left.
unfoldable pub send_second : Kernel → ℕ → ℕ → TrInfo → Destination → Destination
send_second kernel zero i sdf s = s
send_second kernel (suc left) i sdf s =
    let frame =
      tl_alloc_skb (kernel.room i) kernel.junk s.dev_send2 multicast_addr s.dev_send2.dev_addr 1370
        type_two_tf in
    let s' : Destination = elim frame [
      | none ↦ s
      | some f ↦ record s {
        sent =
            s.sent
            ++ (record f { bytes = write_tf sdf.total_num i s.tr_id s.mcs f.bytes }, some s.mcs)
              ∷ [];
      }
    ] in
    send_second kernel left (suc i) sdf s'

-- A new identifier when a round starts; `setup_timer` leaves the timer idle.
unfoldable pub start_second : Kernel → Destination → Destination
start_second kernel s =
    let id = if kernel.random_id == s.last_tf2_id then kernel.second_id else kernel.random_id in
    if s.mcs == 0 then record s { hop_timer = none; tr_id = id; last_tf2_id = id } else s

unfoldable pub tl_2hop_mcs_send_timer_func : Kernel → Destination → Option Destination
unfolding start_second send_second
tl_2hop_mcs_send_timer_func kernel s = elim s.sdf_info [
  | none ↦ none
  | some sdf ↦
      let s1 = start_second kernel s in
      let s2 = send_second kernel sdf.total_num 0 sdf s1 in
      if ltb s2.mcs 7
      then elim (cal_tx_time s2.mcs (u8 sdf.total_num) 1370) [
        | none ↦ none
        | some time ↦ some (record s2 {
          hop_timer =
              if pending s2.hop_timer
              then s2.hop_timer
              else some (u64 (kernel.jiffies + kernel.ms_to_jiffies (time / 1000)));
          mcs = suc s2.mcs;
        })
      ]
      else some (record s2 { hop_timer = none; mcs = 0 })
]
