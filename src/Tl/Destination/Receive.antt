-- ===== src/Tl/Destination/Receive.antt =====
-- tl_rx_dst.c: `tl_receive_skb_dst`. `none` is an access through NULL or outside an array.

use mac.Base.{
  ◌>>=◌, ◌||◌, ℕ, suc, ◌+◌, ◌/◌, Bool, true, false, not, ◌&&◌, [], Option, none, some, ◌==◌, ltb,
  if◌then◌else◌,
}
use mac.Tl.Types.{same_addr, TrInfo, TrParam, tr_set_param}
use mac.Tl.Lists.{tr_info_create}
use mac.Tl.Rates.{u64}
use mac.Tl.Message.{
  type_one_tf, type_two_tf, type_two_tr, send_tf, set_relay, type_code, get32, read_tr, Tf, read_tf,
}
use mac.Tl.Source.State.{Kernel, Skb, pending}
use mac.Tl.Source.Receive.{learn_node}
use mac.Tl.Destination.State.{Destination, eight_zeros, count_frame}
use mac.Tl.Destination.Report.{tl_2hop_mcs_send_timer_func}

abbrev pub relay_param : ℕ → ℕ → TrParam
relay_param k n = tr_set_param false false k n 0 0 0

-- A node that is set to the sender of the frame, before the frame is counted.
abbrev pub reset_info : Skb → Tf → TrInfo → TrInfo
reset_info skb m i = record i {
  node = record i.node { addr = skb.saddr; dev = skb.dev; total_num = m.k; rcv_num = eight_zeros };
}

abbrev pub new_info : Kernel → Skb → Tf → Option TrInfo
new_info kernel skb m = tr_info_create kernel.finds_node skb.saddr skb.dev m.k eight_zeros 0 0

-- The frame belongs to the training that is counted, or a new training begins.
unfoldable pub count_first : Kernel → Skb → Tf → TrInfo → Destination → Option Destination
unfolding count_frame tr_set_param
count_first kernel skb m i s =
    if same_addr i.addr skb.saddr && s.tf1_cur_index == m.index
    then elim (count_frame m.mcs i) [
      | none ↦ none
      | some i' ↦ some (record s {
        tf1_info = some i';
        tf1_timer =
            if pending s.tf1_timer then s.tf1_timer else some (u64 (kernel.jiffies + kernel.hz));
      })
    ]
    else elim (count_frame m.mcs (reset_info skb m i)) [
      | none ↦ none
      | some i' ↦ some (record s {
        param = relay_param 10 0;
        tf2_info = none;
        tr2_list = [];
        sdf_info = none;
        tf1_info = some i';
        tf1_prev_rcv_num = 0;
        tf1_cur_index = m.index;
      })
    ]

unfoldable pub count_first_or_new : Kernel → Skb → Tf → Destination → Option Destination
unfolding count_first
count_first_or_new kernel skb m s = elim s.tf1_info [
  | none ↦ new_info kernel skb m >>= λ i.
      count_first kernel skb m i (record s { tf1_cur_index = m.index })
  | some i ↦ count_first kernel skb m i s
]

-- A TypeOneTF message; the boolean says that the handler goes on to free the frame.
unfoldable pub receive_first : Kernel → Skb → Destination → Option (Destination × Bool)
unfolding count_first_or_new read_tf
receive_first kernel skb s =
    let m = read_tf skb.content in
    if ltb 8 m.mcs
    then some (s, false)
    else if ltb m.k m.seq
    then some (s, true)
    else elim (count_first_or_new kernel skb m s) [ none ↦ none | some t ↦ some (t, true) ]

unfoldable pub count_second : Kernel → Skb → Tf → TrInfo → Destination → Option Destination
unfolding count_frame tr_set_param
count_second kernel skb m i s =
    if same_addr i.addr skb.saddr && s.tf2_cur_index == m.index
    then elim (count_frame m.mcs i) [
      | none ↦ none
      | some i' ↦ some (record s {
        tf2_info = some i';
        tf2_timer =
            if pending s.tf2_timer
            then s.tf2_timer
            else some (u64 (kernel.jiffies + kernel.hz / 10));
      })
    ]
    else elim (new_info kernel skb m >>= λ j. count_frame m.mcs (reset_info skb m j)) [
      | none ↦ none
      | some i' ↦ some (record s {
        param = relay_param 10 0;
        tf1_info = none;
        tf2_info = some i';
        tf2_prev_rcv_num = 0;
        tf2_cur_index = m.index;
      })
    ]

-- A TypeTwoTF message.
unfoldable pub receive_second : Kernel → Skb → Destination → Option Destination
unfolding count_second read_tf
receive_second kernel skb s =
    let m = read_tf skb.content in
    if ltb m.k m.seq then some s else elim s.tf2_info [
      | none ↦ new_info kernel skb m >>= λ i. count_second kernel skb m i s
      | some i ↦ count_second kernel skb m i s
    ]

-- A TypeTwoTR message.
unfoldable pub receive_second_report : Kernel → Skb → Destination → Option Destination
unfolding learn_node read_tr
receive_second_report kernel skb s =
    let m = read_tr skb.content in
    if not (same_addr skb.dev.dev_addr skb.daddr) then some s else elim s.sdf_info [
      | none ↦ some s
      | some sdf ↦
          learn_node kernel.finds_node skb sdf.total_num m.rssi m.batt m.rcv s.tr2_list >>= λ list.
          some
            (record s { tr2_list = list; tr2_timer = some (u64 (kernel.jiffies + kernel.hz / 5)) })
    ]

-- A SendTF message.
unfoldable pub receive_send : Kernel → Skb → Destination → Option Destination
unfolding tl_2hop_mcs_send_timer_func get32
receive_send kernel skb s =
    if not (same_addr skb.dev.dev_addr skb.daddr) then some s else elim s.sdf_info [
      | none ↦
          tr_info_create kernel.finds_node skb.saddr skb.dev (get32 skb.content 1) eight_zeros 0 0
          >>= λ sdf.
              tl_2hop_mcs_send_timer_func kernel
                (record s { dev_send2 = skb.dev; sdf_info = some sdf })
      | some sdf ↦ some s
    ]

unfoldable pub receive_relay : Skb → Destination → Destination
unfolding tr_set_param
receive_relay skb s =
    if not (same_addr skb.dev.dev_addr skb.daddr)
    then s
    else record s { param = relay_param (skb.content 1) (skb.content 2) }

-- The first call of the handler.
unfoldable pub init_destination : Destination → Destination
init_destination s =
    if s.for_init
    then record s {
      for_init = false;
      tr2_list = [];
      tf1_timer = none;
      tf2_timer = none;
      tr2_timer = none;
    }
    else s

-- `dev_kfree_skb` at the end of the handler.
abbrev pub free_skb : Option Destination → Option Destination
free_skb none = none
free_skb (some s) = some (record s { freed = suc s.freed })

abbrev pub free_skb_if : Option (Destination × Bool) → Option Destination
free_skb_if none = none
free_skb_if (some (s, b)) = if b then free_skb (some s) else some s

-- How many bytes of the frame the handler reads, the kind of the frame first.
unfoldable pub bytes_read : Skb → ℕ
bytes_read skb =
    let type = skb.content 0 in
    if type == type_code type_one_tf || type == type_code type_two_tf
    then 14
    else if type == type_code type_two_tr
    then 35
    else if type == type_code send_tf
    then 5
    else if type == type_code set_relay && same_addr skb.dev.dev_addr skb.daddr
    then 3
    else 1

-- `none` is also the reading of a byte behind the end of the frame.
unfoldable pub tl_receive_skb_dst : Kernel → Skb → Destination → Option Destination
unfolding receive_first receive_second receive_second_report receive_send receive_relay
    init_destination bytes_read
tl_receive_skb_dst kernel skb d =
    let s = init_destination d in
    if ltb skb.len (bytes_read skb)
    then none
    else if skb.content 0 == type_code type_one_tf
    then free_skb_if (receive_first kernel skb s)
    else if skb.content 0 == type_code type_two_tf
    then free_skb (receive_second kernel skb s)
    else if skb.content 0 == type_code type_two_tr
    then free_skb (receive_second_report kernel skb s)
    else if skb.content 0 == type_code send_tf
    then free_skb (receive_send kernel skb s)
    else if skb.content 0 == type_code set_relay
    then free_skb (some (receive_relay skb s))
    else free_skb (some s)
