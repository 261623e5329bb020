-- ===== src/Tl/Source/Receive.antt =====
-- tl_rx_src.c: `tl_receive_skb_src`. `none` is an access through NULL.
use mac.Base.{
  ◌>>=◌, Bool, Option, ℕ, zero, suc, ◌+◌, ◌*◌, ◌/◌, true, false, not, ◌||◌, List, [], none, some,
  ◌==◌, if◌then◌else◌,
}
use mac.Mnc.Substitute.{Vector}
use mac.Tl.Types.{same_addr, Device, TrNode, TrInfo}
use mac.Tl.Lists.{
  info_addr, node_addr, update_addr, tr_info_find_addr, nbr_find_addr, tr_info_insert, nbr_create,
  tr_info_create,
}
use mac.Tl.Rates.{u64}
use mac.Tl.Message.{type_one_tr, nbr_rpt, type_code, get32, read_tr, read_nbr, NbrEntry}
use mac.Tl.Source.State.{Kernel, Skb, Source}
use mac.Tl.Source.Polling.{set_counts, next_turn}

-- A node of the list is brought up to date, or a new one is put behind the others.
unfoldable pub learn_node : Bool → Skb → ℕ → ℕ → ℕ → List ℕ → List TrInfo → Option (List TrInfo)
unfolding update_addr tr_info_find_addr tr_info_insert
learn_node room skb k rssi batt rcv list = elim (tr_info_find_addr list skb.saddr) [
  | none ↦
      tr_info_create room skb.saddr skb.dev k rcv rssi batt >>= λ i. some (tr_info_insert i list)
  | some i ↦ some (
      update_addr info_addr skb.saddr
        (λ i. record {
          node = record i.node {
            dev = skb.dev;
            total_num = k;
            rcv_num = rcv;
            rssi = rssi;
            batt = batt;
            tf_cnt = false;
            nr_cnt = false;
          };
          nbr_list = [];
        })
        list)
]

unfoldable pub learn_nbr : Bool → Device → ℕ → NbrEntry → List TrNode → Option (List TrNode)
unfolding update_addr nbr_find_addr tr_info_insert
learn_nbr room dev k e list = elim (nbr_find_addr list e.addr) [
  | none ↦ nbr_create room e.addr dev k e.rcv e.rssi e.batt >>= λ n. some (tr_info_insert n list)
  | some n ↦ some (
      update_addr node_addr e.addr
        (λ n. record n { total_num = k; rcv_num = e.rcv; rssi = e.rssi; batt = e.batt; dev = dev })
        list)
]

-- The loop over the entries of a report, with the rounds left.
unfoldable pub learn_nbrs : Bool → ℕ → ℕ → Device → ℕ → Vector → List TrNode → Option (List TrNode)
unfolding learn_nbr
learn_nbrs room zero i dev k content list = some list
learn_nbrs room (suc left) i dev k content list =
    learn_nbr room dev k (read_nbr content (i * 40)) list >>= λ list.
    learn_nbrs room left (suc i) dev k content list

-- A TypeOneTR message.
unfoldable pub receive_tr : Kernel → Skb → Source → Option Source
unfolding learn_node
receive_tr kernel skb s =
    let m = read_tr skb.content in
    if not (same_addr skb.dev.dev_addr skb.daddr)
    then some s
    else if s.polling_state
    then some s
    else learn_node kernel.finds_node skb s.param.tf_k m.rssi m.batt m.rcv s.src_nbr_list
      >>= λ list. some (record s {
        src_nbr_list = list;
        tr1_timer = some (u64 (kernel.jiffies + kernel.hz / 5));
      })

-- A NbrRPT message: it counts only from the node that is being asked.
unfoldable pub receive_report : Kernel → Skb → Source → Option Source
unfolding learn_nbrs next_turn
receive_report kernel skb s =
    if not (same_addr skb.dev.dev_addr skb.daddr)
      || not s.polling_state
      || not (same_addr s.polling_addr skb.saddr)
    then some s
    else elim (tr_info_find_addr s.src_nbr_list skb.saddr) [
      | none ↦ some s
      | some i ↦
          if not i.tf_cnt
          then some s
          else learn_nbrs kernel.finds_node (skb.content 5) 0 skb.dev (get32 skb.content 1)
              skb.content i.nbr_list
            >>= λ nbrs. some (
                next_turn kernel (record s {
                  sndtf_timer = none;
                  src_nbr_list =
                      update_addr info_addr skb.saddr
                        (λ i. record (set_counts i.tf_cnt true i) { nbr_list = nbrs })
                        s.src_nbr_list;
                }))
    ]

unfoldable pub tl_receive_skb_src : Kernel → Skb → Source → Option Source
unfolding receive_tr receive_report
tl_receive_skb_src kernel skb s =
    let s' =
      if s.for_src_init
      then record s { for_src_init = false; src_nbr_list = []; tr1_timer = none }
      else s in
    if skb.content 0 == type_code type_one_tr
    then receive_tr kernel skb s'
    else if skb.content 0 == type_code nbr_rpt
    then receive_report kernel skb s'
    else some s'
