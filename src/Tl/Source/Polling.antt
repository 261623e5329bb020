-- ===== src/Tl/Source/Polling.antt =====
-- tl_rx_src.c: the two timers that ask the nodes in turn for their neighbours.
use mac.Base.{
  ◌+◌, ◌*◌, Bool, true, false, not, List, [], ◌∷◌, ◌++◌, Option, none, some, leb, if◌then◌else◌,
  get_or, length,
}
use mac.Tl.Types.{TrInfo}
use mac.Tl.Lists.{info_addr, update_addr, tr_info_find_addr, tr_info_check_nr_cnt}
use mac.Tl.Rates.{u64}
use mac.Tl.Relay.{tl_select_relay}
use mac.Tl.Message.{send_tf, tl_alloc_skb, put32}
use mac.Tl.Source.State.{Kernel, Source}

unfoldable pub set_counts : Bool → Bool → TrInfo → TrInfo
set_counts tf nr i = record i { node = record i.node { tf_cnt = tf; nr_cnt = nr } }

-- The loop of `tl_rx_tr1_timer_func` over the nodes left; it ends at the first node that is asked.
unfoldable pub ask_next : Kernel → List TrInfo → Source → Source
unfolding set_counts tl_select_relay tr_info_check_nr_cnt
ask_next kernel [] s = s
ask_next kernel (i ∷ is) s =
    if not i.tf_cnt
    then (if leb s.param.tf_thre (get_or i.rcv_num 0 0)
        then elim (tl_alloc_skb (kernel.room (length is)) kernel.junk i.dev i.addr i.dev.dev_addr 19
            send_tf) [
              | none ↦ ask_next kernel is s
              | some f ↦ record s {
                polling_addr = i.addr;
                sent = s.sent ++ (record f { bytes = put32 15 s.param.tf_k f.bytes }, none) ∷ [];
                src_nbr_list = update_addr info_addr i.addr (set_counts true false) s.src_nbr_list;
                sndtf_info = i.addr;
                sndtf_timer = some (u64 (kernel.jiffies + 3 * kernel.hz));
              }
            ]
        else let list = update_addr info_addr i.addr (set_counts true true) s.src_nbr_list in
          elim (tr_info_check_nr_cnt list) [
            | true ↦ record s {
              polling_state = false;
              src_nbr_list = tl_select_relay s.param.tf_thre list;
            }
            | false ↦ ask_next kernel is (record s { src_nbr_list = list })
          ])
    else ask_next kernel is s

unfoldable pub tl_rx_tr1_timer_func : Kernel → Source → Source
unfolding ask_next
tl_rx_tr1_timer_func kernel s = ask_next kernel s.src_nbr_list (record s { polling_state = true })

-- The two ends of a node's turn: the next node is asked, or the relays are selected.
unfoldable pub next_turn : Kernel → Source → Source
unfolding tl_rx_tr1_timer_func tl_select_relay tr_info_check_nr_cnt
next_turn kernel s =
    if tr_info_check_nr_cnt s.src_nbr_list
    then record s {
      polling_state = false;
      src_nbr_list = tl_select_relay s.param.tf_thre s.src_nbr_list;
    }
    else tl_rx_tr1_timer_func kernel s

-- `none` is a pointer to a node that is no longer in the list.
unfoldable pub tl_rx_sndtf_timer_func : Kernel → Source → Option Source
unfolding next_turn set_counts update_addr tr_info_find_addr
tl_rx_sndtf_timer_func kernel s = elim (tr_info_find_addr s.src_nbr_list s.sndtf_info) [
  | none ↦ none
  | some i ↦
      if not i.tf_cnt
      then some s
      else some (
          next_turn kernel (record s {
            src_nbr_list =
                update_addr info_addr s.sndtf_info (set_counts i.tf_cnt true) s.src_nbr_list;
          }))
]
