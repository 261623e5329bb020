-- ===== src/Tl/Relay.antt =====
-- tl_rx_list.c: what the source learns from the reports. The bodies of `mnp_relay`, `min_max_relay` and
-- `dst_info_list_del_over_threshold` are comments in the source, so they leave their arguments alone.
pub mod Arrange
pub mod Rank
use mac.Base.{
  ◌>>=◌, ℕ, ◌-◌, Bool, true, false, not, List, [], ◌∷◌, Option, none, some, map, ◌==◌, ltb, leb,
  if◌then◌else◌, get_or,
}
use mac.Tl.Types.{Addr, same_addr, TrNode, TrInfo, DstInfo, TrParam}
use mac.Tl.Lists.{free_addr, node_addr, tr_info_find_addr, find_addr}
use mac.Tl.Rates.{n_to_k, k_to_n}

-- The body of the loop: the neighbour with the address is freed, but not under the node itself.
unfoldable pub drop_nbr : Addr → TrInfo → TrInfo
drop_nbr a i =
    if same_addr a i.addr then i else record i { nbr_list = free_addr node_addr i.nbr_list a }

unfoldable pub tr_info_list_del_nbr : List TrInfo → Addr → List TrInfo
tr_info_list_del_nbr [] a = []
tr_info_list_del_nbr (i ∷ is) a = drop_nbr a i ∷ tr_info_list_del_nbr is a

-- The first loop, with the nodes left to visit; it changes no address and no counter.
unfoldable pub arrange_from : ℕ → List TrInfo → List TrInfo → List TrInfo
arrange_from tf_thre [] list = list
arrange_from tf_thre (i ∷ is) list =
    arrange_from tf_thre is
      (if leb tf_thre (get_or i.rcv_num 0 0) then tr_info_list_del_nbr list i.addr else list)

unfoldable pub tr_info_list_arrangement : ℕ → List TrInfo → List TrInfo
unfolding arrange_from
tr_info_list_arrangement tf_thre list = arrange_from tf_thre list list

-- The rank that the node still lacks once the source has sent its `data_n` packets.
unfoldable pub tr_info_list_pr_dof : TrParam → List TrInfo → Addr → Option ℕ
tr_info_list_pr_dof param list a = elim (tr_info_find_addr list a) [
  | none ↦ some param.data_k
  | some i ↦ do
    src_k ← n_to_k param.data_n i.total_num (get_or i.rcv_num 0 0)
    some (if ltb src_k param.data_k then param.data_k - src_k else 0)
]

-- `tr_info_max_clout`, with the largest value so far; `list` is the list that holds the node.
unfoldable pub max_clout_from : TrParam → List TrInfo → ℕ → List TrNode → Option ℕ
max_clout_from param list max_clout [] = some max_clout
max_clout_from param list max_clout (n ∷ ns) = do
  dof ← tr_info_list_pr_dof param list n.addr
  nbr_clout ← k_to_n dof n.total_num (get_or n.rcv_num 0 0)
  max_clout_from param list (if ltb max_clout nbr_clout then nbr_clout else max_clout) ns

unfoldable pub tr_info_max_clout : TrParam → List TrInfo → TrInfo → Option ℕ
unfolding max_clout_from
tr_info_max_clout param list i = max_clout_from param list 0 i.nbr_list

-- The three comparisons: the relay `a` that needs `clout` packets takes its place among the best three.
unfoldable pub rank_relay : Addr → ℕ → DstInfo → DstInfo
rank_relay a clout d =
    if leb clout d.min_clout3
    then (if leb clout d.min_clout2
        then (if leb clout d.min_clout1
            then record d {
              raddr3 = d.raddr2;
              min_clout3 = d.min_clout2;
              raddr2 = d.raddr1;
              min_clout2 = d.min_clout1;
              raddr1 = a;
              min_clout1 = clout;
            }
            else record d {
              raddr3 = d.raddr2;
              min_clout3 = d.min_clout2;
              raddr2 = a;
              min_clout2 = clout;
            })
        else record d { raddr3 = a; min_clout3 = clout })
    else d

-- The loop over the neighbours of one relay, which ends at the first with the destination's address.
unfoldable pub rank_by_nbrs : Addr → List TrNode → DstInfo → Option DstInfo
rank_by_nbrs a [] d = some d
rank_by_nbrs a (n ∷ ns) d = elim (same_addr d.addr n.addr) [
  | true ↦ do
    clout ← k_to_n d.pr_dof n.total_num (get_or n.rcv_num 0 0)
    some (rank_relay a clout d)
  | false ↦ rank_by_nbrs a ns d
]

unfoldable pub rank_by_relays : List TrInfo → DstInfo → Option DstInfo
rank_by_relays [] d = some d
rank_by_relays (i ∷ is) d = do d' ← rank_by_nbrs i.addr i.nbr_list d; rank_by_relays is d'

unfoldable pub dst_info_list_get_min_dof : List TrInfo → List DstInfo → Option (List DstInfo)
dst_info_list_get_min_dof list [] = some []
dst_info_list_get_min_dof list (d ∷ ds) = do
  d' ← (if not (d.pr_dof == 0) then rank_by_relays list d else some d)
  ds' ← dst_info_list_get_min_dof list ds
  some (d' ∷ ds')

unfoldable pub dst_info_list_all_over_threshold : List DstInfo → ℕ → Bool
dst_info_list_all_over_threshold [] thres_n = true
dst_info_list_all_over_threshold (d ∷ ds) thres_n =
    if not (d.pr_dof == 0)
    then (if leb d.min_clout1 thres_n then false else dst_info_list_all_over_threshold ds thres_n)
    else dst_info_list_all_over_threshold ds thres_n

unfoldable pub dst_info_list_all_pr_dof_zero : List DstInfo → Bool
dst_info_list_all_pr_dof_zero [] = true
dst_info_list_all_pr_dof_zero (d ∷ ds) =
    if not (d.pr_dof == 0) then false else dst_info_list_all_pr_dof_zero ds

unfoldable pub mnp_relay : List TrInfo → List TrInfo
mnp_relay list = list

unfoldable pub min_max_relay : List TrInfo → List TrInfo
min_max_relay list = list

unfoldable pub dst_info_list_del_over_threshold : List TrInfo → List DstInfo → ℕ → List DstInfo
dst_info_list_del_over_threshold list dst_list thres_n = dst_list

-- MNPRELAY is 0.
unfoldable pub tl_select_relay : ℕ → List TrInfo → List TrInfo
unfolding tr_info_list_arrangement min_max_relay
tl_select_relay tf_thre [] = []
tl_select_relay tf_thre (i ∷ is) = min_max_relay (tr_info_list_arrangement tf_thre (i ∷ is))
