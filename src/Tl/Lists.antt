-- ===== src/Tl/Lists.antt =====
-- tl_rx_list.c: the lists of nodes. `tr_info_find_addr` and `dst_info_find_addr` return the first node
-- with the address; a node is freed by its place in the list.
pub mod Laws
use mac.Base.{ℕ, Bool, true, false, ◌&&◌, not, List, [], ◌∷◌, Option, none, some, if◌then◌else◌}
use mac.Tl.Types.{Addr, same_addr, Device, TrNode, TrInfo, DstInfo}

module _ {A : Type 0} (addr_of : A → Addr) where
  unfoldable pub find_addr : List A → Addr → Option A
  find_addr [] a = none
  find_addr (x ∷ xs) a = if same_addr (addr_of x) a then some x else find_addr xs a

  -- The list once the node that `find_addr` finds is unlinked and freed.
  unfoldable pub free_addr : List A → Addr → List A
  free_addr [] a = []
  free_addr (x ∷ xs) a = if same_addr (addr_of x) a then xs else x ∷ free_addr xs a

  -- A change through the pointer to the node that `find_addr` finds.
  unfoldable pub update_addr : Addr → (A → A) → List A → List A
  update_addr a f [] = []
  update_addr a f (x ∷ xs) = if same_addr (addr_of x) a then f x ∷ xs else x ∷ update_addr a f xs

-- The walk to the last node, behind which the new one is linked.
unfoldable pub tr_info_insert {ℓ} : {A : Type ℓ} → A → List A → List A
tr_info_insert x [] = x ∷ []
tr_info_insert x (y ∷ ys) = y ∷ tr_info_insert x ys

abbrev pub node_addr : TrNode → Addr
node_addr n = n.addr

abbrev pub info_addr : TrInfo → Addr
info_addr i = i.addr

abbrev pub dst_addr : DstInfo → Addr
dst_addr d = d.addr

unfoldable pub tr_info_find_addr : List TrInfo → Addr → Option TrInfo
unfolding find_addr
tr_info_find_addr = find_addr info_addr

-- The same function on the list of neighbours.
unfoldable pub nbr_find_addr : List TrNode → Addr → Option TrNode
unfolding find_addr
nbr_find_addr = find_addr node_addr

unfoldable pub dst_info_find_addr : List DstInfo → Addr → Option DstInfo
unfolding find_addr
dst_info_find_addr = find_addr dst_addr

-- What `tr_info_create` sets.
abbrev pub node_made : Addr → Device → ℕ → List ℕ → ℕ → ℕ → TrNode
node_made addr dev total_num rcv_num rssi batt = record {
  addr = addr;
  dev = dev;
  total_num = total_num;
  rcv_num = rcv_num;
  rssi = rssi;
  batt = batt;
  tf_cnt = false;
  nr_cnt = false;
}

abbrev pub info_made : Addr → Device → ℕ → List ℕ → ℕ → ℕ → TrInfo
info_made addr dev total_num rcv_num rssi batt = record {
  node = node_made addr dev total_num rcv_num rssi batt;
  nbr_list = [];
}

-- `room` says whether `kmalloc` finds memory; its answer is not looked at, and `none` is the access through
-- NULL. The first is the same function for the list of neighbours.
unfoldable pub nbr_create : Bool → Addr → Device → ℕ → List ℕ → ℕ → ℕ → Option TrNode
nbr_create room addr dev total_num rcv_num rssi batt =
    if room then some (node_made addr dev total_num rcv_num rssi batt) else none

unfoldable pub tr_info_create : Bool → Addr → Device → ℕ → List ℕ → ℕ → ℕ → Option TrInfo
tr_info_create room addr dev total_num rcv_num rssi batt =
    if room then some (info_made addr dev total_num rcv_num rssi batt) else none

abbrev pub zero_addr : Addr
zero_addr = 0 ∷ 0 ∷ 0 ∷ 0 ∷ 0 ∷ 0 ∷ []

unfoldable pub dst_info_create : Addr → ℕ → DstInfo
dst_info_create addr pr_dof = record {
  addr = addr;
  raddr1 = zero_addr;
  raddr2 = zero_addr;
  raddr3 = zero_addr;
  min_clout1 = 255;
  min_clout2 = 255;
  min_clout3 = 255;
  pr_dof = pr_dof;
}

unfoldable pub dst_info_insert : DstInfo → List DstInfo → List DstInfo
dst_info_insert x [] = x ∷ []
dst_info_insert x (y ∷ ys) = y ∷ dst_info_insert x ys

unfoldable pub tr_info_check_nr_cnt : List TrInfo → Bool
tr_info_check_nr_cnt [] = true
tr_info_check_nr_cnt (i ∷ is) = if not i.nr_cnt then false else tr_info_check_nr_cnt is

unfoldable pub dst_info_free : List DstInfo → Addr → List DstInfo
unfolding free_addr
dst_info_free = free_addr dst_addr
