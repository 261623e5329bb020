-- ===== src/Tl/Types.antt =====
-- tl_rx.h: the structures, and tl_rx_param.c. A doubly linked list is the sequence of its nodes; its
-- `qlen` is the length.
use mac.Base.{ℕ, ◌≡◌, refl, arith, Bool, true, false, ◌&&◌, List, [], ◌∷◌, ◌==◌}

-- An address is its bytes.
abbrev pub Addr : Type 0
Addr = List ℕ

-- `!memcmp(a, b, ETH_ALEN)`
unfoldable pub same_addr : Addr → Addr → Bool
same_addr [] [] = true
same_addr [] (y ∷ b) = false
same_addr (x ∷ a) [] = false
same_addr (x ∷ a) (y ∷ b) = x == y && same_addr a b

pub same_addr→eq : (a b : Addr) → same_addr a b ≡ true → a ≡ b
unfolding same_addr
same_addr→eq [] [] h = refl
same_addr→eq [] (y ∷ b) h = ground arith
same_addr→eq (x ∷ a) [] h = ground arith
same_addr→eq (x ∷ a) (y ∷ b) h = ground (arith, same_addr→eq a b)

pub same_addr_refl : (a : Addr) → same_addr a a ≡ true
unfolding same_addr
same_addr_refl [] = refl
same_addr_refl (x ∷ a) = ground (arith, same_addr_refl a)

pub same_addr_sym : (a b : Addr) → same_addr a b ≡ same_addr b a
unfolding same_addr
same_addr_sym [] [] = refl
same_addr_sym [] (y ∷ b) = refl
same_addr_sym (x ∷ a) [] = refl
same_addr_sym (x ∷ a) (y ∷ b) = ground (arith, same_addr_sym a b)

-- What the code uses of a `struct net_device`.
pub record Device : Type 0 where
  pub index : ℕ
  pub dev_addr : Addr

-- `struct tr_info` but its list of neighbours, which the code leaves empty in a neighbour.
pub record TrNode : Type 0 where
  pub addr : Addr
  pub dev : Device
  pub total_num : ℕ
  pub rcv_num : List ℕ
  pub rssi : ℕ
  pub batt : ℕ
  pub tf_cnt : Bool
  pub nr_cnt : Bool

pub record TrInfo : Type 0 where
  pub node : TrNode
  pub open node use *
  pub nbr_list : List TrNode

pub record DstInfo : Type 0 where
  pub addr : Addr
  pub raddr1 : Addr
  pub raddr2 : Addr
  pub raddr3 : Addr
  pub min_clout1 : ℕ
  pub min_clout2 : ℕ
  pub min_clout3 : ℕ
  pub pr_dof : ℕ

pub record TrParam : Type 0 where
  pub src : Bool
  pub sys : Bool
  pub data_k : ℕ
  pub data_n : ℕ
  pub tf_k : ℕ
  pub tf_thre : ℕ
  pub max_relay_n : ℕ

unfoldable pub tr_set_param : Bool → Bool → ℕ → ℕ → ℕ → ℕ → ℕ → TrParam
tr_set_param src sys data_k data_n tf_k tf_thre max_relay_n = record {
  src = src;
  sys = sys;
  data_k = data_k;
  data_n = data_n;
  tf_k = tf_k;
  tf_thre = tf_thre;
  max_relay_n = max_relay_n;
}

-- The static `param` at the start.
abbrev pub default_param : TrParam
default_param = record {
  src = false;
  sys = false;
  data_k = 10;
  data_n = 0;
  tf_k = 0;
  tf_thre = 0;
  max_relay_n = 0;
}
