-- ===== src/Tl/Source/State.antt =====
-- tl_rx_src.c: the static variables, and what the handlers take from the kernel.
use mac.Base.{ℕ, Bool, true, false, List, Option, none, some}
use mac.Mnc.Substitute.{Vector}
use mac.Tl.Types.{Addr, Device, TrInfo, TrParam}
use mac.Tl.Message.{Frame}

-- What the kernel provides while a handler runs: the clock, memory and random bytes.
pub record Kernel : Type 0 where
  pub hz : ℕ
  pub jiffies : ℕ
  pub now : ℕ
  pub room : ℕ → Bool
  pub junk : Vector
  pub finds_node : Bool
  pub random_id : ℕ
  pub second_id : ℕ
  pub ms_to_jiffies : ℕ → ℕ

-- A received frame: its bytes from `skb->data`, and the two addresses at the mac header.
pub record Skb : Type 0 where
  pub dev : Device
  pub daddr : Addr
  pub saddr : Addr
  pub transport : Vector
  pub len : ℕ
  pub content : Vector

-- The static variables of the file, `param`, and the frames handed to `dev_queue_xmit`.
pub record Source : Type 0 where
  pub for_src_init : Bool
  pub src_nbr_list : List TrInfo
  pub polling_state : Bool
  pub polling_addr : Addr
  pub last_tr_id : ℕ
  pub tr_id : ℕ
  pub mcs : ℕ
  pub dev_send : Device
  pub param : TrParam
  pub tr1_timer : Option ℕ
  pub sndtf_timer : Option ℕ
  pub sndtf_info : Addr
  pub mcs_timer : Option ℕ
  pub tl_start : ℕ
  pub sent : List (Frame × Option ℕ)

abbrev pub pending : Option ℕ → Bool
pending none = false
pending (some t) = true
