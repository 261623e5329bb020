-- ===== src/Aggregation.antt =====
-- agg-rx.c, ht.c, sta_info.h: a station's sessions of block acknowledgement, on the receiving side.
pub mod Start
pub mod Receive
pub mod Sessions
pub mod Frames
pub mod Run
pub mod Answers
use mac.Base.{ℕ, ◌+◌, ◌-◌, ◌*◌, ◌/◌, ◌%◌, ◌^◌, Bool, List, Option, ◌==◌, if◌then◌else◌}
use mac.Reorder.{Mpdu, TidAmpduRx, SeqNum}
use mac.Reorder.Release.{Clock}

-- `WLAN_BACK_RECIPIENT`, `WLAN_BACK_INITIATOR`
pub data Initiator : Type 0 where
  recipient initiator : Initiator

-- `WLAN_STATUS_SUCCESS`, `_REQUEST_DECLINED`, `_INVALID_QOS_PARAM`
pub data Status : Type 0 where
  success request_declined invalid_qos_param : Status

-- The reasons of the ends of sessions.
pub data StopReason : Type 0 where
  unspecified_qos qsta_timeout unspecified qsta_leave_qbss no_reason : StopReason

-- The frames that are sent.
pub data BackFrame : Type 0 where
  addba_resp : (tid dialog_token : ℕ) (status : Status) (policy buf_size timeout : ℕ) → BackFrame
  delba : (tid : ℕ) (initiator : Initiator) (reason : StopReason) → BackFrame

-- `struct tid_ampdu_rx`: the part that the reorder buffer knows, and the rest; a timer is the time for which
-- it is set.
pub record Session : Type 0 where
  pub rx : TidAmpduRx
  pub session_timer : Option ℕ
  pub last_rx : ℕ
  pub timeout : ℕ
  pub dialog_token : ℕ

-- Of a station: its abilities, its sessions by traffic identifier, the requests to its work function, and
-- what it has sent, handed on to the receive handlers, and put into the queue of its interface.
pub record AmpduSta : Type 0 where
  pub ht_supported : Bool
  pub cap_delay_ba : Bool
  pub block_ba : Bool
  pub tid_rx : ℕ → Option Session
  pub tid_rx_timer_expired : ℕ → Bool
  pub tid_rx_stop_requested : ℕ → Bool
  pub work_queued : Bool
  pub sent : List BackFrame
  pub frames : List Mpdu
  pub skb_queue : List Mpdu

-- What the kernel, the driver and memory say: the time, `TU_TO_JIFFIES`, `IEEE80211_MAX_AMPDU_BUF` and
-- `hw.max_rx_aggregation_subframes`, whether the three pieces of memory are found, what the driver makes of
-- the first number, and what stands in the fields of the new session that are not set.
pub record AmpduKernel : Type 0 where
  pub clock : Clock
  pub tu_to_jiffies : ℕ → ℕ
  pub max_ampdu_buf : ℕ
  pub max_rx_aggregation_subframes : ℕ
  pub finds_session : Bool
  pub finds_reorder_buf : Bool
  pub finds_reorder_time : Bool
  pub drv_ampdu_start : ℕ → Option ℕ
  pub old_removed : Bool
  pub old_last_rx : ℕ

-- A request to start a session.
pub record AddBa : Type 0 where
  pub dialog_token : ℕ
  pub timeout : ℕ
  pub start_seq_num : ℕ
  pub ba_policy : ℕ
  pub tid : ℕ
  pub buf_size : ℕ

abbrev pub at_tid {ℓ} : {A : Type ℓ} → ℕ → A → (ℕ → A) → ℕ → A
at_tid tid x f i = if i == tid then x else f i
