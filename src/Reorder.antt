-- ===== src/Reorder.antt =====
-- rx.c, sta_info.h, ieee80211_i.h: the reorder buffer of an aggregation session. The arithmetic of
-- sequence numbers is the kernel's, and an argument.
pub mod Release
pub mod Count
pub mod Late
pub mod Rearm
pub mod Keeps
pub mod Reaches
use mac.Base.{
  ℕ, ◌+◌, ◌-◌, ◌%◌, ◌^◌, Bool, true, false, List, [], ◌∷◌, ◌++◌, Option, none, some, ◌==◌,
  if◌then◌else◌,
}

-- A received frame: its sequence number, and whether more frames with that number follow.
pub record Mpdu : Type 0 where
  pub seq_num : ℕ
  pub amsdu_more : Bool
  pub content : ℕ

-- `reorder_timer` is the time for which it is set.
pub record TidAmpduRx : Type 0 where
  pub reorder_buf : ℕ → List Mpdu
  pub reorder_time : ℕ → ℕ
  pub reorder_timer : Option ℕ
  pub head_seq_num : ℕ
  pub stored_mpdu_num : ℕ
  pub ssn : ℕ
  pub buf_size : ℕ
  pub auto_seq : Bool
  pub removed : Bool

-- `ieee80211_sn_less`, `ieee80211_sn_inc`, `ieee80211_sn_sub` and `IEEE80211_SN_MASK`.
pub record SeqNum : Type 0 where
  pub sn_less : ℕ → ℕ → Bool
  pub sn_inc : ℕ → ℕ
  pub sn_sub : ℕ → ℕ → ℕ
  pub sn_mask : ℕ → ℕ

-- The last frame of a list is there, and it is the last one of its number.
unfoldable pub rx_reorder_ready : List Mpdu → Bool
rx_reorder_ready [] = false
rx_reorder_ready (skb ∷ []) = if skb.amsdu_more then false else true
rx_reorder_ready (skb ∷ next ∷ rest) = rx_reorder_ready (next ∷ rest)

-- The session, and the frames released so far.
abbrev pub Rx : Type 0
Rx = TidAmpduRx × List Mpdu

abbrev pub set_slot : (ℕ → List Mpdu) → ℕ → List Mpdu → ℕ → List Mpdu
set_slot buf i list j = if j == i then list else buf j

unfoldable pub release_reorder_frame : SeqNum → ℕ → Rx → Rx
release_reorder_frame sn index (t, frames) =
    let skb_list = t.reorder_buf index in
    let head = sn.sn_inc t.head_seq_num in
    let empty = set_slot t.reorder_buf index [] in
    if rx_reorder_ready skb_list
    then (
      record t {
        reorder_buf = empty;
        stored_mpdu_num = (t.stored_mpdu_num + 2 ^ 16 - 1) % 2 ^ 16;
        head_seq_num = head;
      },
      frames ++ skb_list,
    )
    else (record t { reorder_buf = empty; head_seq_num = head }, frames)
