-- ===== src/Wpa.antt =====
-- wpa.c, aes_ccm.c, aes_gcm.c, key.h: the two protocols that encrypt a frame and count packets, CCMP and
-- GCMP. The kernel's header functions and its ciphers are arguments.
pub mod Blocks
pub mod Crypt
pub mod Number
pub mod Places
pub mod Replay
pub mod Header
pub mod Trip
pub mod Send
pub mod Exchange
use mac.Base.{
  ℕ, ◌+◌, ◌-◌, ◌*◌, Bool, List, ◌++◌, Option, length, get_or, take, drop, slice, overwrite,
}

-- The two protocols are two copies of the same code, but for their first blocks.
pub data Suite : Type 0 where
  ccmp gcmp : Suite

-- The functions of the kernel on a frame control field and on a frame; `qos_ctl` is the offset of the field.
pub record Ieee80211 : Type 0 where
  pub hdrlen : ℕ → ℕ
  pub is_mgmt : ℕ → Bool
  pub is_data : ℕ → Bool
  pub is_data_qos : ℕ → Bool
  pub has_a4 : ℕ → Bool
  pub qos_ctl : ℕ → ℕ
  pub is_robust_mgmt_frame : List ℕ → Bool
  pub fctl_retry : ℕ
  pub fctl_pm : ℕ
  pub fctl_moredata : ℕ
  pub fctl_protected : ℕ
  pub qos_ctl_tid_mask : ℕ

-- `struct crypto_aead`: associated data, first block and text; the code stands behind the encrypted text.
pub record CryptoAead : Type 0 where
  pub encrypt : List ℕ → List ℕ → List ℕ → List ℕ
  pub decrypt : List ℕ → List ℕ → List ℕ → Option (List ℕ)

-- The flags of a key that the hardware uses.
pub record HwKey : Type 0 where
  pub generate_iv : Bool
  pub put_iv_space : Bool
  pub generate_iv_mgmt : Bool

-- The bytes in front of the frame, the frame, and the room behind it.
pub record SkBuff : Type 0 where
  pub headroom : List ℕ
  pub content : List ℕ
  pub tailroom : ℕ
  pub hw_key : Option HwKey

-- `rx_pn` by queue.
pub record Key : Type 0 where
  pub tx_pn : ℕ
  pub rx_pn : ℕ → List ℕ
  pub replays : ℕ
  pub keyidx : ℕ
  pub tfm : CryptoAead

abbrev pub frame_control : List ℕ → ℕ
frame_control frame = get_or frame 0 0 + get_or frame 1 0 * 256

abbrev pub skb_push : ℕ → SkBuff → SkBuff
skb_push n skb =
    let kept = length skb.headroom - n in
    record skb {
      headroom = take kept skb.headroom;
      content = drop kept skb.headroom ++ skb.content;
    }

abbrev pub skb_pull : ℕ → SkBuff → SkBuff
skb_pull n skb = record skb {
  headroom = skb.headroom ++ take n skb.content;
  content = drop n skb.content;
}

-- `n` bytes at `from` are copied to `to`.
abbrev pub memmove : ℕ → ℕ → ℕ → List ℕ → List ℕ
memmove to from n bytes = overwrite to (slice from n bytes) bytes
