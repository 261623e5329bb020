-- ===== src/Wpa/Crypt.antt =====
-- wpa.c, util.c: frames are encrypted and decrypted, with a packet number for each.
use mac.Base.{
  ◌>>=◌, ℕ, ◌+◌, ◌-◌, ◌%◌, ◌^◌, bit_or, ◌/◌, Bool, false, not, ◌&&◌, ◌||◌, List, [], ◌∷◌, ◌++◌,
  Option, none, some, ltb, ◌==◌, if◌then◌else◌, length, take, slice, overwrite, map,
}
use mac.Wpa.{Suite, Ieee80211, HwKey, SkBuff, Key, frame_control, skb_push, skb_pull, memmove}
use mac.Wpa.Blocks.{pn_bytes, pn2hdr, hdr2pn, memcmp_le, aad, first_block, aes_encrypt, aes_decrypt}

-- For one frame of `ieee80211_tx_set_protected`.
unfoldable pub set_protected : Ieee80211 → SkBuff → SkBuff
set_protected k skb =
    let fc = bit_or (frame_control skb.content) k.fctl_protected in
    record skb { content = overwrite 0 ((fc % 256) ∷ (fc / 256) ∷ []) skb.content }

-- The hardware makes room for the packet number itself.
unfoldable pub hw_makes_room : Ieee80211 → SkBuff → Bool
hw_makes_room k skb = elim skb.hw_key [
  | none ↦ false
  | some hw ↦
      not hw.generate_iv
      && not hw.put_iv_space
      && not (hw.generate_iv_mgmt && k.is_mgmt (frame_control skb.content))
]

-- Room of eight bytes behind the header.
unfoldable pub open_header : Ieee80211 → SkBuff → SkBuff
open_header k skb =
    let hdrlen = k.hdrlen (frame_control skb.content) in
    let pushed = skb_push 8 skb in record pushed { content = memmove 0 8 hdrlen pushed.content }

-- The text behind `start` is encrypted, and the code put behind it.
unfoldable pub seal : Suite → Ieee80211 → List ℕ → ℕ → List ℕ → ℕ → Key → SkBuff → SkBuff
seal s k stack mic_len pn start key skb =
    let frame = skb.content in
    let text = slice start (length frame - start) frame in
    let sealed = aes_encrypt key.tfm (first_block s k stack frame pn) (aad k frame) text mic_len in
    record skb {
      content = overwrite start sealed.0 frame ++ sealed.1;
      tailroom = skb.tailroom - mic_len;
    }

-- From the packet number on.
unfoldable pub number_frame : Suite → Ieee80211 → List ℕ → ℕ → ℕ → Key → SkBuff → Key × SkBuff
number_frame s k stack mic_len hdrlen key skb =
    let tx_pn = (key.tx_pn + 1) % 2 ^ 64 in
    let pn = pn_bytes tx_pn in
    let counted = record key { tx_pn = tx_pn } in
    let numbered = record skb { content = overwrite hdrlen (pn2hdr pn key.keyidx) skb.content } in
    elim skb.hw_key [
      | some hw ↦ (counted, numbered)
      | none ↦ (counted, seal s k stack mic_len pn (hdrlen + 8) counted numbered)
    ]

abbrev has_iv_space : Option HwKey → Bool
has_iv_space none = false
has_iv_space (some hw) = hw.put_iv_space

-- What must fit behind the frame.
abbrev tail : ℕ → Option HwKey → ℕ
tail mic_len none = mic_len
tail mic_len (some hw) = 0

-- `none` is -1.
unfoldable pub encrypt_skb : Suite → Ieee80211 → List ℕ → ℕ → Key → SkBuff → Option (Key × SkBuff)
encrypt_skb s k stack mic_len key skb =
    let opened = open_header k skb in
    if hw_makes_room k skb
    then some (key, skb)
    else if ltb skb.tailroom (tail mic_len skb.hw_key) || ltb (length skb.headroom) 8
    then none
    else if has_iv_space skb.hw_key
    then some (key, opened)
    else some (number_frame s k stack mic_len (k.hdrlen (frame_control skb.content)) key opened)

-- `none` is TX_DROP.
unfoldable pub encrypt_skbs :
    Suite → Ieee80211 → List ℕ → ℕ → Key → List SkBuff → Option (Key × List SkBuff)
encrypt_skbs s k stack mic_len key [] = some (key, [])
encrypt_skbs s k stack mic_len key (skb ∷ skbs) = encrypt_skb s k stack mic_len key skb >>= λ done.
    encrypt_skbs s k stack mic_len done.0 skbs >>= λ rest. some (rest.0, done.1 ∷ rest.1)

unfoldable pub crypto_encrypt :
    Suite → Ieee80211 → List ℕ → ℕ → Key → List SkBuff → Option (Key × List SkBuff)
crypto_encrypt s k stack mic_len key skbs =
    encrypt_skbs s k stack mic_len key (map (set_protected k) skbs)

pub data CryptoRxResult : Type 0 where
  rx_continue rx_drop_unusable : CryptoRxResult

-- A received frame: whether its sender is known, the queue that counts it, whether the hardware has
-- decrypted it, and whether the kernel finds memory to pull, linearize and trim it.
pub record CryptoRxData : Type 0 where
  pub skb : SkBuff
  pub has_sta : Bool
  pub security_idx : ℕ
  pub decrypted : Bool
  pub may_pull : Bool
  pub linearizes : Bool
  pub trims : Bool

-- The frame's verdict, the key and the frame.
abbrev pub Verdict : Type 0
Verdict = CryptoRxResult × Key × SkBuff

-- The code and the eight bytes behind the header are removed.
unfoldable pub strip : Ieee80211 → ℕ → SkBuff → SkBuff
strip k mic_len skb =
    let hdrlen = k.hdrlen (frame_control skb.content) in
    let trimmed = take (length skb.content - mic_len) skb.content in
    skb_pull 8 (record skb { content = memmove 8 0 hdrlen trimmed })

-- After the frame is decrypted.
unfoldable pub accept_pn : Ieee80211 → ℕ → List ℕ → CryptoRxData → Key → SkBuff → Verdict
accept_pn k mic_len pn rx key skb =
    let counted = record key {
      rx_pn = λ queue. if queue == rx.security_idx then pn else key.rx_pn queue;
    } in
    if rx.trims
    then (rx_continue, counted, strip k mic_len skb)
    else (rx_drop_unusable, counted, skb)

-- The text between the eight bytes and the code, decrypted in its place.
unfoldable pub open_text : Suite → Ieee80211 → List ℕ → ℕ → List ℕ → Key → List ℕ → Option (List ℕ)
open_text s k stack mic_len pn key frame =
    let start = k.hdrlen (frame_control frame) + 8 in
    let data_len = length frame - start - mic_len in
    aes_decrypt key.tfm (first_block s k stack frame pn) (aad k frame) (slice start data_len frame)
      (slice (length frame - mic_len) mic_len frame)
    >>= λ text. some (overwrite start text frame)

unfoldable pub check_pn : Suite → Ieee80211 → List ℕ → ℕ → CryptoRxData → Key → Verdict
check_pn s k stack mic_len rx key =
    let frame = rx.skb.content in
    let pn = hdr2pn (slice (k.hdrlen (frame_control frame)) 8 frame) in
    if memcmp_le pn (key.rx_pn rx.security_idx)
    then (rx_drop_unusable, record key { replays = (key.replays + 1) % 2 ^ 32 }, rx.skb)
    else elim (if rx.decrypted then some frame else open_text s k stack mic_len pn key frame) [
      | none ↦ (rx_drop_unusable, key, rx.skb)
      | some opened ↦ accept_pn k mic_len pn rx key (record (rx.skb) { content = opened })
    ]

unfoldable pub crypto_decrypt : Suite → Ieee80211 → List ℕ → ℕ → CryptoRxData → Key → Verdict
crypto_decrypt s k stack mic_len rx key =
    let frame = rx.skb.content in
    let fc = frame_control frame in
    if not (k.is_data fc) && not (k.is_robust_mgmt_frame frame)
    then (rx_continue, key, rx.skb)
    else if not rx.has_sta || ltb (length frame) (k.hdrlen fc + 8 + mic_len)
    then (rx_drop_unusable, key, rx.skb)
    else if not (if rx.decrypted then rx.may_pull else rx.linearizes)
    then (rx_drop_unusable, key, rx.skb)
    else check_pn s k stack mic_len rx key
