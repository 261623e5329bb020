-- ===== src/Wpa/Exchange.antt =====
-- wpa.c: a queue of frames is encrypted, and received with the same key.
use mac.Base.{
  ℕ, suc, ◌+◌, ◌^◌, ◌<◌, ◌≡◌, refl, sym, ap, ◌∙◌, arith, true, false, not, ◌&&◌, List, [], ◌∷◌,
  ◌++◌, some, ltb, ◌==◌, if◌then◌else◌, length, slice, map, Bool-cases, inl, inr, slice-append_mid,
  length-append,
}
use mathlib.Core.Path.{subst}
use mac.Wpa.{Suite, Ieee80211, Key, SkBuff, frame_control}
use mac.Wpa.Blocks.{pn_bytes, pn2hdr, hdr2pn, memcmp_le, aad, first_block, assoc}
use mac.Wpa.Number.{memcmp_le-pn_bytes, hdr2pn-pn2hdr}
use mac.Wpa.Replay.{pn_of, memcmp_le_refl, memcmp_le_trans, memcmp_le_total}
use mac.Wpa.Crypt.{
  CryptoRxResult, rx_continue, CryptoRxData, accept_pn, check_pn, crypto_decrypt, encrypt_skbs,
  crypto_encrypt, set_protected, strip,
}
use mac.Wpa.Header.{IsIeee80211, frame_control-append}
use mac.Wpa.Trip.{IsCipher, IsPlain, open_text-content, strip-content}
use mac.Wpa.Send.{length-pn2hdr, on_air, encrypt_skb-on_air}

-- A received frame: its sender is known, it is encrypted, and memory is found.
pub record IsReceived (content : List ℕ) (rx : CryptoRxData) : Type 0 where
  pub bytes : rx.skb.content ≡ content
  pub known : rx.has_sta ≡ true
  pub encrypted : rx.decrypted ≡ false
  pub linear : rx.linearizes ≡ true
  pub trimmed : rx.trims ≡ true

-- What becomes of a frame that is received: the verdict and the bytes.
pub receive_all :
    (s : Suite) (k : Ieee80211) (mic_len : ℕ) (stack' : List ℕ) (deliver : SkBuff → CryptoRxData)
    → Key
    → List SkBuff
    → List (CryptoRxResult × List ℕ)
receive_all s k mic_len stack' deliver rkey [] = []
receive_all s k mic_len stack' deliver rkey (skb ∷ skbs) =
    let v = crypto_decrypt s k stack' mic_len (deliver skb) rkey in
    (v.0, v.2.content) ∷ receive_all s k mic_len stack' deliver v.1 skbs

abbrev pub AllPlain : Ieee80211 → ℕ → List SkBuff → Type 0
AllPlain k mic_len [] = Unit {0}
AllPlain k mic_len (skb ∷ skbs) =
    ((h : List ℕ) × (body : List ℕ) × IsPlain k mic_len skb h body) × AllPlain k mic_len skbs

-- No queue of the receiver has met a number above `n`.
abbrev pub Below : Key → ℕ → Type 0
Below rkey n = (queue : ℕ) → memcmp_le (rkey.rx_pn queue) (pn_bytes n) ≡ true

length-map : (f : SkBuff → SkBuff) (skbs : List SkBuff) → length (map f skbs) ≡ length skbs
length-map f [] = refl
length-map f (skb ∷ skbs) = ap suc (length-map f skbs)

module _ (s : Suite) (k : Ieee80211) (law : IsIeee80211 k) (mic_len : ℕ) (stack : List ℕ) where
  -- The key after a frame with the number `n`.
  abbrev met : CryptoRxData → ℕ → Key → Key
  met rx n rkey = record rkey {
    rx_pn = λ queue. if queue == rx.security_idx then pn_bytes n else rkey.rx_pn queue;
  }

  accept_pn-met :
      (rx : CryptoRxData) (rkey : Key) (skb : SkBuff) (n : ℕ)
      → rx.trims ≡ true
      → accept_pn k mic_len (pn_bytes n) rx rkey skb
        ≡ (rx_continue, met rx n rkey, strip k mic_len skb)
  unfolding accept_pn
  accept_pn-met rx rkey skb n trims = rw (trims) refl

  crypto_decrypt-on_air :
      (stack' : List ℕ) (key rkey : Key) (skb : SkBuff) (h body : List ℕ) (n : ℕ)
      (rx : CryptoRxData)
      → IsCipher s mic_len key.tfm
      → IsPlain k mic_len skb h body
      → rkey.tfm ≡ key.tfm
      → memcmp_le (pn_bytes n) (rkey.rx_pn rx.security_idx) ≡ false
      → IsReceived (on_air s k law mic_len stack key n h body) rx
      → (out : SkBuff) × (crypto_decrypt s k stack' mic_len rx rkey
          ≡ (rx_continue, met rx n rkey, out))
        × (out.content ≡ h ++ body)
  unfolding crypto_decrypt check_pn
  crypto_decrypt-on_air stack' key rkey skb h body n rx cipher plain same new got =
      let pn : List ℕ = pn_bytes n in
      let pn_hdr : List ℕ = pn2hdr pn key.keyidx in
      let block : List ℕ = first_block s k stack h pn in
      let out : List ℕ = key.tfm.encrypt (assoc (aad k h)) block body in
      let eight = length-pn2hdr pn key.keyidx in
      let fc = frame_control-append k law h plain.whole (pn_hdr ++ out) in
      let opened =
        open_text-content s k law mic_len key cipher stack h body plain.whole stack' rkey n pn_hdr
          eight same plain.text in
      let decrypted : SkBuff = record (rx.skb) {
        content = (h ++ pn_hdr) ++ (body ++ slice (length body) mic_len out);
      } in
      let size = cipher.sizes (assoc (aad k h)) block body in
      let for_us : (not (k.is_data (frame_control h))
            && not (k.is_robust_mgmt_frame (h ++ (pn_hdr ++ out))))
          ≡ false =
        ground (arith, plain.for_us (pn_hdr ++ out)) in
      let long : ltb (length (h ++ (pn_hdr ++ out))) (k.hdrlen (frame_control h) + 8 + mic_len)
          ≡ false =
        ground (
          arith,
          length-append h (pn_hdr ++ out),
          length-append pn_hdr out,
          size,
          eight,
          plain.whole,
        ) in
      let number : hdr2pn (slice (k.hdrlen (frame_control h)) 8 (h ++ (pn_hdr ++ out))) ≡ pn =
        rw (slice-append_mid h pn_hdr out _ 8 (sym plain.whole) (sym eight))
          (hdr2pn-pn2hdr n key.keyidx) in
      let number_of : pn_of k rx ≡ pn = rw (got.bytes, fc) number in
      (
        strip k mic_len decrypted,
        rw (got.bytes, fc, for_us, got.known, long, got.encrypted, got.linear, number, new, opened)
            (rw (number_of) (accept_pn-met rx rkey decrypted n got.trimmed)),
        strip-content s k law mic_len key cipher stack h body plain.whole decrypted pn pn_hdr eight
            refl,
      )

  Below-new :
      (rkey : Key) (n queue : ℕ)
      → n + 1 < 2 ^ 48
      → Below rkey n
      → memcmp_le (pn_bytes (n + 1)) (rkey.rx_pn queue) ≡ false
  Below-new rkey n queue small below =
      elim (Bool-cases (memcmp_le (pn_bytes (n + 1)) (rkey.rx_pn queue))) [
        | inr new ↦ new
        | inl old ↦ old ∙ sym (memcmp_le_trans _ _ _ old (below queue)) ∙ memcmp_le-pn_bytes n small
      ]

  Below-met :
      (rkey : Key) (n : ℕ) (rx : CryptoRxData)
      → n + 1 < 2 ^ 48
      → Below rkey n
      → Below (met rx (n + 1) rkey) (n + 1)
  Below-met rkey n rx small below queue = elim (Bool-cases (queue == rx.security_idx)) [
    | inl e ↦ rw (e) (memcmp_le_refl (pn_bytes (n + 1)))
    | inr e ↦
        rw (e)
          (memcmp_le_trans _ _ _ (below queue) (memcmp_le_total _ _ (memcmp_le-pn_bytes n small)))
  ]

  module _ (stack' : List ℕ) (deliver : SkBuff → CryptoRxData)
      (air : (skb : SkBuff) → IsReceived skb.content (deliver skb)) where
    encrypt_skbs-received :
        (key rkey : Key) (skbs : List SkBuff)
        → IsCipher s mic_len key.tfm
        → rkey.tfm ≡ key.tfm
        → AllPlain k mic_len skbs
        → key.tx_pn + length skbs < 2 ^ 48
        → Below rkey key.tx_pn
        → (q : Key × List SkBuff) × (encrypt_skbs s k stack mic_len key skbs ≡ some q)
          × (receive_all s k mic_len stack' deliver rkey q.1
              ≡ map (λ (skb : SkBuff). (rx_continue, skb.content)) skbs)
    unfolding encrypt_skbs receive_all
    encrypt_skbs-received key rkey [] cipher same plain small below = ((key, []), refl, refl)
    encrypt_skbs-received key rkey (skb ∷ skbs) cipher same ((h, body, plain), plains) small below =
        let done =
          encrypt_skb-on_air s k law mic_len stack key skb h body cipher plain (omega arith) in
        let sent : SkBuff = done.0.1 in
        let n : ℕ = key.tx_pn + 1 in
        let rx : CryptoRxData = deliver sent in
        let got : IsReceived (on_air s k law mic_len stack key n h body) rx =
          subst (λ c. IsReceived c rx) done.3 (air sent) in
        let back =
          crypto_decrypt-on_air stack' key rkey skb h body n rx cipher plain same
            (Below-new rkey key.tx_pn rx.security_idx (omega arith) below) got in
        let rest =
          encrypt_skbs-received (record key { tx_pn = n }) (met rx n rkey) skbs cipher same plains
            (omega arith) (Below-met rkey key.tx_pn rx (omega arith) below) in
        (
          (rest.0.0, sent ∷ rest.0.1),
          rw (done.1, done.2, rest.1) refl,
          rw (back.1, rest.2, back.2 ∙ sym plain.split) refl,
        )

    -- Let the cipher of a key decrypt what it has encrypted under the same nonce, the sender and the
    -- receiver have the same cipher, the kernel's header lengths cover what is read of a header, and
    -- every frame of a queue have room on both sides, a body that is not empty, and a type that the
    -- receiver decrypts. Every frame that is received have the bytes that were sent, a known sender,
    -- and memory, and be not yet decrypted. If the packet numbers stay below 2^48 and no queue of the
    -- receiver has met one above the sender's, then all frames are encrypted by CCMP or GCMP, and
    -- received in order each is handed on with the bytes that it had before, but for the protected bit;
    -- whatever was on the stack of either side.
    pub crypto_encrypt-received :
        (key rkey : Key) (skbs : List SkBuff)
        → IsCipher s mic_len key.tfm
        → rkey.tfm ≡ key.tfm
        → AllPlain k mic_len (map (set_protected k) skbs)
        → key.tx_pn + length skbs < 2 ^ 48
        → Below rkey key.tx_pn
        → (q : Key × List SkBuff) × (crypto_encrypt s k stack mic_len key skbs ≡ some q)
          × (receive_all s k mic_len stack' deliver rkey q.1
              ≡ map (λ (skb : SkBuff). (rx_continue, skb.content)) (map (set_protected k) skbs))
    unfolding crypto_encrypt
    crypto_encrypt-received key rkey skbs cipher same plains small below =
        encrypt_skbs-received key rkey (map (set_protected k) skbs) cipher same plains
          (omega (arith, length-map (set_protected k) skbs)) below
