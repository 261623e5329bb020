-- ===== src/Wpa/Replay.antt =====
-- wpa.c: a frame that was accepted is not accepted again.
use mac.Base.{
  ℕ, ◌+◌, ◌%◌, ◌^◌, ◌≡◌, refl, ◌∙◌, arith, true, false, not, ◌&&◌, ◌||◌, List, [], ◌∷◌, some, ltb,
  ◌==◌, if◌then◌else◌, length, slice, Bool-cases, Option-cases, inl, inr,
}
use mathlib.Core.Path.{subst}
use mac.Wpa.{Suite, Ieee80211, Key, SkBuff, frame_control}
use mac.Wpa.Blocks.{hdr2pn, memcmp_le}
use mac.Wpa.Crypt.{
  rx_continue, rx_drop_unusable, CryptoRxData, accept_pn, open_text, check_pn, crypto_decrypt,
}

pub memcmp_le_refl : (xs : List ℕ) → memcmp_le xs xs ≡ true
unfolding memcmp_le
memcmp_le_refl [] = refl
memcmp_le_refl (x ∷ xs) = ground (arith, memcmp_le_refl xs)

pub memcmp_le_trans :
    (xs ys zs : List ℕ) → memcmp_le xs ys ≡ true → memcmp_le ys zs ≡ true → memcmp_le xs zs ≡ true
unfolding memcmp_le
memcmp_le_trans [] ys zs h k = refl
memcmp_le_trans (x ∷ xs) [] zs h k = cc
memcmp_le_trans (x ∷ xs) (y ∷ ys) [] h k = cc
memcmp_le_trans (x ∷ xs) (y ∷ ys) (z ∷ zs) h k = ground (arith, memcmp_le_trans xs ys zs)

pub memcmp_le_total : (xs ys : List ℕ) → memcmp_le xs ys ≡ false → memcmp_le ys xs ≡ true
unfolding memcmp_le
memcmp_le_total [] ys h = cc
memcmp_le_total (x ∷ xs) [] h = refl
memcmp_le_total (x ∷ xs) (y ∷ ys) h = ground (arith, memcmp_le_total xs ys)

-- The number of a received frame.
abbrev pub pn_of : Ieee80211 → CryptoRxData → List ℕ
pn_of k rx = hdr2pn (slice (k.hdrlen (frame_control rx.skb.content)) 8 rx.skb.content)

-- The numbers of every queue are at least as high.
abbrev pub Grows : Key → Key → Type 0
Grows old new = (queue : ℕ) → memcmp_le (old.rx_pn queue) (new.rx_pn queue) ≡ true

pn_update :
    (key : Key) (idx queue : ℕ) (pn : List ℕ)
    → memcmp_le pn (key.rx_pn idx) ≡ false
    → memcmp_le (key.rx_pn queue) (if queue == idx then pn else key.rx_pn queue) ≡ true
pn_update key idx queue pn new = elim (Bool-cases (queue == idx)) [
  | inl e ↦
      let same : queue ≡ idx = ground (arith, e) in
      rw (e, same) (memcmp_le_total pn (key.rx_pn idx) new)
  | inr e ↦ rw (e) (memcmp_le_refl (key.rx_pn queue))
]

module _ (s : Suite) (k : Ieee80211) (mic_len : ℕ) where
  accept_pn-Grows :
      (rx : CryptoRxData) (key : Key) (skb : SkBuff)
      → memcmp_le (pn_of k rx) (key.rx_pn rx.security_idx) ≡ false
      → Grows key (accept_pn k mic_len (pn_of k rx) rx key skb).1
  unfolding accept_pn
  accept_pn-Grows rx key skb new queue = elim (Bool-cases rx.trims) [
    | inl e ↦ rw (e) (pn_update key rx.security_idx queue (pn_of k rx) new)
    | inr e ↦ rw (e) (pn_update key rx.security_idx queue (pn_of k rx) new)
  ]

  check_pn-Grows :
      (stack : List ℕ) (rx : CryptoRxData) (key : Key)
      → Grows key (check_pn s k stack mic_len rx key).1
  unfolding check_pn
  check_pn-Grows stack rx key queue =
      elim (Bool-cases (memcmp_le (pn_of k rx) (key.rx_pn rx.security_idx))) [
        | inl old ↦ rw (old) (memcmp_le_refl (key.rx_pn queue))
        | inr new ↦
            elim (Option-cases (
              if rx.decrypted
              then some rx.skb.content
              else open_text s k stack mic_len (pn_of k rx) key rx.skb.content)) [
                | inl e ↦ rw (new, e) (memcmp_le_refl (key.rx_pn queue))
                | inr e ↦ rw (new, e.1) (accept_pn-Grows rx key _ new queue)
              ]
      ]

  crypto_decrypt-Grows :
      (stack : List ℕ) (rx : CryptoRxData) (key : Key)
      → Grows key (crypto_decrypt s k stack mic_len rx key).1
  unfolding crypto_decrypt
  crypto_decrypt-Grows stack rx key queue =
      ground (arith, memcmp_le_refl (key.rx_pn queue), check_pn-Grows stack rx key queue)

  -- Frames are received one after another.
  pub decrypt_all : List (List ℕ × CryptoRxData) → Key → Key
  decrypt_all [] key = key
  decrypt_all ((stack, rx) ∷ later) key =
      decrypt_all later (crypto_decrypt s k stack mic_len rx key).1

  decrypt_all-Grows :
      (later : List (List ℕ × CryptoRxData)) (key : Key) → Grows key (decrypt_all later key)
  unfolding decrypt_all
  decrypt_all-Grows [] key queue = memcmp_le_refl (key.rx_pn queue)
  decrypt_all-Grows ((stack, rx) ∷ later) key queue =
      memcmp_le_trans _ _ _ (crypto_decrypt-Grows stack rx key queue)
        (decrypt_all-Grows later (crypto_decrypt s k stack mic_len rx key).1 queue)

  -- The frame is for the handler, complete and in memory.
  abbrev IsComplete : CryptoRxData → Type 0
  IsComplete rx =
      let frame = rx.skb.content in
      let fc = frame_control frame in
      ((not (k.is_data fc) && not (k.is_robust_mgmt_frame frame)) ≡ false)
      × ((not rx.has_sta || ltb (length frame) (k.hdrlen fc + 8 + mic_len)) ≡ false)
      × (not (if rx.decrypted then rx.may_pull else rx.linearizes) ≡ false)

  crypto_decrypt-check_pn :
      (stack : List ℕ) (rx : CryptoRxData) (key : Key)
      → IsComplete rx
      → crypto_decrypt s k stack mic_len rx key ≡ check_pn s k stack mic_len rx key
  unfolding crypto_decrypt
  crypto_decrypt-check_pn stack rx key (a, b, c) = rw (a, b, c) refl

  continue-IsComplete :
      (stack : List ℕ) (rx : CryptoRxData) (key : Key)
      → (k.is_data (frame_control rx.skb.content) || k.is_robust_mgmt_frame rx.skb.content) ≡ true
      → (crypto_decrypt s k stack mic_len rx key).0 ≡ rx_continue
      → IsComplete rx
  unfolding crypto_decrypt
  continue-IsComplete stack rx key for_us accepted = (ground arith, ground arith, ground arith)

  check_pn-pn :
      (stack : List ℕ) (rx : CryptoRxData) (key : Key)
      → (check_pn s k stack mic_len rx key).0 ≡ rx_continue
      → (check_pn s k stack mic_len rx key).1.rx_pn rx.security_idx ≡ pn_of k rx
  unfolding check_pn accept_pn
  check_pn-pn stack rx key accepted = ground arith

  -- A frame that the handler has decrypted and handed on is dropped, and counted as a replay, when it comes
  -- again, whatever frames the key has met in between; the numbers of the key stay.
  pub crypto_decrypt-replayed :
      (stack stack' : List ℕ) (rx : CryptoRxData) (key : Key) (later : List (List ℕ × CryptoRxData))
      → (k.is_data (frame_control rx.skb.content) || k.is_robust_mgmt_frame rx.skb.content) ≡ true
      → (crypto_decrypt s k stack mic_len rx key).0 ≡ rx_continue
      → let met = decrypt_all later (crypto_decrypt s k stack mic_len rx key).1 in
        crypto_decrypt s k stack' mic_len rx met
        ≡ (rx_drop_unusable, record met { replays = (met.replays + 1) % 2 ^ 32 }, rx.skb)
  unfolding check_pn
  crypto_decrypt-replayed stack stack' rx key later for_us accepted =
      let whole = continue-IsComplete stack rx key for_us accepted in
      let next : Key = (crypto_decrypt s k stack mic_len rx key).1 in
      let met : Key = decrypt_all later next in
      let first = crypto_decrypt-check_pn stack rx key whole in
      let counted : next.rx_pn rx.security_idx ≡ pn_of k rx =
        rw (first) (check_pn-pn stack rx key (rw (first) at accepted)) in
      let old : memcmp_le (pn_of k rx) (met.rx_pn rx.security_idx) ≡ true =
        subst (λ x. memcmp_le x (met.rx_pn rx.security_idx) ≡ true) counted
          (decrypt_all-Grows later next rx.security_idx) in
      crypto_decrypt-check_pn stack' rx met whole ∙ rw (old) refl
