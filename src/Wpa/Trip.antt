-- ===== src/Wpa/Trip.antt =====
-- wpa.c: what is decrypted is what was encrypted.
use mac.Base.{
  bit_or, ℕ, ◌+◌, ◌-◌, ◌^◌, ◌≤◌, ◌<◌, ◌≡◌, refl, sym, ap, ◌∙◌, arith, true, false, ◌||◌, List, [],
  ◌∷◌, ◌++◌, none, some, ◌==◌, if◌then◌else◌, length, slice, take, drop, length-append, take-append,
  drop-append, take-append-slice, take-length, length-take, length-drop,
}
use mathlib.Core.List.{append_assoc}
use mac.Wpa.{Suite, ccmp, gcmp, Ieee80211, CryptoAead, Key, SkBuff, frame_control}
use mac.Wpa.Places.{take_twelve, move_front, move_back, seal_body, open_body, write_body}
use mac.Wpa.Blocks.{pn_bytes, qos_tid, aad, first_block, assoc, aes_encrypt, aes_decrypt}
use mac.Wpa.Crypt.{open_text, open_header, seal, strip}
use mac.Wpa.Header.{IsIeee80211, frame_control-append, aad-append, first_block-append}

-- How many bytes of the first block the cipher reads.
abbrev pub nonce_len : Suite → ℕ
nonce_len ccmp = 14
nonce_len gcmp = 12

-- The cipher adds a code of `mic_len` bytes, and decrypts what it has encrypted with the same nonce.
pub record IsCipher (s : Suite) (mic_len : ℕ) (tfm : CryptoAead) : Type 0 where
  pub sizes :
      (assoc block text : List ℕ) → length (tfm.encrypt assoc block text) ≡ length text + mic_len
  pub opens :
      (assoc block block' text : List ℕ)
      → take (nonce_len s) block ≡ take (nonce_len s) block'
      → tfm.decrypt assoc block' (tfm.encrypt assoc block text) ≡ some text

-- The unset bytes are no part of the nonce.
first_block-nonce :
    (s : Suite) (k : Ieee80211) (stack stack' h : List ℕ) (n : ℕ)
    → 16 ≤ length h
    → take (nonce_len s) (first_block s k stack h (pn_bytes n))
      ≡ take (nonce_len s) (first_block s k stack' h (pn_bytes n))
unfolding first_block pn_bytes
first_block-nonce ccmp k stack stack' h n long =
    let addr2 : length (slice 10 6 h) ≡ 6 =
      length-take 6 (drop 10 h) (omega (arith, length-drop 10 h)) in
    ap (λ l. 0x1 ∷ bit_or (qos_tid k h) (if k.is_mgmt (frame_control h) then 2 ^ 4 else 0) ∷ l)
      (take_twelve (slice 10 6 h) (pn_bytes n) (take 2 stack) addr2 refl
        ∙ sym (take_twelve (slice 10 6 h) (pn_bytes n) (take 2 stack') addr2 refl))
first_block-nonce gcmp k stack stack' h n long =
    let addr2 : length (slice 10 6 h) ≡ 6 =
      length-take 6 (drop 10 h) (omega (arith, length-drop 10 h)) in
    take_twelve (slice 10 6 h) (pn_bytes n) (take 1 stack ++ (0 ∷ 0 ∷ 0x01 ∷ [])) addr2 refl
    ∙ sym
        (take_twelve (slice 10 6 h) (pn_bytes n) (take 1 stack' ++ (0 ∷ 0 ∷ 0x01 ∷ [])) addr2 refl)

-- A frame that is encrypted in software: a header and a body that is not empty, room on both sides, and a
-- type for which the receiver decrypts it, whatever stands behind the header.
pub record IsPlain (k : Ieee80211) (mic_len : ℕ) (skb : SkBuff) (h body : List ℕ) : Type 0 where
  pub split : skb.content ≡ h ++ body
  pub whole : length h ≡ k.hdrlen (frame_control h)
  pub text : 0 < length body
  pub behind : mic_len ≤ skb.tailroom
  pub before : 8 ≤ length skb.headroom
  pub software : skb.hw_key ≡ none
  pub for_us :
      (x : List ℕ) → (k.is_data (frame_control h) || k.is_robust_mgmt_frame (h ++ x)) ≡ true

module _ (s : Suite) (k : Ieee80211) (law : IsIeee80211 k) (mic_len : ℕ) (key : Key)
    (cipher : IsCipher s mic_len key.tfm) (stack h body : List ℕ)
    (whole : length h ≡ k.hdrlen (frame_control h)) where
  -- What the cipher makes of the body.
  abbrev pub sealed_text : List ℕ → List ℕ
  sealed_text pn = key.tfm.encrypt (assoc (aad k h)) (first_block s k stack h pn) body

  pub open_header-content :
      (skb : SkBuff)
      → skb.content ≡ h ++ body
      → 8 ≤ length skb.headroom
      → (stale : List ℕ) × (length stale ≡ 8) × ((open_header k skb).content ≡ h ++ (stale ++ body))
  unfolding open_header
  open_header-content skb split before =
      let junk : List ℕ = drop (length skb.headroom - 8) skb.headroom in
      let eight : length junk ≡ 8 =
        omega (arith, length-drop (length skb.headroom - 8) skb.headroom) in
      let hdrlen : ℕ = k.hdrlen (frame_control h) in
      let both = length-append junk h in
      (
        drop hdrlen (junk ++ h),
        omega (arith, length-drop hdrlen (junk ++ h), both, eight, whole),
        rw (split, frame_control-append k law h whole body)
            (move_front junk h body hdrlen eight (sym whole)),
      )

  pub seal-content :
      (skb : SkBuff) (pn pn_hdr : List ℕ)
      → length pn_hdr ≡ 8
      → skb.content ≡ h ++ (pn_hdr ++ body)
      → (seal s k stack mic_len pn (k.hdrlen (frame_control h) + 8) key skb).content
        ≡ h ++ (pn_hdr ++ sealed_text pn)
  unfolding seal aes_encrypt
  seal-content skb pn pn_hdr eight split =
      let start : ℕ = k.hdrlen (frame_control h) + 8 in
      let frame : List ℕ = h ++ (pn_hdr ++ body) in
      let out : List ℕ = sealed_text pn in
      let front : frame ≡ (h ++ pn_hdr) ++ body = sym (append_assoc h pn_hdr body) in
      let start_eq : start ≡ length (h ++ pn_hdr) =
        omega (arith, length-append h pn_hdr, whole, eight) in
      let text : drop start frame ≡ body =
        rw (front) (drop-append (h ++ pn_hdr) body start start_eq) in
      let size : length frame - start ≡ length body =
        sym (length-drop start frame) ∙ ap length text in
      rw
        (
          split,
          aad-append k law h whole (pn_hdr ++ body),
          first_block-append k law h whole s stack pn (pn_hdr ++ body),
          text,
          size,
          take-length body,
        )
        (rw (front)
            (seal_body (h ++ pn_hdr) body out start mic_len start_eq (cipher.sizes _ _ body))
          ∙ append_assoc h pn_hdr out)

  abbrev pub code : List ℕ → List ℕ
  code pn = slice (length body) mic_len (sealed_text pn)

  -- The text is decrypted in its place.
  pub open_text-content :
      (stack' : List ℕ) (rkey : Key) (n : ℕ) (pn_hdr : List ℕ)
      → length pn_hdr ≡ 8
      → rkey.tfm ≡ key.tfm
      → 0 < length body
      → let pn = pn_bytes n in
        open_text s k stack' mic_len pn rkey (h ++ (pn_hdr ++ sealed_text pn))
        ≡ some ((h ++ pn_hdr) ++ (body ++ code pn))
  unfolding open_text aes_decrypt
  open_text-content stack' rkey n pn_hdr eight same filled =
      let pn : List ℕ = pn_bytes n in
      let out : List ℕ = sealed_text pn in
      let rest : List ℕ = pn_hdr ++ out in
      let start : ℕ = k.hdrlen (frame_control h) + 8 in
      let size : length out ≡ length body + mic_len = cipher.sizes _ _ body in
      let start_eq : start ≡ length (h ++ pn_hdr) =
        omega (arith, length-append h pn_hdr, whole, eight) in
      let front : h ++ rest ≡ (h ++ pn_hdr) ++ out = sym (append_assoc h pn_hdr out) in
      let parts = open_body (h ++ pn_hdr) out start (length body) mic_len start_eq size in
      let long = law.addresses (frame_control h) in
      let opened =
        cipher.opens (assoc (aad k h)) _ _ body
          (first_block-nonce s k stack stack' h n (omega (arith, long, whole))) in
      let text : length (take (length body) out) ≡ length body =
        length-take (length body) out (omega arith) in
      let some_text : (length body == 0) ≡ false = ground arith in
      rw
        (
          same,
          aad-append k law h whole rest,
          first_block-append k law h whole s stack' pn rest,
          frame_control-append k law h whole rest,
        )
        (rw
          (
            front,
            parts.0,
            parts.1,
            text,
            some_text,
            take-append-slice out (length body) mic_len size,
            opened,
            write_body (h ++ pn_hdr) body out start mic_len start_eq size,
          )
          refl)

  pub strip-content :
      (skb : SkBuff) (pn pn_hdr : List ℕ)
      → length pn_hdr ≡ 8
      → skb.content ≡ (h ++ pn_hdr) ++ (body ++ code pn)
      → (strip k mic_len skb).content ≡ h ++ body
  unfolding strip
  strip-content skb pn pn_hdr eight split =
      let tail : List ℕ = code pn in
      let size : length (sealed_text pn) ≡ length body + mic_len = cipher.sizes _ _ body in
      let short : length tail ≡ mic_len =
        length-take mic_len (drop (length body) (sealed_text pn))
          (omega (arith, length-drop (length body) (sealed_text pn))) in
      let front : (h ++ pn_hdr) ++ (body ++ tail) ≡ (h ++ (pn_hdr ++ body)) ++ tail =
        simp append_assoc in
      let frame : List ℕ = h ++ (pn_hdr ++ body) in
      let both = length-append frame tail in
      let kept : take (length (frame ++ tail) - mic_len) (frame ++ tail) ≡ frame =
        take-append frame tail _ (omega arith) in
      let fc : frame_control (frame ++ tail) ≡ frame_control h =
        rw (append_assoc h (pn_hdr ++ body) tail)
          (frame_control-append k law h whole ((pn_hdr ++ body) ++ tail)) in
      rw (split, front) (rw (kept, fc) (move_back h pn_hdr body _ eight (sym whole)))
