-- ===== src/Wpa/Send.antt =====
-- wpa.c: the bytes of an encrypted frame.
use mac.Base.{
  ℕ, ◌+◌, ◌%◌, ◌^◌, ◌<◌, ◌≡◌, refl, sym, ◌∙◌, arith, false, ◌||◌, List, ◌++◌, none, some, ltb,
  length, overwrite, overwrite-append,
}
use mac.Wpa.{Suite, Ieee80211, Key, SkBuff, frame_control}
use mac.Wpa.Blocks.{pn_bytes, pn2hdr, aad, first_block, assoc}
use mac.Wpa.Crypt.{open_header, encrypt_skb, number_frame, seal, hw_makes_room}
use mac.Wpa.Header.{IsIeee80211, frame_control-append}
use mac.Wpa.Trip.{IsCipher, IsPlain, seal-content, open_header-content}

pub length-pn2hdr : (pn : List ℕ) (key_id : ℕ) → length (pn2hdr pn key_id) ≡ 8
unfolding pn2hdr
length-pn2hdr pn key_id = refl

module _ (s : Suite) (k : Ieee80211) (law : IsIeee80211 k) (mic_len : ℕ) (stack : List ℕ) where
  -- A frame on the air: the header, the packet number, the encrypted body and the code.
  abbrev pub on_air : (key : Key) → ℕ → List ℕ → List ℕ → List ℕ
  on_air key n h body =
      h
      ++ (pn2hdr (pn_bytes n) key.keyidx
          ++ key.tfm.encrypt (assoc (aad k h)) (first_block s k stack h (pn_bytes n)) body)

  number_frame-on_air :
      (key : Key) (skb : SkBuff) (h body stale : List ℕ)
      → IsCipher s mic_len key.tfm
      → length h ≡ k.hdrlen (frame_control h)
      → length stale ≡ 8
      → skb.hw_key ≡ none
      → skb.content ≡ h ++ (stale ++ body)
      → key.tx_pn + 1 < 2 ^ 48
      → let q = number_frame s k stack mic_len (k.hdrlen (frame_control h)) key skb in
        (q.0 ≡ record key { tx_pn = key.tx_pn + 1 })
        × (q.1.content ≡ on_air key (key.tx_pn + 1) h body)
  unfolding number_frame seal
  number_frame-on_air key skb h body stale cipher whole eight software split small =
      let next : (key.tx_pn + 1) % 2 ^ 64 ≡ key.tx_pn + 1 = omega arith in
      let pn : List ℕ = pn_bytes (key.tx_pn + 1) in
      let pn_hdr : List ℕ = pn2hdr pn key.keyidx in
      let eight' = length-pn2hdr pn key.keyidx in
      let counted : Key = record key { tx_pn = key.tx_pn + 1 } in
      let numbered : SkBuff = record skb {
        content = overwrite (k.hdrlen (frame_control h)) pn_hdr skb.content;
      } in
      let written : numbered.content ≡ h ++ (pn_hdr ++ body) =
        rw (split) (overwrite-append h stale pn_hdr body _ (sym whole) (eight' ∙ sym eight)) in
      (
        rw (software, next) refl,
        rw (software, next)
            (seal-content s k law mic_len counted cipher stack h body whole numbered pn pn_hdr
              eight' written),
      )

  open_header-hw_key : (skb : SkBuff) → (open_header k skb).hw_key ≡ skb.hw_key
  unfolding open_header
  open_header-hw_key skb = refl

  encrypt_skb-number_frame :
      (key : Key) (skb : SkBuff) (h body : List ℕ)
      → IsPlain k mic_len skb h body
      → encrypt_skb s k stack mic_len key skb
        ≡ some (number_frame s k stack mic_len (k.hdrlen (frame_control h)) key (open_header k skb))
  unfolding encrypt_skb hw_makes_room
  encrypt_skb-number_frame key skb h body plain =
      let room : (ltb skb.tailroom mic_len || ltb (length skb.headroom) 8) ≡ false =
        ground (arith, plain.behind, plain.before) in
      rw (plain.software, room, plain.split, frame_control-append k law h plain.whole body) refl

  pub encrypt_skb-on_air :
      (key : Key) (skb : SkBuff) (h body : List ℕ)
      → IsCipher s mic_len key.tfm
      → IsPlain k mic_len skb h body
      → key.tx_pn + 1 < 2 ^ 48
      → (q : Key × SkBuff) × (encrypt_skb s k stack mic_len key skb ≡ some q)
        × (q.0 ≡ record key { tx_pn = key.tx_pn + 1 })
        × (q.1.content ≡ on_air key (key.tx_pn + 1) h body)
  encrypt_skb-on_air key skb h body cipher plain small =
      let opened =
        open_header-content s k law mic_len key cipher stack h body plain.whole skb plain.split
          plain.before in
      let done =
        number_frame-on_air key (open_header k skb) h body opened.0 cipher plain.whole opened.1
          (open_header-hw_key skb ∙ plain.software) opened.2 small in
      (_, encrypt_skb-number_frame key skb h body plain, done.0, done.1)
