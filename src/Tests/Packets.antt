-- ===== src/Tests/Packets.antt =====
-- wpa.c with a cipher that adds two bytes.
use mac.Base.{
  ℕ, ◌+◌, ◌-◌, ◌%◌, ◌^◌, ◌≡◌, refl, ap, arith, true, false, List, [], ◌∷◌, ◌++◌, Option, none, some,
  length, take, map, replicate, take-append, length-append,
}
use mac.Wpa.{ccmp, gcmp, Ieee80211, CryptoAead, SkBuff, Key}
use mac.Wpa.Blocks.{pn_bytes, pn2hdr, hdr2pn, memcmp_le, aes_decrypt}
use mac.Wpa.Crypt.{
  rx_continue, rx_drop_unusable, CryptoRxData, set_protected, crypto_encrypt, crypto_decrypt,
  check_pn, open_text, accept_pn,
}
use mac.Wpa.Replay.{decrypt_all, crypto_decrypt-replayed}
use mac.Wpa.Header.{IsIeee80211}
use mac.Wpa.Trip.{IsCipher, IsPlain}
use mac.Wpa.Exchange.{IsReceived, receive_all, crypto_encrypt-received}

-- Every frame is a data frame with a header of 24 bytes.
abbrev frames : Ieee80211
frames = record {
  hdrlen = λ fc. 24;
  is_mgmt = λ fc. false;
  is_data = λ fc. true;
  is_data_qos = λ fc. false;
  has_a4 = λ fc. false;
  qos_ctl = λ fc. 0;
  is_robust_mgmt_frame = λ frame. false;
  fctl_retry = 0x0800;
  fctl_pm = 0x1000;
  fctl_moredata = 0x2000;
  fctl_protected = 0x4000;
  qos_ctl_tid_mask = 0x000f;
}

frames-IsIeee80211 : IsIeee80211 frames
frames-IsIeee80211 = record { addresses = λ fc. omega arith; fourth = λ fc h. cc; qos = λ fc h. cc }

abbrev two_bytes : CryptoAead
two_bytes = record {
  encrypt = λ assoc block text. text ++ (7 ∷ 9 ∷ []);
  decrypt = λ assoc block text. some (take (length text - 2) text);
}

two_bytes-IsCipher : IsCipher ccmp 2 two_bytes
two_bytes-IsCipher = record {
  sizes = λ assoc block text. length-append text (7 ∷ 9 ∷ []);
  opens = λ assoc block block' text e.
      ap {B = Option (List ℕ)} some
        (take-append text (7 ∷ 9 ∷ []) _ (omega (arith, length-append text (7 ∷ 9 ∷ []))));
}

abbrev key : Key
key = record {
  tx_pn = 300;
  rx_pn = λ queue. pn_bytes 299;
  replays = 0;
  keyidx = 1;
  tfm = two_bytes;
}

abbrev header : List ℕ
header = 8 ∷ 0 ∷ replicate 22 5

abbrev skbuff : List ℕ → SkBuff
skbuff body = record {
  headroom = replicate 10 0;
  content = header ++ body;
  tailroom = 4;
  hw_key = none;
}

abbrev deliver : SkBuff → CryptoRxData
deliver skb = record {
  skb = skb;
  has_sta = true;
  security_idx = 3;
  decrypted = false;
  may_pull = true;
  linearizes = true;
  trims = true;
}

deliver-IsReceived : (skb : SkBuff) → IsReceived skb.content (deliver skb)
deliver-IsReceived skb = record {
  bytes = refl;
  known = refl;
  encrypted = refl;
  linear = refl;
  trimmed = refl;
}

abbrev protected_header : List ℕ
protected_header = 8 ∷ 0x40 ∷ replicate 22 5

skbuff-IsPlain :
    (body : List ℕ) (x : ℕ)
    → IsPlain frames 2 (set_protected frames (skbuff (x ∷ body))) protected_header (x ∷ body)
unfolding set_protected
skbuff-IsPlain body x = record {
  split = refl;
  whole = refl;
  text = omega arith;
  behind = omega arith;
  before = omega arith;
  software = refl;
  for_us = λ y. refl;
}

abbrev queue : List SkBuff
queue = skbuff (1 ∷ 2 ∷ 3 ∷ []) ∷ skbuff (4 ∷ []) ∷ []

crypto_encrypt-received_example :
    (q : Key × List SkBuff) × (crypto_encrypt ccmp frames (6 ∷ 6 ∷ []) 2 key queue ≡ some q)
    × (receive_all ccmp frames 2 [] deliver key q.1
        ≡ map (λ (skb : SkBuff). (rx_continue, skb.content)) (map (set_protected frames) queue))
unfolding memcmp_le pn_bytes
crypto_encrypt-received_example =
    crypto_encrypt-received ccmp frames frames-IsIeee80211 2 (6 ∷ 6 ∷ []) [] deliver
      deliver-IsReceived key key queue two_bytes-IsCipher refl
      (
        (protected_header, 1 ∷ 2 ∷ 3 ∷ [], skbuff-IsPlain (2 ∷ 3 ∷ []) 1),
        ((protected_header, 4 ∷ [], skbuff-IsPlain [] 4), tt),
      )
      (omega arith) (λ queue. refl)

abbrev received : CryptoRxData
received = deliver (record {
  headroom = [];
  content = protected_header ++ (pn2hdr (pn_bytes 301) 1 ++ (1 ∷ 2 ∷ 3 ∷ 7 ∷ 9 ∷ []));
  tailroom = 0;
  hw_key = none;
})

crypto_decrypt-replayed_example :
    let met =
      decrypt_all gcmp frames 2
        (([], received) ∷ [])
        (crypto_decrypt gcmp frames [] 2 received key).1 in
    crypto_decrypt gcmp frames [] 2 received met
    ≡ (rx_drop_unusable, record met { replays = (met.replays + 1) % 2 ^ 32 }, received.skb)
unfolding crypto_decrypt check_pn open_text accept_pn memcmp_le hdr2pn pn2hdr pn_bytes aes_decrypt
crypto_decrypt-replayed_example =
    crypto_decrypt-replayed gcmp frames 2 [] [] received key (([], received) ∷ []) refl refl
