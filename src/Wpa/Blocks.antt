-- ===== src/Wpa/Blocks.antt =====
-- wpa.c, aes_ccm.c, aes_gcm.c: the packet number in a frame, and what the ciphers are given beside the text.
use mac.Base.{
  ℕ, ◌+◌, ◌-◌, ◌*◌, ◌/◌, ◌%◌, ◌^◌, bit_and, bit_or, Bool, true, false, List, [], ◌∷◌, ◌++◌, Option,
  none, ltb, ◌==◌, if◌then◌else◌, length, get_or, take, slice,
}
use mac.Wpa.{Suite, ccmp, gcmp, Ieee80211, CryptoAead, frame_control}

-- The six bytes of a packet number, the highest first.
unfoldable pub pn_bytes : ℕ → List ℕ
pn_bytes pn64 =
    (pn64 / 2 ^ 40 % 256)
    ∷ (pn64 / 2 ^ 32 % 256)
    ∷ (pn64 / 2 ^ 24 % 256)
    ∷ (pn64 / 2 ^ 16 % 256)
    ∷ (pn64 / 2 ^ 8 % 256)
    ∷ (pn64 % 256)
    ∷ []

unfoldable pub pn2hdr : List ℕ → ℕ → List ℕ
pn2hdr pn key_id =
    get_or pn 5 0
    ∷ get_or pn 4 0
    ∷ 0
    ∷ (bit_or 0x20 (key_id * 2 ^ 6) % 256)
    ∷ get_or pn 3 0
    ∷ get_or pn 2 0
    ∷ get_or pn 1 0
    ∷ get_or pn 0 0
    ∷ []

unfoldable pub hdr2pn : List ℕ → List ℕ
hdr2pn hdr =
    get_or hdr 7 0
    ∷ get_or hdr 6 0
    ∷ get_or hdr 5 0
    ∷ get_or hdr 4 0
    ∷ get_or hdr 1 0
    ∷ get_or hdr 0 0
    ∷ []

-- memcmp(xs, ys, n) <= 0
unfoldable pub memcmp_le : List ℕ → List ℕ → Bool
memcmp_le [] ys = true
memcmp_le (x ∷ xs) [] = false
memcmp_le (x ∷ xs) (y ∷ ys) =
    let rest = memcmp_le xs ys in if ltb x y then true else if ltb y x then false else rest

-- fc & ~mask
abbrev clear : ℕ → ℕ → ℕ
clear fc mask = bit_and fc (2 ^ 16 - 1 - mask)

-- The frame control field without the bits that may change on the way.
unfoldable pub mask_fc : Ieee80211 → ℕ → ℕ
mask_fc k fc =
    let masked = clear fc (bit_or k.fctl_retry (bit_or k.fctl_pm k.fctl_moredata)) in
    bit_or (if k.is_mgmt fc then masked else clear masked 0x0070) k.fctl_protected

unfoldable pub qos_tid : Ieee80211 → List ℕ → ℕ
qos_tid k frame =
    let fc = frame_control frame in
    if k.is_data_qos fc then bit_and (get_or frame (k.qos_ctl fc) 0) k.qos_ctl_tid_mask else 0

-- The associated data: two bytes of length, the masked header, and zeros.
unfoldable pub aad : Ieee80211 → List ℕ → List ℕ
aad k frame =
    let fc = frame_control frame in
    let len_a = (k.hdrlen fc + 2 ^ 16 - 2) % 2 ^ 16 in
    let masked = mask_fc k fc in
    let tid = qos_tid k frame in
    (len_a / 256)
    ∷ (len_a % 256)
    ∷ (masked % 256)
    ∷ (masked / 256)
    ∷ (slice 4 18 frame
        ++ (bit_and (get_or frame 22 0) 0x0f
            ∷ 0
            ∷ (if k.has_a4 fc
                then slice 24 6 frame ++ (tid ∷ 0 ∷ [])
                else tid ∷ 0 ∷ 0 ∷ 0 ∷ 0 ∷ 0 ∷ 0 ∷ 0 ∷ [])))

-- The first blocks; `stack` are the bytes that the code leaves unset.
unfoldable pub b_0 : Ieee80211 → List ℕ → List ℕ → List ℕ → List ℕ
b_0 k stack frame pn =
    0x1
    ∷ bit_or (qos_tid k frame) (if k.is_mgmt (frame_control frame) then 2 ^ 4 else 0)
    ∷ (slice 10 6 frame ++ (pn ++ take 2 stack))

unfoldable pub j_0 : List ℕ → List ℕ → List ℕ → List ℕ
j_0 stack frame pn = slice 10 6 frame ++ (pn ++ (take 1 stack ++ (0 ∷ 0 ∷ 0x01 ∷ [])))

unfoldable pub first_block : Suite → Ieee80211 → List ℕ → List ℕ → List ℕ → List ℕ
unfolding b_0 j_0
first_block ccmp k stack frame pn = b_0 k stack frame pn
first_block gcmp k stack frame pn = j_0 stack frame pn

-- The associated data proper, behind the two bytes of its length.
abbrev pub assoc : List ℕ → List ℕ
assoc aad = slice 2 (get_or aad 0 0 * 256 + get_or aad 1 0) aad

-- The encrypted text and the code.
unfoldable pub aes_encrypt : CryptoAead → List ℕ → List ℕ → List ℕ → ℕ → List ℕ × List ℕ
aes_encrypt tfm block aad text mic_len =
    let out = tfm.encrypt (assoc aad) block text in
    (take (length text) out, slice (length text) mic_len out)

-- `none` is an error.
unfoldable pub aes_decrypt : CryptoAead → List ℕ → List ℕ → List ℕ → List ℕ → Option (List ℕ)
aes_decrypt tfm block aad text mic =
    if length text == 0 then none else tfm.decrypt (assoc aad) block (text ++ mic)
