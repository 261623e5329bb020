-- ===== src/Mnc/Encode/Frame.antt =====
-- mnc_tx.c: the frame that `make_skb_new` makes.
use mac.Base.{
  ℕ, suc, bit_or, ◌+◌, ◌-◌, ◌*◌, ◌%◌, ◌^◌, ◌≤◌, ◌<◌, zero-bit_xor, ◌≡◌, refl, ap, ◌∙◌, arith, Bool,
  true, false, List, [], ◌∷◌, leb, if◌then◌else◌, length,
}
use native.Mathlib.Nat.{mod-eq_of_lt}
use mac.Gf.Sum.{xsum}
use mac.Mnc.Substitute.{Vector}
use mac.Mnc.Queue.{Packet}
use mac.Mnc.Encode.Packet.{new_header, fill_new, make_skb_new, made}
use mac.Mnc.Encode.Sum.{SameLength, term, code_all-IsSum}

abbrev pub data_start : Bool → ℕ
data_start src = if src then 14 else 0

abbrev pub header_length : ℕ → List Packet → ℕ
header_length p skbs = p * p * length skbs + 3

-- A frame with the coefficients `random` and the sum of the packets `skbs`, each times its coefficients.
pub record IsFrame (src : Bool) (p id coding_len : ℕ) (random : Vector) (skbs : List Packet)
    (new : Vector) : Type 0 where
  pub kp : new 0 ≡ bit_or (length skbs * 4) p % 256
  pub generation : new 1 ≡ id
  pub mark : new 2 ≡ (if src then 0xfc else 0xfd)
  pub coefficients : (x : ℕ) → x < length skbs * (p * p) → new (3 + x) ≡ random x
  pub bytes :
      (y : ℕ)
      → y < coding_len
      → new (header_length p skbs + y)
        ≡ xsum (length skbs) (term p (data_start src) random skbs 0 y)

-- Packets of one length, of which the encoder takes `coding_len` bytes.
pub record IsBatch (src : Bool) (p coding_len : ℕ) (skbs : List Packet) : Type 0 where
  pub nonempty : 0 < length skbs
  pub few : length skbs < 0x1000000
  pub small : p < 0x100
  pub pos : 0 < p
  pub same : SameLength (coding_len + data_start src) skbs
  pub room : coding_len + header_length p skbs < 2 ^ 32

coding_length :
    (src : Bool) (coding_len : ℕ)
    → coding_len < 2 ^ 32
    → (if src
        then (coding_len + data_start src + 2 ^ 32 - 14) % 2 ^ 32
        else coding_len + data_start src)
      ≡ coding_len
coding_length true coding_len h = omega arith
coding_length false coding_len h = omega arith

-- On a batch none of the early returns is taken.
make_skb_new_lem :
    (rounds : ℕ) (src : Bool) (copy random : Vector) (skb : Packet) (rest : List Packet)
    (p id coding_len : ℕ)
    → IsBatch src p coding_len (skb ∷ rest)
    → let skbs : List Packet = skb ∷ rest in
      let h : ℕ = header_length p skbs in
      make_skb_new rounds src true copy random skbs p id
      ≡ fill_new rounds src copy random skbs p id (coding_len + data_start src) coding_len h
unfolding make_skb_new
make_skb_new_lem rounds src copy random skb rest p id coding_len b =
    let small_header : (p * p * suc (length rest) + 3) % 2 ^ 32 ≡ p * p * suc (length rest) + 3 =
      mod-eq_of_lt (omega (arith, b.room)) in
    let few : leb 0x1000000 (suc (length rest)) ≡ false = ground (arith, b.few) in
    let small : leb 0x100 p ≡ false = ground (arith, b.small) in
    rw (few, small, b.same.0, coding_length src coding_len (omega (arith, b.room)), small_header)
      refl

new_header-zero :
    (k p id : ℕ) (src : Bool) (len : ℕ) (copy : Vector) (x : ℕ)
    → 3 ≤ x
    → x < len
    → new_header k p id src len copy x ≡ 0
unfolding new_header
new_header-zero k p id src len copy x h below = ground arith

-- The loop over a batch ends, and leaves the frame.
fill_new-IsFrame :
    (rounds : ℕ) (src : Bool) (copy random : Vector) (skbs : List Packet) (p id coding_len : ℕ)
    → length skbs < rounds
    → IsBatch src p coding_len skbs
    → (new : Vector) × (fill_new rounds src copy random skbs p id
          (coding_len + data_start src)
          coding_len
          (header_length p skbs)
        ≡ made new)
      × IsFrame src p id coding_len random skbs new
unfolding fill_new
fill_new-IsFrame rounds src copy random skbs p id coding_len enough b =
    let h : ℕ = header_length p skbs in
    let first : Vector = new_header (length skbs) p id src ((coding_len + h) % 2 ^ 32) copy in
    let whole : (coding_len + h) % 2 ^ 32 ≡ coding_len + h = mod-eq_of_lt b.room in
    let area : length skbs * (p * p) + 3 ≡ h = omega arith in
    let all =
      code_all-IsSum rounds p coding_len (coding_len + data_start src) (data_start src) random h
        skbs 0 first enough b.pos b.same (omega (arith, area)) in
    (
      all.0,
      all.1,
      record {
        kp = all.2.header 0 (omega arith);
        generation = all.2.header 1 (omega arith);
        mark = all.2.header 2 (omega arith);
        coefficients = λ x below.
            let cell = all.2.header (3 + x) (omega (arith, area)) in
            let back : 3 + x - 3 ≡ x = omega arith in ground (arith, cell, ap random back);
        bytes = λ y below.
            let zero_byte : first (h + y) ≡ 0 =
              new_header-zero (length skbs) p id src ((coding_len + h) % 2 ^ 32) copy (h + y)
                (omega arith) (omega (arith, whole)) in
            all.2.bytes y below ∙ rw (zero_byte) (zero-bit_xor _);
      },
    )

-- On a batch, where `skb_copy` finds memory, the loop of `make_skb_new` ends within a round for each packet and
-- one more, and a frame is returned: its header holds the low eight bits of `(k << 2) | p` for `k` packets, the
-- number of the generation and the random coefficients, and its data is the sum of the packets, each times its
-- coefficients.
pub make_skb_new-IsFrame :
    (rounds : ℕ) (src : Bool) (copy random : Vector) (skbs : List Packet) (p id coding_len : ℕ)
    → length skbs < rounds
    → IsBatch src p coding_len skbs
    → (new : Vector) × (make_skb_new rounds src true copy random skbs p id ≡ made new)
      × IsFrame src p id coding_len random skbs new
make_skb_new-IsFrame rounds src copy random [] p id coding_len enough b =
    absurd (omega (arith, b.nonempty))
make_skb_new-IsFrame rounds src copy random (skb ∷ rest) p id coding_len enough b =
    let frame = fill_new-IsFrame rounds src copy random (skb ∷ rest) p id coding_len enough b in
    (frame.0, make_skb_new_lem rounds src copy random skb rest p id coding_len b ∙ frame.1, frame.2)
