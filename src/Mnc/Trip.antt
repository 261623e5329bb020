-- ===== src/Mnc/Trip.antt =====
-- mnc_tx.c and mnc_rx.c together: the frames of `make_skb_new`, decoded by `skbs_decoding`.
use mac.Base.{
  ℕ, suc, ◌+◌, ◌*◌, ◌/◌, ◌%◌, ◌≤◌, ◌<◌, ◌≡◌, refl, sym, ap, ◌∙◌, arith, Bool, true, false, List,
  if◌then◌else◌, length, Matrix, Bool-cases, inl, inr,
}
use native.Mathlib.Nat.{
  div-lt_iff_lt-mul, mod-lt, suc-mul, mul-le-mul_right, lt_of_mul-lt-mul_right,
}
use mac.Gf.{gmul}
use mac.Gf.Laws.{gmul_comm, gmul-zero, one-gmul}
use mac.Gf.Sum.{xsum, xsum_congr, xsum_single, xsum_blocks}
use mac.Mnc.Lu.Invariant.{AllBytes}
use mac.Mnc.Substitute.{Vector}
use mac.Mnc.Substitute.Cells.{quotient_of_bounds, bounds_of_quotient}
use mac.Mnc.Substitute.Recover.{IsCoded}
use mac.Mnc.Queue.{Packet}
use mac.Mnc.Encode.Sum.{packet_at}
use mac.Mnc.Encode.Frame.{data_start, header_length, IsFrame}
use mac.Mnc.Decode.{fill_coefficients}
use mac.Mnc.Decode.Rows.{coefficient_at, fill_coefficients_lem}

-- Byte `y` of the part of packet `c` that is coded.
abbrev pub original_of : Bool → List Packet → ℕ → Vector
original_of src skbs c y = (packet_at skbs c).content (data_start src + y)

-- What the `k` slots hold: slot `i` either packet `i` behind three bytes, or a frame of `make_skb_new`
-- with coefficients of its own.
pub record IsReceived (src : Bool) (p id coding_len : ℕ) (skbs : List Packet) (random : ℕ → Vector)
    (is_sys : ℕ → Bool) (skb : ℕ → Vector) : Type 0 where
  pub whole :
      (i : ℕ)
      → i < length skbs
      → is_sys i ≡ true
      → (y : ℕ) → y < coding_len
      → skb i (3 + y) ≡ original_of src skbs i y
  pub sums :
      (i : ℕ)
      → i < length skbs
      → is_sys i ≡ false
      → IsFrame src p id coding_len (random i) skbs (skb i)

abbrev pub start : ℕ → List Packet → (ℕ → Bool) → ℕ → ℕ
start p skbs is_sys j = if is_sys j then 3 else header_length p skbs

-- Byte `c` of block `q` of all packets.
abbrev piece : Bool → ℕ → List Packet → ℕ → ℕ → ℕ
piece src p skbs q c = original_of src skbs (c / p) (q * p + c % p)

module _ {src : Bool} {p id : ℕ} (rounds : ℕ) {skbs : List Packet} {random : ℕ → Vector}
    {is_sys : ℕ → Bool} {skb : ℕ → Vector} (pos : 0 < p)
    (received : IsReceived src p id (rounds * p) skbs random is_sys skb)
    (bytes : AllBytes (original_of src skbs)) where
  block_inside : (q m : ℕ) → q < rounds → m < p → q * p + m < rounds * p
  block_inside q m h below =
      let le : suc q * p ≤ rounds * p = grind arith in omega (arith, le, suc-mul q p)

  whole_row :
      (q r : ℕ)
      → q < rounds
      → r < length skbs * p
      → is_sys (r / p) ≡ true
      → skb (r / p) (3 + q * p + r % p)
        ≡ xsum
            (length skbs * p)
            (λ c. gmul (coefficient_at p skb is_sys r c) (piece src p skbs q c))
  whole_row q r h inside s =
      let i : r / p < length skbs = (div-lt_iff_lt-mul pos).1 inside in
      let in_block = block_inside q (r % p) h (mod-lt r pos) in
      let own : coefficient_at p skb is_sys r r ≡ 1 = ground (arith, s) in
      let at : 3 + q * p + r % p ≡ 3 + (q * p + r % p) = omega arith in
      ap (skb (r / p)) at
      ∙ received.whole (r / p) i s (q * p + r % p) in_block
      ∙ sym (
          xsum_single (length skbs * p) r _ inside (λ c h ne.
            let other : coefficient_at p skb is_sys r c ≡ 0 = ground (arith, s, ne) in
            rw (other) (gmul_comm 0 _ ∙ gmul-zero _))
          ∙ ap (λ t. gmul t (piece src p skbs q r)) own
          ∙ one-gmul _ (bytes (r / p) (q * p + r % p)))

  -- Packet `b`'s term in a byte of a frame, by the coefficients in the frame's header.
  cell_term :
      (q r i : ℕ)
      → IsFrame src p id (rounds * p) (random i) skbs (skb i)
      → (b j : ℕ) → b < length skbs
      → j < p
      → gmul
          (original_of src skbs b ((q * p + r % p) / p * p + j))
          (random i (0 + b * (p * p) + (q * p + r % p) % p * p + j))
        ≡ gmul (skb i (3 + b * p * p + r % p * p + j)) (original_of src skbs b (q * p + j))
  cell_term q r i frame b j h m =
      let below = mod-lt r pos in
      let quotient : (q * p + r % p) / p ≡ q =
        quotient_of_bounds q p _ (omega arith) (omega (arith, below)) in
      let rest : (q * p + r % p) % p ≡ r % p =
        omega (arith, bounds_of_quotient p (q * p + r % p) pos, ap (λ t. t * p) quotient) in
      let row : suc (r % p) * p ≤ p * p = mul-le-mul_right p below in
      let area : suc b * (p * p) ≤ length skbs * (p * p) = mul-le-mul_right (p * p) h in
      let inside : 0 + b * (p * p) + r % p * p + j < length skbs * (p * p) =
        omega (arith, row, area, suc-mul b (p * p), suc-mul (r % p) p) in
      let at : 3 + b * p * p + r % p * p + j ≡ 3 + (0 + b * (p * p) + r % p * p + j) =
        omega arith in
      let coefficient : skb i (3 + b * p * p + r % p * p + j)
          ≡ random i (0 + b * (p * p) + r % p * p + j) =
        ap (skb i) at ∙ frame.coefficients _ inside in
      rw (quotient, rest, coefficient) (gmul_comm _ _)

  sum_row :
      (q r : ℕ)
      → q < rounds
      → r < length skbs * p
      → is_sys (r / p) ≡ false
      → skb (r / p) (header_length p skbs + q * p + r % p)
        ≡ xsum
            (length skbs * p)
            (λ c. gmul (coefficient_at p skb is_sys r c) (piece src p skbs q c))
  sum_row q r h inside s =
      let i : r / p < length skbs = (div-lt_iff_lt-mul pos).1 inside in
      let in_block = block_inside q (r % p) h (mod-lt r pos) in
      let frame = received.sums (r / p) i s in
      let at : header_length p skbs + q * p + r % p ≡ header_length p skbs + (q * p + r % p) =
        omega arith in
      let entry : ℕ → ℕ → ℕ = λ b j.
        gmul (skb (r / p) (3 + b * p * p + r % p * p + j)) (original_of src skbs b (q * p + j)) in
      ap (skb (r / p)) at
      ∙ frame.bytes (q * p + r % p) in_block
      ∙ xsum_congr (length skbs) _ (λ b. xsum p (λ j. entry b j))
          (λ b h. xsum_congr p _ _ (λ j m. cell_term q r (r / p) frame b j h m))
      ∙ sym (xsum_blocks (length skbs) p entry pos)
      ∙ xsum_congr (length skbs * p) _ _
          (λ c below. ap (λ t. gmul t (piece src p skbs q c)) (rw (s) refl))

  -- The slots hold combinations of the packets, with the coefficients that the decoder reads.
  pub slots-IsCoded :
      (coefficient : Matrix)
      → IsCoded
          (length skbs)
          p
          (rounds * p)
          (fill_coefficients (length skbs) p skb is_sys coefficient)
          skb
          (start p skbs is_sys)
          (original_of src skbs)
  slots-IsCoded coefficient = record {
    original_bytes = bytes;
    combined = λ q r first inside.
        let turn : q < rounds = lt_of_mul-lt-mul_right p first in
        let row : skb (r / p) (start p skbs is_sys (r / p) + q * p + r % p)
            ≡ xsum (length skbs * p)
                (λ c. gmul (coefficient_at p skb is_sys r c) (piece src p skbs q c)) =
          elim (Bool-cases (is_sys (r / p))) [
            | inl s ↦
                ap (λ t. skb (r / p) (t + q * p + r % p)) (rw (s) refl)
                ∙ whole_row q r turn inside s
            | inr s ↦
                ap (λ t. skb (r / p) (t + q * p + r % p)) (rw (s) refl) ∙ sum_row q r turn inside s
          ] in
        row
        ∙ xsum_congr (length skbs * p) _ _ (λ c below.
          ap (λ t. gmul t (piece src p skbs q c))
            (sym
              (fill_coefficients_lem (length skbs) p skb is_sys coefficient r c pos inside below)));
  }
