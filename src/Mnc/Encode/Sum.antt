-- ===== src/Mnc/Encode/Sum.antt =====
-- mnc_tx.c: what the loop of `make_skb_new` over all packets leaves in the new frame.
use mac.Base.{
  ℕ, zero, suc, ◌+◌, ◌-◌, ◌*◌, ◌≤◌, ◌<◌, bit_xor, bit_xor_assoc, bit_xor-zero, ◌≡◌, refl, sym, ap,
  ap₂, ◌∙◌, arith, List, [], ◌∷◌, ◌&&◌, leb, ltb, if◌then◌else◌, length, get_or, eq→==,
}
use native.Mathlib.Nat.{suc-mul}
use mac.Gf.Sum.{xsum, xsum-zero, xsum_congr, xsum_cons}
use mac.Mnc.Substitute.{Vector}
use mac.Mnc.Queue.{Packet}
use mac.Mnc.Encode.Blocks.{coded}
use mac.Mnc.Encode.Packet.{code_packet, code_all, made}
use mac.Mnc.Encode.Header.{code_packet_header, code_packet_data}

abbrev pub SameLength : ℕ → List Packet → Type 0
SameLength len [] = Unit {0}
SameLength len (skb ∷ skbs) = (skb.len ≡ len) × SameLength len skbs

abbrev pub packet_at : List Packet → ℕ → Packet
packet_at skbs c = get_or skbs c (record { len = 0; content = λ b. 0 })

-- The byte `y` that packet `c` adds.
abbrev pub term : ℕ → ℕ → Vector → List Packet → ℕ → ℕ → ℕ → ℕ
term p from random skbs l y c =
    coded p (λ b. (packet_at skbs c).content (from + b))
      (λ i j. random (l + c * (p * p) + i * p + j)) y

pub record IsSum (p coding_len from : ℕ) (random : Vector) (o : ℕ) (skbs : List Packet) (l : ℕ)
    (new new' : Vector) : Type 0 where
  pub bytes :
      (y : ℕ)
      → y < coding_len
      → new' (o + y) ≡ bit_xor (new (o + y)) (xsum (length skbs) (term p from random skbs l y))
  pub header :
      (x : ℕ)
      → x < o
      → new' x
        ≡ (if leb (3 + l) x && ltb x (3 + l + length skbs * (p * p)) then random (x - 3) else new x)

-- What the first packet adds, and what the others add.
term_cons :
    (p from : ℕ) (random : Vector) (skb : Packet) (skbs : List Packet) (l y : ℕ)
    → xsum (suc (length skbs)) (term p from random (skb ∷ skbs) l y)
      ≡ bit_xor
          (coded p (λ b. skb.content (from + b)) (λ i j. random (l + i * p + j)) y)
          (xsum (length skbs) (term p from random skbs (l + p * p) y))
term_cons p from random skb skbs l y =
    let at : Vector → ℕ → ℕ = λ old b. coded p old (λ i j. random (b + i * p + j)) y in
    let z : l + 0 * (p * p) ≡ l = omega arith in
    xsum_cons (length skbs) (term p from random (skb ∷ skbs) l y)
    ∙ ap₂ bit_xor (ap (at (λ b. skb.content (from + b))) z) (
        xsum_congr (length skbs) _ _ (λ c h.
          let more = suc-mul c (p * p) in
          let e : l + suc c * (p * p) ≡ l + p * p + c * (p * p) = omega (arith, more) in
          ap (at (λ b. (packet_at skbs c).content (from + b))) e))

-- On packets of one length the loop ends after a round for each and one more, and the new frame is the sum of all packets.
pub code_all-IsSum :
    (rounds p coding_len len from : ℕ) (random : Vector) (o : ℕ) (skbs : List Packet) (l : ℕ)
    (new : Vector)
    → length skbs < rounds
    → 0 < p
    → SameLength len skbs
    → 3 + l + length skbs * (p * p) ≤ o
    → (new' : Vector) × (code_all rounds p coding_len len from random o skbs l new ≡ made new')
      × IsSum p coding_len from random o skbs l new new'
unfolding code_all
code_all-IsSum zero p coding_len len from random o skbs l new few pos same room =
    absurd (omega arith)
code_all-IsSum (suc rounds) p coding_len len from random o [] l new few pos same room = (
  new,
  refl,
  record {
    bytes = λ y h. sym (
        ap (bit_xor (new (o + y)))
          (xsum-zero 0 (term p from random [] l y) (λ c q. absurd (omega arith)))
        ∙ bit_xor-zero (new (o + y)));
    header = λ x h. let z : 0 * (p * p) ≡ 0 = omega arith in ground arith;
  },
)
code_all-IsSum (suc rounds) p coding_len len from random o (skb ∷ skbs) l new few pos same room =
    let more = suc-mul (length skbs) (p * p) in
    let old : Vector = λ b. skb.content (from + b) in
    let next : Vector = code_packet p coding_len old random l o new in
    let rest =
      code_all-IsSum rounds p coding_len len from random o skbs (l + p * p) next (omega arith) pos
        same.1 (omega (arith, more, room)) in
    (
      rest.0,
      rw (code_all, eq→== skb.len len same.0) rest.1,
      record {
        bytes = λ y h.
            let first =
              code_packet_data p coding_len old random l o new y pos h
                (omega (arith, more, room)) in
            rest.2.bytes y h
            ∙ ap (λ v. bit_xor v (xsum (length skbs) (term p from random skbs (l + p * p) y))) first
            ∙ bit_xor_assoc (new (o + y)) (coded p old (λ i j. random (l + i * p + j)) y) _
            ∙ ap (bit_xor (new (o + y))) (sym (term_cons p from random skb skbs l y));
        header = λ x h.
            let first = code_packet_header p coding_len old random l o new x h in
            let others = rest.2.header x h in ground (arith, more, first, others);
      },
    )
