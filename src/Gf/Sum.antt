-- ===== src/Gf/Sum.antt =====
-- gf.c: finite sums in the field, as the loops over rows and columns form them.
use mathlib.Core.Path.{ap₂}
use mac.Base.{
  ℕ, zero, suc, ◌+◌, ◌*◌, ◌/◌, ◌%◌, ◌≤◌, ◌<◌, bit_xor, ◌≡◌, ◌≢◌, ◌⊎◌, refl, sym, ap, ◌∙◌, inl, inr,
  arith, zero-bit_xor, bit_xor-zero, bit_xor_assoc, bit_xor_comm, bit_xor_self, bit_xor-lt,
}
use native.Mathlib.Nat.{div-add-mod', div-eq_of_lt-le}
use mac.Gf.{gmul, IsByte}
use mac.Gf.Laws.{gmul-zero}
use mac.Gf.Linear.{gmul-bit_xor, bit_xor_swap}

unfoldable pub xsum : ℕ → (ℕ → ℕ) → ℕ
xsum zero f = 0
xsum (suc n) f = bit_xor (xsum n f) (f n)

pub xsum_congr : (n : ℕ) (f g : ℕ → ℕ) → ((k : ℕ) → k < n → f k ≡ g k) → xsum n f ≡ xsum n g
unfolding xsum
xsum_congr zero f g h = refl
xsum_congr (suc n) f g h = rw (xsum_congr n f g (λ k p. h k (omega arith)), h n (omega arith))

pub xsum-zero : (n : ℕ) (f : ℕ → ℕ) → ((k : ℕ) → k < n → f k ≡ 0) → xsum n f ≡ 0
unfolding xsum
xsum-zero zero f h = refl
xsum-zero (suc n) f h =
    rw (xsum-zero n f (λ k p. h k (omega arith)), h n (omega arith)) (zero-bit_xor 0)

pub xsum-IsByte : (n : ℕ) (f : ℕ → ℕ) → ((k : ℕ) → k < n → IsByte (f k)) → IsByte (xsum n f)
unfolding xsum
xsum-IsByte zero f h = omega arith
xsum-IsByte (suc n) f h =
    bit_xor-lt 8 _ _ (xsum-IsByte n f (λ k p. h k (omega arith))) (h n (omega arith))

pub xsum-bit_xor :
    (n : ℕ) (f g : ℕ → ℕ) → xsum n (λ k. bit_xor (f k) (g k)) ≡ bit_xor (xsum n f) (xsum n g)
unfolding xsum
xsum-bit_xor zero f g = sym (zero-bit_xor 0)
xsum-bit_xor (suc n) f g = rw (xsum-bit_xor n f g) (bit_xor_swap _ _ _ _)

pub gmul-xsum :
    (a n : ℕ) (f : ℕ → ℕ)
    → IsByte a
    → ((k : ℕ) → k < n → IsByte (f k))
    → gmul a (xsum n f) ≡ xsum n (λ k. gmul a (f k))
unfolding xsum
gmul-xsum a zero f ha h = gmul-zero a
gmul-xsum a (suc n) f ha h =
    let below : (k : ℕ) → k < n → IsByte (f k) = λ k p. h k (omega arith) in
    rw (
      gmul-bit_xor (xsum n f) (f n) (xsum-IsByte n f below) (h n (omega arith)) a ha,
      gmul-xsum a n f ha below,
    )

pub xsum_swap :
    (n m : ℕ) (f : ℕ → ℕ → ℕ)
    → xsum n (λ i. xsum m (λ j. f i j)) ≡ xsum m (λ j. xsum n (λ i. f i j))
unfolding xsum
xsum_swap zero m f = sym (xsum-zero m (λ j. 0) (λ k p. refl))
xsum_swap (suc n) m f =
    rw (xsum_swap n m f) (sym (xsum-bit_xor m (λ j. xsum n (λ i. f i j)) (λ j. f n j)))

-- A sum with at most one term that is not zero.
pub xsum_single :
    (n i : ℕ) (f : ℕ → ℕ) → i < n → ((k : ℕ) → k < n → k ≢ i → f k ≡ 0) → xsum n f ≡ f i
unfolding xsum
xsum_single zero i f h other = absurd (omega arith)
xsum_single (suc n) i f h other = elim (last i) [
  | inl e ↦ rw (e, xsum-zero n f (λ k p. other k (omega arith) (omega arith))) (zero-bit_xor (f n))
  | inr ne ↦
      rw
        (
          xsum_single n i f (omega arith) (λ k p q. other k (omega arith) q),
          other n (omega arith) (omega arith),
        )
        (bit_xor-zero (f i))
]
  where
    last : (i : ℕ) → (i ≡ n) ⊎ (i ≢ n)
    last i = omega arith

pub bit_xor_cancel : (a b : ℕ) → bit_xor (bit_xor a b) b ≡ a
bit_xor_cancel a b = bit_xor_assoc a b b ∙ ap (bit_xor a) (bit_xor_self b) ∙ bit_xor-zero a

-- Two sums that differ in one term, which is zero in the first.
pub xsum_change :
    (n i : ℕ) (f g : ℕ → ℕ)
    → i < n
    → f i ≡ 0
    → ((k : ℕ) → k < n → k ≢ i → g k ≡ f k)
    → xsum n g ≡ bit_xor (xsum n f) (g i)
xsum_change n i f g h z same =
    let d : ℕ → ℕ = λ k. bit_xor (g k) (f k) in
    let single : xsum n d ≡ g i =
      xsum_single n i d h (λ k p q. rw (same k p q) (bit_xor_self (f k)))
      ∙ ap (bit_xor (g i)) z
      ∙ bit_xor-zero (g i) in
    xsum_congr n g (λ k. bit_xor (f k) (d k))
      (λ k p. sym (bit_xor_comm (f k) (d k) ∙ bit_xor_cancel (g k) (f k)))
    ∙ xsum-bit_xor n f d
    ∙ ap (bit_xor (xsum n f)) single

-- A sum in two parts.
pub xsum_split :
    (m n total : ℕ) (f : ℕ → ℕ)
    → m + n ≡ total
    → xsum total f ≡ bit_xor (xsum m f) (xsum n (λ k. f (m + k)))
unfolding xsum
xsum_split m zero total f e = let e' : total ≡ m = omega arith in rw (e', bit_xor-zero (xsum m f))
xsum_split m (suc n) zero f e = absurd (omega arith)
xsum_split m (suc n) (suc total) f e =
    let e' : total ≡ m + n = omega arith in
    rw (xsum_split m n total f (omega arith), ap f e')
      (bit_xor_assoc (xsum m f) (xsum n (λ k. f (m + k))) (f (m + n)))

-- A sum with its first term in front.
pub xsum_front :
    (n lo : ℕ) (f : ℕ → ℕ)
    → xsum (suc n) (λ k. f (lo + k)) ≡ bit_xor (f lo) (xsum n (λ k. f (suc lo + k)))
unfolding xsum
xsum_front n lo f =
    let first : lo + 0 ≡ lo = omega arith in
    xsum_split 1 n (suc n) (λ k. f (lo + k)) (omega arith)
    ∙ ap₂ bit_xor (zero-bit_xor (f (lo + 0)) ∙ ap f first) (
        xsum_congr n (λ k. f (lo + (1 + k))) (λ k. f (suc lo + k))
          (λ k p. let e : lo + (1 + k) ≡ suc lo + k = omega arith in ap f e))

pub xsum_stop :
    (m n total : ℕ) (f : ℕ → ℕ)
    → m + n ≡ total
    → ((k : ℕ) → m ≤ k → k < total → f k ≡ 0)
    → xsum total f ≡ xsum m f
xsum_stop m n total f e h =
    xsum_split m n total f e
    ∙ rw (xsum-zero n (λ k. f (m + k)) (λ k p. h (m + k) (omega arith) (omega arith)))
        (bit_xor-zero (xsum m f))

-- A sum with its first term in front, the others counted anew.
pub xsum_cons : (n : ℕ) (f : ℕ → ℕ) → xsum (suc n) f ≡ bit_xor (f 0) (xsum n (λ k. f (suc k)))
xsum_cons n f =
    xsum_congr (suc n) f (λ k. f (0 + k)) (λ k h. let e : k ≡ 0 + k = omega arith in ap f e)
    ∙ xsum_front n 0 f
    ∙ ap (bit_xor (f 0)) (
        xsum_congr n (λ k. f (1 + k)) (λ k. f (suc k))
          (λ k h. let e : 1 + k ≡ suc k = omega arith in ap f e))

-- A sum over `k * p` indices, in `k` blocks.
pub xsum_blocks :
    (k p : ℕ) (f : ℕ → ℕ → ℕ)
    → 0 < p
    → xsum (k * p) (λ c. f (c / p) (c % p)) ≡ xsum k (λ b. xsum p (λ j. f b j))
unfolding xsum
xsum_blocks zero p f h = let none : 0 * p ≡ 0 = omega arith in rw (none) refl
xsum_blocks (suc k) p f h =
    let more : k * p + p ≡ suc k * p = omega arith in
    xsum_split (k * p) p (suc k * p) (λ c. f (c / p) (c % p)) more
    ∙ ap₂ bit_xor (xsum_blocks k p f h) (
        xsum_congr p _ _ (λ j below.
          let quotient : (k * p + j) / p ≡ k = div-eq_of_lt-le p (omega arith) (omega arith) in
          let rest : (k * p + j) % p ≡ j =
            omega (arith, div-add-mod' (k * p + j) p, ap (λ t. t * p) quotient) in
          ap₂ f quotient rest))
