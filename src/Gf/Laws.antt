-- ===== src/Gf/Laws.antt =====
-- gf.c: the multiplicative laws of `gmul`, `gmul_inverse` and `gdiv`, by logarithms.
use mac.Base.{
  ℕ, ◌+◌, ◌%◌, ◌≡◌, ◌≢◌, refl, ap, ◌∙◌, ◌⊎◌, inl, inr, arith, true, ◌&&◌, ◌||◌, ◌==◌, ltb,
  all_below, all_below_sound,
}
use mac.Gf.{log, antilog, gmul, gmul_inverse, gdiv, IsByte}
use mac.Gf.Logs.{dlog, antilog_facts}

pub zero_cases : (x : ℕ) → (x ≡ 0) ⊎ (x ≢ 0)
zero_cases x = omega arith

pub gmul-zero : (a : ℕ) → gmul a 0 ≡ 0
unfolding gmul
gmul-zero a = ground arith

pub zero-gmul : (b : ℕ) → gmul 0 b ≡ 0
unfolding gmul
zero-gmul b = ground arith

pub gmul_comm : (a b : ℕ) → gmul a b ≡ gmul b a
unfolding gmul
gmul_comm a b =
    let e : log a + log b ≡ log b + log a = omega arith in
    ground (arith, ap (λ (t : ℕ). antilog (t % 255)) e)

module _ {a b : ℕ} (p : a ≢ 0) (q : b ≢ 0) where
  gmul_logs : gmul a b ≡ antilog ((dlog a + dlog b) % 255)
  unfolding gmul dlog
  gmul_logs =
      let e : (log a + log b) % 255 ≡ (log a % 255 + log b % 255) % 255 = omega arith in
      ground (arith, ap antilog e)

  dlog-gmul : dlog (gmul a b) ≡ (dlog a + dlog b) % 255
  dlog-gmul = rw gmul_logs ((antilog_facts ((dlog a + dlog b) % 255) (omega arith)).0)

  -- There are no zero divisors.
  pub gmul-ne-zero : gmul a b ≢ 0
  gmul-ne-zero = rw gmul_logs ((antilog_facts ((dlog a + dlog b) % 255) (omega arith)).1)

pub gmul-IsByte : (a b : ℕ) → IsByte (gmul a b)
unfolding gmul
gmul-IsByte a b = ground (arith, antilog_facts ((log a + log b) % 255) (omega arith))

module _ {a b c : ℕ} (p : a ≢ 0) (q : b ≢ 0) (r : c ≢ 0) where
  gmul_assoc_ne : gmul (gmul a b) c ≡ gmul a (gmul b c)
  gmul_assoc_ne =
      let e : ((dlog a + dlog b) % 255 + dlog c) % 255 ≡ (dlog a + (dlog b + dlog c) % 255) % 255 =
        omega arith in
      rw
        (
          gmul_logs (gmul-ne-zero p q) r,
          gmul_logs p (gmul-ne-zero q r),
          dlog-gmul p q,
          dlog-gmul q r,
        )
        (ap antilog e)

-- `gmul` is associative.
pub gmul_assoc : (a b c : ℕ) → gmul (gmul a b) c ≡ gmul a (gmul b c)
gmul_assoc a b c = elim (zero_cases a) [
  | inl e ↦ rw (e, zero-gmul b, zero-gmul c, zero-gmul (gmul b c))
  | inr p ↦ elim (zero_cases b) [
    | inl e ↦ rw (e, zero-gmul c, gmul-zero a) (zero-gmul c)
    | inr q ↦ elim (zero_cases c) [
      | inl e ↦ rw (e, gmul-zero b, gmul-zero a) (gmul-zero (gmul a b))
      | inr r ↦ gmul_assoc_ne p q r
    ]
  ]
]

one_table : all_below 256 (λ x. gmul 1 x == x) ≡ true
unfolding all_below gmul log antilog
one_table = refl

pub one-gmul : (x : ℕ) → IsByte x → gmul 1 x ≡ x
one-gmul x h = let t = all_below_sound 256 (λ x. gmul 1 x == x) x one_table h in ground arith

inverse_table :
    all_below 256 (λ x. x == 0 || (gmul x (gmul_inverse x) == 1 && ltb (gmul_inverse x) 256)) ≡ true
unfolding all_below gmul gmul_inverse log antilog
inverse_table = refl

pub gmul-gmul_inverse :
    (x : ℕ) → IsByte x → x ≢ 0 → (gmul x (gmul_inverse x) ≡ 1) × IsByte (gmul_inverse x)
gmul-gmul_inverse x h ne =
    let t =
      all_below_sound 256
        (λ x. x == 0 || (gmul x (gmul_inverse x) == 1 && ltb (gmul_inverse x) 256)) x inverse_table
        h in
    ground arith

-- On bytes division by a byte that is not zero undoes multiplication by it, and the other way round;
-- division by zero gives zero.
pub gmul-gdiv :
    (a b : ℕ)
    → IsByte a
    → IsByte b
    → (b ≢ 0 → (gmul (gdiv a b) b ≡ a) × (gdiv (gmul a b) b ≡ a)) × (gdiv a 0 ≡ 0)
unfolding gdiv
gmul-gdiv a b ha hb = (λ ne. (back ne, forth ne), refl)
  where
    one : b ≢ 0 → gmul (gmul_inverse b) b ≡ 1
    one ne = gmul_comm (gmul_inverse b) b ∙ (gmul-gmul_inverse b hb ne).0

    skips : (c : ℕ) → b ≢ 0 → gdiv c b ≡ gmul c (gmul_inverse b)
    skips c ne = ground arith

    a_one : gmul a 1 ≡ a
    a_one = gmul_comm a 1 ∙ one-gmul a ha

    back : b ≢ 0 → gmul (gdiv a b) b ≡ a
    back ne = rw (skips a ne, gmul_assoc a (gmul_inverse b) b, one ne) a_one

    forth : b ≢ 0 → gdiv (gmul a b) b ≡ a
    forth ne =
        rw (skips (gmul a b) ne, gmul_assoc a b (gmul_inverse b), (gmul-gmul_inverse b hb ne).0)
          a_one
