-- ===== src/Wpa/Number.antt =====
-- wpa.c: the packet numbers, compared byte by byte.
use mac.Base.{
  ℕ, zero, suc, ◌+◌, ◌/◌, ◌%◌, ◌^◌, ◌<◌, ◌≡◌, refl, ◌∙◌, arith, false, List, [], ◌∷◌, ◌++◌, length,
  length-append, ◌==◌, Bool-cases, inl, inr,
}
use native.Mathlib.Nat.{pow-suc}
use mac.Wpa.Blocks.{pn_bytes, pn2hdr, hdr2pn, memcmp_le}

-- The last `j` bytes of a number.
last_bytes : ℕ → ℕ → List ℕ
last_bytes zero n = []
last_bytes (suc j) n = last_bytes j (n / 256) ++ ((n % 256) ∷ [])

length-last_bytes : (j n : ℕ) → length (last_bytes j n) ≡ j
unfolding last_bytes
length-last_bytes zero n = refl
length-last_bytes (suc j) n =
    omega (
      arith,
      length-append (last_bytes j (n / 256)) ((n % 256) ∷ []),
      length-last_bytes j (n / 256),
    )

memcmp_le-append :
    (xs ys : List ℕ) (x y : ℕ)
    → length xs ≡ length ys
    → memcmp_le xs ys ≡ false
    → memcmp_le (xs ++ x ∷ []) (ys ++ y ∷ []) ≡ false
unfolding memcmp_le
memcmp_le-append [] ys x y e h = cc
memcmp_le-append (a ∷ xs) [] x y e h = absurd (omega arith)
memcmp_le-append (a ∷ xs) (b ∷ ys) x y e h =
    ground (arith, memcmp_le-append xs ys x y (omega arith))

memcmp_le-append_self :
    (xs : List ℕ) (x y : ℕ) → y < x → memcmp_le (xs ++ x ∷ []) (xs ++ y ∷ []) ≡ false
unfolding memcmp_le
memcmp_le-append_self [] x y h = ground arith
memcmp_le-append_self (a ∷ xs) x y h = ground (arith, memcmp_le-append_self xs x y h)

memcmp_le-last_bytes :
    (j n : ℕ) → n + 1 < 256 ^ j → memcmp_le (last_bytes j (n + 1)) (last_bytes j n) ≡ false
unfolding last_bytes
memcmp_le-last_bytes zero n h = absurd (omega arith)
memcmp_le-last_bytes (suc j) n h = elim (Bool-cases ((n + 1) % 256 == 0)) [
  | inl carry ↦
      let e : (n + 1) % 256 ≡ 0 = ground (arith, carry) in
      let up : (n + 1) / 256 ≡ n / 256 + 1 = omega arith in
      let room : n / 256 + 1 < 256 ^ j = omega (arith, pow-suc 256 j) in
      rw (up) (
        memcmp_le-append _ _ _ _
          (length-last_bytes j (n / 256 + 1) ∙ omega (arith, length-last_bytes j (n / 256)))
          (memcmp_le-last_bytes j (n / 256) room))
  | inr stay ↦
      let e : (n + 1) % 256 ≡ n % 256 + 1 = ground (arith, stay) in
      let same : (n + 1) / 256 ≡ n / 256 = omega arith in
      rw (same) (memcmp_le-append_self (last_bytes j (n / 256)) _ _ (omega arith))
]

pn_bytes-last_bytes : (n : ℕ) → pn_bytes n ≡ last_bytes 6 n
unfolding pn_bytes last_bytes
pn_bytes-last_bytes n =
    let a : n / 256 / 256 ≡ n / 2 ^ 16 = omega arith in
    let b : n / 2 ^ 16 / 256 ≡ n / 2 ^ 24 = omega arith in
    let c : n / 2 ^ 24 / 256 ≡ n / 2 ^ 32 = omega arith in
    let d : n / 2 ^ 32 / 256 ≡ n / 2 ^ 40 = omega arith in rw (a, b, c, d) refl

-- The next number of six bytes is higher.
pub memcmp_le-pn_bytes :
    (n : ℕ) → n + 1 < 2 ^ 48 → memcmp_le (pn_bytes (n + 1)) (pn_bytes n) ≡ false
memcmp_le-pn_bytes n h =
    rw (pn_bytes-last_bytes n, pn_bytes-last_bytes (n + 1)) (memcmp_le-last_bytes 6 n h)

pub hdr2pn-pn2hdr : (n key_id : ℕ) → hdr2pn (pn2hdr (pn_bytes n) key_id) ≡ pn_bytes n
unfolding hdr2pn pn2hdr pn_bytes
hdr2pn-pn2hdr n key_id = refl
