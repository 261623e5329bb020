-- ===== src/Base/Slices.antt =====
-- Parts of byte strings: prefixes, what is behind them, and writes over a part.
use Prim.Native.Nat.{ℕ, zero, suc, ◌+◌, ◌-◌, ◌≤◌, ◌<◌}
use mathlib.Core.Path.{◌≡◌, refl, ap}
use mathlib.Core.List.{List, [], ◌∷◌, ◌++◌}
use native.Mathlib.Omega.{arith}
use mac.Base.Lists.{length, get_or}

module _ {ℓ} {A : Type ℓ} where
  abbrev pub take : ℕ → List A → List A
  take zero xs = []
  take (suc n) [] = []
  take (suc n) (x ∷ xs) = x ∷ take n xs

  abbrev pub drop : ℕ → List A → List A
  drop zero xs = xs
  drop (suc n) [] = []
  drop (suc n) (x ∷ xs) = drop n xs

  -- The `n` entries from `from` on.
  abbrev pub slice : ℕ → ℕ → List A → List A
  slice from n xs = take n (drop from xs)

  -- The entries from `at` on are written over.
  abbrev pub overwrite : ℕ → List A → List A → List A
  overwrite at new xs = take at xs ++ (new ++ drop (at + length new) xs)

  pub take-append : (xs ys : List A) (n : ℕ) → n ≡ length xs → take n (xs ++ ys) ≡ xs
  take-append [] ys zero h = refl
  take-append [] ys (suc n) h = absurd (omega arith)
  take-append (x ∷ xs) ys zero h = absurd (omega arith)
  take-append (x ∷ xs) ys (suc n) h = ap (λ l. x ∷ l) (take-append xs ys n (omega arith))

  pub drop-append : (xs ys : List A) (n : ℕ) → n ≡ length xs → drop n (xs ++ ys) ≡ ys
  drop-append [] ys zero h = refl
  drop-append [] ys (suc n) h = absurd (omega arith)
  drop-append (x ∷ xs) ys zero h = absurd (omega arith)
  drop-append (x ∷ xs) ys (suc n) h = drop-append xs ys n (omega arith)

  pub take-append_le : (xs ys : List A) (n : ℕ) → n ≤ length xs → take n (xs ++ ys) ≡ take n xs
  take-append_le xs ys zero h = refl
  take-append_le [] ys (suc n) h = absurd (omega arith)
  take-append_le (x ∷ xs) ys (suc n) h = ap (λ l. x ∷ l) (take-append_le xs ys n (omega arith))

  pub slice-append :
      (xs ys : List A) (from n : ℕ)
      → from + n ≤ length xs
      → slice from n (xs ++ ys) ≡ slice from n xs
  slice-append xs ys zero n h = take-append_le xs ys n (omega arith)
  slice-append [] ys (suc from) zero h = absurd (omega arith)
  slice-append [] ys (suc from) (suc n) h = absurd (omega arith)
  slice-append (x ∷ xs) ys (suc from) n h = slice-append xs ys from n (omega arith)

  pub get_or-append_lt :
      (xs ys : List A) (i : ℕ) (d : A) → i < length xs → get_or (xs ++ ys) i d ≡ get_or xs i d
  get_or-append_lt [] ys i d h = absurd (omega arith)
  get_or-append_lt (x ∷ xs) ys zero d h = refl
  get_or-append_lt (x ∷ xs) ys (suc i) d h = get_or-append_lt xs ys i d (omega arith)

  pub length-drop : (n : ℕ) (xs : List A) → length (drop n xs) ≡ length xs - n
  length-drop zero xs = omega arith
  length-drop (suc n) [] = omega arith
  length-drop (suc n) (x ∷ xs) = omega (arith, length-drop n xs)

  pub length-take : (n : ℕ) (xs : List A) → n ≤ length xs → length (take n xs) ≡ n
  length-take zero xs h = refl
  length-take (suc n) [] h = absurd (omega arith)
  length-take (suc n) (x ∷ xs) h = ap suc (length-take n xs (omega arith))

  pub take-length : (xs : List A) → take (length xs) xs ≡ xs
  take-length [] = refl
  take-length (x ∷ xs) = ap (λ l. x ∷ l) (take-length xs)

  pub drop-append_le :
      (xs ys : List A) (n : ℕ) → n ≤ length xs → drop n (xs ++ ys) ≡ drop n xs ++ ys
  drop-append_le xs ys zero h = refl
  drop-append_le [] ys (suc n) h = absurd (omega arith)
  drop-append_le (x ∷ xs) ys (suc n) h = drop-append_le xs ys n (omega arith)

  pub drop-append_add :
      (xs ys : List A) (n m : ℕ) → n ≡ length xs → drop (n + m) (xs ++ ys) ≡ drop m ys
  drop-append_add [] ys zero m h = ap (λ i. drop i ys) (omega arith)
  drop-append_add [] ys (suc n) m h = absurd (omega arith)
  drop-append_add (x ∷ xs) ys zero m h = absurd (omega arith)
  drop-append_add (x ∷ xs) ys (suc n) m h =
      let e : suc n + m ≡ suc (n + m) = omega arith in
      rw (e) (drop-append_add xs ys n m (omega arith))

  pub take-append-slice :
      (xs : List A) (n m : ℕ) → length xs ≡ n + m → take n xs ++ slice n m xs ≡ xs
  take-append-slice xs zero m h = let e : m ≡ length xs = omega arith in rw (e) (take-length xs)
  take-append-slice [] (suc n) m h = absurd (omega arith)
  take-append-slice (x ∷ xs) (suc n) m h = ap (λ l. x ∷ l) (take-append-slice xs n m (omega arith))

  -- What stands behind `xs` is read or replaced.
  pub slice-append_mid :
      (xs mid ys : List A) (from n : ℕ)
      → from ≡ length xs
      → n ≡ length mid
      → slice from n (xs ++ (mid ++ ys)) ≡ mid
  slice-append_mid xs mid ys from n e f =
      rw (drop-append xs (mid ++ ys) from e) (take-append mid ys n f)

  pub overwrite-append :
      (xs old new ys : List A) (at : ℕ)
      → at ≡ length xs
      → length new ≡ length old
      → overwrite at new (xs ++ (old ++ ys)) ≡ xs ++ (new ++ ys)
  overwrite-append xs old new ys at e f =
      rw
        (
          take-append xs (old ++ ys) at e,
          drop-append_add xs (old ++ ys) at (length new) e,
          drop-append old ys (length new) f,
        )
        refl
