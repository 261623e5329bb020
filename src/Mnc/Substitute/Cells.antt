-- ===== src/Mnc/Substitute/Cells.antt =====
-- mnc_rx.c, `skb_substi`: what the copying loops leave in each cell.
use native.Mathlib.Nat.{div-eq_of_lt-le, mod-lt, div-lt_iff_lt-mul, div-add-mod'}
use mac.Base.{
  ℕ, zero, suc, ◌-◌, ◌+◌, ◌*◌, ◌/◌, ◌%◌, ◌≤◌, ◌<◌, ◌≡◌, sym, ap, ◌∙◌, inl, inr, arith, ◌==◌, ltb,
  leb, ◌&&◌, if◌then◌else◌, Bool-cases, ==→eq, for_range, put, Matrix,
}
use mac.Mnc.Substitute.{Vector, store, fill_block, permute, write_block}

-- Cell `r` lies in the row of blocks `j` exactly when `r / p` is `j`.
pub quotient_of_bounds : (j p r : ℕ) → j * p ≤ r → r < j * p + p → r / p ≡ j
quotient_of_bounds j p r h k = div-eq_of_lt-le p h (omega arith)

pub bounds_of_quotient : (p r : ℕ) → 0 < p → (r ≡ r / p * p + r % p) × (r % p < p)
bounds_of_quotient p r h = (sym (div-add-mod' r p), mod-lt r h)

pub store_loop :
    (base : ℕ) (f : ℕ → ℕ) (n lo : ℕ) (t : Vector) (r : ℕ)
    → for_range n lo (λ l t. store t (base + l) (f l)) t r
      ≡ (if leb (base + lo) r && ltb r (base + lo + n) then f (r - base) else t r)
unfolding for_range
store_loop base f zero lo t r = ground arith
store_loop base f (suc n) lo t r =
    ground
      (arith, store_loop base f n (suc lo) (store t (base + lo) (f lo)) r, ap f (sub_self base lo))
  where
    sub_self : (b l : ℕ) → b + l - b ≡ l
    sub_self b l = omega arith

pub put_loop :
    (j i : ℕ) (f : ℕ → ℕ) (n lo : ℕ) (m : Matrix) (r o : ℕ)
    → for_range n lo (λ l m. put m j (i + l) (f l)) m r o
      ≡ (if r == j && (leb (i + lo) o && ltb o (i + lo + n)) then f (o - i) else m r o)
unfolding for_range
put_loop j i f zero lo m r o = ground arith
put_loop j i f (suc n) lo m r o =
    ground (arith, put_loop j i f n (suc lo) (put m j (i + lo) (f lo)) r o, ap f (sub_self i lo))
  where
    sub_self : (b l : ℕ) → b + l - b ≡ l
    sub_self b l = omega arith

row_store :
    (p j : ℕ) (f : ℕ → ℕ) (t : Vector) (r : ℕ)
    → 0 < p
    → for_range p 0 (λ l t. store t (j * p + l) (f l)) t r ≡ (if r / p == j then f (r % p) else t r)
row_store p j f t r h = elim (Bool-cases (r / p == j)) [
  | inl e ↦
      let q = ==→eq (r / p) j e in
      let cell : r ≡ j * p + r % p = (bounds_of_quotient p r h).0 ∙ ap (λ t. t * p + r % p) q in
      let off : r - j * p ≡ r % p = omega (arith, cell) in
      ground (arith, store_loop (j * p) f p 0 t r, cell, (bounds_of_quotient p r h).1, ap f off)
  | inr e ↦ ground (arith, store_loop (j * p) f p 0 t r, quotient_of_bounds j p r)
]

fill_rows :
    (p : ℕ) (f : ℕ → ℕ → ℕ) (n lo : ℕ) (t : Vector) (r : ℕ)
    → 0 < p
    → for_range n lo (λ j t. for_range p 0 (λ l t. store t (j * p + l) (f j l)) t) t r
      ≡ (if leb lo (r / p) && ltb (r / p) (lo + n) then f (r / p) (r % p) else t r)
unfolding for_range
fill_rows p f zero lo t r h = ground arith
fill_rows p f (suc n) lo t r h = ground (
  arith,
  fill_rows p f n (suc lo) (for_range p 0 (λ l t. store t (lo * p + l) (f lo l)) t) r h,
  row_store p lo (f lo) t r h,
)

pub row_in_range : (k p r : ℕ) → 0 < p → r < k * p → r / p < k
row_in_range k p r h q = (div-lt_iff_lt-mul h).1 q

pub fill_block_cells :
    (k p : ℕ) (skb : ℕ → Vector) (start : ℕ → ℕ) (i : ℕ) (t : Vector) (r : ℕ)
    → 0 < p
    → r < k * p
    → fill_block k p skb start i t r ≡ skb (r / p) (start (r / p) + i + r % p)
unfolding fill_block
fill_block_cells k p skb start i t r h q =
    ground (arith, fill_rows p (λ j l. skb j (start j + i + l)) k 0 t r h, row_in_range k p r h q)

permute_loop :
    (pivot t : Vector) (n lo : ℕ) (b : Vector) (r : ℕ)
    → for_range n lo (λ j b. store b j (t (pivot j))) b r
      ≡ (if leb lo r && ltb r (lo + n) then t (pivot r) else b r)
unfolding for_range
permute_loop pivot t zero lo b r = ground arith
permute_loop pivot t (suc n) lo b r = ground (
  arith,
  permute_loop pivot t n (suc lo) (store b lo (t (pivot lo))) r,
  λ (e : lo ≡ r). ap (λ x. t (pivot x)) e,
)

pub permute_cells :
    (msize : ℕ) (pivot t b : Vector) (r : ℕ) → r < msize → permute msize pivot t b r ≡ t (pivot r)
unfolding permute
permute_cells msize pivot t b r h = ground (arith, permute_loop pivot t msize 0 b r)

write_rows :
    (p i : ℕ) (f : ℕ → ℕ → ℕ) (n lo : ℕ) (m : Matrix) (r o : ℕ)
    → for_range n lo (λ j m. for_range p 0 (λ l m. put m j (i + l) (f j l)) m) m r o
      ≡ (if (leb lo r && ltb r (lo + n)) && (leb i o && ltb o (i + p)) then f r (o - i) else m r o)
unfolding for_range
write_rows p i f zero lo m r o = ground arith
write_rows p i f (suc n) lo m r o = ground (
  arith,
  write_rows p i f n (suc lo) (for_range p 0 (λ l m. put m lo (i + l) (f lo l)) m) r o,
  put_loop lo i (f lo) p 0 m r o,
  λ (e : lo ≡ r). ap (λ x. f x (o - i)) e,
)

pub write_block_cells :
    (k p : ℕ) (x : Vector) (i : ℕ) (new : ℕ → Vector) (j o : ℕ)
    → j < k
    → write_block k p x i new j o
      ≡ (if leb i o && ltb o (i + p) then x (j * p + (o - i)) else new j o)
unfolding write_block
write_block_cells k p x i new j o h =
    ground (arith, write_rows p i (λ j l. x (j * p + l)) k 0 new j o)
