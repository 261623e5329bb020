-- ===== src/Mnc/Decode/Bytes.antt =====
-- mnc_rx.c: the coefficients are bytes.
use mac.Base.{
  ℕ, ◌+◌, ◌*◌, arith, Bool, if◌then◌else◌, Matrix, put, for_range, for_range_inv, Bool-cases, inl,
  inr,
}
use mac.Gf.{IsByte}
use mac.Mnc.Lu.Invariant.{AllBytes}
use mac.Mnc.Substitute.{Vector}
use mac.Mnc.Decode.{systematic_rows, coded_rows, fill_coefficients}

loop_bytes :
    (body : ℕ → Matrix → Matrix)
    → ((i : ℕ) (a : Matrix) → AllBytes a → AllBytes (body i a))
    → (n : ℕ) (a : Matrix) → AllBytes a
    → AllBytes (for_range n 0 body a)
loop_bytes body keep n a h =
    for_range_inv (λ i a. AllBytes a) body 0 n (λ i a low high b. keep i a b) n 0 a (omega arith)
      (omega arith) h

put_bytes : (a : Matrix) (i j v : ℕ) → IsByte v → AllBytes a → AllBytes (put a i j v)
put_bytes a i j v h b r c = ground (arith, h, b r c)

systematic_rows_bytes :
    (msize p i : ℕ) (a : Matrix) → AllBytes a → AllBytes (systematic_rows msize p i a)
unfolding systematic_rows
systematic_rows_bytes msize p i a h =
    loop_bytes _
      (λ m a h.
        loop_bytes _ (λ n a h. put_bytes a (i * p + m) (0 + n) _ (ground arith) h) msize a h)
      p a h

coded_rows_bytes :
    (k p : ℕ) (v : Vector) (i : ℕ) (a : Matrix)
    → ((o : ℕ) → IsByte (v o))
    → AllBytes a
    → AllBytes (coded_rows k p v i a)
unfolding coded_rows
coded_rows_bytes k p v i a bytes h =
    loop_bytes _
      (λ b a h.
        loop_bytes _
          (λ m a h.
            loop_bytes _
              (λ n a h. put_bytes a (i * p + m) (b * p + n) _ (bytes (3 + b * p * p + m * p + n)) h)
              p a h)
          p a h)
      k a h

-- Where the bytes of the packets are bytes, so are all coefficients.
pub fill_coefficients_bytes :
    (k p : ℕ) (skb : ℕ → Vector) (is_sys : ℕ → Bool) (a : Matrix)
    → AllBytes skb
    → AllBytes a
    → AllBytes (fill_coefficients k p skb is_sys a)
unfolding fill_coefficients
fill_coefficients_bytes k p skb is_sys a frames b = loop_bytes _ (λ i a b. packet i a b) k a b
  where
    packet :
        (i : ℕ) (a : Matrix)
        → AllBytes a
        → AllBytes (if is_sys i then systematic_rows (k * p) p i a else coded_rows k p (skb i) i a)
    packet i a b = elim (Bool-cases (is_sys i)) [
      | inl s ↦ rw (s) (systematic_rows_bytes (k * p) p i a b)
      | inr s ↦ rw (s) (coded_rows_bytes k p (skb i) i a (frames i) b)
    ]
