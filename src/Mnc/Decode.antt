-- ===== src/Mnc/Decode.antt =====
-- mnc_rx.c: `skbs_decoding`. `none` is an access through NULL or outside an array.
pub mod Rows
pub mod Skbs
pub mod Bytes
use mac.Base.{
  ℕ, zero, suc, ◌+◌, ◌-◌, ◌*◌, ◌/◌, ◌%◌, ◌^◌, for_range, Bool, true, false, List, [], ◌∷◌, ◌++◌,
  Option, none, some, leb, ltb, ◌==◌, if◌then◌else◌, Matrix, put,
}
use mac.Mnc.Lu.{Lu, lu_fac}
use mac.Mnc.Substitute.{Vector, store, Work, skb_substi}
use mac.Mnc.Queue.{Packet}

-- The rows of a systematic packet: those of the identity.
unfoldable pub systematic_rows : ℕ → ℕ → ℕ → Matrix → Matrix
systematic_rows msize p i a =
    for_range p 0
      (λ m a.
        for_range msize 0 (λ n a. put a (i * p + m) (0 + n) (if n == i * p + m then 1 else 0)) a)
      a

-- The rows of a coded packet, from its header, block by block.
unfoldable pub coded_rows : ℕ → ℕ → Vector → ℕ → Matrix → Matrix
coded_rows k p v i a =
    for_range k 0
      (λ b a.
        for_range p 0
          (λ m a.
            for_range p 0 (λ n a. put a (i * p + m) (b * p + n) (v (3 + b * p * p + m * p + n))) a)
          a)
      a

-- `Fill coefficient matrix`
unfoldable pub fill_coefficients : ℕ → ℕ → (ℕ → Vector) → (ℕ → Bool) → Matrix → Matrix
unfolding systematic_rows coded_rows
fill_coefficients k p skb is_sys a =
    for_range k 0
      (λ i a. if is_sys i then systematic_rows (k * p) p i a else coded_rows k p (skb i) i a) a
