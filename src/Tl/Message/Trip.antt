-- ===== src/Tl/Message/Trip.antt =====
-- tl_rx_src.c and tl_rx_dst.c: what one side writes against what the other reads.
use mac.Base.{
  ℕ, zero, suc, ◌+◌, ◌*◌, ◌^◌, ◌≤◌, ◌<◌, ◌≡◌, refl, sym, ap, ap₂, ◌∙◌, arith, List, [], ◌∷◌, ◌⊎◌,
  inl, length,
}
use mac.Mnc.Substitute.{Vector, store}
use mac.Tl.Types.{Addr, TrNode}
use mac.Tl.Message.{
  copy_bytes, put32, get32, put_counters, get_counters, payload, write_tr, read_tr, get_addr,
  write_tf, read_tf,
}

-- Every number of the list fits 32 bits.
abbrev pub Words : List ℕ → Type 0
Words [] = Unit {0}
Words (x ∷ xs) = (x < 2 ^ 32) × Words xs

get32-put32 : (o x : ℕ) (v : Vector) → x < 2 ^ 32 → get32 (put32 o x v) o ≡ x
unfolding get32 put32
get32-put32 o x v h = ground arith

-- A write elsewhere is not seen.
put32_other : (o x r : ℕ) (v : Vector) → (r < o) ⊎ (o + 4 ≤ r) → put32 o x v r ≡ v r
unfolding put32
put32_other o x r v h = ground arith

pub put_counters_below :
    (o : ℕ) (ns : List ℕ) (v : Vector) (r : ℕ) → r < o → put_counters o ns v r ≡ v r
unfolding put_counters
put_counters_below o [] v r h = refl
put_counters_below o (n ∷ ns) v r h =
    put_counters_below (o + 4) ns (put32 o n v) r (omega arith) ∙ put32_other o n r v (inl h)

get32_congr :
    (v w : Vector) (o p : ℕ)
    → v o ≡ w p
    → v (o + 1) ≡ w (p + 1)
    → v (o + 2) ≡ w (p + 2)
    → v (o + 3) ≡ w (p + 3)
    → get32 v o ≡ get32 w p
unfolding get32
get32_congr v w o p a b c d = omega (arith, a, b, c, d)

pub get_counters_congr :
    (n : ℕ) (v w : Vector) (o p : ℕ)
    → ((k : ℕ) → k < 4 * n → v (o + k) ≡ w (p + k))
    → get_counters n v o ≡ get_counters n w p
unfolding get_counters
get_counters_congr zero v w o p same = refl
get_counters_congr (suc n) v w o p same =
    let here : v o ≡ w p =
      let e : o + 0 ≡ o = omega arith in
      let f : p + 0 ≡ p = omega arith in ap v (sym e) ∙ same 0 (omega arith) ∙ ap w f in
    let later : (k : ℕ) → k < 4 * n → v (o + 4 + k) ≡ w (p + 4 + k) = λ k h.
      let e : o + 4 + k ≡ o + (4 + k) = omega arith in
      let f : p + (4 + k) ≡ p + 4 + k = omega arith in
      ap v e ∙ same (4 + k) (omega arith) ∙ ap w f in
    ap₂ ◌∷◌
      (get32_congr v w o p here (same 1 (omega arith)) (same 2 (omega arith))
        (same 3 (omega arith)))
      (get_counters_congr n v w (o + 4) (p + 4) later)

pub get_counters-put_counters :
    (ns : List ℕ) (o : ℕ) (v : Vector)
    → Words ns
    → get_counters (length ns) (put_counters o ns v) o ≡ ns
unfolding get_counters put_counters
get_counters-put_counters [] o v h = refl
get_counters-put_counters (n ∷ ns) o v h =
    let same : (k : ℕ)
        → k < 4
        → put_counters (o + 4) ns (put32 o n v) (o + k) ≡ put32 o n v (o + k) =
      λ k p. put_counters_below (o + 4) ns (put32 o n v) (o + k) (omega arith) in
    ap₂ ◌∷◌
      (get32_congr (put_counters (o + 4) ns (put32 o n v)) (put32 o n v) o o
          (put_counters_below (o + 4) ns (put32 o n v) o (omega arith)) (same 1 (omega arith))
          (same 2 (omega arith)) (same 3 (omega arith))
        ∙ get32-put32 o n v h.0)
      (get_counters-put_counters ns (o + 4) (put32 o n v) h.1)

-- A training report of eight 32-bit counters is read as it was written.
pub read_tr-write_tr :
    (n : TrNode) (v : Vector)
    → length n.rcv_num ≡ 8
    → Words n.rcv_num
    → read_tr (payload (write_tr n v)) ≡ record { rssi = n.rssi; batt = n.batt; rcv = n.rcv_num }
unfolding read_tr write_tr
read_tr-write_tr n v len words =
    let w : Vector = store (store v 15 n.rssi) 16 n.batt in
    let counters : get_counters 8 (payload (put_counters 17 n.rcv_num w)) 3 ≡ n.rcv_num =
      get_counters_congr 8 (payload (put_counters 17 n.rcv_num w)) (put_counters 17 n.rcv_num w) 3
        17
        (λ k p. let e : 14 + (3 + k) ≡ 17 + k = omega arith in ap (put_counters 17 n.rcv_num w) e)
      ∙ ap (λ m. get_counters m (put_counters 17 n.rcv_num w) 17) (sym len)
      ∙ get_counters-put_counters n.rcv_num 17 w words in
    let first : put_counters 17 n.rcv_num w 15 ≡ n.rssi =
      put_counters_below 17 n.rcv_num w 15 (omega arith) in
    let second : put_counters 17 n.rcv_num w 16 ≡ n.batt =
      put_counters_below 17 n.rcv_num w 16 (omega arith) in
    λ i. record { rssi = first i; batt = second i; rcv = counters i }

-- The numbers of a training frame are read as they were written, where the first three fit 32
-- bits.
pub read_tf-write_tf :
    (k seq id mcs : ℕ) (v : Vector)
    → k < 2 ^ 32
    → seq < 2 ^ 32
    → id < 2 ^ 32
    → read_tf (payload (write_tf k seq id mcs v))
      ≡ record { k = k; seq = seq; index = id; mcs = mcs }
unfolding read_tf write_tf put32 get32
read_tf-write_tf k seq id mcs v hk hs hi =
    let t = read_tf (payload (write_tf k seq id mcs v)) in
    let e1 : t.k ≡ k = omega arith in
    let e2 : t.seq ≡ seq = omega arith in
    let e3 : t.index ≡ id = omega arith in
    let e4 : t.mcs ≡ mcs = omega arith in
    λ i. record { k = e1 i; seq = e2 i; index = e3 i; mcs = e4 i }

-- A node as the code builds it: an address of six bytes and eight 32-bit counters.
pub record IsNode (n : TrNode) : Type 0 where
  pub six : length n.addr ≡ 6
  pub eight : length n.rcv_num ≡ 8
  pub words : Words n.rcv_num

pub get_addr_congr :
    (v w : Vector) (o p : ℕ)
    → ((k : ℕ) → k < 6 → v (o + k) ≡ w (p + k))
    → get_addr v o ≡ get_addr w p
unfolding get_addr
get_addr_congr v w o p same =
    let e : o + 0 ≡ o = omega arith in
    let f : p + 0 ≡ p = omega arith in
    let first : v o ≡ w p = ap v (sym e) ∙ same 0 (omega arith) ∙ ap w f in
    λ i.
      first i
      ∷ same 1 (omega arith) i
      ∷ same 2 (omega arith) i
      ∷ same 3 (omega arith) i
      ∷ same 4 (omega arith) i
      ∷ same 5 (omega arith) i
      ∷ []

pub get_addr-copy_bytes :
    (a : Addr) (o : ℕ) (v : Vector) → length a ≡ 6 → get_addr (copy_bytes o a v) o ≡ a
unfolding get_addr copy_bytes
get_addr-copy_bytes (a ∷ b ∷ c ∷ d ∷ e ∷ f ∷ []) o v h = ground arith
get_addr-copy_bytes _ o v h = absurd (omega arith)
