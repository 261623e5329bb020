-- ===== src/Mnc/Substitute/Solve.antt =====
-- mnc_rx.c, `skb_substi`: the two triangular systems are solved, and have one solution.
use mac.Base.{
  ℕ, zero, suc, ◌-◌, ◌+◌, ◌≤◌, ◌<◌, bit_xor, ◌≡◌, ◌≢◌, sym, ap, ◌∙◌, inl, inr, arith, ◌==◌,
  if◌then◌else◌, Bool-cases, ==→eq, for_range, Matrix, bit_xor_assoc, bit_xor-zero, bit_xor_comm,
  for_range_inv, false, zero-bit_xor,
}
use mac.Gf.{gdiv, gsub, gmul, IsByte}
use mac.Gf.Laws.{gmul_comm, gmul-gdiv, zero-gmul, one-gmul}
use mac.Gf.Sum.{xsum, xsum_congr, xsum-zero, bit_xor_cancel, xsum_front, xsum_stop, xsum_split}
use mac.Mnc.Substitute.{Vector, store, forward_step, forward, backward_step, backward}

-- The inner loop of either system takes off the sum of the terms from `lo`.
pub take_off :
    (row v : Vector) (j : ℕ) (n lo : ℕ) (y : Vector)
    → ((k : ℕ) → lo ≤ k → k < lo + n → (k ≢ j) × (y k ≡ v k))
    → (r : ℕ)
    → for_range n lo (λ k y. store y j (gsub (y j) (gmul (row k) (y k)))) y r
      ≡ (if r == j then bit_xor (y j) (xsum n (λ k. gmul (row (lo + k)) (v (lo + k)))) else y r)
unfolding for_range xsum
take_off row v j zero lo y same r = elim (Bool-cases (r == j)) [
  | inl e ↦ rw e (ap y (==→eq r j e) ∙ sym (bit_xor-zero (y j)))
  | inr e ↦ rw e
]
take_off row v j (suc n) lo y same r =
    let now = same lo (omega arith) (omega arith) in
    let y' : Vector = store y j (gsub (y j) (gmul (row lo) (y lo))) in
    let rest =
      take_off row v j n (suc lo) y'
        (λ k p q. let h = same k (omega arith) (omega arith) in (h.0, ground arith)) r in
    let here : y' j ≡ bit_xor (y j) (gmul (row lo) (v lo)) =
      unfold gsub in ground (arith, ap (λ t. bit_xor (y j) (gmul (row lo) t)) now.1) in
    let total : bit_xor (y' j) (xsum n (λ k. gmul (row (suc lo + k)) (v (suc lo + k))))
        ≡ bit_xor (y j) (xsum (suc n) (λ k. gmul (row (lo + k)) (v (lo + k)))) =
      rw (here, xsum_front n lo (λ k. gmul (row k) (v k))) (bit_xor_assoc (y j) _ _) in
    ground (arith, rest, total)

module _ (n : ℕ) (l : Matrix) (b z : Vector) (unit : (r : ℕ) → r < n → l r r ≡ 1)
    (lower : (r k : ℕ) → k < n → r < k → l r k ≡ 0) (bytes : (r : ℕ) → r < n → IsByte (z r))
    (solves : (r : ℕ) → r < n → b r ≡ xsum n (λ k. gmul (l r k) (z k))) where
  abbrev Solved : ℕ → Vector → Type 0
  Solved j y = (r : ℕ) → r < j → y r ≡ z r

  row_sum : (j : ℕ) → j < n → b j ≡ bit_xor (xsum j (λ k. gmul (l j k) (z k))) (z j)
  row_sum j h =
      solves j h
      ∙ xsum_stop (suc j) (n - suc j) n (λ k. gmul (l j k) (z k)) (omega arith)
          (λ k p q. rw (lower j k q p) (zero-gmul (z k)))
      ∙ (unfold xsum in
          ap (bit_xor (xsum j (λ k. gmul (l j k) (z k))))
            (rw (unit j h) (one-gmul (z j) (bytes j h))))

  forward_step-Solved :
      (j : ℕ) (y : Vector) → j < n → Solved j y → Solved (suc j) (forward_step l b j y)
  unfolding forward_step
  forward_step-Solved j y h s r p =
      let y' : Vector = store y j (b j) in
      let t =
        take_off (l j) z j j 0 y' (λ k q w. (omega arith, ground (arith, s k (omega arith)))) r in
      let sum : xsum j (λ k. gmul (l j (0 + k)) (z (0 + k))) ≡ xsum j (λ k. gmul (l j k) (z k)) =
        xsum_congr j _ _ (λ k q. let e : 0 + k ≡ k = omega arith in rw e) in
      let done : bit_xor (b j) (xsum j (λ k. gmul (l j (0 + k)) (z (0 + k)))) ≡ z j =
        rw (sum, row_sum j h)
          (ap (λ t. bit_xor t (xsum j (λ k. gmul (l j k) (z k)))) (bit_xor_comm _ (z j))
            ∙ bit_xor_cancel (z j) _) in
      elim (Bool-cases (r == j)) [
        | inl e ↦ ground (arith, t, done, ap z (==→eq r j e))
        | inr e ↦ ground (arith, t, s r (ground arith))
      ]

  -- The first system has the solution `z` only, and `forward` finds it.
  pub forward-Solved : (y : Vector) → Solved n (forward n l b y)
  unfolding forward
  forward-Solved y =
      for_range_inv (λ j y. Solved j y) (forward_step l b) 0 n
        (λ j y p q s. forward_step-Solved j y q s) n 0 y (omega arith) (omega arith)
        (λ r h. absurd (omega arith))

module _ (n : ℕ) (u : Matrix) (y x : Vector) (upper : (r c : ℕ) → r < n → c < r → u r c ≡ 0)
    (pivots : (r : ℕ) → r < n → u r r ≢ 0) (u_bytes : (r c : ℕ) → IsByte (u r c))
    (bytes : (r : ℕ) → r < n → IsByte (x r))
    (solves : (r : ℕ) → r < n → y r ≡ xsum n (λ k. gmul (u r k) (x k))) where
  tail_sum : ℕ → ℕ
  tail_sum r = xsum (n - suc r) (λ k. gmul (u r (suc r + k)) (x (suc r + k)))

  column_sum : (r : ℕ) → r < n → y r ≡ bit_xor (gmul (u r r) (x r)) (tail_sum r)
  unfolding tail_sum
  column_sum r h =
      let head : xsum (suc r) (λ k. gmul (u r k) (x k)) ≡ gmul (u r r) (x r) =
        unfold xsum in
        rw (xsum-zero r (λ k. gmul (u r k) (x k)) (λ k q. rw (upper r k h q) (zero-gmul (x k))))
          (zero-bit_xor (gmul (u r r) (x r))) in
      solves r h
      ∙ xsum_split (suc r) (n - suc r) n (λ k. gmul (u r k) (x k)) (omega arith)
      ∙ ap (λ t. bit_xor t (xsum (n - suc r) (λ k. gmul (u r (suc r + k)) (x (suc r + k))))) head

  abbrev SolvedFrom : ℕ → Vector → Type 0
  SolvedFrom m v = (r : ℕ) → m ≤ r → r < n → v r ≡ x r

  module _ (i : ℕ) (v : Vector) (h : i < n) (s : SolvedFrom (suc i) v) where
    backward_row : Vector
    backward_row =
        for_range (n - suc i) (suc i) (λ l x. store x i (gsub (x i) (gmul (u i l) (x l))))
          (store v i (y i))

    backward_row_cells :
        (r : ℕ) → backward_row r ≡ (if r == i then bit_xor (y i) (tail_sum i) else v r)
    unfolding backward_row tail_sum
    backward_row_cells r =
        let t =
          take_off (u i) x i (n - suc i) (suc i) (store v i (y i))
            (λ k a b. (omega arith, ground (arith, s k (omega arith) (omega arith)))) r in
        ground (arith, t)

    whole : bit_xor (y i) (tail_sum i) ≡ gmul (u i i) (x i)
    whole = ap (λ t. bit_xor t (tail_sum i)) (column_sum i h) ∙ bit_xor_cancel _ (tail_sum i)

    divided : gdiv (bit_xor (y i) (tail_sum i)) (u i i) ≡ x i
    divided =
        ap (λ t. gdiv t (u i i)) (whole ∙ gmul_comm (u i i) (x i))
        ∙ ((gmul-gdiv (x i) (u i i) (bytes i h) (u_bytes i i)).0 (pivots i h)).1

    row_done :
        (r : ℕ) → i ≤ r → r < n → store backward_row i (gdiv (backward_row i) (u i i)) r ≡ x r
    row_done r p q = elim (Bool-cases (r == i)) [
      | inl e ↦ rw e (
          ap (λ t. gdiv t (u i i)) (backward_row_cells i ∙ ground arith)
          ∙ divided
          ∙ ap x (sym (==→eq r i e)))
      | inr e ↦ rw e (backward_row_cells r ∙ rw e (s r (ground arith) q))
    ]

  backward_step-SolvedFrom :
      (j : ℕ) (v : Vector)
      → j < n
      → SolvedFrom (n - j) v
      → SolvedFrom (n - suc j) (backward_step n u y j v)
  unfolding backward_step backward_row
  backward_step-SolvedFrom j v h s r p q =
      let same : (u (n - 1 - j) (n - 1 - j) == 0) ≡ false = ground (arith, pivots (n - 1 - j)) in
      rw same
        (row_done (n - 1 - j) v (omega arith) (λ r a b. s r (omega arith) b) r (omega arith) q)

  -- Without a zero on the diagonal the second system has the solution `x` only, and `backward` finds it.
  pub backward-Solved : (v : Vector) (r : ℕ) → r < n → backward n u y v r ≡ x r
  unfolding backward
  backward-Solved v r h =
      for_range_inv (λ j v. SolvedFrom (n - j) v) (backward_step n u y) 0 n
        (λ j v p q s. backward_step-SolvedFrom j v q s) n 0 v (omega arith) (omega arith)
        (λ r a b. absurd (omega arith)) r (omega arith) h
