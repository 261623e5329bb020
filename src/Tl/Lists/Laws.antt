-- ===== src/Tl/Lists/Laws.antt =====
-- tl_rx_list.c: finding, inserting and freeing nodes.
use mac.Base.{
  ◌≡◌, refl, sym, ap, ◌∙◌, arith, true, false, List, [], ◌∷◌, Option, none, some, if◌then◌else◌,
  Bool-cases, inl, inr,
}
use mac.Tl.Types.{Addr, same_addr, same_addr→eq, same_addr_sym}
use mac.Tl.Lists.{find_addr, free_addr, tr_info_insert}

-- The first of two results that is there.
abbrev pub or_else {ℓ} : {A : Type ℓ} → Option A → Option A → Option A
or_else (some x) o = some x
or_else none o = o

module _ {A : Type 0} (addr_of : A → Addr) where
  -- No two nodes have one address.
  abbrev pub Distinct : List A → Type 0
  Distinct [] = Unit {0}
  Distinct (x ∷ xs) = (find_addr addr_of xs (addr_of x) ≡ none) × Distinct xs

  -- What is found after an insertion: the old nodes come first.
  pub find_addr-insert :
      (xs : List A) (x : A) (a : Addr)
      → find_addr addr_of (tr_info_insert x xs) a
        ≡ or_else (find_addr addr_of xs a) (if same_addr (addr_of x) a then some x else none)
  unfolding find_addr tr_info_insert
  find_addr-insert [] x a = refl
  find_addr-insert (y ∷ ys) x a = ground (arith, find_addr-insert ys x a)

  -- A node that was not found before it is inserted keeps the addresses distinct.
  pub insert-Distinct :
      (xs : List A) (x : A)
      → Distinct xs
      → find_addr addr_of xs (addr_of x) ≡ none
      → Distinct (tr_info_insert x xs)
  unfolding find_addr tr_info_insert
  insert-Distinct [] x d h = (refl, tt)
  insert-Distinct (y ∷ ys) x d h = (
    ground (arith, find_addr-insert ys x (addr_of y), d.0, same_addr_sym (addr_of x) (addr_of y)),
    insert-Distinct ys x d.1 (ground arith),
  )

  find_addr_same :
      (xs : List A) (a b : Addr)
      → same_addr a b ≡ true
      → find_addr addr_of xs a ≡ find_addr addr_of xs b
  find_addr_same xs a b e = ap (find_addr addr_of xs) (same_addr→eq a b e)

  -- If no address is twice in a list, then after the node with address `a` is freed that address is not
  -- found, and every other address is found as before.
  pub find_addr-free_addr :
      (xs : List A) (a b : Addr)
      → Distinct xs
      → find_addr addr_of (free_addr addr_of xs a) b
        ≡ (if same_addr a b then none else find_addr addr_of xs b)
  unfolding find_addr free_addr
  find_addr-free_addr [] a b d = ground arith
  find_addr-free_addr (x ∷ xs) a b d = elim (Bool-cases (same_addr (addr_of x) a)) [
    | inl e ↦
        let at_x = same_addr→eq (addr_of x) a e in
        elim (Bool-cases (same_addr a b)) [
          | inl f ↦ rw (e, f) (ap (find_addr addr_of xs) (sym (at_x ∙ same_addr→eq a b f)) ∙ d.0)
          | inr f ↦
              let g : same_addr (addr_of x) b ≡ false = ap (λ t. same_addr t b) at_x ∙ f in
              rw (e, f, g)
        ]
    | inr e ↦ elim (Bool-cases (same_addr (addr_of x) b)) [
      | inl f ↦
          let g : same_addr a b ≡ false =
            same_addr_sym a b ∙ ap (λ t. same_addr t a) (sym (same_addr→eq (addr_of x) b f)) ∙ e in
          rw (e, f, g)
      | inr f ↦ rw (e, f) (find_addr-free_addr xs a b d.1)
    ]
  ]

  free_addr-none :
      (xs : List A) (a b : Addr)
      → find_addr addr_of xs b ≡ none
      → find_addr addr_of (free_addr addr_of xs a) b ≡ none
  unfolding find_addr free_addr
  free_addr-none [] a b h = refl
  free_addr-none (x ∷ xs) a b h = ground (arith, free_addr-none xs a b)

  pub free_addr-Distinct :
      (xs : List A) (a : Addr) → Distinct xs → Distinct (free_addr addr_of xs a)
  unfolding free_addr
  free_addr-Distinct [] a d = tt
  free_addr-Distinct (x ∷ xs) a d = elim (Bool-cases (same_addr (addr_of x) a)) [
    | inl e ↦ rw e d.1
    | inr e ↦ rw e ((free_addr-none xs a (addr_of x) d.0, free_addr-Distinct xs a d.1))
  ]
