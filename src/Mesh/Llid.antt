-- ===== src/Mesh/Llid.antt =====
-- mesh_plink.c: `mesh_get_new_llid`.
use mac.Base.{
  ℕ, zero, suc, ◌+◌, ◌%◌, ◌≤◌, ◌<◌, ◌≡◌, ◌≢◌, refl, arith, false, some, List, [], ◌∷◌, length,
  get_or, Bool-cases, inl, inr,
}
use native.Mathlib.Nat.{mod-lt}
use mac.Mesh.Plink.{llid_in_use, mesh_get_new_llid}

llid_in_use-false :
    (in_use : List ℕ) (llid : ℕ)
    → llid_in_use in_use llid ≡ false
    → (c : ℕ) → c < length in_use
    → get_or in_use c 0 ≢ llid
unfolding llid_in_use
llid_in_use-false [] llid h c below = absurd (omega arith)
llid_in_use-false (x ∷ xs) llid h zero below = ground (arith, h)
llid_in_use-false (x ∷ xs) llid h (suc c) below =
    let rest : llid_in_use xs llid ≡ false = ground (arith, h) in
    llid_in_use-false xs llid rest c (omega arith)

pub record IsNew (in_use : List ℕ) (llid : ℕ) : Type 0 where
  pub positive : 0 < llid
  pub small : llid ≤ 2007
  pub unused : (c : ℕ) → c < length in_use → get_or in_use c 0 ≢ llid

first_draw :
    (in_use : List ℕ) (draw : ℕ)
    → llid_in_use in_use (draw % 2007 + 1) ≡ false
    → IsNew in_use (draw % 2007 + 1)
first_draw in_use draw new = record {
  positive = omega arith;
  small = omega (arith, mod-lt draw {m = 2007} (omega arith));
  unused = llid_in_use-false in_use (draw % 2007 + 1) new;
}

-- If some random number gives a number that no station uses, then the loop ends, and its number is between
-- 1 and 2007 and used by no station.
pub mesh_get_new_llid-IsNew :
    (in_use draws : List ℕ) (i : ℕ)
    → i < length draws
    → llid_in_use in_use (get_or draws i 0 % 2007 + 1) ≡ false
    → (llid : ℕ) × (mesh_get_new_llid in_use draws ≡ some llid) × IsNew in_use llid
unfolding mesh_get_new_llid
mesh_get_new_llid-IsNew in_use [] i below free = absurd (omega arith)
mesh_get_new_llid-IsNew in_use (draw ∷ draws) zero below free =
    (draw % 2007 + 1, rw (free) refl, first_draw in_use draw free)
mesh_get_new_llid-IsNew in_use (draw ∷ draws) (suc i) below free =
    let rest = mesh_get_new_llid-IsNew in_use draws i (omega arith) free in
    elim (Bool-cases (llid_in_use in_use (draw % 2007 + 1))) [
      | inr new ↦ (draw % 2007 + 1, rw (new) refl, first_draw in_use draw new)
      | inl used ↦ (rest.0, rw (used) rest.1, rest.2)
    ]
