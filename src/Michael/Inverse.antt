-- ===== src/Michael/Inverse.antt =====
-- michael.c: the code can be computed backwards, so that it determines the key.
use mac.Base.{
  ℕ, ◌+◌, ◌-◌, ◌*◌, ◌/◌, ◌%◌, ◌^◌, ◌≤◌, ◌<◌, ◌≡◌, sym, ap, ◌∙◌, arith, bit_and, bit_xor, bit_xor-lt,
  bit_or-lt, bit_and-lt,
}
use mac.Gf.Sum.{bit_xor_cancel}
use mac.Michael.{Words, MichaelMicCtx, mix_round, swap_bytes, michael_block}

abbrev IsWord : ℕ → Type 0
IsWord x = x < 2 ^ 32

-- What the kernel's functions do.
pub record IsWords (w : Words) : Type 0 where
  pub rol_word : (x n : ℕ) → x < 2 ^ 32 → w.rol32 x n < 2 ^ 32
  pub ror_word : (x n : ℕ) → x < 2 ^ 32 → w.ror32 x n < 2 ^ 32
  pub get16 : (b : ℕ → ℕ) (o : ℕ) → w.get_le16 b o < 2 ^ 16
  pub get32_word : (b : ℕ → ℕ) (o : ℕ) → w.get_le32 b o < 2 ^ 32
  pub get32 :
      (b : ℕ → ℕ) (o : ℕ)
      → b o < 256
      → b (o + 1) < 256
      → b (o + 2) < 256
      → b (o + 3) < 256
      → w.get_le32 b o ≡ b o + b (o + 1) * 2 ^ 8 + b (o + 2) * 2 ^ 16 + b (o + 3) * 2 ^ 24
  pub get_put : (v o : ℕ) (b : ℕ → ℕ) → v < 2 ^ 32 → w.get_le32 (w.put_le32 v o b) o ≡ v
  pub get_put_before :
      (v o o' : ℕ) (b : ℕ → ℕ) → o' + 4 ≤ o → w.get_le32 (w.put_le32 v o b) o' ≡ w.get_le32 b o'

pub record IsCtx (m : MichaelMicCtx) : Type 0 where
  pub l_word : m.l < 2 ^ 32
  pub r_word : m.r < 2 ^ 32

-- A round backwards.
unmix : (ℕ → ℕ) → MichaelMicCtx → MichaelMicCtx
unmix mix m = let l = (m.l + 2 ^ 32 - m.r) % 2 ^ 32 in record { l = l; r = bit_xor m.r (mix l) }

mix_round-IsCtx :
    (mix : ℕ → ℕ) (m : MichaelMicCtx) → IsCtx m → mix m.l < 2 ^ 32 → IsCtx (mix_round mix m)
unfolding mix_round
mix_round-IsCtx mix m v small = record {
  l_word = omega arith;
  r_word = bit_xor-lt 32 m.r (mix m.l) v.r_word small;
}

unmix-mix_round :
    (mix : ℕ → ℕ) (m : MichaelMicCtx) → IsCtx m → mix m.l < 2 ^ 32 → unmix mix (mix_round mix m) ≡ m
unfolding unmix mix_round
unmix-mix_round mix m v small =
    let r : ℕ = bit_xor m.r (mix m.l) in
    let r_small : r < 2 ^ 32 = bit_xor-lt 32 m.r (mix m.l) v.r_word small in
    let back : ((m.l + r) % 2 ^ 32 + 2 ^ 32 - r) % 2 ^ 32 ≡ m.l =
      omega (arith, v.l_word, r_small) in
    rw (back) (ap (λ r. record { l = m.l; r = r }) (bit_xor_cancel m.r (mix m.l)))

swap_bytes_word : (l : ℕ) → l < 2 ^ 32 → swap_bytes l < 2 ^ 32
swap_bytes_word l h =
    let high : bit_and l 0xff00ff00 < 2 ^ 32 = bit_and-lt 32 l 0xff00ff00 h (omega arith) in
    bit_or-lt 32 (bit_and l 0xff00ff00 / 256) (bit_and l 0x00ff00ff * 256 % 2 ^ 32)
      (omega (arith, high)) (omega arith)

-- A block backwards.
unblock : Words → ℕ → MichaelMicCtx → MichaelMicCtx
unblock w val m =
    let n =
      unmix (λ l. w.rol32 l 17)
        (unmix swap_bytes (unmix (λ l. w.rol32 l 3) (unmix (λ l. w.ror32 l 2) m))) in
    record n { l = bit_xor n.l val }

module _ {w : Words} (law : IsWords w) (val : ℕ) (val_word : val < 2 ^ 32) (m : MichaelMicCtx)
    (v : IsCtx m) where
  abbrev m₀ : MichaelMicCtx
  m₀ = record m { l = bit_xor m.l val }

  abbrev m₁ : MichaelMicCtx
  m₁ = mix_round (λ l. w.rol32 l 17) m₀

  abbrev m₂ : MichaelMicCtx
  m₂ = mix_round swap_bytes m₁

  abbrev m₃ : MichaelMicCtx
  m₃ = mix_round (λ l. w.rol32 l 3) m₂

  v₀ : IsCtx m₀
  v₀ = record { l_word = bit_xor-lt 32 m.l val v.l_word val_word; r_word = v.r_word }

  v₁ : IsCtx m₁
  v₁ = mix_round-IsCtx (λ l. w.rol32 l 17) m₀ v₀ (law.rol_word m₀.l 17 v₀.l_word)

  v₂ : IsCtx m₂
  v₂ = mix_round-IsCtx swap_bytes m₁ v₁ (swap_bytes_word m₁.l v₁.l_word)

  v₃ : IsCtx m₃
  v₃ = mix_round-IsCtx (λ l. w.rol32 l 3) m₂ v₂ (law.rol_word m₂.l 3 v₂.l_word)

  pub michael_block-IsCtx : IsCtx (michael_block w val m)
  unfolding michael_block
  michael_block-IsCtx = mix_round-IsCtx (λ l. w.ror32 l 2) m₃ v₃ (law.ror_word m₃.l 2 v₃.l_word)

  unblock-michael_block : unblock w val (michael_block w val m) ≡ m
  unfolding unblock michael_block
  unblock-michael_block =
      let e₃ = unmix-mix_round (λ l. w.ror32 l 2) m₃ v₃ (law.ror_word m₃.l 2 v₃.l_word) in
      let e₂ = unmix-mix_round (λ l. w.rol32 l 3) m₂ v₂ (law.rol_word m₂.l 3 v₂.l_word) in
      let e₁ = unmix-mix_round swap_bytes m₁ v₁ (swap_bytes_word m₁.l v₁.l_word) in
      let e₀ = unmix-mix_round (λ l. w.rol32 l 17) m₀ v₀ (law.rol_word m₀.l 17 v₀.l_word) in
      let finish : MichaelMicCtx → MichaelMicCtx = λ n. record n { l = bit_xor n.l val } in
      ap (λ n. finish (unmix (λ l. w.rol32 l 17) (unmix swap_bytes (unmix (λ l. w.rol32 l 3) n))))
        e₃
      ∙ ap (λ n. finish (unmix (λ l. w.rol32 l 17) (unmix swap_bytes n))) e₂
      ∙ ap (λ n. finish (unmix (λ l. w.rol32 l 17) n)) e₁
      ∙ ap finish e₀
      ∙ ap (λ l. record m { l = l }) (bit_xor_cancel m.l val)

-- Two states that become equal by the same block are equal.
pub michael_block-injective :
    {w : Words}
    → IsWords w
    → (val : ℕ) → val < 2 ^ 32
    → (m n : MichaelMicCtx) → IsCtx m
    → IsCtx n
    → michael_block w val m ≡ michael_block w val n
    → m ≡ n
michael_block-injective {w} law val small m n v u e =
    sym (unblock-michael_block law val small m v)
    ∙ ap (unblock w val) e
    ∙ unblock-michael_block law val small n u
