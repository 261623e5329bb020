-- ===== src/Tests/Integrity.antt =====
-- michael.c with the kernel's functions written out.
use mac.Base.{
  ℕ, ◌+◌, ◌-◌, ◌*◌, ◌/◌, ◌%◌, ◌^◌, ◌<◌, ◌≡◌, refl, arith, true, ◌&&◌, leb, ltb, if◌then◌else◌,
}
use mac.Michael.{
  Words, Header, michael_mic, michael_mic_hdr, michael_blocks, michael_block, mix_round, last_block,
}
use mac.Michael.Inverse.{IsWords}
use mac.Michael.Key.{michael_mic-key}

abbrev words : Words
words = record {
  rol32 = λ x n. (x * 2 ^ n + x / 2 ^ (32 - n)) % 2 ^ 32;
  ror32 = λ x n. (x / 2 ^ n + x * 2 ^ (32 - n)) % 2 ^ 32;
  get_le16 = λ b o. (b o + b (o + 1) * 2 ^ 8) % 2 ^ 16;
  get_le32 = λ b o. (b o + b (o + 1) * 2 ^ 8 + b (o + 2) * 2 ^ 16 + b (o + 3) * 2 ^ 24) % 2 ^ 32;
  put_le32 = λ v o b i. if leb o i && ltb i (o + 4) then v / 2 ^ (8 * (i - o)) % 256 else b i;
}

words-IsWords : IsWords words
words-IsWords = record {
  rol_word = λ x n h. omega arith;
  ror_word = λ x n h. omega arith;
  get16 = λ b o. omega arith;
  get32_word = λ b o. omega arith;
  get32 = λ b o h₀ h₁ h₂ h₃. omega arith;
  get_put = get_put;
  get_put_before = λ v o o' b h. ground arith;
}
  where
    get_put : (v o : ℕ) (b : ℕ → ℕ) → v < 2 ^ 32 → words.get_le32 (words.put_le32 v o b) o ≡ v
    get_put v o b h =
        let d₀ : 8 * (o - o) ≡ 0 = omega arith in
        let d₁ : 8 * (o + 1 - o) ≡ 8 = omega arith in
        let d₂ : 8 * (o + 2 - o) ≡ 16 = omega arith in
        let d₃ : 8 * (o + 3 - o) ≡ 24 = omega arith in
        let t₀ : leb o o && ltb o (o + 4) ≡ true = ground arith in
        let t₁ : leb o (o + 1) && ltb (o + 1) (o + 4) ≡ true = ground arith in
        let t₂ : leb o (o + 2) && ltb (o + 2) (o + 4) ≡ true = ground arith in
        let t₃ : leb o (o + 3) && ltb (o + 3) (o + 4) ≡ true = ground arith in
        rw (t₀, t₁, t₂, t₃, d₀, d₁, d₂, d₃) (omega arith)

abbrev key : ℕ → ℕ
key o = (3 * o + 1) % 256

abbrev header : Header
header = record { da = λ o. o % 256; sa = λ o. (o + 9) % 256; tid = 5 }

-- The same eight bytes, and other bytes behind them.
abbrev key' : ℕ → ℕ
key' o = if ltb o 8 then key o else 77

key'_bytes : (o : ℕ) → key' o < 256
key'_bytes o = ground arith

michael_mic-key_example : key 6 ≡ key' 6
unfolding michael_mic michael_mic_hdr michael_blocks michael_block mix_round last_block
michael_mic-key_example =
    michael_mic-key words words-IsWords key key' header (λ o. o % 256) 7 (λ o. 0) (λ o. omega arith)
      key'_bytes (omega arith) (λ o. omega arith) refl refl 6 (omega arith)
