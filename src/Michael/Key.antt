-- ===== src/Michael/Key.antt =====
-- michael.c: for one frame, the code determines the key.
use mac.Base.{
  ℕ, zero, suc, ◌+◌, ◌*◌, ◌/◌, ◌%◌, ◌^◌, ◌<◌, ◌≡◌, sym, ap, ap₂, ◌∙◌, arith, bit_or, bit_or-lt,
  for_range,
}
use mac.Michael.{
  Words, MichaelMicCtx, michael_block, Header, michael_mic_hdr, last_block, michael_blocks,
  michael_mic,
}
use mac.Michael.Inverse.{IsWords, IsCtx, michael_block-IsCtx, michael_block-injective}

-- A function on states keeps words, and is injective on them.
record IsMixing (f : MichaelMicCtx → MichaelMicCtx) : Type 0 where
  words : (m : MichaelMicCtx) → IsCtx m → IsCtx (f m)
  injective : (m n : MichaelMicCtx) → IsCtx m → IsCtx n → f m ≡ f n → m ≡ n

block-IsMixing : {w : Words} → IsWords w → (val : ℕ) → val < 2 ^ 32 → IsMixing (michael_block w val)
block-IsMixing law val small = record {
  words = michael_block-IsCtx law val small;
  injective = michael_block-injective law val small;
}

after-IsMixing :
    {f g : MichaelMicCtx → MichaelMicCtx} → IsMixing f → IsMixing g → IsMixing (λ m. g (f m))
after-IsMixing {f} {g} u v = record {
  words = λ m h. v.words (f m) (u.words m h);
  injective =
      λ m n h k e. u.injective m n h k (v.injective (f m) (f n) (u.words m h) (u.words n k) e);
}

loop-IsMixing :
    (body : ℕ → MichaelMicCtx → MichaelMicCtx)
    → ((i : ℕ) → IsMixing (body i))
    → (n lo : ℕ) → IsMixing (λ m. for_range n lo body m)
unfolding for_range
loop-IsMixing body h zero lo = record { words = λ m v. v; injective = λ m n v u e. e }
loop-IsMixing body h (suc n) lo = after-IsMixing (h lo) (loop-IsMixing body h n (suc lo))

last_block_word :
    (content : ℕ → ℕ) (from left val : ℕ)
    → ((o : ℕ) → content o < 256)
    → val < 2 ^ 32
    → last_block content from left val < 2 ^ 32
unfolding last_block
last_block_word content from zero val bytes h = h
last_block_word content from (suc left) val bytes h =
    last_block_word content from left (bit_or (val * 2 ^ 8 % 2 ^ 32) (content (from + left))) bytes
      (bit_or-lt 32 (val * 2 ^ 8 % 2 ^ 32) (content (from + left)) (omega arith)
        (omega (arith, bytes (from + left))))

blocks-IsMixing :
    {w : Words}
    → IsWords w
    → (content : ℕ → ℕ) (data_len : ℕ) → ((o : ℕ) → content o < 256)
    → IsMixing (michael_blocks w content data_len)
unfolding michael_blocks
blocks-IsMixing {w} law content data_len bytes =
    after-IsMixing
      (loop-IsMixing (λ block m. michael_block w (w.get_le32 content (block * 4)) m)
        (λ block.
          block-IsMixing law (w.get_le32 content (block * 4)) (law.get32_word content (block * 4)))
        (data_len / 4) 0)
      (after-IsMixing
        (block-IsMixing law (last_block content (data_len / 4 * 4) (data_len % 4) 0x5a)
          (last_block_word content (data_len / 4 * 4) (data_len % 4) 0x5a bytes (omega arith)))
        (block-IsMixing law 0 (omega arith)))

-- The pseudo header.
header_blocks : Words → Header → MichaelMicCtx → MichaelMicCtx
header_blocks w hdr m = michael_block w hdr.tid (
    michael_block w (w.get_le32 hdr.sa 2) (
      michael_block w (bit_or (w.get_le16 hdr.da 4) (w.get_le16 hdr.sa 0 * 2 ^ 16 % 2 ^ 32))
        (michael_block w (w.get_le32 hdr.da 0) m)))

header-IsMixing :
    {w : Words} → IsWords w → (hdr : Header) → hdr.tid < 2 ^ 32 → IsMixing (header_blocks w hdr)
unfolding header_blocks
header-IsMixing {w} law hdr tid =
    let middle : bit_or (w.get_le16 hdr.da 4) (w.get_le16 hdr.sa 0 * 2 ^ 16 % 2 ^ 32) < 2 ^ 32 =
      bit_or-lt 32 (w.get_le16 hdr.da 4) (w.get_le16 hdr.sa 0 * 2 ^ 16 % 2 ^ 32)
        (omega (arith, law.get16 hdr.da 4)) (omega arith) in
    after-IsMixing (block-IsMixing law (w.get_le32 hdr.da 0) (law.get32_word hdr.da 0)) (
      after-IsMixing (block-IsMixing law _ middle) (
        after-IsMixing (block-IsMixing law (w.get_le32 hdr.sa 2) (law.get32_word hdr.sa 2))
          (block-IsMixing law hdr.tid tid)))

-- Four bytes are determined by their word.
word_bytes :
    (a b c d a' b' c' d' : ℕ)
    → a < 256
    → b < 256
    → c < 256
    → d < 256
    → a' < 256
    → b' < 256
    → c' < 256
    → d' < 256
    → a + b * 2 ^ 8 + c * 2 ^ 16 + d * 2 ^ 24 ≡ a' + b' * 2 ^ 8 + c' * 2 ^ 16 + d' * 2 ^ 24
    → (a ≡ a') × (b ≡ b') × (c ≡ c') × (d ≡ d')
word_bytes a b c d a' b' c' d' ha hb hc hd ha' hb' hc' hd' e =
    (omega arith, omega arith, omega arith, omega arith)

module _ {w : Words} (law : IsWords w) (key key' : ℕ → ℕ) (hdr : Header) (content : ℕ → ℕ)
    (data_len : ℕ) (mic : ℕ → ℕ) (key_bytes : (o : ℕ) → key o < 256)
    (key'_bytes : (o : ℕ) → key' o < 256) (tid_word : hdr.tid < 2 ^ 32)
    (bytes : (o : ℕ) → content o < 256) where
  abbrev first : (ℕ → ℕ) → MichaelMicCtx
  first k = record { l = w.get_le32 k 0; r = w.get_le32 k 4 }

  abbrev last : (ℕ → ℕ) → MichaelMicCtx
  last k = michael_blocks w content data_len (header_blocks w hdr (first k))

  first-IsCtx : (k : ℕ → ℕ) → IsCtx (first k)
  first-IsCtx k = record { l_word = law.get32_word k 0; r_word = law.get32_word k 4 }

  mixing : IsMixing (λ m. michael_blocks w content data_len (header_blocks w hdr m))
  mixing =
      after-IsMixing (header-IsMixing law hdr tid_word) (blocks-IsMixing law content data_len bytes)

  last-IsCtx : (k : ℕ → ℕ) → IsCtx (last k)
  last-IsCtx k = mixing.words (first k) (first-IsCtx k)

  first_word : (k : ℕ → ℕ) → w.get_le32 (michael_mic w k hdr content data_len mic) 0 ≡ (last k).l
  unfolding michael_mic michael_mic_hdr header_blocks
  first_word k =
      law.get_put_before (last k).r 4 0 (w.put_le32 (last k).l 0 mic) (omega arith)
      ∙ law.get_put (last k).l 0 mic (last-IsCtx k).l_word

  second_word : (k : ℕ → ℕ) → w.get_le32 (michael_mic w k hdr content data_len mic) 4 ≡ (last k).r
  unfolding michael_mic michael_mic_hdr header_blocks
  second_word k = law.get_put (last k).r 4 (w.put_le32 (last k).l 0 mic) (last-IsCtx k).r_word

  -- If the words of the code are the same, the keys are.
  same_key :
      w.get_le32 (michael_mic w key hdr content data_len mic) 0
        ≡ w.get_le32 (michael_mic w key' hdr content data_len mic) 0
      → w.get_le32 (michael_mic w key hdr content data_len mic) 4
        ≡ w.get_le32 (michael_mic w key' hdr content data_len mic) 4
      → (i : ℕ) → i < 8
      → key i ≡ key' i
  same_key e e' i below =
      let ends : last key ≡ last key' =
        ap₂ (λ l r. record { l = l; r = r }) (sym (first_word key) ∙ e ∙ first_word key')
          (sym (second_word key) ∙ e' ∙ second_word key') in
      let starts : first key ≡ first key' =
        mixing.injective (first key) (first key') (first-IsCtx key) (first-IsCtx key') ends in
      let value = λ (k : ℕ → ℕ) (h : (o : ℕ) → k o < 256) (o : ℕ).
        law.get32 k o (h o) (h (o + 1)) (h (o + 2)) (h (o + 3)) in
      let low =
        word_bytes _ _ _ _ _ _ _ _ (key_bytes 0) (key_bytes 1) (key_bytes 2) (key_bytes 3)
          (key'_bytes 0) (key'_bytes 1) (key'_bytes 2) (key'_bytes 3)
          (sym (value key key_bytes 0) ∙ ap (λ m. m.l) starts ∙ value key' key'_bytes 0) in
      let high =
        word_bytes _ _ _ _ _ _ _ _ (key_bytes 4) (key_bytes 5) (key_bytes 6) (key_bytes 7)
          (key'_bytes 4) (key'_bytes 5) (key'_bytes 6) (key'_bytes 7)
          (sym (value key key_bytes 4) ∙ ap (λ m. m.r) starts ∙ value key' key'_bytes 4) in
      pick i below low high
    where
      pick :
          (i : ℕ)
          → i < 8
          → (key 0 ≡ key' 0) × (key 1 ≡ key' 1) × (key 2 ≡ key' 2) × (key 3 ≡ key' 3)
          → (key 4 ≡ key' 4) × (key 5 ≡ key' 5) × (key 6 ≡ key' 6) × (key 7 ≡ key' 7)
          → key i ≡ key' i
      pick zero h a b = a.0
      pick (suc zero) h a b = a.1
      pick (suc (suc zero)) h a b = a.2
      pick (suc (suc (suc zero))) h a b = a.3
      pick (suc (suc (suc (suc zero)))) h a b = b.0
      pick (suc (suc (suc (suc (suc zero))))) h a b = b.1
      pick (suc (suc (suc (suc (suc (suc zero)))))) h a b = b.2
      pick (suc (suc (suc (suc (suc (suc (suc zero))))))) h a b = b.3
      pick (suc (suc (suc (suc (suc (suc (suc (suc i)))))))) h a b = absurd (omega arith)

-- Let the kernel's functions on words do what they are for, the keys and the data be bytes, and the
-- traffic identifier fit 32 bits. If two keys give the same two words of the code for the same frame, header and data, then their eight bytes are
-- the same.
pub michael_mic-key :
    (w : Words)
    → IsWords w
    → (key key' : ℕ → ℕ) (hdr : Header) (content : ℕ → ℕ) (data_len : ℕ) (mic : ℕ → ℕ)
    → ((o : ℕ) → key o < 256)
    → ((o : ℕ) → key' o < 256)
    → hdr.tid < 2 ^ 32
    → ((o : ℕ) → content o < 256)
    → w.get_le32 (michael_mic w key hdr content data_len mic) 0
      ≡ w.get_le32 (michael_mic w key' hdr content data_len mic) 0
    → w.get_le32 (michael_mic w key hdr content data_len mic) 4
      ≡ w.get_le32 (michael_mic w key' hdr content data_len mic) 4
    → (i : ℕ) → i < 8
    → key i ≡ key' i
michael_mic-key w law key key' hdr content data_len mic a b tid bytes =
    same_key law key key' hdr content data_len mic a b tid bytes
