-- ===== src/Michael.antt =====
-- michael.c: the message integrity code. The rotations and the access to words in memory are the
-- kernel's, and an argument.
pub mod Inverse
pub mod Key
use mac.Base.{ℕ, zero, suc, ◌+◌, ◌*◌, ◌/◌, ◌%◌, ◌^◌, bit_and, bit_or, bit_xor, for_range}

-- `rol32`, `ror32`, `get_unaligned_le16`, `get_unaligned_le32` and `put_unaligned_le32`; memory is a function
-- of the offset.
pub record Words : Type 0 where
  pub rol32 : ℕ → ℕ → ℕ
  pub ror32 : ℕ → ℕ → ℕ
  pub get_le16 : (ℕ → ℕ) → ℕ → ℕ
  pub get_le32 : (ℕ → ℕ) → ℕ → ℕ
  pub put_le32 : ℕ → ℕ → (ℕ → ℕ) → ℕ → ℕ

-- `struct michael_mic_ctx`
pub record MichaelMicCtx : Type 0 where
  pub l : ℕ
  pub r : ℕ

-- `mctx->r ^= mix; mctx->l += mctx->r`, where `mix` is made of `mctx->l`.
unfoldable pub mix_round : (ℕ → ℕ) → MichaelMicCtx → MichaelMicCtx
mix_round mix m = let r = bit_xor m.r (mix m.l) in record { l = (m.l + r) % 2 ^ 32; r = r }

-- The two bytes of each half are exchanged.
abbrev pub swap_bytes : ℕ → ℕ
swap_bytes l = bit_or (bit_and l 0xff00ff00 / 256) (bit_and l 0x00ff00ff * 256 % 2 ^ 32)

unfoldable pub michael_block : Words → ℕ → MichaelMicCtx → MichaelMicCtx
michael_block w val m =
    mix_round (λ l. w.ror32 l 2)
      (mix_round (λ l. w.rol32 l 3)
        (mix_round swap_bytes (mix_round (λ l. w.rol32 l 17) (record m { l = bit_xor m.l val }))))

-- What the code reads of a frame's header: the two addresses, and the traffic identifier, which is zero
-- for a frame without one.
pub record Header : Type 0 where
  pub da : ℕ → ℕ
  pub sa : ℕ → ℕ
  pub tid : ℕ

unfoldable pub michael_mic_hdr : Words → (ℕ → ℕ) → Header → MichaelMicCtx
michael_mic_hdr w key hdr = michael_block w hdr.tid (
    michael_block w (w.get_le32 hdr.sa 2) (
      michael_block w (bit_or (w.get_le16 hdr.da 4) (w.get_le16 hdr.sa 0 * 2 ^ 16 % 2 ^ 32)) (
        michael_block w (w.get_le32 hdr.da 0)
          (record { l = w.get_le32 key 0; r = w.get_le32 key 4 }))))

-- The last bytes of the data before `left` more, in front of them the padding.
unfoldable pub last_block : (ℕ → ℕ) → ℕ → ℕ → ℕ → ℕ
last_block content from zero val = val
last_block content from (suc left) val =
    last_block content from left (bit_or (val * 2 ^ 8 % 2 ^ 32) (content (from + left)))

-- The state after all blocks.
unfoldable pub michael_blocks : Words → (ℕ → ℕ) → ℕ → MichaelMicCtx → MichaelMicCtx
michael_blocks w content data_len m = michael_block w 0 (
    michael_block w (last_block content (data_len / 4 * 4) (data_len % 4) 0x5a) (
      for_range (data_len / 4) 0 (λ block m. michael_block w (w.get_le32 content (block * 4)) m) m))

unfoldable pub michael_mic : Words → (ℕ → ℕ) → Header → (ℕ → ℕ) → ℕ → (ℕ → ℕ) → ℕ → ℕ
michael_mic w key hdr content data_len mic =
    let m = michael_blocks w content data_len (michael_mic_hdr w key hdr) in
    w.put_le32 m.r 4 (w.put_le32 m.l 0 mic)
