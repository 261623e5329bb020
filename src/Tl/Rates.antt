-- ===== src/Tl/Rates.antt =====
-- tl_rx.c, and the sizes of coded blocks in tl_rx_list.c. `unsigned long` has 64 bits and
-- `unsigned int` 32; `none` is a division by zero.
pub mod Bounds
use mac.Base.{
  ◌>>=◌, ℕ, zero, suc, ◌+◌, ◌-◌, ◌*◌, ◌/◌, ◌%◌, ◌^◌, List, [], ◌∷◌, Option, none, some, ◌==◌, ltb,
  if◌then◌else◌, get_or,
}

abbrev pub u64 : ℕ → ℕ
u64 x = x % 2 ^ 64

abbrev pub u32 : ℕ → ℕ
u32 x = x % 2 ^ 32

abbrev pub u8 : ℕ → ℕ
u8 x = x % 256

unfoldable pub quotient : ℕ → ℕ → Option ℕ
quotient a b = if b == 0 then none else some (a / b)

-- The packets of rank that `n` coded ones bring where `rcv` of `total` arrive.
unfoldable pub n_to_k : ℕ → ℕ → ℕ → Option ℕ
unfolding quotient
n_to_k n total rcv = do
  let result = u64 (u64 (u64 (u64 (n * rcv) * rcv) * 80) * 1000000)
  result ← quotient result total
  result ← quotient result total
  let result = result / 100
  let result = result / 1000000
  some (u8 result)

-- The coded packets to send for `k` of rank.
unfoldable pub k_to_n : ℕ → ℕ → ℕ → Option ℕ
unfolding quotient
k_to_n k total rcv = do
  let result = u64 (u64 (u64 (u64 (k * total) * total) * 100) * 1000000)
  result ← quotient result rcv
  result ← quotient result rcv
  let result = result / 80
  let result = (if result % 1000000 == 0 then result else u64 (result + 1000000))
  let result = result / 1000000
  some (u8 (if ltb result 255 then result else 255))

-- The rate table as C stores it, 5.5 cut to an integer.
abbrev rate11g : List ℕ
rate11g = 1 ∷ 2 ∷ 5 ∷ 11 ∷ 6 ∷ 9 ∷ 12 ∷ 18 ∷ 24 ∷ 36 ∷ 48 ∷ 54 ∷ []

-- WLAN_MODE is 0, so the time is that of 11g; `none` is an index outside the table.
unfoldable pub cal_tx_time : ℕ → ℕ → ℕ → Option ℕ
unfolding quotient
cal_tx_time mcs num len = do
  let len_psdu = u32 (u32 (len + 2 ^ 32 - 12) + 30)
  let rate = get_or rate11g mcs 0
  air ← quotient (u32 (len_psdu * 8)) rate
  some (u32 ((192 + air + 103) * num))

unfoldable pub add_rcv : ℕ → List ℕ → ℕ
add_rcv ret [] = ret
add_rcv ret (n ∷ ns) = add_rcv (u32 (ret + n)) ns

unfoldable pub get_tot_rcv : List ℕ → ℕ
unfolding add_rcv
get_tot_rcv rcv_num = add_rcv 0 rcv_num
