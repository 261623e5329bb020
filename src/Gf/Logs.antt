-- ===== src/Gf/Logs.antt =====
-- gf.c: the two tables are inverse to one another, checked at every entry.
use mac.Base.{
  ℕ, ◌%◌, ◌<◌, ◌≡◌, ◌≢◌, refl, arith, true, ◌&&◌, ◌||◌, not, ◌==◌, ltb, all_below, all_below_sound,
}
use mac.Gf.{log, antilog, IsByte}

-- The discrete logarithm, below 255.
unfoldable pub dlog : ℕ → ℕ
dlog x = log x % 255

antilog-dlog_table : all_below 256 (λ x. x == 0 || antilog (dlog x) == x) ≡ true
unfolding all_below dlog log antilog
antilog-dlog_table = refl

pub antilog-dlog : (x : ℕ) → IsByte x → x ≢ 0 → antilog (dlog x) ≡ x
antilog-dlog x h ne =
    let t = all_below_sound 256 (λ x. x == 0 || antilog (dlog x) == x) x antilog-dlog_table h in
    ground arith

log-antilog_table :
    all_below 255 (λ i. dlog (antilog i) == i && not (antilog i == 0) && ltb (antilog i) 256) ≡ true
unfolding all_below dlog log antilog
log-antilog_table = refl

pub antilog_facts :
    (i : ℕ) → i < 255 → (dlog (antilog i) ≡ i) × (antilog i ≢ 0) × IsByte (antilog i)
antilog_facts i h =
    let t =
      all_below_sound 255
        (λ i. dlog (antilog i) == i && not (antilog i == 0) && ltb (antilog i) 256) i
        log-antilog_table h in
    ground arith

unfoldable pub dlog-lt : (x : ℕ) → dlog x < 255
unfolding dlog
dlog-lt x = omega arith
