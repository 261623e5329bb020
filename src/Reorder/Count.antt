-- ===== src/Reorder/Count.antt =====
-- rx.c: the number of stored frames is the number of slots that are ready.
use mac.Base.{
  ℕ, zero, suc, ◌+◌, ◌%◌, ◌^◌, ◌≤◌, ◌<◌, ◌≡◌, refl, arith, Bool, false, List, [], ◌==◌,
  if◌then◌else◌, Bool-cases, inl, inr,
}
use native.Mathlib.Nat.{mod-lt}
use mac.Reorder.{Mpdu, TidAmpduRx, SeqNum, rx_reorder_ready, Rx, set_slot, release_reorder_frame}
use mac.Reorder.Release.{release_reorder_frames, release_ready}

abbrev pub flag : Bool → ℕ
flag b = if b then 1 else 0

-- How many of the first `n` slots are ready.
unfoldable pub count : ℕ → (ℕ → List Mpdu) → ℕ
count zero buf = 0
count (suc n) buf = count n buf + flag (rx_reorder_ready (buf n))

pub count_congr :
    (n : ℕ) (buf buf' : ℕ → List Mpdu)
    → ((i : ℕ) → i < n → rx_reorder_ready (buf' i) ≡ rx_reorder_ready (buf i))
    → count n buf' ≡ count n buf
unfolding count
count_congr zero buf buf' h = refl
count_congr (suc n) buf buf' h =
    rw (count_congr n buf buf' (λ i b. h i (omega arith)), h n (omega arith)) refl

pub count-set_slot :
    (n : ℕ) (buf : ℕ → List Mpdu) (i : ℕ) (list : List Mpdu)
    → i < n
    → count n (set_slot buf i list) + flag (rx_reorder_ready (buf i))
      ≡ count n buf + flag (rx_reorder_ready list)
unfolding count
count-set_slot zero buf i list h = absurd (omega arith)
count-set_slot (suc n) buf i list h = elim (Bool-cases (n == i)) [
  | inl e ↦
      let below : count n (set_slot buf i list) ≡ count n buf =
        count_congr n buf (set_slot buf i list)
          (λ k b. let other : (k == i) ≡ false = ground (arith, e) in rw (other) refl) in
      let same : n ≡ i = ground (arith, e) in rw (e, below, same) (omega arith)
  | inr ne ↦
      let rest = count-set_slot n buf i list (ground (arith, ne)) in rw (ne) (omega (arith, rest))
]

pub count_le : (n : ℕ) (buf : ℕ → List Mpdu) → count n buf ≤ n
unfolding count
count_le zero buf = omega arith
count_le (suc n) buf = ground (arith, count_le n buf)

pub count_zero :
    (n : ℕ) (buf : ℕ → List Mpdu)
    → ((i : ℕ) → i < n → rx_reorder_ready (buf i) ≡ false)
    → count n buf ≡ 0
unfolding count
count_zero zero buf h = refl
count_zero (suc n) buf h = rw (count_zero n buf (λ i b. h i (omega arith)), h n (omega arith)) refl

-- A session's counter counts its ready slots.
pub record IsCounted (t : TidAmpduRx) : Type 0 where
  pub some_slots : 0 < t.buf_size
  pub few_slots : t.buf_size < 2 ^ 16
  pub stored : t.stored_mpdu_num ≡ count t.buf_size t.reorder_buf

pub release_reorder_frame-IsCounted :
    (sn : SeqNum) (index : ℕ) (r : Rx)
    → index < r.0.buf_size
    → IsCounted r.0
    → IsCounted (release_reorder_frame sn index r).0
unfolding release_reorder_frame rx_reorder_ready
release_reorder_frame-IsCounted sn index (t, frames) inside v =
    let set = count-set_slot t.buf_size t.reorder_buf index [] inside in
    let most = count_le t.buf_size t.reorder_buf in
    elim (Bool-cases (rx_reorder_ready (t.reorder_buf index))) [
      | inl e ↦
          let one : flag (rx_reorder_ready (t.reorder_buf index)) ≡ 1 = rw (e) refl in
          rw (e) (record {
            some_slots = v.some_slots;
            few_slots = v.few_slots;
            stored = omega (arith, set, one, most, v.stored, v.few_slots);
          })
      | inr e ↦
          let none : flag (rx_reorder_ready (t.reorder_buf index)) ≡ 0 = rw (e) refl in
          rw (e) (record {
            some_slots = v.some_slots;
            few_slots = v.few_slots;
            stored = omega (arith, set, none, v.stored);
          })
    ]

-- The slot of the head.
pub slot_lt : (t : TidAmpduRx) (n : ℕ) → IsCounted t → n % t.buf_size < t.buf_size
slot_lt t n v = mod-lt n v.some_slots

pub release_reorder_frames-IsCounted :
    (sn : SeqNum) (fuel target : ℕ) (r : Rx)
    → IsCounted r.0
    → IsCounted (release_reorder_frames sn fuel target r).0
unfolding release_reorder_frames
release_reorder_frames-IsCounted sn zero target r v = v
release_reorder_frames-IsCounted sn (suc fuel) target r v =
    let once =
      release_reorder_frame-IsCounted sn (r.0.head_seq_num % r.0.buf_size) r (slot_lt r.0 _ v) v in
    let rest = release_reorder_frames-IsCounted sn fuel target _ once in
    elim (Bool-cases (sn.sn_less r.0.head_seq_num target)) [
      | inl e ↦ rw (release_reorder_frames, e) rest
      | inr e ↦ rw (release_reorder_frames, e) v
    ]

pub release_ready-IsCounted :
    (sn : SeqNum) (fuel index : ℕ) (r : Rx)
    → index < r.0.buf_size
    → IsCounted r.0
    → IsCounted (release_ready sn fuel index r).0
unfolding release_ready
release_ready-IsCounted sn zero index r inside v = v
release_ready-IsCounted sn (suc fuel) index r inside v =
    let once = release_reorder_frame-IsCounted sn index r inside v in
    let rest = release_ready-IsCounted sn fuel _ _ (slot_lt _ _ once) once in
    elim (Bool-cases (rx_reorder_ready (r.0.reorder_buf index))) [
      | inl e ↦ rw (release_ready, e) rest
      | inr e ↦ rw (release_ready, e) v
    ]
