-- ===== src/Reorder/Late.antt =====
-- rx.c: the release of frames that have waited too long.
use mac.Base.{
  ℕ, zero, suc, ◌+◌, ◌%◌, ◌<◌, ◌≡◌, refl, sym, ap, ◌∙◌, arith, true, false, not, ◌&&◌, [], ◌==◌,
  ltb, Bool-cases, inl, inr,
}
use native.Mathlib.Nat.{mod-lt, mod-add-mod, mod-eq_of_lt}
use mac.Reorder.{TidAmpduRx, SeqNum, rx_reorder_ready, Rx, set_slot, release_reorder_frame}
use mac.Reorder.Release.{Clock, purge, release_late}
use mac.Reorder.Count.{count_congr, IsCounted, release_reorder_frame-IsCounted}

-- The `n` slots from `i` on are not ready.
abbrev pub Unready : ℕ → ℕ → TidAmpduRx → Type 0
Unready n i t = (m : ℕ) → m < n → rx_reorder_ready (t.reorder_buf ((i + m) % t.buf_size)) ≡ false

-- Only frames of slots that are not ready are gone.
record IsPurged (t t' : TidAmpduRx) : Type 0 where
  same_size : t'.buf_size ≡ t.buf_size
  same_stored : t'.stored_mpdu_num ≡ t.stored_mpdu_num
  same_ready : (i : ℕ) → rx_reorder_ready (t'.reorder_buf i) ≡ rx_reorder_ready (t.reorder_buf i)

emptied :
    (t : TidAmpduRx) (i : ℕ)
    → rx_reorder_ready (t.reorder_buf i) ≡ false
    → (k : ℕ)
    → rx_reorder_ready (set_slot t.reorder_buf i [] k) ≡ rx_reorder_ready (t.reorder_buf k)
unfolding rx_reorder_ready
emptied t i h k = elim (Bool-cases (k == i)) [
  | inl e ↦
      let same : k ≡ i = ground (arith, e) in
      rw (e) (sym h ∙ ap (λ k. rx_reorder_ready (t.reorder_buf k)) (sym same))
  | inr e ↦ rw (e) refl
]

purge-IsPurged :
    (n i : ℕ) (t : TidAmpduRx) → i < t.buf_size → Unready n i t → IsPurged t (purge n i t)
unfolding purge
purge-IsPurged zero i t inside h = record {
  same_size = refl;
  same_stored = refl;
  same_ready = λ i. refl;
}
purge-IsPurged (suc n) i t inside h =
    let at : (i + 0) % t.buf_size ≡ i = mod-eq_of_lt (omega (arith, inside)) ∙ omega arith in
    let first : rx_reorder_ready (t.reorder_buf i) ≡ false =
      ap (λ k. rx_reorder_ready (t.reorder_buf k)) (sym at) ∙ h 0 (omega arith) in
    let once : TidAmpduRx = record t { reorder_buf = set_slot t.reorder_buf i [] } in
    let rest =
      purge-IsPurged n ((i + 1) % t.buf_size) once (mod-lt (i + 1) (omega (arith, inside))) (λ m b.
        let place : ((i + 1) % t.buf_size + m) % t.buf_size ≡ (i + suc m) % t.buf_size =
          mod-add-mod (i + 1) t.buf_size m ∙ ap (λ x. x % t.buf_size) (omega arith) in
        emptied t i first _
        ∙ ap (λ k. rx_reorder_ready (t.reorder_buf k)) place
        ∙ h (suc m) (omega arith)) in
    record {
      same_size = rest.same_size;
      same_stored = rest.same_stored;
      same_ready = λ k. rest.same_ready k ∙ emptied t i first k;
    }

purge-IsCounted :
    (n i : ℕ) (t : TidAmpduRx)
    → i < t.buf_size
    → Unready n i t
    → IsCounted t
    → IsCounted (purge n i t)
purge-IsCounted n i t inside h v =
    let p = purge-IsPurged n i t inside h in
    record {
      some_slots = rw (p.same_size) v.some_slots;
      few_slots = rw (p.same_size) v.few_slots;
      stored = rw (p.same_size) (
          p.same_stored
          ∙ v.stored
          ∙ sym (count_congr t.buf_size t.reorder_buf _ (λ k b. p.same_ready k)));
    }

-- The slots and the size after one release.
release_slots :
    (sn : SeqNum) (j : ℕ) (r : Rx) (k : ℕ)
    → (release_reorder_frame sn j r).0.reorder_buf k ≡ set_slot r.0.reorder_buf j [] k
unfolding release_reorder_frame
release_slots sn j r k = elim (Bool-cases (rx_reorder_ready (r.0.reorder_buf j))) [
  | inl e ↦ rw (e) refl
  | inr e ↦ rw (e) refl
]

pub release_size :
    (sn : SeqNum) (j : ℕ) (r : Rx) → (release_reorder_frame sn j r).0.buf_size ≡ r.0.buf_size
unfolding release_reorder_frame
release_size sn j r = elim (Bool-cases (rx_reorder_ready (r.0.reorder_buf j))) [
  | inl e ↦ rw (e) refl
  | inr e ↦ rw (e) refl
]

-- A released slot is not ready, and no other slot becomes ready.
release_unready :
    (sn : SeqNum) (j : ℕ) (r : Rx) (k : ℕ)
    → rx_reorder_ready (r.0.reorder_buf k) ≡ false
    → rx_reorder_ready ((release_reorder_frame sn j r).0.reorder_buf k) ≡ false
unfolding rx_reorder_ready
release_unready sn j r k h =
    ap rx_reorder_ready (release_slots sn j r k)
    ∙ (elim (Bool-cases (k == j)) [ inl e ↦ rw (e) refl | inr e ↦ rw (e) h ])

released :
    (sn : SeqNum) (j : ℕ) (r : Rx)
    → rx_reorder_ready ((release_reorder_frame sn j r).0.reorder_buf j) ≡ false
unfolding rx_reorder_ready
released sn j r =
    let own : (j == j) ≡ true = ground arith in
    ap rx_reorder_ready (release_slots sn j r j) ∙ rw (own) refl

-- One more slot that is not ready.
one_more :
    (passed i : ℕ) (t : TidAmpduRx)
    → Unready passed i t
    → rx_reorder_ready (t.reorder_buf ((i + passed) % t.buf_size)) ≡ false
    → Unready (passed + 1) i t
one_more passed i t h last m b = elim (Bool-cases (m == passed)) [
  | inl e ↦ let same : m ≡ passed = ground (arith, e) in rw (same) last
  | inr e ↦ h m (ground (arith, e, b))
]

pub release_late-IsCounted :
    (sn : SeqNum) (now : Clock) (index left passed skipped : ℕ) (r : Rx)
    → IsCounted r.0
    → Unready passed (index + 1) r.0
    → IsCounted (release_late sn now index left passed skipped r).0.0
unfolding release_late
release_late-IsCounted sn now index zero passed skipped r v h = v
release_late-IsCounted sn now index (suc left) passed skipped r v h =
    let t = r.0 in
    let j : ℕ = (index + 1 + passed) % t.buf_size in
    let first : ℕ = (index + 1) % t.buf_size in
    let first_lt : first < t.buf_size = mod-lt (index + 1) v.some_slots in
    let before : Unready passed first t = λ m b.
      ap (λ k. rx_reorder_ready (t.reorder_buf k)) (mod-add-mod (index + 1) t.buf_size m) ∙ h m b in
    let p = purge-IsPurged passed first t first_lt before in
    let purged : Rx = (purge passed first t, r.1) in
    let counted : IsCounted purged.0 = purge-IsCounted passed first t first_lt before v in
    let q : Rx = release_reorder_frame sn j purged in
    let size : q.0.buf_size ≡ t.buf_size = release_size sn j purged ∙ p.same_size in
    let inside : j < purged.0.buf_size =
      omega (arith, p.same_size, mod-lt (index + 1 + passed) v.some_slots) in
    let once : IsCounted q.0 = release_reorder_frame-IsCounted sn j purged inside counted in
    let headed : Rx =
      (record q.0 { head_seq_num = sn.sn_mask (q.0.head_seq_num + skipped) }, q.1) in
    let headed_counted : IsCounted headed.0 = record {
      some_slots = once.some_slots;
      few_slots = once.few_slots;
      stored = once.stored;
    } in
    let next : Unready (passed + 1) (index + 1) headed.0 =
      one_more passed (index + 1) headed.0
        (λ m b.
          ap (λ b. rx_reorder_ready (q.0.reorder_buf ((index + 1 + m) % b))) size
          ∙ release_unready sn j purged _ (p.same_ready _ ∙ h m b))
        (ap (λ b. rx_reorder_ready (q.0.reorder_buf ((index + 1 + passed) % b))) size
          ∙ released sn j purged) in
    let on = release_late-IsCounted sn now index left (passed + 1) 0 headed headed_counted next in
    elim (Bool-cases (rx_reorder_ready (t.reorder_buf j))) [
      | inr e ↦
          let over =
            release_late-IsCounted sn now index left (passed + 1) (skipped + 1) r v
              (one_more passed (index + 1) t h e) in
          rw (release_late, e) over
      | inl e ↦
          elim (Bool-cases
            (not (skipped == 0) && not (ltb (t.reorder_time j + now.timeout) now.jiffies))) [
              | inl stop ↦ rw (release_late, e, stop) v
              | inr go ↦ rw (release_late, e, go) on
            ]
    ]
