-- ===== src/Reorder/Rearm.antt =====
-- rx.c: the release of frames ends, and the counter stays right.
use mac.Base.{
  ℕ, zero, suc, ◌+◌, ◌-◌, ◌%◌, ◌≤◌, ◌<◌, ◌≡◌, ◌≢◌, refl, sym, ap, ◌∙◌, arith, false, not, ◌&&◌,
  Option, none, some, ◌==◌, Bool-cases, Option-cases, inl, inr,
}
use mathlib.Core.Bool.{true≢false}
use native.Mathlib.Nat.{mod-eq_of_lt}
use mac.Reorder.{TidAmpduRx, SeqNum, rx_reorder_ready, Rx}
use mac.Reorder.Release.{
  Clock, release_late, release_ready, find_ready, next_ready, set_release_timer, rearm,
  sta_reorder_release,
}
use mac.Reorder.Count.{count_zero, IsCounted, slot_lt, release_ready-IsCounted}
use mac.Reorder.Late.{release_late-IsCounted}

-- If the search for a ready slot fails, then none was ready up to the end of the buffer.
find_ready-false :
    (left j : ℕ) (t : TidAmpduRx)
    → j + left ≡ t.buf_size
    → rx_reorder_ready (t.reorder_buf (find_ready left j t)) ≡ false
    → (k : ℕ) → j ≤ k
    → k < t.buf_size
    → rx_reorder_ready (t.reorder_buf k) ≡ false
unfolding find_ready
find_ready-false zero j t e h k low high = absurd (omega arith)
find_ready-false (suc left) j t e h k low high =
    elim (Bool-cases (rx_reorder_ready (t.reorder_buf j))) [
      | inl ready ↦
          let found : find_ready (suc left) j t ≡ j = rw (find_ready, ready) refl in
          absurd
            (true≢false (sym ready ∙ ap (λ x. rx_reorder_ready (t.reorder_buf x)) (sym found) ∙ h))
      | inr unready ↦
          let on : find_ready (suc left) j t ≡ find_ready left ((j + 1) % t.buf_size) t =
            rw (find_ready, unready) refl in
          let later : rx_reorder_ready (t.reorder_buf (find_ready left ((j + 1) % t.buf_size) t))
              ≡ false =
            ap (λ x. rx_reorder_ready (t.reorder_buf x)) (sym on) ∙ h in
          elim (Bool-cases (k == j)) [
            | inl same ↦ let at : k ≡ j = ground (arith, same) in rw (at) unready
            | inr other ↦
                let beyond : j + 1 ≤ k = ground (arith, other, low) in
                let next : (j + 1) % t.buf_size ≡ j + 1 =
                  mod-eq_of_lt (omega (arith, beyond, high)) in
                find_ready-false left ((j + 1) % t.buf_size) t (omega (arith, next, e)) later k
                  (omega (arith, next, beyond)) high
          ]
    ]

-- Where a frame is stored the search ends.
next_ready-some :
    (index : ℕ) (t : TidAmpduRx)
    → IsCounted t
    → t.stored_mpdu_num ≢ 0
    → (j : ℕ) × (next_ready index t ≡ some j)
unfolding next_ready
next_ready-some zero t v stored =
    elim (Bool-cases (rx_reorder_ready (t.reorder_buf (find_ready t.buf_size 0 t)))) [
      | inl found ↦ (find_ready t.buf_size 0 t, rw (found) refl)
      | inr lost ↦ absurd (
          stored (
            v.stored
            ∙ count_zero t.buf_size t.reorder_buf
                (λ k b. find_ready-false t.buf_size 0 t (omega arith) lost k (omega arith) b)))
    ]
next_ready-some (suc index) t v stored =
    let later : (suc index == 0) ≡ false = ground arith in
    (find_ready (t.buf_size - 1) (suc index) t, rw (next_ready, later) refl)

abbrev pub Keeps : Option Rx → Type 0
Keeps o = (r : Rx) × (o ≡ some r) × IsCounted r.0

set_release_timer-IsCounted :
    (now : Clock) (j : ℕ) (t : TidAmpduRx) → IsCounted t → IsCounted (set_release_timer now j t)
unfolding set_release_timer
set_release_timer-IsCounted now j t v = elim (Bool-cases t.removed) [
  | inl e ↦
      rw (e) (record { some_slots = v.some_slots; few_slots = v.few_slots; stored = v.stored })
  | inr e ↦
      rw (e) (record { some_slots = v.some_slots; few_slots = v.few_slots; stored = v.stored })
]

rearm-Keeps : (now : Clock) (r : Rx) → IsCounted r.0 → Keeps (rearm now r)
unfolding rearm
rearm-Keeps now (t, frames) v = elim (Bool-cases (t.stored_mpdu_num == 0)) [
  | inl e ↦ (
    (record t { reorder_timer = none }, frames),
    rw (e) refl,
    record { some_slots = v.some_slots; few_slots = v.few_slots; stored = v.stored },
  )
  | inr e ↦
      let next = next_ready-some (t.head_seq_num % t.buf_size) t v (ground (arith, e)) in
      (
        (set_release_timer now next.0 t, frames),
        rw (e, next.1) refl,
        set_release_timer-IsCounted now next.0 t v,
      )
]

pub sta_reorder_release-Keeps :
    (sn : SeqNum) (now : Clock) (r : Rx) → IsCounted r.0 → Keeps (sta_reorder_release sn now r)
unfolding sta_reorder_release
sta_reorder_release-Keeps sn now (t, frames) v =
    let index : ℕ = t.head_seq_num % t.buf_size in
    let late : Rx × Option ℕ = release_late sn now index (t.buf_size - 1) 0 1 (t, frames) in
    let late_counted : IsCounted late.0.0 =
      release_late-IsCounted sn now index (t.buf_size - 1) 0 1 (t, frames) v
        (λ m b. absurd (omega arith)) in
    let ready = release_ready-IsCounted sn t.buf_size index (t, frames) (slot_lt t _ v) v in
    elim (Bool-cases
      (not (rx_reorder_ready (t.reorder_buf index)) && not (t.stored_mpdu_num == 0))) [
        | inr e ↦
            let r = rearm-Keeps now (release_ready sn t.buf_size index (t, frames)) ready in
            (r.0, rw (e) r.1, r.2)
        | inl e ↦ elim (Option-cases late.1) [
          | inl none_left ↦
              let r = rearm-Keeps now late.0 late_counted in (r.0, rw (e, none_left) r.1, r.2)
          | inr stopped ↦ (
            (set_release_timer now stopped.0 late.0.0, late.0.1),
            rw (e, stopped.1) refl,
            set_release_timer-IsCounted now stopped.0 late.0.0 late_counted,
          )
        ]
      ]
