-- ===== src/Reorder/Reaches.antt =====
-- rx.c, `ieee80211_release_reorder_frames`: the loop ends at the new head.
use mac.Base.{
  ℕ, zero, suc, ◌+◌, ◌-◌, ◌%◌, ◌≤◌, ◌<◌, ◌≡◌, refl, ap, ◌∙◌, arith, false, ltb, if◌then◌else◌,
  Bool-cases, inl, inr,
}
use mac.Reorder.{SeqNum, rx_reorder_ready, Rx, release_reorder_frame}
use mac.Reorder.Release.{release_reorder_frames}

-- The kernel's arithmetic of sequence numbers is that of twelve bits.
pub record IsTwelveBit (sn : SeqNum) : Type 0 where
  pub less : (a b : ℕ) → a < 4096 → b < 4096 → sn.sn_less a b ≡ ltb 2048 ((a + 4096 - b) % 4096)
  pub inc : (a : ℕ) → a < 4096 → sn.sn_inc a ≡ (a + 1) % 4096

release_head :
    (sn : SeqNum) (index : ℕ) (r : Rx)
    → (release_reorder_frame sn index r).0.head_seq_num ≡ sn.sn_inc r.0.head_seq_num
unfolding release_reorder_frame
release_head sn index r = elim (Bool-cases (rx_reorder_ready (r.0.reorder_buf index))) [
  | inl e ↦ rw (e) refl
  | inr e ↦ rw (e) refl
]

-- One step nearer.
nearer :
    (h target : ℕ)
    → h < 4096
    → target < 4096
    → 2048 < (h + 4096 - target) % 4096
    → ((h + 1) % 4096 < 4096)
      × (suc ((target + 4096 - (h + 1) % 4096) % 4096) ≡ (target + 4096 - h) % 4096)
nearer h target a b c = (omega arith, omega arith)

-- The last step ends at the target.
last_step :
    (h target : ℕ)
    → h < 4096
    → target < 4096
    → 2048 < (h + 4096 - target) % 4096
    → (next : ℕ) → next ≡ (h + 1) % 4096
    → (next + 4096 - target) % 4096 ≤ 2048
    → next ≡ target
last_step h target a b far next e near = omega (arith, far, e, near)

reaches :
    (sn : SeqNum) (fuel target : ℕ) (r : Rx)
    → IsTwelveBit sn
    → r.0.head_seq_num < 4096
    → target < 4096
    → (target + 4096 - r.0.head_seq_num) % 4096 < fuel
    → let after = release_reorder_frames sn fuel target r in
      after.0.head_seq_num
      ≡ (if sn.sn_less r.0.head_seq_num target then target else r.0.head_seq_num)
unfolding release_reorder_frames
reaches sn zero target r law a b near = absurd (omega (arith, near))
reaches sn (suc fuel) target r law a b near =
    let h : ℕ = r.0.head_seq_num in
    let q : Rx = release_reorder_frame sn (h % r.0.buf_size) r in
    let moved : q.0.head_seq_num ≡ (h + 1) % 4096 =
      release_head sn (h % r.0.buf_size) r ∙ law.inc h a in
    elim (Bool-cases (sn.sn_less h target)) [
      | inr e ↦ rw (release_reorder_frames, e) refl
      | inl e ↦
          let far : 2048 < (h + 4096 - target) % 4096 = ground (arith, law.less h target a b, e) in
          let step = nearer h target a b far in
          let inside : q.0.head_seq_num < 4096 = omega (arith, moved, step.0) in
          let rest = reaches sn fuel target q law inside b (omega (arith, moved, step.1, near)) in
          let there : (if sn.sn_less q.0.head_seq_num target then target else q.0.head_seq_num)
              ≡ target =
            elim (Bool-cases (sn.sn_less q.0.head_seq_num target)) [
              | inl more ↦ rw (more) refl
              | inr last ↦ rw (last) (
                  last_step h target a b far q.0.head_seq_num moved
                    (ground (arith, law.less q.0.head_seq_num target inside b, last)))
            ] in
          let on : release_reorder_frames sn (suc fuel) target r
              ≡ release_reorder_frames sn fuel target q =
            rw (release_reorder_frames, e) refl in
          ap (λ x. x.0.head_seq_num) on ∙ rest ∙ there ∙ rw (e) refl
    ]

-- If the kernel's arithmetic of sequence numbers is that of twelve bits, and the head and the new head have
-- twelve bits, then the loop that releases frames ends within 4096 rounds: at the new head where the
-- head is before it, and else where it stood.
pub release_reorder_frames-reaches :
    (sn : SeqNum) (target : ℕ) (r : Rx)
    → IsTwelveBit sn
    → r.0.head_seq_num < 4096
    → target < 4096
    → (let after = release_reorder_frames sn 4096 target r in
        (after.0.head_seq_num
          ≡ (if sn.sn_less r.0.head_seq_num target then target else r.0.head_seq_num))
        × (sn.sn_less after.0.head_seq_num target ≡ false))
release_reorder_frames-reaches sn target r law a b =
    let arrives = reaches sn 4096 target r law a b (omega (arith, a, b)) in
    (
      arrives,
      elim (Bool-cases (sn.sn_less r.0.head_seq_num target)) [
        | inl e ↦
            let zero_far : (target + 4096 - target) % 4096 ≡ 0 = omega arith in
            let own : sn.sn_less target target ≡ false =
              ground (arith, law.less target target b b, zero_far) in
            let at : (release_reorder_frames sn 4096 target r).0.head_seq_num ≡ target =
              arrives ∙ rw (e) refl in
            ap (λ x. sn.sn_less x target) at ∙ own
        | inr e ↦
            let at : (release_reorder_frames sn 4096 target r).0.head_seq_num ≡ r.0.head_seq_num =
              arrives ∙ rw (e) refl in
            ap (λ x. sn.sn_less x target) at ∙ e
      ],
    )
