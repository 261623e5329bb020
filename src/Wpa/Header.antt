-- ===== src/Wpa/Header.antt =====
-- wpa.c: what is computed of a frame depends on its header alone.
use mac.Base.{
  ℕ, ◌≤◌, ◌<◌, ◌≡◌, refl, arith, true, List, ◌++◌, length, Bool-cases, inl, inr, get_or-append_lt,
  slice-append,
}
use mac.Wpa.{Suite, ccmp, gcmp, Ieee80211, frame_control}
use mac.Wpa.Blocks.{qos_tid, aad, first_block}

-- What the kernel's functions say of headers: they are long enough for what is read from them.
pub record IsIeee80211 (k : Ieee80211) : Type 0 where
  pub addresses : (fc : ℕ) → 24 ≤ k.hdrlen fc
  pub fourth : (fc : ℕ) → k.has_a4 fc ≡ true → 30 ≤ k.hdrlen fc
  pub qos : (fc : ℕ) → k.is_data_qos fc ≡ true → k.qos_ctl fc < k.hdrlen fc

module _ (k : Ieee80211) (law : IsIeee80211 k) (h : List ℕ)
    (whole : length h ≡ k.hdrlen (frame_control h)) where
  pub frame_control-append : (x : List ℕ) → frame_control (h ++ x) ≡ frame_control h
  frame_control-append x =
      let long = law.addresses (frame_control h) in
      rw
        (
          get_or-append_lt h x 0 0 (omega (arith, long, whole)),
          get_or-append_lt h x 1 0 (omega (arith, long, whole)),
        )
        refl

  pub qos_tid-append : (x : List ℕ) → qos_tid k (h ++ x) ≡ qos_tid k h
  unfolding qos_tid
  qos_tid-append x = elim (Bool-cases (k.is_data_qos (frame_control h))) [
    | inl e ↦
        rw
          (
            frame_control-append x,
            e,
            get_or-append_lt h x (k.qos_ctl (frame_control h)) 0
                (omega (arith, whole, law.qos (frame_control h) e)),
          )
          refl
    | inr e ↦ rw (frame_control-append x, e) refl
  ]

  pub aad-append : (x : List ℕ) → aad k (h ++ x) ≡ aad k h
  unfolding aad
  aad-append x =
      let long = law.addresses (frame_control h) in
      let a = frame_control-append x in
      let b = qos_tid-append x in
      let c = slice-append h x 4 18 (omega (arith, long, whole)) in
      let d = get_or-append_lt h x 22 0 (omega (arith, long, whole)) in
      elim (Bool-cases (k.has_a4 (frame_control h))) [
        | inl e ↦
            let f = slice-append h x 24 6 (omega (arith, whole, law.fourth (frame_control h) e)) in
            rw (a, b, c, d, e, f) refl
        | inr e ↦ rw (a, b, c, d, e) refl
      ]

  pub first_block-append :
      (s : Suite) (stack pn x : List ℕ)
      → first_block s k stack (h ++ x) pn ≡ first_block s k stack h pn
  unfolding first_block
  first_block-append ccmp stack pn x =
      let long = law.addresses (frame_control h) in
      rw
        (
          frame_control-append x,
          qos_tid-append x,
          slice-append h x 10 6 (omega (arith, long, whole)),
        )
        refl
  first_block-append gcmp stack pn x =
      let long = law.addresses (frame_control h) in
      rw (slice-append h x 10 6 (omega (arith, long, whole))) refl
