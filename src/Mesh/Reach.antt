-- ===== src/Mesh/Reach.antt =====
-- mesh_plink.c: what holds of a station and its interface after any sequence of events.
use mac.Base.{
  ℕ, ◌+◌, ◌^◌, ◌≤◌, ◌<◌, ◌≡◌, refl, ap, ◌∙◌, arith, true, false, Option, none, some, ltb, ◌==◌,
  Bool-cases, inl, inr,
}
use mathlib.Core.Path.{subst}
use mac.Mesh.{
  PlinkState, listen, opn_snt, opn_rcvd, cnf_rcvd, estab, holding, blocked, PlinkEvent, Sta,
  MeshConfig, Mesh, Kernel, mesh_plink_dec_estab_count,
}
use mac.Mesh.Plink.{
  del_timer, mesh_plink_fsm_restart, mesh_plink_timer_set, mesh_plink_open, plink_deactivate,
  mesh_plink_deactivate, mesh_plink_block, is_estab,
}
use mac.Mesh.Fsm.{retry, give_up, retry_timer, mesh_plink_fsm, mesh_plink_timer}
use mac.Mesh.Transition.{Timed, IsTimed, established}
use mac.Mesh.Handshake.{mesh_plink_fsm-Follows}

-- The timer is pending as the state wants, and the counter is `others` and the station's own link.
pub record IsSound (others : ℕ) (l : Sta × Mesh) : Type 0 where
  pub timed : IsTimed l.0
  pub counted : l.1.estab_plinks ≡ others + established l.0.plink_state

-- What can happen to a station: an event, a run of its pending timer, and calls from elsewhere.
pub data Step (c : MeshConfig) : Sta × Mesh → Sta × Mesh → Type 0 where
  event :
      {l l' : Sta × Mesh} (k : Kernel) (new_llid : ℕ) (e : PlinkEvent)
      → mesh_plink_fsm k c new_llid l e ≡ some l'
      → Step c l l'
  timer :
      {l l' : Sta × Mesh} (k : Kernel)
      → l.0.plink_timer.pending ≡ true
      → l.0.plink_timer.expires ≤ k.jiffies
      → mesh_plink_timer k c (del_timer l.0, l.1) ≡ some l'
      → Step c l l'
  opening :
      {l l' : Sta × Mesh} (k : Kernel) (new_llid : ℕ)
      → mesh_plink_open k c new_llid l ≡ some l'
      → Step c l l'
  block : {l : Sta × Mesh} → Step c l (mesh_plink_block c l)
  deactivate : {l : Sta × Mesh} → Step c l (mesh_plink_deactivate c l)

pub data Run (c : MeshConfig) : Sta × Mesh → Sta × Mesh → Type 0 where
  start : {l : Sta × Mesh} → Run c l l
  step : {l l' l'' : Sta × Mesh} → Run c l l' → Step c l' l'' → Run c l l''

abbrev OnSome : (Sta × Mesh → Type 0) → Option (Sta × Mesh) → Type 0
OnSome P none = Unit {0}
OnSome P (some l) = P l

abbrev in_state : PlinkState → Sta → Sta
in_state state s = record s { plink_state = state }

established_le : (state : PlinkState) → established state ≤ 1
established_le listen = omega arith
established_le opn_snt = omega arith
established_le opn_rcvd = omega arith
established_le cnf_rcvd = omega arith
established_le estab = omega arith
established_le holding = omega arith
established_le blocked = omega arith

module _ (c : MeshConfig) (others : ℕ) (room : others + 2 < 2 ^ 32) where
  event-IsSound :
      (k : Kernel) (n : ℕ) (l : Sta × Mesh) (e : PlinkEvent)
      → IsSound others l
      → OnSome (IsSound others) (mesh_plink_fsm k c n l e)
  event-IsSound k n (s, m) e v =
      let small : established s.plink_state ≤ 1 = established_le s.plink_state in
      let follows =
        mesh_plink_fsm-Follows k c n s m e v.timed
          (record { own = omega (arith, v.counted); room = omega (arith, v.counted, small) }) in
      rw (follows.1)
        (record { timed = follows.2.timed; counted = omega (arith, follows.2.counted, v.counted) })

  retry_timer-IsSound :
      (k : Kernel) (s : Sta) (m : Mesh)
      → Timed s.plink_state true
      → established s.plink_state ≡ 0
      → m.estab_plinks ≡ others + established s.plink_state
      → OnSome (IsSound others) (retry_timer k c (s, m))
  unfolding retry_timer retry give_up
  retry_timer-IsSound k s m timed free counted =
      elim (Bool-cases (ltb s.plink_retries c.max_retries)) [
        | inr last ↦
            rw (last) (record { timed = refl; counted = counted ∙ ap (λ x. others + x) free })
        | inl more ↦ elim (Bool-cases (s.plink_timeout == 0)) [
          | inl none_left ↦ rw (more, none_left) tt
          | inr pos ↦ rw (more, pos) (record { timed = timed; counted = counted })
        ]
      ]

  -- A run of the timer at or after its time, by state.
  timer-IsSound :
      (state : PlinkState) (k : Kernel) (s : Sta) (m : Mesh)
      → ltb k.jiffies s.plink_timer.expires ≡ false
      → IsSound others (in_state state s, m)
      → OnSome (IsSound others) (mesh_plink_timer k c (in_state state (del_timer s), m))
  unfolding mesh_plink_timer give_up mesh_plink_fsm_restart
  timer-IsSound listen k s m due v = rw (due) (record { timed = refl; counted = v.counted })
  timer-IsSound opn_snt k s m due v =
      rw (due) (retry_timer-IsSound k (in_state opn_snt (del_timer s)) m refl refl v.counted)
  timer-IsSound opn_rcvd k s m due v =
      rw (due) (retry_timer-IsSound k (in_state opn_rcvd (del_timer s)) m refl refl v.counted)
  timer-IsSound cnf_rcvd k s m due v = rw (due) (record { timed = refl; counted = v.counted })
  timer-IsSound estab k s m due v = rw (due) (record { timed = refl; counted = v.counted })
  timer-IsSound holding k s m due v = rw (due) (record { timed = refl; counted = v.counted })
  timer-IsSound blocked k s m due v = rw (due) (record { timed = tt; counted = v.counted })

  open-IsSound :
      (state : PlinkState) (k : Kernel) (n : ℕ) (s : Sta) (m : Mesh)
      → s.auth ≡ true
      → IsSound others (in_state state s, m)
      → OnSome (IsSound others) (mesh_plink_open k c n (in_state state s, m))
  unfolding mesh_plink_open mesh_plink_timer_set
  open-IsSound listen k n s m auth v = elim (Bool-cases s.plink_timer.pending) [
    | inl pending ↦ rw (auth, pending) tt
    | inr idle ↦ rw (auth, idle) (record { timed = refl; counted = v.counted })
  ]
  open-IsSound opn_snt k n s m auth v = rw (auth) (record { timed = v.timed; counted = v.counted })
  open-IsSound opn_rcvd k n s m auth v = rw (auth) (record { timed = v.timed; counted = v.counted })
  open-IsSound cnf_rcvd k n s m auth v = rw (auth) (record { timed = v.timed; counted = v.counted })
  open-IsSound estab k n s m auth v = rw (auth) (record { timed = v.timed; counted = v.counted })
  open-IsSound holding k n s m auth v = rw (auth) (record { timed = v.timed; counted = v.counted })
  open-IsSound blocked k n s m auth v = elim (Bool-cases s.plink_timer.pending) [
    | inl pending ↦ rw (auth, pending) tt
    | inr idle ↦ rw (auth, idle) (record { timed = refl; counted = v.counted })
  ]

  deactivate-IsSound :
      (state : PlinkState) (s : Sta) (m : Mesh)
      → IsSound others (in_state state s, m)
      → (plink_deactivate c (in_state state s, m)).1.estab_plinks ≡ others + 0
  unfolding plink_deactivate mesh_plink_dec_estab_count is_estab
  deactivate-IsSound listen s m v = v.counted
  deactivate-IsSound opn_snt s m v = v.counted
  deactivate-IsSound opn_rcvd s m v = v.counted
  deactivate-IsSound cnf_rcvd s m v = v.counted
  deactivate-IsSound estab s m v = omega (arith, v.counted)
  deactivate-IsSound holding s m v = v.counted
  deactivate-IsSound blocked s m v = v.counted

  abbrev soundly :
      {A : Option (Sta × Mesh)} {l : Sta × Mesh}
      → OnSome (IsSound others) A
      → A ≡ some l
      → IsSound others l
  soundly v e = subst (OnSome (IsSound others)) e v

  any_open-IsSound :
      (k : Kernel) (n : ℕ) (s : Sta) (m : Mesh)
      → IsSound others (s, m)
      → OnSome (IsSound others) (mesh_plink_open k c n (s, m))
  unfolding mesh_plink_open
  any_open-IsSound k n s m v = elim (Bool-cases s.auth) [
    | inl auth ↦ open-IsSound s.plink_state k n s m auth v
    | inr strange ↦ rw (strange) (record { timed = v.timed; counted = v.counted })
  ]

  Step-IsSound : (l l' : Sta × Mesh) → Step c l l' → IsSound others l → IsSound others l'
  unfolding mesh_plink_block mesh_plink_deactivate plink_deactivate
  Step-IsSound (s, m) l' (event k n e h) v = soundly (event-IsSound k n (s, m) e v) h
  Step-IsSound (s, m) l' (timer k pending due h) v =
      soundly (timer-IsSound s.plink_state k s m (ground (arith, due)) v) h
  Step-IsSound (s, m) l' (opening k n h) v = soundly (any_open-IsSound k n s m v) h
  Step-IsSound (s, m) _ block v = record {
    timed = tt;
    counted = deactivate-IsSound s.plink_state s m v;
  }
  Step-IsSound (s, m) _ deactivate v = record {
    timed = tt;
    counted = deactivate-IsSound s.plink_state s m v;
  }

-- Where the counter of the interface has room, a station whose timer is pending as its state wants, and
-- whose own established link is counted beside `others`, stays so through every sequence of events, runs
-- of its timer, and calls that open, block or deactivate the link.
pub Run-IsSound :
    (c : MeshConfig) (others : ℕ) (l l' : Sta × Mesh)
    → others + 2 < 2 ^ 32
    → Run c l l'
    → IsSound others l
    → IsSound others l'
Run-IsSound c others l l' room start v = v
Run-IsSound c others l l' room (step {l' = mid} run last) v =
    Step-IsSound c others room mid l' last (Run-IsSound c others l mid room run v)
