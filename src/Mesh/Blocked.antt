-- ===== src/Mesh/Blocked.antt =====
-- mesh_plink.c: a link that is blocked in the middle of its handshake, and opened again.
use mac.Base.{ℕ, ◌≡◌, refl, sym, ap, ◌∙◌, true, none, some}
use mathlib.Core.Path.{subst}
use mathlib.Core.Option.{some-injective}
use mac.Mesh.{
  PlinkState, listen, opn_snt, opn_rcvd, cnf_rcvd, estab, holding, blocked, PlinkEvent, Sta,
  MeshConfig, Mesh, Kernel,
}
use mac.Mesh.Plink.{
  mesh_plink_open, mesh_plink_block, mesh_plink_deactivate, plink_deactivate, mesh_plink_timer_set,
}
use mac.Mesh.Fsm.{mesh_plink_fsm}
use mac.Mesh.Transition.{IsTimed}

-- The states between the first frame and the end of a handshake.
abbrev pub IsHandshake : PlinkState → Type 0
IsHandshake opn_snt = Unit {0}
IsHandshake opn_rcvd = Unit {0}
IsHandshake cnf_rcvd = Unit {0}
IsHandshake holding = Unit {0}
IsHandshake listen = ⊥
IsHandshake estab = ⊥
IsHandshake blocked = ⊥

-- What can happen before the timer runs, other than an opening: events, and calls that block or deactivate.
pub data Waits (c : MeshConfig) : Sta × Mesh → Sta × Mesh → Type 0 where
  begin : {l : Sta × Mesh} → Waits c l l
  event :
      {l l' l'' : Sta × Mesh} (k : Kernel) (new_llid : ℕ) (e : PlinkEvent)
      → Waits c l l'
      → mesh_plink_fsm k c new_llid l' e ≡ some l''
      → Waits c l l''
  block : {l l' : Sta × Mesh} → Waits c l l' → Waits c l (mesh_plink_block c l')
  deactivate : {l l' : Sta × Mesh} → Waits c l l' → Waits c l (mesh_plink_deactivate c l')

-- The link is blocked, with its timer pending, at an authenticated station.
record IsHeld (s : Sta) : Type 0 where
  state : s.plink_state ≡ blocked
  pending : s.plink_timer.pending ≡ true
  auth : s.auth ≡ true

handshake_pending :
    (state : PlinkState) (s : Sta)
    → IsHandshake state
    → IsTimed (record s { plink_state = state })
    → s.plink_timer.pending ≡ true
handshake_pending opn_snt s h timed = timed
handshake_pending opn_rcvd s h timed = timed
handshake_pending cnf_rcvd s h timed = timed
handshake_pending holding s h timed = timed
handshake_pending listen s h timed = absurd h
handshake_pending estab s h timed = absurd h
handshake_pending blocked s h timed = absurd h

-- A blocked link ignores every event.
event-blocked :
    (k : Kernel) (c : MeshConfig) (n : ℕ) (s : Sta) (m : Mesh) (e : PlinkEvent)
    → s.plink_state ≡ blocked
    → mesh_plink_fsm k c n (s, m) e ≡ some (s, m)
unfolding mesh_plink_fsm
event-blocked k c n s m e state =
    let held : Sta = record s { plink_state = blocked } in
    let same : held ≡ s = ap (λ x. record s { plink_state = x }) (sym state) in
    ap (λ x. mesh_plink_fsm k c n (x, m) e) (sym same) ∙ ap (λ x. some (x, m)) same

Waits-IsHeld : {c : MeshConfig} {l l' : Sta × Mesh} → Waits c l l' → IsHeld l.0 → IsHeld l'.0
unfolding mesh_plink_block mesh_plink_deactivate plink_deactivate
Waits-IsHeld begin v = v
Waits-IsHeld {c} (event {l'} {l''} k n e waits run) v =
    let held = Waits-IsHeld waits v in
    let same : l' ≡ l'' =
      some-injective _ _ (sym (event-blocked k c n l'.0 l'.1 e held.state) ∙ run) in
    subst (λ (l : Sta × Mesh). IsHeld l.0) same held
Waits-IsHeld (block waits) v =
    let held = Waits-IsHeld waits v in
    record { state = refl; pending = held.pending; auth = held.auth }
Waits-IsHeld (deactivate waits) v =
    let held = Waits-IsHeld waits v in
    record { state = refl; pending = held.pending; auth = held.auth }

held-open :
    (k : Kernel) (c : MeshConfig) (n : ℕ) (l : Sta × Mesh)
    → IsHeld l.0
    → mesh_plink_open k c n l ≡ none
unfolding mesh_plink_open mesh_plink_timer_set
held-open k c n l held = rw (mesh_plink_open, held.state, held.auth, held.pending) refl

-- Let a link of an authenticated station be in its handshake, its timer pending as its state wants, and be
-- blocked. Whatever events and calls that block or deactivate it follow, as long as the timer does not run: if
-- the link is then opened, `mesh_plink_open` adds the pending timer a second time.
pub Waits-mesh_plink_open :
    (k : Kernel) (c : MeshConfig) (n : ℕ) (s : Sta) (m : Mesh) (l : Sta × Mesh)
    → s.auth ≡ true
    → IsHandshake s.plink_state
    → IsTimed s
    → Waits c (mesh_plink_block c (s, m)) l
    → mesh_plink_open k c n l ≡ none
unfolding mesh_plink_block plink_deactivate
Waits-mesh_plink_open k c n s m l auth shake timed waits = held-open k c n l (
    Waits-IsHeld waits (record {
      state = refl;
      pending = handshake_pending s.plink_state s shake timed;
      auth = auth;
    }))
