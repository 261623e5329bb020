-- ===== src/Mesh/Handshake.antt =====
-- mesh_plink.c: every step of `mesh_plink_fsm` is a transition of the standard's table.
use mac.Base.{ℕ, ◌+◌, ◌^◌, ◌≤◌, ◌<◌, ◌≡◌, ◌⊎◌, inl, inr, refl, ap, ◌∙◌, arith, false, some}
use native.Mathlib.Nat.{mod-eq_of_lt}
use mac.Mesh.{
  PlinkState, listen, opn_snt, opn_rcvd, cnf_rcvd, estab, holding, blocked, PlinkEvent,
  plink_undefined, opn_acpt, opn_rjct, opn_ignr, cnf_acpt, cnf_rjct, cnf_ignr, cls_acpt, cls_ignr,
  Sta, MeshConfig, Mesh, Kernel, open_frame, mesh_plink_inc_estab_count, mesh_plink_dec_estab_count,
}
use mac.Mesh.Transition.{
  open_refused, confirm_refused, close_accepted, Transition, answers, open_comes, confirm_comes,
  confirm_completes, open_completes, gives_up_sent, gives_up_open, gives_up_confirm, closes,
  restarts, stays, IsTimed, established, Follows, HasCount,
}
use mac.Mesh.Plink.{mod_plink_timer}
use mac.Mesh.Fsm.{answer, mesh_plink_fsm}

abbrev Ends : Kernel → MeshConfig → ℕ → Sta → Mesh → PlinkEvent → Type 0
Ends k c n s m e =
    (after : Sta × Mesh) × (mesh_plink_fsm k c n (s, m) e ≡ some after) × Follows s m e after

-- A station in the given state.
abbrev in_state : PlinkState → Sta → Sta
in_state state s = record s { plink_state = state }

module _ (k : Kernel) (c : MeshConfig) (n : ℕ) (s : Sta) (m : Mesh) where
  -- A step by the table.
  moves :
      {state : PlinkState} {e : PlinkEvent} {after : Sta × Mesh}
      → mesh_plink_fsm k c n (in_state state s, m) e ≡ some after
      → Transition state e after.0.plink_state
      → IsTimed after.0
      → (after.0.plink_state ≡ listen) ⊎ (after.0.plid ≡ s.plid)
      → after.1.estab_plinks + established state ≡ m.estab_plinks + established after.0.plink_state
      → Ends k c n (in_state state s) m e
  moves run moved timed kept counted =
      (_, run, record { moved = moved; timed = timed; kept = kept; counted = counted })

  incremented :
      m.estab_plinks + 1 < 2 ^ 32
      → (mesh_plink_inc_estab_count c m).estab_plinks ≡ m.estab_plinks + 1
  unfolding mesh_plink_inc_estab_count
  incremented h = mod-eq_of_lt h

  decremented :
      1 ≤ m.estab_plinks
      → m.estab_plinks + 1 < 2 ^ 32
      → (mesh_plink_dec_estab_count c m).estab_plinks + 1 ≡ m.estab_plinks
  unfolding mesh_plink_dec_estab_count
  decremented h room = omega (arith, h, room)

  opened : s.plink_timer.pending ≡ false → Ends k c n (in_state listen s) m opn_acpt
  unfolding mesh_plink_fsm
  opened h =
      let o : Sta =
        record (mod_plink_timer k c.retry_timeout (record s { plink_state = opn_rcvd; llid = n })) {
          plink_timeout = c.retry_timeout;
        } in
      (
        answer (o, m, some open_frame),
        rw (h) refl,
        record { moved = answers; timed = refl; kept = inr refl; counted = refl },
      )

  listen_step :
      IsTimed (in_state listen s)
      → HasCount (in_state listen s) m
      → (e : PlinkEvent) → Ends k c n (in_state listen s) m e
  unfolding mesh_plink_fsm
  listen_step h count plink_undefined = moves refl (stays tt) h (inr refl) refl
  listen_step h count opn_acpt = opened h
  listen_step h count opn_rjct = moves refl (stays tt) h (inr refl) refl
  listen_step h count opn_ignr = moves refl (stays tt) h (inr refl) refl
  listen_step h count cnf_acpt = moves refl (stays tt) h (inr refl) refl
  listen_step h count cnf_rjct = moves refl (stays tt) h (inr refl) refl
  listen_step h count cnf_ignr = moves refl (stays tt) h (inr refl) refl
  listen_step h count cls_acpt = moves refl (stays tt) h (inl refl) refl
  listen_step h count cls_ignr = moves refl (stays tt) h (inr refl) refl

  opn_snt_step :
      IsTimed (in_state opn_snt s)
      → HasCount (in_state opn_snt s) m
      → (e : PlinkEvent) → Ends k c n (in_state opn_snt s) m e
  unfolding mesh_plink_fsm
  opn_snt_step h count plink_undefined = moves refl (stays tt) h (inr refl) refl
  opn_snt_step h count opn_acpt = moves refl open_comes h (inr refl) refl
  opn_snt_step h count opn_rjct = moves refl (gives_up_sent open_refused) refl (inr refl) refl
  opn_snt_step h count opn_ignr = moves refl (stays tt) h (inr refl) refl
  opn_snt_step h count cnf_acpt = moves refl confirm_comes refl (inr refl) refl
  opn_snt_step h count cnf_rjct = moves refl (gives_up_sent confirm_refused) refl (inr refl) refl
  opn_snt_step h count cnf_ignr = moves refl (stays tt) h (inr refl) refl
  opn_snt_step h count cls_acpt = moves refl (gives_up_sent close_accepted) refl (inr refl) refl
  opn_snt_step h count cls_ignr = moves refl (stays tt) h (inr refl) refl

  opn_rcvd_step :
      IsTimed (in_state opn_rcvd s)
      → HasCount (in_state opn_rcvd s) m
      → (e : PlinkEvent) → Ends k c n (in_state opn_rcvd s) m e
  unfolding mesh_plink_fsm
  opn_rcvd_step h count plink_undefined = moves refl (stays tt) h (inr refl) refl
  opn_rcvd_step h count opn_acpt = moves refl (stays tt) h (inr refl) refl
  opn_rcvd_step h count opn_rjct = moves refl (gives_up_open open_refused) refl (inr refl) refl
  opn_rcvd_step h count opn_ignr = moves refl (stays tt) h (inr refl) refl
  opn_rcvd_step h count cnf_acpt =
      moves refl confirm_completes refl (inr refl)
        (ap (λ x. x + 0) (incremented count.room) ∙ omega arith)
  opn_rcvd_step h count cnf_rjct = moves refl (gives_up_open confirm_refused) refl (inr refl) refl
  opn_rcvd_step h count cnf_ignr = moves refl (stays tt) h (inr refl) refl
  opn_rcvd_step h count cls_acpt = moves refl (gives_up_open close_accepted) refl (inr refl) refl
  opn_rcvd_step h count cls_ignr = moves refl (stays tt) h (inr refl) refl

  cnf_rcvd_step :
      IsTimed (in_state cnf_rcvd s)
      → HasCount (in_state cnf_rcvd s) m
      → (e : PlinkEvent) → Ends k c n (in_state cnf_rcvd s) m e
  unfolding mesh_plink_fsm
  cnf_rcvd_step h count plink_undefined = moves refl (stays tt) h (inr refl) refl
  cnf_rcvd_step h count opn_acpt =
      moves refl open_completes refl (inr refl)
        (ap (λ x. x + 0) (incremented count.room) ∙ omega arith)
  cnf_rcvd_step h count opn_rjct = moves refl (gives_up_confirm open_refused) refl (inr refl) refl
  cnf_rcvd_step h count opn_ignr = moves refl (stays tt) h (inr refl) refl
  cnf_rcvd_step h count cnf_acpt = moves refl (stays tt) h (inr refl) refl
  cnf_rcvd_step h count cnf_rjct =
      moves refl (gives_up_confirm confirm_refused) refl (inr refl) refl
  cnf_rcvd_step h count cnf_ignr = moves refl (stays tt) h (inr refl) refl
  cnf_rcvd_step h count cls_acpt = moves refl (gives_up_confirm close_accepted) refl (inr refl) refl
  cnf_rcvd_step h count cls_ignr = moves refl (stays tt) h (inr refl) refl

  estab_step :
      IsTimed (in_state estab s)
      → HasCount (in_state estab s) m
      → (e : PlinkEvent) → Ends k c n (in_state estab s) m e
  unfolding mesh_plink_fsm
  estab_step h count plink_undefined = moves refl (stays tt) h (inr refl) refl
  estab_step h count opn_acpt = moves refl (stays tt) h (inr refl) refl
  estab_step h count opn_rjct = moves refl (stays tt) h (inr refl) refl
  estab_step h count opn_ignr = moves refl (stays tt) h (inr refl) refl
  estab_step h count cnf_acpt = moves refl (stays tt) h (inr refl) refl
  estab_step h count cnf_rjct = moves refl (stays tt) h (inr refl) refl
  estab_step h count cnf_ignr = moves refl (stays tt) h (inr refl) refl
  estab_step h count cls_acpt =
      moves refl closes refl (inr refl) (decremented count.own count.room ∙ omega arith)
  estab_step h count cls_ignr = moves refl (stays tt) h (inr refl) refl

  holding_step :
      IsTimed (in_state holding s)
      → HasCount (in_state holding s) m
      → (e : PlinkEvent) → Ends k c n (in_state holding s) m e
  unfolding mesh_plink_fsm
  holding_step h count plink_undefined = moves refl (stays tt) h (inr refl) refl
  holding_step h count opn_acpt = moves refl (stays tt) h (inr refl) refl
  holding_step h count opn_rjct = moves refl (stays tt) h (inr refl) refl
  holding_step h count opn_ignr = moves refl (stays tt) h (inr refl) refl
  holding_step h count cnf_acpt = moves refl (stays tt) h (inr refl) refl
  holding_step h count cnf_rjct = moves refl (stays tt) h (inr refl) refl
  holding_step h count cnf_ignr = moves refl (stays tt) h (inr refl) refl
  holding_step h count cls_acpt = moves refl restarts refl (inl refl) refl
  holding_step h count cls_ignr = moves refl (stays tt) h (inr refl) refl

  blocked_step :
      IsTimed (in_state blocked s)
      → HasCount (in_state blocked s) m
      → (e : PlinkEvent) → Ends k c n (in_state blocked s) m e
  unfolding mesh_plink_fsm
  blocked_step h count plink_undefined = moves refl (stays tt) h (inr refl) refl
  blocked_step h count opn_acpt = moves refl (stays tt) h (inr refl) refl
  blocked_step h count opn_rjct = moves refl (stays tt) h (inr refl) refl
  blocked_step h count opn_ignr = moves refl (stays tt) h (inr refl) refl
  blocked_step h count cnf_acpt = moves refl (stays tt) h (inr refl) refl
  blocked_step h count cnf_rjct = moves refl (stays tt) h (inr refl) refl
  blocked_step h count cnf_ignr = moves refl (stays tt) h (inr refl) refl
  blocked_step h count cls_acpt = moves refl (stays tt) h (inr refl) refl
  blocked_step h count cls_ignr = moves refl (stays tt) h (inr refl) refl

  by_state :
      (state : PlinkState)
      → IsTimed (in_state state s)
      → HasCount (in_state state s) m
      → (e : PlinkEvent) → Ends k c n (in_state state s) m e
  by_state listen h count e = listen_step h count e
  by_state opn_snt h count e = opn_snt_step h count e
  by_state opn_rcvd h count e = opn_rcvd_step h count e
  by_state cnf_rcvd h count e = cnf_rcvd_step h count e
  by_state estab h count e = estab_step h count e
  by_state holding h count e = holding_step h count e
  by_state blocked h count e = blocked_step h count e

-- If the timer of the station is pending as its state wants, its own link is counted and the counter has
-- room, then `mesh_plink_fsm` ends on every event, without adding a pending timer. The state changes by the
-- standard's table, which has one change for each state and event that it lists and none for the others; the
-- timer is again pending as the new state wants, the peer's number is kept unless the new state is the free
-- one, and the counter changes by the station's own link.
pub mesh_plink_fsm-Follows :
    (k : Kernel) (c : MeshConfig) (n : ℕ) (s : Sta) (m : Mesh) (e : PlinkEvent)
    → IsTimed s
    → HasCount s m
    → (after : Sta × Mesh) × (mesh_plink_fsm k c n (s, m) e ≡ some after) × Follows s m e after
mesh_plink_fsm-Follows k c n s m e h count = by_state k c n s m s.plink_state h count e
