-- ===== src/Mesh/Transition.antt =====
-- mesh_plink.c: the standard's table of the state machine for peer links, and what a step keeps.
use mac.Base.{ℕ, ◌+◌, ◌^◌, ◌≤◌, ◌<◌, ◌≡◌, ◌⊎◌, Bool, true, false}
use mac.Mesh.{
  PlinkState, listen, opn_snt, opn_rcvd, cnf_rcvd, estab, holding, blocked, PlinkEvent, opn_acpt,
  opn_rjct, cnf_acpt, cnf_rjct, cls_acpt, Sta, Mesh,
}

-- The events on which a handshake is given up.
pub data Refusal : PlinkEvent → Type 0 where
  open_refused : Refusal opn_rjct
  confirm_refused : Refusal cnf_rjct
  close_accepted : Refusal cls_acpt

-- The events on which a state does not change: all that the table does not list for it.
abbrev pub IsIgnored : PlinkState → PlinkEvent → Type 0
IsIgnored listen opn_acpt = ⊥
IsIgnored opn_snt opn_acpt = ⊥
IsIgnored opn_snt cnf_acpt = ⊥
IsIgnored opn_snt opn_rjct = ⊥
IsIgnored opn_snt cnf_rjct = ⊥
IsIgnored opn_snt cls_acpt = ⊥
IsIgnored opn_rcvd cnf_acpt = ⊥
IsIgnored opn_rcvd opn_rjct = ⊥
IsIgnored opn_rcvd cnf_rjct = ⊥
IsIgnored opn_rcvd cls_acpt = ⊥
IsIgnored cnf_rcvd opn_acpt = ⊥
IsIgnored cnf_rcvd opn_rjct = ⊥
IsIgnored cnf_rcvd cnf_rjct = ⊥
IsIgnored cnf_rcvd cls_acpt = ⊥
IsIgnored estab cls_acpt = ⊥
IsIgnored holding cls_acpt = ⊥
IsIgnored state e = Unit {0}

-- The table of the standard's state machine for peer links: one change for each state and event.
pub data Transition : PlinkState → PlinkEvent → PlinkState → Type 0 where
  answers : Transition listen opn_acpt opn_rcvd
  open_comes : Transition opn_snt opn_acpt opn_rcvd
  confirm_comes : Transition opn_snt cnf_acpt cnf_rcvd
  confirm_completes : Transition opn_rcvd cnf_acpt estab
  open_completes : Transition cnf_rcvd opn_acpt estab
  gives_up_sent : {e : PlinkEvent} → Refusal e → Transition opn_snt e holding
  gives_up_open : {e : PlinkEvent} → Refusal e → Transition opn_rcvd e holding
  gives_up_confirm : {e : PlinkEvent} → Refusal e → Transition cnf_rcvd e holding
  closes : Transition estab cls_acpt holding
  restarts : Transition holding cls_acpt listen
  stays : {state : PlinkState} {e : PlinkEvent} → IsIgnored state e → Transition state e state

-- Whether the timer is pending, by state.
abbrev pub Timed : PlinkState → Bool → Type 0
Timed listen pending = pending ≡ false
Timed opn_snt pending = pending ≡ true
Timed opn_rcvd pending = pending ≡ true
Timed cnf_rcvd pending = pending ≡ true
Timed estab pending = pending ≡ false
Timed holding pending = pending ≡ true
Timed blocked pending = Unit {0}

abbrev pub IsTimed : Sta → Type 0
IsTimed s = Timed s.plink_state s.plink_timer.pending

abbrev pub established : PlinkState → ℕ
established estab = 1
established other = 0

pub record Follows (before : Sta) (m : Mesh) (e : PlinkEvent) (after : Sta × Mesh) : Type 0 where
  pub moved : Transition before.plink_state e after.0.plink_state
  pub timed : IsTimed after.0
  pub kept : (after.0.plink_state ≡ listen) ⊎ (after.0.plid ≡ before.plid)
  pub counted :
      after.1.estab_plinks + established before.plink_state
      ≡ m.estab_plinks + established after.0.plink_state

-- Room for one more link, and the station's own link counted.
pub record HasCount (s : Sta) (m : Mesh) : Type 0 where
  pub own : established s.plink_state ≤ m.estab_plinks
  pub room : m.estab_plinks + 1 < 2 ^ 32
