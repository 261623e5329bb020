-- ===== src/Mesh/Handled.antt =====
-- mesh_plink.c: how a received frame can establish a link.
use mac.Base.{◌≡◌, ◌≢◌, inl, inr, refl, sym, ap, ◌∙◌, arith, Bool, true, false, some, Bool-cases}
use mathlib.Core.Path.{subst}
use mathlib.Core.Bool.{true≢false}
use mac.Mesh.{
  PlinkState, opn_rcvd, cnf_rcvd, PlinkEvent, opn_acpt, cnf_acpt, open_frame, confirm_frame, Sta,
  MeshConfig, Mesh, mesh_plink_free_count,
}
use mac.Mesh.Plink.{is_estab}
use mac.Mesh.Event.{
  open_event, confirm_event, close_event, known_event, mesh_plink_get_event, Peer, llid_of,
}
use mac.Mesh.Accept.{IsConfirmed, mesh_plink_get_event-confirm}
use mac.Mesh.Transition.{
  Transition, stays, answers, open_comes, confirm_comes, confirm_completes, open_completes,
  gives_up_sent, gives_up_open, gives_up_confirm, closes, restarts, Follows,
}

-- How a station stands after a frame.
pub data Handled (c : MeshConfig) (m : Mesh) (s : Sta) (f : Peer) (after : Sta × Mesh)
    : Type 0 where
  down : is_estab after.0.plink_state ≡ false → Handled c m s f after
  up_before : is_estab s.plink_state ≡ true → Handled c m s f after
  by_confirm :
      s.plink_state ≡ opn_rcvd
      → f.ftype ≡ some confirm_frame
      → IsConfirmed c m s f.second_id f.first_id
      → after.0.plid ≡ f.first_id
      → Handled c m s f after
  by_open :
      s.plink_state ≡ cnf_rcvd
      → f.ftype ≡ some open_frame
      → mesh_plink_free_count c m ≢ 0
      → after.0.plid ≡ f.first_id
      → Handled c m s f after

abbrev pub accepts : PlinkEvent → Bool
accepts opn_acpt = true
accepts cnf_acpt = true
accepts other = false

-- How a transition can reach an established link.
pub data Reaches (state : PlinkState) (e : PlinkEvent) (state' : PlinkState) : Type 0 where
  below : is_estab state' ≡ false → Reaches state e state'
  stayed : is_estab state ≡ true → Reaches state e state'
  confirmed : state ≡ opn_rcvd → e ≡ cnf_acpt → is_estab state' ≡ true → Reaches state e state'
  opened : state ≡ cnf_rcvd → e ≡ opn_acpt → is_estab state' ≡ true → Reaches state e state'

pub reaches :
    {state state' : PlinkState} {e : PlinkEvent}
    → Transition state e state'
    → Reaches state e state'
unfolding is_estab
reaches answers = below refl
reaches open_comes = below refl
reaches confirm_comes = below refl
reaches confirm_completes = confirmed refl refl refl
reaches open_completes = opened refl refl refl
reaches (gives_up_sent r) = below refl
reaches (gives_up_open r) = below refl
reaches (gives_up_confirm r) = below refl
reaches closes = below refl
reaches restarts = below refl
reaches {state} (stays i) = elim (Bool-cases (is_estab state)) [
  | inl e ↦ stayed e
  | inr e ↦ below e
]

-- The type of a frame of a known station, by its event.
pub confirm_type :
    (c : MeshConfig) (m : Mesh) (s : Sta) (f : Peer)
    → mesh_plink_get_event c m (some s) f.ftype f.ie_len f.matches (llid_of f) f.first_id ≡ cnf_acpt
    → f.ftype ≡ some confirm_frame
unfolding mesh_plink_get_event known_event open_event close_event
confirm_type c m s f e = ground (arith, e)

pub open_type :
    (c : MeshConfig) (m : Mesh) (s : Sta) (f : Peer)
    → mesh_plink_get_event c m (some s) f.ftype f.ie_len f.matches (llid_of f) f.first_id ≡ opn_acpt
    → (f.ftype ≡ some open_frame) × (mesh_plink_free_count c m ≢ 0)
unfolding mesh_plink_get_event known_event open_event close_event confirm_event
open_type c m s f e = ground (arith, e)

pub confirm_event-IsConfirmed :
    (c : MeshConfig) (m : Mesh) (s : Sta) (f : Peer)
    → mesh_plink_get_event c m (some s) f.ftype f.ie_len f.matches (llid_of f) f.first_id ≡ cnf_acpt
    → f.ftype ≡ some confirm_frame
    → IsConfirmed c m s f.second_id f.first_id
unfolding llid_of
confirm_event-IsConfirmed c m s f e type =
    let local : llid_of f ≡ f.second_id = rw (type) refl in
    let accepted : mesh_plink_get_event c m (some s) (some confirm_frame) f.ie_len f.matches
          (llid_of f) f.first_id
        ≡ cnf_acpt =
      ap (λ t. mesh_plink_get_event c m (some s) t f.ie_len f.matches (llid_of f) f.first_id)
        (sym type)
      ∙ e in
    subst (λ l. IsConfirmed c m s l f.first_id) local
      ((mesh_plink_get_event-confirm c m s f.ie_len f.matches (llid_of f) f.first_id).0 accepted)

-- The peer's number stays where a link is reached.
pub kept_id :
    {before : Sta} {m : Mesh} {e : PlinkEvent} {after : Sta × Mesh}
    → Follows before m e after
    → is_estab after.0.plink_state ≡ true
    → after.0.plid ≡ before.plid
unfolding is_estab
kept_id follows up = elim follows.kept [
  | inl l ↦ absurd (true≢false (sym up ∙ ap is_estab l))
  | inr same ↦ same
]
