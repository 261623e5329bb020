-- ===== src/Mesh/Establish.antt =====
-- mesh_plink.c: which received frames establish a link.
use mac.Base.{
  ◌>>=◌, ℕ, ◌≡◌, inl, inr, refl, sym, ap, ◌∙◌, arith, false, not, ◌&&◌, Option, some, ◌==◌,
  if◌then◌else◌, Bool-cases,
}
use mathlib.Core.Bool.{true≢false}
use mac.Mesh.{
  PlinkEvent, plink_undefined, opn_acpt, opn_rjct, opn_ignr, cnf_acpt, cnf_rjct, cnf_ignr, cls_acpt,
  cls_ignr, Sta, MeshConfig, Mesh, Kernel,
}
use mac.Mesh.Plink.{is_estab}
use mac.Mesh.Fsm.{mesh_plink_fsm}
use mac.Mesh.Event.{
  mesh_plink_get_event, Peer, is_open, llid_of, is_well_formed, handle_event, handle_known,
  mesh_process_plink_frame,
}
use mac.Mesh.Accept.{IsConfirmed}
use mac.Mesh.Transition.{IsTimed, HasCount}
use mac.Mesh.Handshake.{mesh_plink_fsm-Follows}
use mac.Mesh.Handled.{
  Handled, down, up_before, by_confirm, by_open, accepts, below, stayed, confirmed, opened, reaches,
  confirm_type, open_type, confirm_event-IsConfirmed, kept_id,
}

module _ (k : Kernel) (c : MeshConfig) (n : ℕ) (f : Peer) (s : Sta) (m : Mesh) (timed : IsTimed s)
    (count : HasCount s m) where
  abbrev event : PlinkEvent
  event = mesh_plink_get_event c m (some s) f.ftype f.ie_len f.matches (llid_of f) f.first_id

  abbrev Ends : Option (Option Sta × Mesh) → Type 0
  Ends result =
      (after : Sta × Mesh) × (result ≡ some (some after.0, after.1))
      × IsTimed after.0
      × Handled c m s f after

  unchanged : Ends (some (some s, m))
  unchanged = (
    (s, m),
    refl,
    timed,
    elim (Bool-cases (is_estab s.plink_state)) [ inl e ↦ up_before e | inr e ↦ down e ],
  )

  -- An event that accepts nothing.
  quiet :
      (e : PlinkEvent)
      → accepts e ≡ false
      → Ends (mesh_plink_fsm k c n (s, m) e >>= (λ l. some (some l.0, l.1)))
  quiet e q =
      let step = mesh_plink_fsm-Follows k c n s m e timed count in
      (
        step.0,
        rw (step.1) refl,
        step.2.timed,
        elim (reaches step.2.moved) [
          | below h ↦ down h
          | stayed h ↦ up_before h
          | confirmed a b d ↦ absurd (true≢false (sym (ap accepts b) ∙ q))
          | opened a b d ↦ absurd (true≢false (sym (ap accepts b) ∙ q))
        ],
      )

  accepted_open : event ≡ opn_acpt → Ends (handle_known k c n f.first_id (s, m) opn_acpt)
  unfolding handle_known handle_event
  accepted_open e =
      let step =
        mesh_plink_fsm-Follows k c n (record s { plid = f.first_id }) m opn_acpt timed
          (record { own = count.own; room = count.room }) in
      let type = open_type c m s f e in
      (
        step.0,
        rw (step.1) refl,
        step.2.timed,
        elim (reaches step.2.moved) [
          | below h ↦ down h
          | stayed h ↦ up_before h
          | confirmed a b d ↦ absurd (ground (arith, b))
          | opened a b d ↦ by_open a type.0 type.1 (kept_id step.2 d)
        ],
      )

  -- The station with the peer's number that a confirm frame brings, where none is known.
  abbrev numbered : Sta
  numbered = if s.plid == 0 then record s { plid = f.first_id } else s

  accepted_confirm : event ≡ cnf_acpt → Ends (handle_known k c n f.first_id (s, m) cnf_acpt)
  unfolding handle_known handle_event
  accepted_confirm e =
      let type = confirm_type c m s f e in
      let conditions : IsConfirmed c m s f.second_id f.first_id =
        confirm_event-IsConfirmed c m s f e type in
      elim (Bool-cases (s.plid == 0)) [
        | inl z ↦
            let step =
              mesh_plink_fsm-Follows k c n (record s { plid = f.first_id }) m cnf_acpt timed
                (record { own = count.own; room = count.room }) in
            (
              step.0,
              rw (z, step.1) refl,
              step.2.timed,
              elim (reaches step.2.moved) [
                | below h ↦ down h
                | stayed h ↦ up_before h
                | confirmed a b d ↦ by_confirm a type conditions (kept_id step.2 d)
                | opened a b d ↦ absurd (ground (arith, b))
              ],
            )
        | inr z ↦
            let step = mesh_plink_fsm-Follows k c n s m cnf_acpt timed count in
            let known : s.plid ≡ f.first_id = ground (arith, conditions.remote, z) in
            (
              step.0,
              rw (z, step.1) refl,
              step.2.timed,
              elim (reaches step.2.moved) [
                | below h ↦ down h
                | stayed h ↦ up_before h
                | confirmed a b d ↦ by_confirm a type conditions (kept_id step.2 d ∙ known)
                | opened a b d ↦ absurd (ground (arith, b))
              ],
            )
      ]

  by_event : (e : PlinkEvent) → event ≡ e → Ends (handle_known k c n f.first_id (s, m) e)
  unfolding handle_known handle_event
  by_event plink_undefined h = unchanged
  by_event opn_acpt h = accepted_open h
  by_event opn_rjct h = quiet opn_rjct refl
  by_event opn_ignr h = quiet opn_ignr refl
  by_event cnf_acpt h = accepted_confirm h
  by_event cnf_rjct h = quiet cnf_rjct refl
  by_event cnf_ignr h = quiet cnf_ignr refl
  by_event cls_acpt h = quiet cls_acpt refl
  by_event cls_ignr h = quiet cls_ignr refl

-- Let the timer of a known station be pending as its state wants, and its link be counted, with
-- room in the counter. Then a
-- received peering frame is handled to the end, the timer is again as the state wants, and the link is
-- established afterwards only if it was before, or by a confirm frame in the state that has received an
-- open frame, under all conditions of acceptance, or by an open frame in the state that has received a
-- confirm frame, with a free link; in the last two cases the station then has the peer's number that is in the frame.
pub mesh_process_plink_frame-Handled :
    (k : Kernel) (c : MeshConfig) (n : ℕ) (fresh : Option (Sta × Mesh)) (f : Peer) (s : Sta)
    (m : Mesh)
    → IsTimed s
    → HasCount s m
    → (after : Sta × Mesh) × (mesh_process_plink_frame k c n fresh f (some s, m)
        ≡ some (some after.0, after.1))
      × IsTimed after.0
      × Handled c m s f after
unfolding mesh_process_plink_frame
mesh_process_plink_frame-Handled k c n fresh f s m timed count =
    elim (Bool-cases (is_well_formed f)) [
      | inr bad ↦ rw (bad) (unchanged k c n f s m timed count)
      | inl well ↦ elim (Bool-cases (is_open f.ftype && not f.rssi_ok)) [
        | inl weak ↦ rw (well, weak) (unchanged k c n f s m timed count)
        | inr strong ↦ rw (well, strong) (by_event k c n f s m timed count _ refl)
      ]
    ]
