-- ===== src/Mesh/Fsm.antt =====
-- mesh_plink.c: `mesh_plink_fsm` and `mesh_plink_timer`.
use mac.Base.{◌>>=◌, ℕ, ◌+◌, ◌%◌, ◌^◌, Option, none, some, ltb, ◌==◌, if◌then◌else◌}
use mac.Mesh.{
  listen, opn_snt, opn_rcvd, cnf_rcvd, estab, holding, blocked, PlinkEvent, opn_acpt, opn_rjct,
  cnf_acpt, cnf_rjct, cls_acpt, Reason, zero_reason, mesh_max_retries, mesh_confirm_timeout,
  Peering, open_frame, confirm_frame, close_frame, PlinkFrame, Sta, MeshConfig, Mesh, Kernel,
  mesh_plink_frame_tx,
}
use mac.Mesh.Plink.{
  mesh_plink_fsm_restart, mod_plink_timer, del_timer, mesh_plink_timer_set, plink_deactivate,
  mesh_plink_close, mesh_plink_establish,
}

-- The station, the interface, and the frame to send.
abbrev pub Reaction : Type 0
Reaction = Option (Sta × Mesh × Option Peering)

abbrev pub close_link : Kernel → MeshConfig → PlinkEvent → Sta × Mesh → Reaction
close_link k c event (s, m) = some (mesh_plink_close k c event s, m, some close_frame)

unfoldable pub fsm_listen : Kernel → MeshConfig → ℕ → Sta × Mesh → PlinkEvent → Reaction
unfolding mesh_plink_fsm_restart mesh_plink_timer_set
fsm_listen k c new_llid (s, m) cls_acpt = some (mesh_plink_fsm_restart s, m, none)
fsm_listen k c new_llid (s, m) opn_acpt = do
  o ← mesh_plink_timer_set k c.retry_timeout (record s { plink_state = opn_rcvd; llid = new_llid })
  some (o, m, some open_frame)
fsm_listen k c new_llid (s, m) other = some (s, m, none)

unfoldable pub fsm_opn_snt : Kernel → MeshConfig → Sta × Mesh → PlinkEvent → Reaction
unfolding mesh_plink_close
fsm_opn_snt k c (s, m) opn_rjct = close_link k c opn_rjct (s, m)
fsm_opn_snt k c (s, m) cnf_rjct = close_link k c cnf_rjct (s, m)
fsm_opn_snt k c (s, m) cls_acpt = close_link k c cls_acpt (s, m)
fsm_opn_snt k c (s, m) opn_acpt = some (record s { plink_state = opn_rcvd }, m, some confirm_frame)
fsm_opn_snt k c (s, m) cnf_acpt =
    some (mod_plink_timer k c.confirm_timeout (record s { plink_state = cnf_rcvd }), m, none)
fsm_opn_snt k c (s, m) other = some (s, m, none)

unfoldable pub fsm_opn_rcvd : Kernel → MeshConfig → Sta × Mesh → PlinkEvent → Reaction
unfolding mesh_plink_close mesh_plink_establish
fsm_opn_rcvd k c (s, m) opn_rjct = close_link k c opn_rjct (s, m)
fsm_opn_rcvd k c (s, m) cnf_rjct = close_link k c cnf_rjct (s, m)
fsm_opn_rcvd k c (s, m) cls_acpt = close_link k c cls_acpt (s, m)
fsm_opn_rcvd k c (s, m) opn_acpt = some (s, m, some confirm_frame)
fsm_opn_rcvd k c (s, m) cnf_acpt = let e = mesh_plink_establish c (s, m) in some (e.0, e.1, none)
fsm_opn_rcvd k c (s, m) other = some (s, m, none)

unfoldable pub fsm_cnf_rcvd : Kernel → MeshConfig → Sta × Mesh → PlinkEvent → Reaction
unfolding mesh_plink_close mesh_plink_establish
fsm_cnf_rcvd k c (s, m) opn_rjct = close_link k c opn_rjct (s, m)
fsm_cnf_rcvd k c (s, m) cnf_rjct = close_link k c cnf_rjct (s, m)
fsm_cnf_rcvd k c (s, m) cls_acpt = close_link k c cls_acpt (s, m)
fsm_cnf_rcvd k c (s, m) opn_acpt =
    let e = mesh_plink_establish c (s, m) in some (e.0, e.1, some confirm_frame)
fsm_cnf_rcvd k c (s, m) other = some (s, m, none)

unfoldable pub fsm_estab : Kernel → MeshConfig → Sta × Mesh → PlinkEvent → Reaction
unfolding mesh_plink_close plink_deactivate
fsm_estab k c (s, m) cls_acpt = close_link k c cls_acpt (plink_deactivate c (s, m))
fsm_estab k c (s, m) opn_acpt = some (s, m, some confirm_frame)
fsm_estab k c (s, m) other = some (s, m, none)

unfoldable pub fsm_holding : Sta × Mesh → PlinkEvent → Reaction
unfolding mesh_plink_fsm_restart
fsm_holding (s, m) cls_acpt = some (mesh_plink_fsm_restart (del_timer s), m, none)
fsm_holding (s, m) opn_acpt = some (s, m, some close_frame)
fsm_holding (s, m) cnf_acpt = some (s, m, some close_frame)
fsm_holding (s, m) opn_rjct = some (s, m, some close_frame)
fsm_holding (s, m) cnf_rjct = some (s, m, some close_frame)
fsm_holding (s, m) other = some (s, m, none)

-- What is sent after the switch.
unfoldable pub answer : Sta × Mesh × Option Peering → Sta × Mesh
unfolding mesh_plink_frame_tx
answer (s, m, action) =
    let frame : Peering → PlinkFrame =
      λ a. record { action = a; llid = s.llid; plid = s.plid; reason = s.reason } in
    elim action [
      | none ↦ (s, m)
      | some open_frame ↦ (
        s,
        mesh_plink_frame_tx (record (frame confirm_frame) { reason = zero_reason })
            (mesh_plink_frame_tx (frame open_frame) m),
      )
      | some other ↦ (s, mesh_plink_frame_tx (frame other) m)
    ]

-- The switch over the state.
unfoldable pub fsm_switch : Kernel → MeshConfig → ℕ → Sta × Mesh → PlinkEvent → Reaction
unfolding fsm_listen fsm_opn_snt fsm_opn_rcvd fsm_cnf_rcvd fsm_estab fsm_holding
fsm_switch k c new_llid (s, m) event = elim s.plink_state [
  | listen ↦ fsm_listen k c new_llid (s, m) event
  | opn_snt ↦ fsm_opn_snt k c (s, m) event
  | opn_rcvd ↦ fsm_opn_rcvd k c (s, m) event
  | cnf_rcvd ↦ fsm_cnf_rcvd k c (s, m) event
  | estab ↦ fsm_estab k c (s, m) event
  | holding ↦ fsm_holding (s, m) event
  | blocked ↦ some (s, m, none)
]

unfoldable pub mesh_plink_fsm :
    Kernel → MeshConfig → ℕ → Sta × Mesh → PlinkEvent → Option (Sta × Mesh)
unfolding fsm_switch answer
mesh_plink_fsm k c new_llid l event = do o ← fsm_switch k c new_llid l event; some (answer o)

-- The confirm timer, and the retry timer after the last retry.
unfoldable pub give_up : Kernel → MeshConfig → Reason → Sta × Mesh → Sta × Mesh
unfolding mesh_plink_frame_tx
give_up k c reason (s, m) = (
  mod_plink_timer k c.holding_timeout (record s { plink_state = holding }),
  mesh_plink_frame_tx
      (record { action = close_frame; llid = s.llid; plid = s.plid; reason = reason }) m,
)

unfoldable pub retry : Kernel → Sta × Mesh → Option (Sta × Mesh)
unfolding mesh_plink_frame_tx
retry k (s, m) =
    if s.plink_timeout == 0
    then none
    else let timeout = (s.plink_timeout + k.rand % s.plink_timeout) % 2 ^ 32 in
      some (
        mod_plink_timer k timeout
            (record s { plink_timeout = timeout; plink_retries = s.plink_retries + 1 }),
        mesh_plink_frame_tx
            (record { action = open_frame; llid = s.llid; plid = s.plid; reason = zero_reason }) m,
      )

unfoldable pub retry_timer : Kernel → MeshConfig → Sta × Mesh → Option (Sta × Mesh)
unfolding retry give_up
retry_timer k c (s, m) =
    if ltb s.plink_retries c.max_retries
    then retry k (s, m)
    else some (give_up k c mesh_max_retries (s, m))

-- `mesh_plink_timer` where the device is not quiescing.
unfoldable pub mesh_plink_timer : Kernel → MeshConfig → Sta × Mesh → Option (Sta × Mesh)
unfolding retry_timer give_up mesh_plink_fsm_restart
mesh_plink_timer k c (s, m) =
    if ltb k.jiffies s.plink_timer.expires then some (s, m) else elim s.plink_state [
      | opn_rcvd ↦ retry_timer k c (s, m)
      | opn_snt ↦ retry_timer k c (s, m)
      | cnf_rcvd ↦ some (give_up k c mesh_confirm_timeout (s, m))
      | holding ↦ some (mesh_plink_fsm_restart (del_timer s), m)
      | other ↦ some (s, m)
    ]
