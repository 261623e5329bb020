-- ===== src/Mesh/Plink.antt =====
-- mesh_plink.c: the peer link of one station. `none` is what the kernel answers with a halt: a timer that
-- is added while it is pending, or a division by zero.
use mac.Base.{
  ◌>>=◌, ℕ, ◌+◌, ◌%◌, Bool, true, false, not, ◌||◌, Option, none, some, List, [], ◌∷◌, ◌==◌,
  if◌then◌else◌,
}
use mac.Mesh.{
  PlinkState, listen, opn_snt, estab, holding, blocked, PlinkEvent, cls_acpt, Reason, zero_reason,
  peer_canceled, mesh_config, mesh_close, open_frame, close_frame, Sta, MeshConfig, Mesh, Kernel,
  mesh_plink_inc_estab_count, mesh_plink_dec_estab_count, mesh_plink_frame_tx,
}

unfoldable pub mesh_plink_fsm_restart : Sta → Sta
mesh_plink_fsm_restart s = record s {
  plink_state = listen;
  llid = 0;
  plid = 0;
  reason = zero_reason;
  plink_retries = 0;
}

abbrev pub mod_plink_timer : Kernel → ℕ → Sta → Sta
mod_plink_timer k timeout s = record s {
  plink_timer = record { pending = true; expires = k.jiffies + k.msecs_to_jiffies timeout };
}

abbrev pub del_timer : Sta → Sta
del_timer s = record s { plink_timer = record s.plink_timer { pending = false } }

-- `add_timer` is not for a pending timer.
unfoldable pub mesh_plink_timer_set : Kernel → ℕ → Sta → Option Sta
mesh_plink_timer_set k timeout s =
    if s.plink_timer.pending
    then none
    else some (record (mod_plink_timer k timeout s) { plink_timeout = timeout })

unfoldable pub llid_in_use : List ℕ → ℕ → Bool
llid_in_use [] llid = false
llid_in_use (x ∷ xs) llid = (x == llid) || llid_in_use xs llid

-- A draw that is used by a station is drawn again; `none` while the draws that are given are all used.
unfoldable pub mesh_get_new_llid : List ℕ → List ℕ → Option ℕ
mesh_get_new_llid in_use [] = none
mesh_get_new_llid in_use (draw ∷ draws) =
    let rest = mesh_get_new_llid in_use draws in
    if llid_in_use in_use (draw % 2007 + 1) then rest else some (draw % 2007 + 1)

unfoldable pub mesh_plink_open : Kernel → MeshConfig → ℕ → Sta × Mesh → Option (Sta × Mesh)
unfolding mesh_plink_timer_set mesh_plink_frame_tx
mesh_plink_open k c new_llid (s, m) =
    if not s.auth
    then some (s, m)
    else let t = record s { llid = new_llid } in
      let start : Option (Sta × Mesh) = (do
        o ← mesh_plink_timer_set k c.retry_timeout (record t { plink_state = opn_snt })
        some (
          o,
          mesh_plink_frame_tx
              (record { action = open_frame; llid = o.llid; plid = 0; reason = zero_reason }) m,
        )) in
      elim s.plink_state [ listen ↦ start | blocked ↦ start | other ↦ some (t, m) ]

unfoldable pub is_estab : PlinkState → Bool
is_estab estab = true
is_estab other = false

-- `__mesh_plink_deactivate`
unfoldable pub plink_deactivate : MeshConfig → Sta × Mesh → Sta × Mesh
unfolding mesh_plink_dec_estab_count is_estab
plink_deactivate c (s, m) = (
  record s { plink_state = blocked },
  if is_estab s.plink_state then mesh_plink_dec_estab_count c m else m,
)

unfoldable pub mesh_plink_deactivate : MeshConfig → Sta × Mesh → Sta × Mesh
unfolding plink_deactivate mesh_plink_frame_tx
mesh_plink_deactivate c (s, m) =
    let d = plink_deactivate c (s, m) in
    (
      record d.0 { reason = peer_canceled },
      mesh_plink_frame_tx
          (record { action = close_frame; llid = s.llid; plid = s.plid; reason = peer_canceled })
          d.1,
    )

unfoldable pub mesh_plink_block : MeshConfig → Sta × Mesh → Sta × Mesh
unfolding plink_deactivate
mesh_plink_block c l = let d = plink_deactivate c l in (record d.0 { plink_state = blocked }, d.1)

unfoldable pub mesh_plink_close : Kernel → MeshConfig → PlinkEvent → Sta → Sta
mesh_plink_close k c event s =
    let why : Reason = elim event [ cls_acpt ↦ mesh_close | other ↦ mesh_config ] in
    mod_plink_timer k c.holding_timeout (record s { reason = why; plink_state = holding })

unfoldable pub mesh_plink_establish : MeshConfig → Sta × Mesh → Sta × Mesh
unfolding mesh_plink_inc_estab_count
mesh_plink_establish c (s, m) =
    (record (del_timer s) { plink_state = estab }, mesh_plink_inc_estab_count c m)
