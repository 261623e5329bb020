-- ===== src/Mesh.antt =====
-- mesh.h, mesh_plink.c: the state of a mesh interface that the peer links use. Numbers that wrap are
-- those of their C types.
pub mod Plink
pub mod Fsm
pub mod Transition
pub mod Blocked
pub mod Handshake
pub mod Silence
pub mod Event
pub mod Accept
pub mod Handled
pub mod Establish
pub mod Reach
pub mod Llid
use mac.Base.{ℕ, ◌+◌, ◌-◌, ◌%◌, ◌^◌, Bool, true, false, ◌&&◌, List, [], ◌∷◌, ◌++◌, ltb, ◌==◌}

-- `enum nl80211_plink_state`
pub data PlinkState : Type 0 where
  listen : PlinkState
  opn_snt : PlinkState
  opn_rcvd : PlinkState
  cnf_rcvd : PlinkState
  estab : PlinkState
  holding : PlinkState
  blocked : PlinkState

-- `enum plink_event`
pub data PlinkEvent : Type 0 where
  plink_undefined : PlinkEvent
  opn_acpt : PlinkEvent
  opn_rjct : PlinkEvent
  opn_ignr : PlinkEvent
  cnf_acpt : PlinkEvent
  cnf_rjct : PlinkEvent
  cnf_ignr : PlinkEvent
  cls_acpt : PlinkEvent
  cls_ignr : PlinkEvent

-- The reasons that the code gives, and zero.
pub data Reason : Type 0 where
  zero_reason : Reason
  peer_canceled : Reason
  mesh_config : Reason
  mesh_close : Reason
  mesh_max_retries : Reason
  mesh_confirm_timeout : Reason

-- `WLAN_SP_MESH_PEERING_*`
pub data Peering : Type 0 where
  open_frame : Peering
  confirm_frame : Peering
  close_frame : Peering

-- The arguments of `mesh_plink_frame_tx`.
pub record PlinkFrame : Type 0 where
  pub action : Peering
  pub llid : ℕ
  pub plid : ℕ
  pub reason : Reason

-- `expires` is kept when the timer is not pending.
pub record Timer : Type 0 where
  pub pending : Bool
  pub expires : ℕ

-- What of `struct sta_info` the peer link uses.
pub record Sta : Type 0 where
  pub plink_state : PlinkState
  pub llid : ℕ
  pub plid : ℕ
  pub reason : Reason
  pub plink_retries : ℕ
  pub plink_timeout : ℕ
  pub plink_timer : Timer
  pub auth : Bool

-- What of `struct mesh_config` the peer links use.
pub record MeshConfig : Type 0 where
  pub max_retries : ℕ
  pub retry_timeout : ℕ
  pub confirm_timeout : ℕ
  pub holding_timeout : ℕ
  pub max_peer_links : ℕ

-- The interface: its count of established links, whether it accepts more, the stations of the device,
-- and the frames given to `mesh_plink_frame_tx`.
pub record Mesh : Type 0 where
  pub estab_plinks : ℕ
  pub accepting_plinks : Bool
  pub num_sta : ℕ
  pub sent : List PlinkFrame

-- The kernel's clock and random numbers during one call.
pub record Kernel : Type 0 where
  pub jiffies : ℕ
  pub msecs_to_jiffies : ℕ → ℕ
  pub rand : ℕ

-- The difference of two `int`, zero exactly when they are equal.
unfoldable pub mesh_plink_free_count : MeshConfig → Mesh → ℕ
mesh_plink_free_count c m = (c.max_peer_links + 2 ^ 32 - m.estab_plinks) % 2 ^ 32

-- Whether the smaller of the two differences is positive.
unfoldable pub mesh_plink_availables : MeshConfig → Mesh → Bool
mesh_plink_availables c m = ltb m.estab_plinks c.max_peer_links && ltb m.num_sta 256

unfoldable pub mesh_accept_plinks_update : MeshConfig → Mesh → Mesh
unfolding mesh_plink_availables
mesh_accept_plinks_update c m = record m { accepting_plinks = mesh_plink_availables c m }

unfoldable pub mesh_plink_inc_estab_count : MeshConfig → Mesh → Mesh
unfolding mesh_accept_plinks_update
mesh_plink_inc_estab_count c m =
    mesh_accept_plinks_update c (record m { estab_plinks = (m.estab_plinks + 1) % 2 ^ 32 })

unfoldable pub mesh_plink_dec_estab_count : MeshConfig → Mesh → Mesh
unfolding mesh_accept_plinks_update
mesh_plink_dec_estab_count c m =
    mesh_accept_plinks_update c (record m { estab_plinks = (m.estab_plinks + 2 ^ 32 - 1) % 2 ^ 32 })

unfoldable pub mesh_plink_frame_tx : PlinkFrame → Mesh → Mesh
mesh_plink_frame_tx f m = record m { sent = m.sent ++ f ∷ [] }
