-- ===== src/Mesh/Event.antt =====
-- mesh_plink.c: from a received peering frame to an event. The frame's elements are as
-- `ieee802_11_parse_elems` finds them.
use mac.Base.{◌>>=◌, ℕ, Bool, true, false, not, ◌&&◌, ◌||◌, Option, none, some, ◌==◌, if◌then◌else◌}
use mac.Mesh.{
  PlinkState, blocked, PlinkEvent, plink_undefined, opn_acpt, opn_rjct, opn_ignr, cnf_acpt,
  cnf_ignr, cls_acpt, cls_ignr, mesh_config, Peering, open_frame, confirm_frame, close_frame, Sta,
  MeshConfig, Mesh, Kernel, mesh_plink_free_count, mesh_plink_frame_tx,
}
use mac.Mesh.Plink.{is_estab}
use mac.Mesh.Fsm.{mesh_plink_fsm}

abbrev pub is_blocked : PlinkState → Bool
is_blocked blocked = true
is_blocked other = false

-- An open frame from a known station; that it does not match the local interface is overwritten.
unfoldable pub open_event : MeshConfig → Mesh → Sta → ℕ → PlinkEvent
open_event c m s plid =
    if mesh_plink_free_count c m == 0 || (not (s.plid == 0) && not (s.plid == plid))
    then opn_ignr
    else opn_acpt

-- A confirm frame from a known station, likewise.
unfoldable pub confirm_event : MeshConfig → Mesh → Sta → ℕ → ℕ → PlinkEvent
confirm_event c m s llid plid =
    if mesh_plink_free_count c m == 0
      || (not (s.llid == llid) || (not (s.plid == 0) && not (s.plid == plid)))
    then cnf_ignr
    else cnf_acpt

unfoldable pub close_event : Sta → ℕ → ℕ → ℕ → PlinkEvent
close_event s ie_len llid plid =
    if is_estab s.plink_state
    then cls_acpt
    else if not (s.plid == plid)
    then cls_ignr
    else if ie_len == 8 && not (s.llid == llid)
    then cls_ignr
    else cls_acpt

-- `none` as the type is another subtype of the frame.
unfoldable pub known_event : MeshConfig → Mesh → Sta → Option Peering → ℕ → ℕ → ℕ → PlinkEvent
known_event c m s ftype ie_len llid plid = elim ftype [
  | some open_frame ↦ open_event c m s plid
  | some confirm_frame ↦ confirm_event c m s llid plid
  | some close_frame ↦ close_event s ie_len llid plid
  | none ↦ plink_undefined
]

abbrev pub is_open : Option Peering → Bool
is_open (some open_frame) = true
is_open (some other) = false
is_open none = false

abbrev pub is_close : Option Peering → Bool
is_close (some close_frame) = true
is_close (some other) = false
is_close none = false

-- `matches` is what `mesh_matches_local` says.
unfoldable pub mesh_plink_get_event :
    MeshConfig → Mesh → Option Sta → Option Peering → ℕ → Bool → ℕ → ℕ → PlinkEvent
mesh_plink_get_event c m none ftype ie_len matches llid plid =
    if not (is_close ftype || matches)
    then opn_rjct
    else if not (is_open ftype)
    then plink_undefined
    else if mesh_plink_free_count c m == 0
    then plink_undefined
    else opn_acpt
mesh_plink_get_event c m (some s) ftype ie_len matches llid plid =
    if not s.auth
    then plink_undefined
    else if is_blocked s.plink_state
    then plink_undefined
    else known_event c m s ftype ie_len llid plid

-- What the handler reads of a frame and of the interface.
pub record Peer : Type 0 where
  pub ftype : Option Peering
  pub peering : Bool
  pub ie_len : ℕ
  pub has_rsn : Bool
  pub security_none : Bool
  pub has_mesh_id : Bool
  pub has_mesh_config : Bool
  pub first_id : ℕ
  pub second_id : ℕ
  pub matches : Bool
  pub rssi_ok : Bool

abbrev pub is_confirm : Option Peering → Bool
is_confirm (some confirm_frame) = true
is_confirm (some other) = false
is_confirm none = false

-- The tests before the station is looked up.
unfoldable pub is_well_formed : Peer → Bool
is_well_formed f =
    f.peering
    && (not (f.has_rsn && f.security_none)
        && (not (
              is_open f.ftype && not (f.ie_len == 4)
              || (is_confirm f.ftype && not (f.ie_len == 6)
                  || (is_close f.ftype && (not (f.ie_len == 6) && not (f.ie_len == 8)))))
            && (is_close f.ftype || (f.has_mesh_id && f.has_mesh_config))))

-- The local number, where the frame has one.
unfoldable pub llid_of : Peer → ℕ
llid_of f = if is_confirm f.ftype || (is_close f.ftype && f.ie_len == 8) then f.second_id else 0

-- The event for a station that is there.
unfoldable pub handle_event :
    Kernel → MeshConfig → ℕ → ℕ → Sta × Mesh → PlinkEvent → Option (Option Sta × Mesh)
handle_event k c new_llid plid (s, m) event =
    let t : Sta = elim event [
      | cnf_acpt ↦ if s.plid == 0 then record s { plid = plid } else s
      | other ↦ s
    ] in
    mesh_plink_fsm k c new_llid (t, m) event >>= (λ l. some (some l.0, l.1))

-- A known sender; an accepted open frame sets the peer's number.
unfoldable pub handle_known :
    Kernel → MeshConfig → ℕ → ℕ → Sta × Mesh → PlinkEvent → Option (Option Sta × Mesh)
handle_known k c new_llid plid (s, m) opn_acpt =
    handle_event k c new_llid plid (record s { plid = plid }, m) opn_acpt
handle_known k c new_llid plid (s, m) plink_undefined = some (some s, m)
handle_known k c new_llid plid (s, m) other = handle_event k c new_llid plid (s, m) other

-- An unknown sender; `fresh` is the station that `mesh_sta_info_get` makes of it, where it can, and the
-- interface after that.
unfoldable pub handle_unknown :
    Kernel
    → MeshConfig
    → ℕ
    → ℕ
    → Option (Sta × Mesh)
    → Mesh
    → PlinkEvent
    → Option (Option Sta × Mesh)
handle_unknown k c new_llid plid (some (s, n)) m opn_acpt =
    handle_event k c new_llid plid (record s { plid = plid }, n) opn_acpt
handle_unknown k c new_llid plid none m opn_acpt = some (none, m)
handle_unknown k c new_llid plid fresh m opn_rjct = some (
  none,
  mesh_plink_frame_tx (record { action = close_frame; llid = 0; plid = plid; reason = mesh_config })
      m,
)
handle_unknown k c new_llid plid fresh m other = some (none, m)

-- `mesh_process_plink_frame` for the station of the sender, if there is one.
unfoldable pub mesh_process_plink_frame :
    Kernel
    → MeshConfig
    → ℕ
    → Option (Sta × Mesh)
    → Peer
    → Option Sta × Mesh
    → Option (Option Sta × Mesh)
mesh_process_plink_frame k c new_llid fresh f (sta, m) =
    let event = mesh_plink_get_event c m sta f.ftype f.ie_len f.matches (llid_of f) f.first_id in
    if not (is_well_formed f)
    then some (sta, m)
    else if is_open f.ftype && not f.rssi_ok
    then some (sta, m)
    else elim sta [
      | some s ↦ handle_known k c new_llid f.first_id (s, m) event
      | none ↦ handle_unknown k c new_llid f.first_id fresh m event
    ]
