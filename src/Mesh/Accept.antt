-- ===== src/Mesh/Accept.antt =====
-- mesh_plink.c: which frames are accepted, and which frames establish a link.
use mac.Base.{ℕ, ◌≡◌, ◌≢◌, ◌⊎◌, ◌↔◌, arith, Bool, true, false, some}
use mac.Mesh.{cnf_acpt, confirm_frame, Sta, MeshConfig, Mesh, mesh_plink_free_count}
use mac.Mesh.Event.{is_blocked, confirm_event, known_event, mesh_plink_get_event}

-- The conditions under which a confirm frame of a known station is accepted.
pub record IsConfirmed (c : MeshConfig) (m : Mesh) (s : Sta) (llid plid : ℕ) : Type 0 where
  pub authenticated : s.auth ≡ true
  pub allowed : is_blocked s.plink_state ≡ false
  pub free : mesh_plink_free_count c m ≢ 0
  pub local : s.llid ≡ llid
  pub remote : (s.plid ≡ 0) ⊎ (s.plid ≡ plid)

-- A confirm frame of a known station is accepted exactly when the station is authenticated and not
-- blocked, the number of free links is not zero, the frame has the local number, and the peer's number
-- is the known one or none is known; whether the peer matches the local interface does not count.
pub mesh_plink_get_event-confirm :
    (c : MeshConfig) (m : Mesh) (s : Sta) (ie_len : ℕ) (matches : Bool) (llid plid : ℕ)
    → (mesh_plink_get_event c m (some s) (some confirm_frame) ie_len matches llid plid ≡ cnf_acpt)
      ↔ IsConfirmed c m s llid plid
unfolding mesh_plink_get_event known_event confirm_event
mesh_plink_get_event-confirm c m s ie_len matches llid plid = (
  λ h. record {
    authenticated = ground (arith, h);
    allowed = ground (arith, h);
    free = ground (arith, h);
    local = ground (arith, h);
    remote = ground (arith, h);
  },
  λ h. ground (arith, h.authenticated, h.allowed, h.free, h.local, h.remote),
)
