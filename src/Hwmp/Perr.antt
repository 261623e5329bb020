-- ===== src/Hwmp/Perr.antt =====
-- mesh_hwmp.c: a path error says that the sender has lost a path.
use mac.Base.{
  ℕ, ◌+◌, ◌-◌, ◌*◌, ◌/◌, ◌%◌, ◌^◌, Bool, false, not, ◌&&◌, ◌||◌, List, [], ◌∷◌, ◌++◌, Option, none,
  some, leb, ◌==◌, if◌then◌else◌, get_or,
}
use mac.Hwmp.{MeshPath, MeshPaths, HwmpKernel, time_after, mesh_path_lookup, put_path}
use mac.Hwmp.Route.{u32_field_get, address_at, sn_gt}

-- Of an interface: its paths, the time before which no error is sent, the frames that had no hop left, and
-- the elements that are to be sent, each with the receiver.
pub record PathErrors : Type 0 where
  pub table : MeshPaths
  pub next_perr : ℕ
  pub dropped_frames_ttl : ℕ
  pub sent : List (ℕ × List ℕ)

-- `WLAN_EID_PERR`, `dot11MeshHWMPperrMinInterval`, `dot11MeshForwarding`, and whether memory for a frame is found.
pub record PerrConfig : Type 0 where
  pub eid_perr : ℕ
  pub perr_min_interval : ℕ
  pub forwarding : Bool
  pub finds_skb : Bool

-- The lowest bytes of a number, the lowest first.
abbrev le_bytes_2 : ℕ → List ℕ
le_bytes_2 n = (n % 2 ^ 8) ∷ (n / 2 ^ 8 % 2 ^ 8) ∷ []

abbrev le_bytes_4 : ℕ → List ℕ
le_bytes_4 n = le_bytes_2 n ++ le_bytes_2 (n / 2 ^ 16)

-- A number or a reason of 0 counts as unknown.
unfoldable pub perr_element : (eid_perr ttl target target_sn target_rcode : ℕ) → List ℕ
perr_element eid_perr ttl target target_sn target_rcode =
    let usn = if target_sn == 0 then 1 else 0 in
    let rcode = if target_rcode == 0 then 0 else 2 in
    eid_perr
    ∷ 15
    ∷ ttl
    ∷ 1
    ∷ (usn + rcode)
    ∷ (le_bytes_4 target
        ++ (le_bytes_2 (target / 2 ^ 32) ++ (le_bytes_4 target_sn ++ le_bytes_2 target_rcode)))

unfoldable pub mesh_path_error_tx :
    HwmpKernel → PerrConfig → (ttl target target_sn target_rcode ra : ℕ) → PathErrors → PathErrors
mesh_path_error_tx k c ttl target target_sn target_rcode ra s =
    if time_after k s.next_perr k.jiffies || not c.finds_skb then s else record s {
      next_perr = (k.jiffies + k.tu_to_jiffies c.perr_min_interval) % 2 ^ k.long_bits;
      sent = s.sent ++ ((ra, perr_element c.eid_perr ttl target target_sn target_rcode) ∷ []);
    }

-- The sender is the next hop of the path; `none` is an access through NULL.
abbrev pub from_next_hop : ℕ → MeshPath → Option Bool
from_next_hop ta p = elim p.next_hop [
  | none ↦ if p.active then none else some false
  | some hop ↦ some (p.active && ta == hop)
]

-- The element says something newer of the path.
abbrev pub is_news : ℕ → MeshPath → Bool
is_news target_sn p = not p.sn_valid || sn_gt target_sn p.sn

abbrev pub break_path : ℕ → MeshPath → MeshPath
break_path target_sn p = record p { active = false; sn = target_sn }

-- A path is broken, and the error goes on to all neighbours.
unfoldable pub break_and_tell :
    HwmpKernel
    → PerrConfig
    → (ttl target target_sn target_rcode : ℕ) → MeshPath
    → PathErrors
    → PathErrors
break_and_tell k c ttl target target_sn target_rcode p s =
    let broken = record s { table = put_path target (break_path target_sn p) s.table } in
    let told = mesh_path_error_tx k c ttl target target_sn target_rcode (2 ^ 48 - 1) broken in
    if c.forwarding then told else broken

unfoldable pub hwmp_perr_frame_process :
    HwmpKernel → PerrConfig → (ta : ℕ) → List ℕ → PathErrors → Option PathErrors
hwmp_perr_frame_process k c ta elem s =
    let ttl = get_or elem 0 0 in
    let target = address_at elem 3 in
    let sn = u32_field_get elem 9 false in
    let rcode = (get_or elem 13 0 + get_or elem 14 0 * 2 ^ 8) % 2 ^ 16 in
    let found = mesh_path_lookup k target s.table in
    let met = record s { table = found.0 } in
    if leb ttl 1
    then some (record s { dropped_frames_ttl = s.dropped_frames_ttl + 1 })
    else elim found.1 [
      | none ↦ some met
      | some p ↦ elim (from_next_hop ta p) [
        | none ↦ none
        | some hop ↦
            if hop && is_news sn p
            then some (break_and_tell k c (ttl - 1) target sn rcode p met)
            else some met
      ]
    ]
