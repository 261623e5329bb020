-- ===== src/Hwmp.antt =====
-- mesh.h, mesh_pathtbl.c, mesh_ps.c: the paths of a mesh interface, which mesh_hwmp.c looks up and changes.
pub mod Metric
pub mod Route
pub mod Better
pub mod Broken
pub mod Perr
pub mod Leads
pub mod Routes
pub mod Others
pub mod Airtime
use mac.Base.{
  ℕ, ◌+◌, ◌-◌, ◌*◌, ◌/◌, ◌%◌, ◌^◌, bit_and, bit_or, Bool, true, false, not, ◌&&◌, ◌||◌, List, [],
  ◌++◌, Option, none, some, ltb, leb, ◌==◌, if◌then◌else◌, map,
}

-- `NL80211_MESH_POWER_*`
pub data PowerMode : Type 0 where
  active_mode light_sleep deep_sleep : PowerMode

-- A data frame that waits for a path: an address is the number of its six bytes, the first the lowest;
-- `qc` is the second byte of the QoS control field, and `rest` what no path changes.
pub record MeshData : Type 0 where
  pub frame_control : ℕ
  pub addr1 : ℕ
  pub addr2 : ℕ
  pub qc : ℕ
  pub rest : List ℕ

-- A mesh neighbour; `bitrate` is what `cfg80211_calculate_bitrate` says of the rate that was used last.
pub record MeshPeer : Type 0 where
  pub addr : ℕ
  pub established : Bool
  pub local_pm : PowerMode
  pub fail_avg : ℕ
  pub bitrate : ℕ

-- `struct mesh_path`, a field for each flag; the next hop is its address.
pub record MeshPath : Type 0 where
  pub next_hop : Option ℕ
  pub frame_queue : List MeshData
  pub sn : ℕ
  pub metric : ℕ
  pub hop_count : ℕ
  pub exp_time : ℕ
  pub active : Bool
  pub resolving : Bool
  pub sn_valid : Bool
  pub fixed : Bool
  pub resolved : Bool
  pub req_queued : Bool

-- Of an interface: its neighbours, the paths by destination and their number, the size of the hash table and
-- the number from which on it is to grow, the work that is asked for, and the frames that are handed on.
pub record MeshPaths : Type 0 where
  pub own_addr : ℕ
  pub nonpeer_pm : PowerMode
  pub ps_peers_deep_sleep : ℕ
  pub peers : ℕ → Option MeshPeer
  pub paths : ℕ → Option MeshPath
  pub mpaths : ℕ
  pub entries : ℕ
  pub max_entries : ℕ
  pub generation : ℕ
  pub grow_work : Bool
  pub pending : List MeshData

-- What the kernel says: the bits of `unsigned long`, the time, `TU_TO_JIFFIES`, two constants and the test of
-- a header, and whether the two pieces of memory are found.
pub record HwmpKernel : Type 0 where
  pub long_bits : ℕ
  pub jiffies : ℕ
  pub tu_to_jiffies : ℕ → ℕ
  pub fctl_pm : ℕ
  pub mesh_ps_level : ℕ
  pub is_data_qos : ℕ → Bool
  pub finds_path : Bool
  pub finds_node : Bool

-- (long)(b - a) < 0
unfoldable pub time_after : HwmpKernel → ℕ → ℕ → Bool
time_after k a b = leb (2 ^ (k.long_bits - 1)) ((b + 2 ^ k.long_bits - a) % 2 ^ k.long_bits)

unfoldable pub mpath_expired : HwmpKernel → MeshPath → Bool
mpath_expired k p = p.active && time_after k k.jiffies p.exp_time && not p.fixed

-- The path of a destination is replaced in the table.
abbrev pub put_path : ℕ → MeshPath → MeshPaths → MeshPaths
put_path dst p m = record m { paths = λ d. if d == dst then some p else m.paths d }

abbrev pub expire : HwmpKernel → MeshPath → MeshPath
expire k p = record p { active = if mpath_expired k p then false else p.active }

unfoldable pub mesh_path_lookup : HwmpKernel → ℕ → MeshPaths → MeshPaths × Option MeshPath
mesh_path_lookup k dst m = elim (m.paths dst) [
  | none ↦ (m, none)
  | some p ↦ (put_path dst (expire k p) m, some (expire k p))
]

-- The path that `mesh_path_add` makes.
unfoldable pub new_path : HwmpKernel → MeshPath
new_path k = record {
  next_hop = none;
  frame_queue = [];
  sn = 0;
  metric = 0;
  hop_count = 0;
  exp_time = k.jiffies;
  active = false;
  resolving = false;
  sn_valid = false;
  fixed = false;
  resolved = false;
  req_queued = false;
}

-- `none` is an error; `MESH_MAX_MPATHS` is 1024.
unfoldable pub mesh_path_add : HwmpKernel → ℕ → MeshPaths → MeshPaths × Option MeshPath
unfolding new_path
mesh_path_add k dst m =
    let counted = record m { mpaths = m.mpaths + 1 } in
    let entries = m.entries + 1 in
    if dst == m.own_addr || dst % 2 == 1 || m.mpaths == 1024
    then (m, none)
    else elim (m.paths dst) [
      | some p ↦ (counted, some p)
      | none ↦ if not k.finds_path || not k.finds_node then (m, none) else (
        put_path dst (new_path k) (record counted {
          entries = entries;
          generation = m.generation + 1;
          grow_work = if leb m.max_entries entries then true else m.grow_work;
        }),
        some (new_path k),
      )
    ]

abbrev is_deep : PowerMode → Bool
is_deep deep_sleep = true
is_deep light_sleep = false
is_deep active_mode = false

abbrev is_active : PowerMode → Bool
is_active active_mode = true
is_active light_sleep = false
is_active deep_sleep = false

-- For a frame of a path, whose neighbour is given.
unfoldable pub mps_set_frame_flags : HwmpKernel → MeshPaths → MeshPeer → MeshData → MeshData
mps_set_frame_flags k m sta hdr =
    let unicast = hdr.addr1 % 2 == 0 in
    let qos = k.is_data_qos hdr.frame_control in
    let pm = if unicast && qos && sta.established then sta.local_pm else m.nonpeer_pm in
    let fc =
      if is_active pm
      then bit_and hdr.frame_control (2 ^ 16 - 1 - k.fctl_pm)
      else bit_or hdr.frame_control k.fctl_pm in
    let deep = unicast && is_deep pm || not unicast && ltb 0 m.ps_peers_deep_sleep in
    let level = k.mesh_ps_level / 2 ^ 8 in
    record hdr {
      frame_control = fc;
      qc =
          if not (k.is_data_qos fc)
          then hdr.qc
          else if deep
          then bit_or hdr.qc level
          else bit_and hdr.qc (2 ^ 8 - 1 - level);
    }

unfoldable pub mesh_path_assign_nexthop : HwmpKernel → MeshPaths → MeshPeer → MeshPath → MeshPath
mesh_path_assign_nexthop k m sta p = record p {
  next_hop = some sta.addr;
  frame_queue =
      map (λ hdr. mps_set_frame_flags k m sta (record hdr { addr1 = sta.addr; addr2 = m.own_addr }))
        p.frame_queue;
}

abbrev pub mesh_path_activate : MeshPath → MeshPath
mesh_path_activate p = record p { active = true; resolved = true }

-- The path goes back into the table, and the frames of an active one are handed on.
unfoldable pub mesh_path_tx_pending : ℕ → MeshPath → MeshPaths → MeshPaths
mesh_path_tx_pending dst p m =
    if p.active
    then put_path dst (record p { frame_queue = [] })
        (record m { pending = m.pending ++ p.frame_queue })
    else put_path dst p m
