-- ===== src/Tl/Message.antt =====
-- tl_rx.h, tl_rx_list.c, tl_rx_src.c, tl_rx_dst.c: the frames. A frame's bytes are a function of the
-- offset; a receiver reads behind the 14 bytes of the ethernet header. The `or` of four bytes that are
-- shifted to places of their own is their sum.
pub mod Trip
pub mod Report
use mac.Base.{
  ℕ, zero, suc, ◌+◌, ◌-◌, ◌*◌, ◌/◌, ◌%◌, ◌^◌, Bool, List, [], ◌∷◌, Option, none, some, ◌==◌, ltb,
  if◌then◌else◌, get_or, length,
}
use mac.Mnc.Substitute.{Vector, store}
use mac.Tl.Types.{Addr, Device, TrNode}

pub data TrType : Type 0 where
  type_one_tf type_two_tf type_one_tr type_two_tr send_tf nbr_rpt set_relay : TrType

abbrev pub type_code : TrType → ℕ
type_code type_one_tf = 1
type_code type_two_tf = 2
type_code type_one_tr = 3
type_code type_two_tr = 4
type_code send_tf = 5
type_code nbr_rpt = 6
type_code set_relay = 7

pub record Frame : Type 0 where
  pub dev : Device
  pub len : ℕ
  pub bytes : Vector

-- `memcpy(&(data[o]), list, length list)`
unfoldable pub copy_bytes : ℕ → List ℕ → Vector → Vector
copy_bytes o [] v = v
copy_bytes o (x ∷ xs) v = copy_bytes (suc o) xs (store v o x)

-- The four lines that store a number, highest byte first.
unfoldable pub put32 : ℕ → ℕ → Vector → Vector
put32 o x v =
    store
      (store (store (store v o (x / 2 ^ 24 % 256)) (o + 1) (x / 2 ^ 16 % 256)) (o + 2)
        (x / 2 ^ 8 % 256))
      (o + 3) (x % 256)

unfoldable pub get32 : Vector → ℕ → ℕ
get32 v o = v o * 2 ^ 24 + v (o + 1) * 2 ^ 16 + v (o + 2) * 2 ^ 8 + v (o + 3)

-- `room` says whether `dev_alloc_skb` finds memory, with the contents `junk`.
unfoldable pub tl_alloc_skb : Bool → Vector → Device → Addr → Addr → ℕ → TrType → Option Frame
unfolding copy_bytes
tl_alloc_skb room junk dev daddr saddr size type =
    if ltb size 15
    then none
    else if room
    then some (record {
      dev = dev;
      len = size;
      bytes =
          store (store (store (copy_bytes 6 saddr (copy_bytes 0 daddr junk)) 12 0x08) 13 0x11) 14
            (type_code type);
    })
    else none

-- `data[o + 4 * i]` and the three behind it, for the eight counters.
unfoldable pub put_counters : ℕ → List ℕ → Vector → Vector
unfolding put32
put_counters o [] v = v
put_counters o (n ∷ ns) v = put_counters (o + 4) ns (put32 o n v)

unfoldable pub get_counters : ℕ → Vector → ℕ → List ℕ
unfolding get32
get_counters zero v o = []
get_counters (suc left) v o = get32 v o ∷ get_counters left v (o + 4)

-- What a receiver sees: the bytes behind the ethernet header.
abbrev pub payload : Vector → Vector
payload v o = v (14 + o)

-- `tl_rx_tf_timer_func`: the report of a training round.
unfoldable pub write_tr : TrNode → Vector → Vector
unfolding put_counters
write_tr i v = put_counters 17 i.rcv_num (store (store v 15 i.rssi) 16 i.batt)

pub record Tr : Type 0 where
  pub rssi : ℕ
  pub batt : ℕ
  pub rcv : List ℕ

-- The reading in `tl_receive_skb_src` and in `tl_receive_skb_dst`.
unfoldable pub read_tr : Vector → Tr
unfolding get_counters
read_tr v = record { rssi = v 1; batt = v 2; rcv = get_counters 8 v 3 }

-- `tl_rx_tr2_timer_func`: one neighbour, at `ii`.
unfoldable pub write_nbr : ℕ → TrNode → Vector → Vector
unfolding put_counters copy_bytes
write_nbr ii i v =
    put_counters (28 + ii) i.rcv_num
      (store (store (copy_bytes (20 + ii) i.addr v) (26 + ii) i.rssi) (27 + ii) i.batt)

unfoldable pub write_nbrs : ℕ → List TrNode → Vector → Vector
unfolding write_nbr
write_nbrs i [] v = v
write_nbrs i (n ∷ ns) v = write_nbrs (suc i) ns (write_nbr (i * 40) n v)

pub record NbrEntry : Type 0 where
  pub addr : Addr
  pub rssi : ℕ
  pub batt : ℕ
  pub rcv : List ℕ

unfoldable pub get_addr : Vector → ℕ → Addr
get_addr v o = v o ∷ v (o + 1) ∷ v (o + 2) ∷ v (o + 3) ∷ v (o + 4) ∷ v (o + 5) ∷ []

-- `tl_receive_skb_src`: one neighbour of the report, at `ii`, from the offsets that the source names.
unfoldable pub read_nbr : Vector → ℕ → NbrEntry
unfolding get_counters get_addr
read_nbr v ii = record {
  addr = get_addr v (ii + 6);
  rssi = v (ii + 7);
  batt = v (ii + 8);
  rcv = get_counters 8 v (ii + 6 + 6 + 2);
}

-- The training frame of the two senders.
unfoldable pub write_tf : ℕ → ℕ → ℕ → ℕ → Vector → Vector
unfolding put32
write_tf k seq id mcs v = store (put32 23 id (put32 19 seq (put32 15 k v))) 27 mcs

pub record Tf : Type 0 where
  pub k : ℕ
  pub seq : ℕ
  pub index : ℕ
  pub mcs : ℕ

unfoldable pub read_tf : Vector → Tf
unfolding get32
read_tf v = record { k = get32 v 1; seq = get32 v 5; index = get32 v 9; mcs = v 13 }
