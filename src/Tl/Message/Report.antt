-- ===== src/Tl/Message/Report.antt =====
-- tl_rx_dst.c, `tl_rx_tr2_timer_func`, against tl_rx_src.c, `tl_receive_skb_src`: the neighbour report.
use mac.Base.{
  ℕ, zero, suc, ◌+◌, ◌*◌, ◌<◌, ◌≡◌, refl, sym, ap, ap₂, ◌∙◌, arith, List, [], ◌∷◌, map, length,
  get_or,
}
use mac.Mnc.Substitute.{Vector, store}
use mac.Tl.Types.{Addr, TrNode}
use mac.Tl.Message.{
  copy_bytes, get_counters, payload, write_nbr, read_nbr, write_nbrs, NbrEntry, get_addr,
}
use mac.Tl.Message.Trip.{
  put_counters_below, get_counters_congr, get_counters-put_counters, IsNode, get_addr_congr,
  get_addr-copy_bytes,
}

-- What the source takes from the entry of a node: strength and battery are two bytes of the address.
abbrev pub seen : TrNode → NbrEntry
seen n = record {
  addr = n.addr;
  rssi = get_or n.addr 1 0;
  batt = get_or n.addr 2 0;
  rcv = n.rcv_num;
}

copy_bytes_below : (o : ℕ) (a : List ℕ) (v : Vector) (r : ℕ) → r < o → copy_bytes o a v r ≡ v r
unfolding copy_bytes
copy_bytes_below o [] v r h = refl
copy_bytes_below o (x ∷ a) v r h = ground (arith, copy_bytes_below (suc o) a (store v o x) r)

write_nbr_below :
    (ii : ℕ) (n : TrNode) (v : Vector) (r : ℕ) → r < 20 + ii → write_nbr ii n v r ≡ v r
unfolding write_nbr
write_nbr_below ii n v r h = ground (
  arith,
  put_counters_below (28 + ii) n.rcv_num
      (store (store (copy_bytes (20 + ii) n.addr v) (26 + ii) n.rssi) (27 + ii) n.batt) r,
  copy_bytes_below (20 + ii) n.addr v r,
)

pub write_nbrs_below :
    (i : ℕ) (ns : List TrNode) (v : Vector) (r : ℕ) → r < 20 + i * 40 → write_nbrs i ns v r ≡ v r
unfolding write_nbrs
write_nbrs_below i [] v r h = refl
write_nbrs_below i (n ∷ ns) v r h =
    write_nbrs_below (suc i) ns (write_nbr (i * 40) n v) r (omega arith)
    ∙ write_nbr_below (i * 40) n v r h

module _ (ii : ℕ) (n : TrNode) (v w : Vector) (good : IsNode n)
    (same : (r : ℕ) → r < 60 + ii → w r ≡ write_nbr ii n v r) where
  marks : Vector
  marks = store (store (copy_bytes (20 + ii) n.addr v) (26 + ii) n.rssi) (27 + ii) n.batt

  before_counters : (r : ℕ) → r < 28 + ii → w r ≡ marks r
  unfolding marks write_nbr
  before_counters r h = same r (omega arith) ∙ put_counters_below (28 + ii) n.rcv_num _ r h

  entry_addr : get_addr (payload w) (ii + 6) ≡ n.addr
  unfolding marks
  entry_addr =
      get_addr_congr (payload w) (copy_bytes (20 + ii) n.addr v) (ii + 6) (20 + ii) (λ k h.
        let e : 14 + (ii + 6 + k) ≡ 20 + ii + k = omega arith in
        ap w e ∙ before_counters (20 + ii + k) (omega arith) ∙ ground arith)
      ∙ get_addr-copy_bytes n.addr (20 + ii) v good.six

  entry_counters : get_counters 8 (payload w) (ii + 6 + 6 + 2) ≡ n.rcv_num
  unfolding write_nbr
  entry_counters =
      get_counters_congr 8 (payload w) (write_nbr ii n v) (ii + 6 + 6 + 2) (28 + ii) (λ k h.
        let e : 14 + (ii + 6 + 6 + 2 + k) ≡ 28 + ii + k = omega arith in
        ap w e ∙ same (28 + ii + k) (omega arith))
      ∙ ap (λ m. get_counters m (write_nbr ii n v) (28 + ii)) (sym good.eight)
      ∙ get_counters-put_counters n.rcv_num (28 + ii) _ good.words

  entry_seen : read_nbr (payload w) ii ≡ seen n
  unfolding read_nbr get_addr
  entry_seen =
      let e1 : 14 + (ii + 7) ≡ 14 + (ii + 6 + 1) = omega arith in
      let e2 : 14 + (ii + 8) ≡ 14 + (ii + 6 + 2) = omega arith in
      let second : w (14 + (ii + 7)) ≡ get_or n.addr 1 0 =
        ap w e1 ∙ ap (λ (a : Addr). get_or a 1 0) entry_addr in
      let third : w (14 + (ii + 8)) ≡ get_or n.addr 2 0 =
        ap w e2 ∙ ap (λ (a : Addr). get_or a 2 0) entry_addr in
      λ i. record { addr = entry_addr i; rssi = second i; batt = third i; rcv = entry_counters i }

-- The entries that the loop of `tl_receive_skb_src` reads.
pub read_nbrs : ℕ → ℕ → Vector → List NbrEntry
read_nbrs zero i v = []
read_nbrs (suc left) i v = read_nbr v (i * 40) ∷ read_nbrs left (suc i) v

abbrev pub AllNodes : List TrNode → Type 0
AllNodes [] = Unit {0}
AllNodes (n ∷ ns) = IsNode n × AllNodes ns

-- A neighbour report, of nodes with six address bytes and eight 32-bit counters, is read back with every address and every counter, in order; but in the place of
-- a neighbour's strength and battery the source reads the second and third byte of its address.
pub read_nbrs-write_nbrs :
    (ns : List TrNode) (i : ℕ) (v : Vector)
    → AllNodes ns
    → read_nbrs (length ns) i (payload (write_nbrs i ns v)) ≡ map seen ns
unfolding read_nbrs write_nbrs
read_nbrs-write_nbrs [] i v good = refl
read_nbrs-write_nbrs (n ∷ ns) i v good =
    ap₂ ◌∷◌
      (entry_seen (i * 40) n v (write_nbrs (suc i) ns (write_nbr (i * 40) n v)) good.0
        (λ r h. write_nbrs_below (suc i) ns (write_nbr (i * 40) n v) r (omega arith)))
      (read_nbrs-write_nbrs ns (suc i) (write_nbr (i * 40) n v) good.1)
