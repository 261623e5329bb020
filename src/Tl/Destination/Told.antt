-- ===== src/Tl/Destination/Told.antt =====
-- tl_rx_dst.c, `tl_rx_tr2_timer_func`, and tl_rx_src.c, the loop of `tl_receive_skb_src`: a report as it is
-- sent, and as it is read.
use mac.Base.{
  suc, ◌+◌, ◌*◌, ◌<◌, ◌≡◌, refl, sym, ap, ◌∙◌, arith, true, false, List, [], ◌∷◌, ◌++◌, none, some,
  ltb, length, map,
}
use native.Mathlib.Nat.{mod-eq_of_lt}
use mac.Mnc.Substitute.{Vector, store}
use mac.Tl.Types.{TrInfo, TrNode}
use mac.Tl.Rates.{u32, u8}
use mac.Tl.Message.{Frame, tl_alloc_skb, payload, write_nbrs, NbrEntry}
use mac.Tl.Message.Report.{seen, AllNodes, read_nbrs, read_nbrs-write_nbrs, write_nbrs_below}
use mac.Tl.Source.State.{Kernel}
use mac.Tl.Destination.State.{Destination}
use mac.Tl.Destination.Report.{tl_rx_tr2_timer_func}

-- The entries that the source takes from a report: as many as the byte says.
pub read_report : Vector → List NbrEntry
read_report w = read_nbrs (w 5) 0 w

abbrev pub nodes_of : List TrInfo → List TrNode
nodes_of = map (λ (i : TrInfo). i.node)

length-nodes_of : (is : List TrInfo) → length (nodes_of is) ≡ length is
length-nodes_of [] = refl
length-nodes_of (i ∷ is) = ap suc (length-nodes_of is)

report-read :
    (is : List TrInfo) (v : Vector)
    → AllNodes (nodes_of is)
    → length is < 256
    → read_report (payload (write_nbrs 0 (nodes_of is) (store v 19 (u8 (length is)))))
      ≡ map seen (nodes_of is)
unfolding read_report
report-read is v good few =
    let w : Vector = store v 19 (u8 (length is)) in
    let count : write_nbrs 0 (nodes_of is) w 19 ≡ length (nodes_of is) =
      write_nbrs_below 0 (nodes_of is) w 19 (omega arith)
      ∙ mod-eq_of_lt few
      ∙ sym (length-nodes_of is) in
    ap (λ n. read_nbrs n 0 (payload (write_nbrs 0 (nodes_of is) w))) count
    ∙ read_nbrs-write_nbrs (nodes_of is) 0 w good

-- Where the nodes that have reported have six address bytes and eight 32-bit counters, are at least one and
-- fewer than 256, the asking source is known and memory is found, the timer sends one report more. From it the
-- source reads as many entries as the count byte says: those of all nodes, in order, with every address and
-- every counter; but in the place of a neighbour's strength and battery it reads the second and third byte of
-- its address.
pub tr2_timer-read_report :
    (kernel : Kernel) (s : Destination) (sdf info : TrInfo) (rest : List TrInfo)
    → s.sdf_info ≡ some sdf
    → s.tr2_list ≡ info ∷ rest
    → AllNodes (nodes_of (info ∷ rest))
    → length (info ∷ rest) < 256
    → kernel.room 0 ≡ true
    → (f : Frame) × ((tl_rx_tr2_timer_func kernel s).sent ≡ s.sent ++ (f, none) ∷ [])
      × (read_report (payload f.bytes) ≡ map seen (nodes_of (info ∷ rest)))
unfolding tl_rx_tr2_timer_func tl_alloc_skb
tr2_timer-read_report kernel s sdf info rest known list good few room =
    let size : u32 (14 + 6 + 40 * suc (length rest)) ≡ 14 + 6 + 40 * suc (length rest) =
      mod-eq_of_lt (omega (arith, few)) in
    let long : ltb (u32 (14 + 6 + 40 * suc (length rest))) 15 ≡ false = ground (arith, size) in
    rw (list, known, tl_rx_tr2_timer_func, long, room)
      (_, refl, report-read (info ∷ rest) _ good few)
