-- ===== src/Tl/Relay/Rank.antt =====
-- tl_rx_list.c, `dst_info_list_get_min_dof`: the three best relays of a destination.
use mac.Base.{ℕ, ◌≤◌, ◌≡◌, arith, List, [], ◌∷◌, if◌then◌else◌, leb}
use mac.Tl.Types.{Addr, DstInfo}
use mac.Tl.Relay.{rank_relay}

abbrev pub Entry : Type 0
Entry = ℕ × Addr

-- The description: a new entry goes before the first one that does not need fewer packets.
pub insert_entry : Entry → List Entry → List Entry
insert_entry e [] = e ∷ []
insert_entry (c, a) ((d, b) ∷ es) =
    if leb c d then (c, a) ∷ (d, b) ∷ es else (d, b) ∷ insert_entry (c, a) es

abbrev pub first_three : List Entry → List Entry
first_three (x ∷ y ∷ z ∷ rest) = x ∷ y ∷ z ∷ []
first_three es = es

abbrev pub best : DstInfo → List Entry
best d = (d.min_clout1, d.raddr1) ∷ (d.min_clout2, d.raddr2) ∷ (d.min_clout3, d.raddr3) ∷ []

abbrev pub IsRanked : DstInfo → Type 0
IsRanked d = (d.min_clout1 ≤ d.min_clout2) × (d.min_clout2 ≤ d.min_clout3)

-- On ranked entries the nested comparisons of the source are an insertion in order, of which the first
-- three are kept; the address and the missing rank of the destination are unchanged, and the entries stay ranked.
pub rank_relay-best :
    (a : Addr) (clout : ℕ) (d : DstInfo)
    → IsRanked d
    → (best (rank_relay a clout d) ≡ first_three (insert_entry (clout, a) (best d)))
      × IsRanked (rank_relay a clout d)
      × ((rank_relay a clout d).addr ≡ d.addr)
      × ((rank_relay a clout d).pr_dof ≡ d.pr_dof)
unfolding rank_relay insert_entry
rank_relay-best a clout d r = ground arith
