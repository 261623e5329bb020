-- ===== src/Mnc/Encode/Packet.antt =====
-- mnc_tx.c: `make_skb_new`. A frame's bytes are those from its data pointer; the new frame's bytes are
-- those behind its ethernet header.
use mac.Base.{
  ℕ, zero, suc, bit_or, ◌+◌, ◌-◌, ◌*◌, ◌%◌, ◌^◌, for_range, Bool, List, [], ◌∷◌, leb, ltb, ◌==◌,
  if◌then◌else◌, length,
}
use mac.Mnc.Substitute.{Vector, store}
use mac.Mnc.Queue.{Packet}
use mac.Mnc.Encode.{code_blocks}

-- The coefficients of one packet, random bytes, go into the header; `l` is how many went there before.
unfoldable pub fill_header : ℕ → Vector → ℕ → Vector → Vector
fill_header p random l new =
    for_range p 0
      (λ i new. for_range p 0 (λ j new. store new (3 + l + i * p + j) (random (l + i * p + j))) new)
      new

-- The body of the loop for one packet: its data begins at `from`, the new data at `o`.
unfoldable pub code_packet : ℕ → ℕ → Vector → Vector → ℕ → ℕ → Vector → Vector
unfolding fill_header code_blocks
code_packet p coding_len old random l o new =
    code_blocks p coding_len old (λ i j. random (l + i * p + j)) o (fill_header p random l new)

-- What `make_skb_new` does: a frame, NULL, or a loop that is still going on when the rounds are over.
pub data Made : Type 0 where
  made : Vector → Made
  no_frame : Made
  runs_on : Made

-- The loop over the packets, for a number of rounds; on a packet of another length than the first it goes on
-- with the same one.
unfoldable pub code_all : ℕ → ℕ → ℕ → ℕ → ℕ → Vector → ℕ → List Packet → ℕ → Vector → Made
unfolding code_packet
code_all zero p coding_len skb_len1 from random o skbs l new = runs_on
code_all (suc rounds) p coding_len skb_len1 from random o [] l new = made new
code_all (suc rounds) p coding_len skb_len1 from random o (skb ∷ skbs) l new =
    let same = skb.len == skb_len1 in
    code_all rounds p coding_len skb_len1 from random o (if same then skbs else skb ∷ skbs)
      (if same then l + p * p else l)
      (if same then code_packet p coding_len (λ b. skb.content (from + b)) random l o new else new)

-- The new frame before the loop: zeros, and the first three bytes of the header.
unfoldable pub new_header : ℕ → ℕ → ℕ → Bool → ℕ → Vector → Vector
new_header k p id src len copy =
    let zeros : Vector = λ b. if ltb b len then 0 else copy b in
    store (store (store zeros 0 (bit_or (k * 4) p % 256)) 1 id) 2 (if src then 0xfc else 0xfd)

-- After the tests and `skb_copy`, which leaves `copy` behind the end of the frame.
unfoldable pub fill_new : ℕ → Bool → Vector → Vector → List Packet → ℕ → ℕ → ℕ → ℕ → ℕ → Made
unfolding new_header code_all
fill_new rounds src copy random skbs p id skb_len1 coding_len mnc_hdrlen =
    code_all rounds p coding_len skb_len1 (if src then 14 else 0) random mnc_hdrlen skbs 0
      (new_header (length skbs) p id src ((coding_len + mnc_hdrlen) % 2 ^ 32) copy)

-- `room` says whether `skb_copy` finds memory.
unfoldable pub make_skb_new : ℕ → Bool → Bool → Vector → Vector → List Packet → ℕ → ℕ → Made
make_skb_new rounds src room copy random [] p id = no_frame
make_skb_new rounds src room copy random (skb ∷ skbs) p id =
    let k = length (skb ∷ skbs) in
    let coding_len : ℕ = if src then (skb.len + 2 ^ 32 - 14) % 2 ^ 32 else skb.len in
    if leb 0x1000000 k
    then no_frame
    else if leb 0x100 p
    then no_frame
    else if room
    then fill_new rounds src copy random (skb ∷ skbs) p id skb.len coding_len
        ((p * p * k + 3) % 2 ^ 32)
    else no_frame
