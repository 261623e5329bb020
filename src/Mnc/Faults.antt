-- ===== src/Mnc/Faults.antt =====
-- mnc_tx.c, `make_skb_new`: packets on which it does not end.
use mac.Base.{
  ℕ, zero, suc, ◌+◌, ◌*◌, ◌<◌, ◌≡◌, ◌≢◌, refl, arith, Bool, true, false, List, [], ◌∷◌, leb, ◌==◌,
  length, Bool-cases, inl, inr,
}
use mac.Mnc.Substitute.{Vector}
use mac.Mnc.Queue.{Packet}
use mac.Mnc.Encode.Packet.{runs_on, code_all, code_packet, fill_new, make_skb_new}
use mac.Mnc.Encode.Sum.{packet_at}

-- A packet of another length, wherever it stands, is never passed.
code_all-runs_on :
    (rounds p coding_len len from : ℕ) (random : Vector) (o : ℕ) (skbs : List Packet) (l : ℕ)
    (new : Vector) (c : ℕ)
    → c < length skbs
    → (packet_at skbs c).len ≢ len
    → code_all rounds p coding_len len from random o skbs l new ≡ runs_on
unfolding code_all
code_all-runs_on zero p coding_len len from random o skbs l new c h ne = refl
code_all-runs_on (suc rounds) p coding_len len from random o [] l new c h ne = absurd (omega arith)
code_all-runs_on (suc rounds) p coding_len len from random o (skb ∷ skbs) l new zero h ne =
    let other : (skb.len == len) ≡ false = ground (arith, ne) in
    rw (code_all, other)
      (code_all-runs_on rounds p coding_len len from random o (skb ∷ skbs) l new zero h ne)
code_all-runs_on (suc rounds) p coding_len len from random o (skb ∷ skbs) l new (suc c) h ne =
    elim (Bool-cases (skb.len == len)) [
      | inl e ↦
          rw (code_all, e)
            (code_all-runs_on rounds p coding_len len from random o skbs (l + p * p)
              (code_packet p coding_len (λ b. skb.content (from + b)) random l o new) c
              (omega arith) ne)
      | inr e ↦
          rw (code_all, e)
            (code_all-runs_on rounds p coding_len len from random o (skb ∷ skbs) l new (suc c) h ne)
    ]

-- If a packet of the batch has another length than the first one, and the batch and `p` are within the bounds
-- of the two tests and memory is found, then the loop of `make_skb_new` is still going on after any number of
-- rounds: with none of them it returns.
pub make_skb_new-runs_on :
    (rounds : ℕ) (src : Bool) (copy random : Vector) (skbs : List Packet) (p id c : ℕ)
    → length skbs < 0x1000000
    → p < 0x100
    → c < length skbs
    → (packet_at skbs c).len ≢ (packet_at skbs 0).len
    → make_skb_new rounds src true copy random skbs p id ≡ runs_on
unfolding make_skb_new fill_new
make_skb_new-runs_on rounds src copy random [] p id c few small h ne = absurd (omega arith)
make_skb_new-runs_on rounds src copy random (skb ∷ rest) p id c few small h ne =
    let few' : leb 0x1000000 (suc (length rest)) ≡ false = ground (arith, few) in
    let small' : leb 0x100 p ≡ false = ground (arith, small) in
    rw (few', small') (code_all-runs_on rounds p _ skb.len _ random _ (skb ∷ rest) 0 _ c h ne)
