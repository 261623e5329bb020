-- ===== src/Mnc/Decode/Skbs.antt =====
-- mnc_rx.c: `skbs_decoding`.
use mac.Base.{
  ℕ, zero, suc, ◌+◌, ◌-◌, ◌*◌, ◌/◌, ◌%◌, ◌^◌, for_range, Bool, true, false, not, List, [], ◌∷◌,
  ◌++◌, Option, none, some, leb, ltb, ◌==◌, if◌then◌else◌, Matrix, ◌&&◌,
}
use mac.Mnc.Lu.{Lu, lu_fac}
use mac.Mnc.Substitute.{Vector, Work, skb_substi}
use mac.Mnc.Queue.{Packet}
use mac.Mnc.Decode.{fill_coefficients}

-- The arrays `is_sys` and `skb`, and the queue `skbs`.
pub record Slots : Type 0 where
  pub is_sys : ℕ → Bool
  pub skb : ℕ → Option Packet
  pub queue : List Packet

-- How `skbs_decoding` ends: with new packets; with `false` and the packets that are back in the queue;
-- with an access through NULL or outside an array; or never.
pub data Decoding : Type 0 where
  decoded : List Packet → Decoding
  kept : List Packet → Decoding
  faults : Decoding
  hangs : Decoding

abbrev pub update {ℓ} : {A : Type ℓ} → (ℕ → A) → ℕ → A → ℕ → A
update f i v j = if j == i then v else f j

-- The packets of the slots from `i` on that are not NULL, in order.
unfoldable pub present : ℕ → ℕ → (ℕ → Option Packet) → List Packet
present zero i skb = []
present (suc left) i skb = elim (skb i) [
  | none ↦ present left (suc i) skb
  | some s ↦ s ∷ present left (suc i) skb
]

-- `Check is_sys & Fill systematic code`: the slots, or the queue once a systematic packet came twice.
pub data Placed : Type 0 where
  placed : Slots → Placed
  twice : List Packet → Placed
  outside : Placed

unfoldable pub place_systematic : ℕ → ℕ → Slots → Placed
place_systematic k zero s = placed s
place_systematic k (suc left) s = elim s.queue [
  | [] ↦ outside
  | skb ∷ rest ↦
      let mindex = skb.content 2 / 4 in
      let next : Slots = if mindex == 0x3f then record s { queue = rest ++ skb ∷ [] } else record {
        is_sys = update s.is_sys mindex true;
        skb = update s.skb mindex (some skb);
        queue = rest;
      } in
      let more = place_systematic k left next in
      if mindex == 0x3f
      then more
      else if leb k mindex
      then outside
      else if s.is_sys mindex
      then twice (rest ++ present k 0 s.skb)
      else more
]

-- `Fill non-systematic code`, from slot `i`; an empty queue gives NULL, which is then read.
unfoldable pub place_coded : ℕ → ℕ → Slots → Placed
place_coded zero i s = placed s
place_coded (suc left) i s = elim (s.is_sys i) [
  | true ↦ place_coded left (suc i) s
  | false ↦ elim s.queue [
    | [] ↦ outside
    | skb ∷ rest ↦
        place_coded left (suc i) (record s { skb = update s.skb i (some skb); queue = rest })
  ]
]

-- `Check rank`: how many rows have a pivot, and the slots without the packets of the others.
unfoldable pub check_rank : ℕ → ℕ → Lu → ℕ × (ℕ → Option Packet) → ℕ × (ℕ → Option Packet)
check_rank msize p f s =
    for_range msize 0
      (λ i s. if f.u i i == 0 then (s.0 - 1, update s.1 (f.pivot i / p) none) else s) s

-- The length of a packet of `full` bytes after `skb_trim`, which only shortens.
unfoldable pub trimmed : ℕ → ℕ → ℕ
trimmed len full = if ltb len full then len else full

-- The new packets that were not systematic, in order, cut to `len` bytes; `full i` is how long the copy of
-- the packet of slot `i` is.
unfoldable pub new_packets : ℕ → ℕ → (ℕ → Bool) → ℕ → (ℕ → ℕ) → (ℕ → Vector) → List Packet
new_packets zero i is_sys len full newskb = []
new_packets (suc left) i is_sys len full newskb =
    let rest = new_packets left (suc i) is_sys len full newskb in
    if is_sys i then rest else record { len = trimmed len (full i); content = newskb i } ∷ rest

-- What the arrays of the function hold before they are written.
pub record Stack : Type 0 where
  pub coefficient : Matrix
  pub u : Matrix
  pub l : Matrix
  pub work : Work

abbrev pub packet_of : Option Packet → Packet
packet_of none = record { len = 0; content = λ o. 0 }
packet_of (some s) = s

-- From the matrix of coefficients to the end, with a packet in every slot; with `p` zero the loop of
-- `skb_substi` does not advance.
unfoldable pub decode_slots : Stack → ℕ → ℕ → Slots → Decoding
decode_slots stack k p s =
    let msize = k * p in
    let mncheadsize = 3 + p * p * k in
    let skb : ℕ → Packet = λ i. packet_of (s.skb i) in
    let data_of : ℕ → Vector = λ i. (skb i).content in
    let a = fill_coefficients k p data_of s.is_sys stack.coefficient in
    let f = lu_fac msize msize (record { arr = a; u = stack.u; l = stack.l; pivot = λ i. i }) in
    let r = check_rank msize p f (msize, s.skb) in
    let len = ((skb 0).len + 2 ^ 32 - (if s.is_sys 0 then 3 else mncheadsize)) % 2 ^ 32 in
    if not (r.0 == msize)
    then kept (s.queue ++ present k 0 r.1)
    else if p == 0 && not (len == 0)
    then hangs
    else let w =
        skb_substi msize k p f.u f.l f.pivot data_of len mncheadsize s.is_sys
          (record stack.work { newskb = data_of }) in
      decoded (new_packets k 0 s.is_sys len (λ i. (skb i).len) w.newskb)

-- `skb_copy` finds memory.
unfoldable pub skbs_decoding : Stack → List Packet → ℕ → Decoding
skbs_decoding stack skbs kp =
    let k = kp / 4 in
    let p = kp % 4 in
    elim (place_systematic k k (record { is_sys = λ i. false; skb = λ i. none; queue = skbs })) [
      | outside ↦ faults
      | twice queue ↦ kept queue
      | placed s ↦ elim (place_coded k 0 s) [
        | outside ↦ faults
        | twice queue ↦ faults
        | placed t ↦ if k == 0 then faults else decode_slots stack k p t
      ]
    ]
