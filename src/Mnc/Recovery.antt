-- ===== src/Mnc/Recovery.antt =====
-- mnc_rx.c, `skbs_decoding`: what the decoder gives for the frames of one batch.
use mac.Base.{
  ℕ, zero, suc, ◌+◌, ◌-◌, ◌*◌, ◌%◌, ◌^◌, ◌≤◌, ◌<◌, ◌≡◌, ◌≢◌, refl, arith, Bool, true, false, List,
  [], ◌∷◌, ◌==◌, if◌then◌else◌, length, Option, for_range_inv, Bool-cases, inl, inr,
}
use mac.Mnc.Lu.{Lu, lu_fac}
use mac.Mnc.Lu.Invariant.{AllBytes}
use mac.Mnc.Lu.Factor.{IsStart}
use mac.Mnc.Substitute.{Vector, skb_substi}
use mac.Mnc.Substitute.Recover.{skb_substi-recovers}
use mac.Mnc.Queue.{Packet}
use mac.Mnc.Decode.{fill_coefficients}
use mac.Mnc.Decode.Skbs.{
  Slots, Stack, decoded, check_rank, new_packets, packet_of, decode_slots, trimmed,
}
use mac.Mnc.Decode.Bytes.{fill_coefficients_bytes}
use mac.Mnc.Encode.Frame.{header_length}
use mac.Mnc.Trip.{original_of, IsReceived, start, slots-IsCoded}

-- The packets are the original ones of the slots from `i` on that were not received whole, in order.
pub data Restored (is_sys : ℕ → Bool) (len : ℕ) (full : ℕ → ℕ) (original : ℕ → Vector)
    : ℕ → ℕ → List Packet → Type 0 where
  done : {i : ℕ} → Restored is_sys len full original zero i []
  received :
      {left i : ℕ} {skbs : List Packet}
      → is_sys i ≡ true
      → Restored is_sys len full original left (suc i) skbs
      → Restored is_sys len full original (suc left) i skbs
  restored :
      {left i : ℕ} {skb : Packet} {skbs : List Packet}
      → is_sys i ≡ false
      → skb.len ≡ trimmed len (full i)
      → ((y : ℕ) → y < len → skb.content y ≡ original i y)
      → Restored is_sys len full original left (suc i) skbs
      → Restored is_sys len full original (suc left) i (skb ∷ skbs)

new_packets-Restored :
    (is_sys : ℕ → Bool) (len : ℕ) (full : ℕ → ℕ) (original newskb : ℕ → Vector) (left i : ℕ)
    → ((j y : ℕ) → j < i + left → y < len → newskb j y ≡ original j y)
    → Restored is_sys len full original left i (new_packets left i is_sys len full newskb)
unfolding new_packets
new_packets-Restored is_sys len full original newskb zero i h = done
new_packets-Restored is_sys len full original newskb (suc left) i h =
    let rest =
      new_packets-Restored is_sys len full original newskb left (suc i)
        (λ j y a b. h j y (omega arith) b) in
    elim (Bool-cases (is_sys i)) [
      | inl s ↦ rw (s) (received s rest)
      | inr s ↦ rw (s) (restored s refl (λ y b. h i y (omega arith) b) rest)
    ]

-- With no zero on the diagonal the check of the rank removes nothing.
check_rank-regular :
    (msize p : ℕ) (f : Lu) (s : ℕ × (ℕ → Option Packet))
    → ((r : ℕ) → r < msize → f.u r r ≢ 0)
    → check_rank msize p f s ≡ s
unfolding check_rank
check_rank-regular msize p f s regular =
    for_range_inv (λ i t. t ≡ s) _ 0 msize
      (λ i t low high e.
        let z : (f.u i i == 0) ≡ false = ground (arith, regular i high) in rw (z) e)
      msize 0 s (omega arith) (omega arith) refl

abbrev pub frames_of : Slots → ℕ → Vector
frames_of s i = (packet_of (s.skb i)).content

abbrev pub lengths_of : Slots → ℕ → ℕ
lengths_of s i = (packet_of (s.skb i)).len

-- What `lu_fac` is given.
abbrev pub lu_start : Stack → ℕ → ℕ → Slots → Lu
lu_start stack k p s = record {
  arr = fill_coefficients k p (frames_of s) s.is_sys stack.coefficient;
  u = stack.u;
  l = stack.l;
  pivot = λ i. i;
}

-- The bytes of the arrays on the stack and of the packets are bytes.
pub record HasBytes (stack : Stack) (s : Slots) : Type 0 where
  pub coefficient : AllBytes stack.coefficient
  pub u : AllBytes stack.u
  pub l : AllBytes stack.l
  pub frames : AllBytes (frames_of s)

lu_start-IsStart :
    (stack : Stack) (k p : ℕ) (s : Slots)
    → HasBytes stack s
    → IsStart (k * p) (lu_start stack k p s)
lu_start-IsStart stack k p s b = record {
  arr_bytes =
      fill_coefficients_bytes k p (frames_of s) s.is_sys stack.coefficient b.frames b.coefficient;
  u_bytes = b.u;
  l_bytes = b.l;
  pivot_start = λ r h. refl;
}

-- Past the check of the rank.
decode_slots-regular :
    (stack : Stack) (k p len : ℕ) (s : Slots)
    → 0 < p
    → (((packet_of (s.skb 0)).len + 2 ^ 32 - (if s.is_sys 0 then 3 else 3 + p * p * k)) % 2 ^ 32
        ≡ len)
    → ((r : ℕ) → r < k * p → (lu_fac (k * p) (k * p) (lu_start stack k p s)).u r r ≢ 0)
    → let f = lu_fac (k * p) (k * p) (lu_start stack k p s) in
      decode_slots stack k p s
      ≡ decoded (
          new_packets k 0 s.is_sys len
            (lengths_of s)
            (skb_substi
              (k * p)
              k
              p
              f.u
              f.l
              f.pivot
              (frames_of s)
              len
              (3 + p * p * k)
              s.is_sys
              (record stack.work { newskb = frames_of s })).newskb)
unfolding decode_slots
decode_slots-regular stack k p len s pos length_eq regular =
    let f : Lu = lu_fac (k * p) (k * p) (lu_start stack k p s) in
    let rank : check_rank (k * p) p f (k * p, s.skb) ≡ (k * p, s.skb) =
      check_rank-regular (k * p) p f (k * p, s.skb) regular in
    let same : ((k * p) == (k * p)) ≡ true = ground arith in
    let advance : (p == 0) ≡ false = ground (arith, pos) in rw (rank, same, advance, length_eq) refl

abbrev pub length_of : Slots → ℕ
length_of s = (packet_of (s.skb 0)).len

slot_length :
    (len head : ℕ) (is_sys : Bool)
    → len + head < 2 ^ 32
    → 3 ≤ head
    → (len + (if is_sys then 3 else head) + 2 ^ 32 - (if is_sys then 3 else head)) % 2 ^ 32 ≡ len
slot_length len head true room h = omega arith
slot_length len head false room h = omega arith

-- Let every slot hold, for one batch of packets, either its own packet behind three bytes or a frame of
-- `make_skb_new`; let all bytes be bytes, `p` not be zero, the number of bytes coded be a multiple of `p`, the length of the first slot be
-- that number and the header's, below 2 ^ 32, and `lu_fac` leave no zero on the diagonal of `U`. Then the
-- decoder ends, and gives the original packets of the slots that hold frames, in order, cut to the
-- number of bytes coded where the slot's frame is longer.
pub decode_slots-Restored :
    (src : Bool) (p id rounds : ℕ) (skbs : List Packet) (random : ℕ → Vector) (stack : Stack)
    (s : Slots)
    → 0 < p
    → IsReceived src p id (rounds * p) skbs random s.is_sys (frames_of s)
    → HasBytes stack s
    → AllBytes (original_of src skbs)
    → length_of s ≡ rounds * p + start p skbs s.is_sys 0
    → rounds * p + header_length p skbs < 2 ^ 32
    → ((r : ℕ)
        → r < length skbs * p
        → (lu_fac (length skbs * p) (length skbs * p) (lu_start stack (length skbs) p s)).u r r ≢ 0)
    → (packets : List Packet) × (decode_slots stack (length skbs) p s ≡ decoded packets)
      × Restored s.is_sys (rounds * p) (lengths_of s) (original_of src skbs) (length skbs) 0 packets
decode_slots-Restored src p id rounds skbs random stack s pos slots bytes original len room
      regular =
    let k = length skbs in
    let f : Lu = lu_fac (k * p) (k * p) (lu_start stack k p s) in
    let head : 3 + p * p * k ≡ header_length p skbs = omega arith in
    let run =
      decode_slots-regular stack k p (rounds * p) s pos
        (rw (len, head)
          (slot_length (rounds * p) (header_length p skbs) (s.is_sys 0) room (omega arith)))
        regular in
    (
      _,
      run,
      rw (head) (
          new_packets-Restored s.is_sys (rounds * p) (lengths_of s) (original_of src skbs) _ k 0
            (λ j y a b.
              skb_substi-recovers k p (rounds * p) (header_length p skbs) (lu_start stack k p s)
                (frames_of s) (original_of src skbs) s.is_sys _ pos
                (lu_start-IsStart stack k p s bytes) regular
                (slots-IsCoded rounds pos slots original stack.coefficient) j y (omega arith) b)),
    )
