-- ===== src/Tests/Trip.antt =====
-- mnc_tx.c and mnc_rx.c on two packets of four bytes: the first is received whole, the second as a frame.
use mac.Base.{
  inl, ℕ, zero, suc, ◌+◌, ◌*◌, ◌-◌, ◌%◌, ◌<◌, ◌≡◌, ◌≢◌, refl, ap, arith, true, false, List, [], ◌∷◌,
  Option, none, some, for_range, ltb, ◌==◌, if◌then◌else◌, get_or,
}
use mac.Gf.{gmul, gdiv, gsub, gmul_inverse, log, antilog, IsByte}
use mac.Gf.Laws.{gmul-IsByte}
use mac.Gf.Sum.{xsum, xsum-IsByte}
use mac.Mnc.Lu.{
  lu_fac, lu_init, column_step, row_step, eliminate, swap_rows, swap_cells, swap_pivot, find_change,
  clear_cell,
}
use mac.Mnc.Lu.Invariant.{AllBytes}
use mac.Mnc.Substitute.{Vector}
use mac.Mnc.Queue.{Packet}
use mac.Mnc.Encode.Packet.{make_skb_new, made, runs_on}
use mac.Mnc.Encode.Sum.{term}
use mac.Mnc.Encode.Frame.{IsFrame, IsBatch, make_skb_new-IsFrame}
use mac.Mnc.Decode.{systematic_rows, coded_rows, fill_coefficients}
use mac.Mnc.Decode.Skbs.{Slots, Stack, decoded, decode_slots}
use mac.Mnc.Decode.Skbs.{skbs_decoding, faults}
use mac.Mnc.Stray.{skbs_decoding-faults}
use mac.Mnc.Faults.{make_skb_new-runs_on}
use mac.Mnc.Trip.{original_of, IsReceived}
use mac.Mnc.Recovery.{Restored, HasBytes, lu_start, frames_of, lengths_of, decode_slots-Restored}

abbrev packets : List Packet
packets =
    record { len = 4; content = λ o. (17 * o + 3) % 256 }
    ∷ record { len = 4; content = λ o. (9 * o + 200) % 256 }
    ∷ []

abbrev random : Vector
random x = (x + 5) % 256

packets-IsBatch : IsBatch false 1 4 packets
packets-IsBatch = record {
  nonempty = omega arith;
  few = omega arith;
  small = omega arith;
  pos = omega arith;
  same = (refl, (refl, tt));
  room = omega arith;
}

make_skb_new-IsFrame_example :
    (new : Vector) × (make_skb_new 3 false true (λ o. 77) random packets 1 42 ≡ made new)
    × IsFrame false 1 42 4 random packets new
make_skb_new-IsFrame_example =
    make_skb_new-IsFrame 3 false (λ o. 77) random packets 1 42 4 (omega arith) packets-IsBatch

abbrev frame : Vector
frame o =
    if ltb o 5
    then get_or (9 ∷ 42 ∷ 253 ∷ 5 ∷ 6 ∷ []) o 0
    else xsum 2 (term 1 0 random packets 0 (o - 5))

frame-IsFrame : IsFrame false 1 42 (4 * 1) random packets frame
frame-IsFrame = record {
  kp = refl;
  generation = refl;
  mark = refl;
  coefficients = coefficients;
  bytes = λ y h.
      let back : 5 + y - 5 ≡ y = omega arith in
      let above : ltb (5 + y) 5 ≡ false = ground arith in
      rw (above) (ap (λ o. xsum 2 (term 1 0 random packets 0 o)) back);
}
  where
    coefficients : (x : ℕ) → x < 2 → frame (3 + x) ≡ random x
    coefficients zero h = refl
    coefficients (suc zero) h = refl
    coefficients (suc (suc x)) h = absurd (omega arith)

abbrev slot : ℕ → Option Packet
slot zero = some (record { len = 7; content = λ o. (17 * (o - 3) + 3) % 256 })
slot (suc zero) = some (record { len = 9; content = frame })
slot (suc (suc i)) = none

abbrev slots : Slots
slots = record { is_sys = λ i. i == 0; skb = slot; queue = [] }

slots-IsReceived :
    IsReceived false 1 42 (4 * 1) packets (λ i. random) slots.is_sys (frames_of slots)
slots-IsReceived = record { whole = whole; sums = sums }
  where
    whole :
        (i : ℕ)
        → i < 2
        → (i == 0) ≡ true
        → (y : ℕ) → y < 4
        → frames_of slots i (3 + y) ≡ original_of false packets i y
    whole zero h s y below =
        let back : 3 + y - 3 ≡ 0 + y = omega arith in ap (λ o. (17 * o + 3) % 256) back
    whole (suc i) h s y below = absurd (ground (arith, s))

    sums :
        (i : ℕ)
        → i < 2
        → (i == 0) ≡ false
        → IsFrame false 1 42 (4 * 1) random packets (frames_of slots i)
    sums zero h s = absurd (ground (arith, s))
    sums (suc zero) h s = frame-IsFrame
    sums (suc (suc i)) h s = absurd (omega arith)

abbrev stack : Stack
stack = record {
  coefficient = λ r c. 0;
  u = λ r c. 0;
  l = λ r c. 0;
  work = record { b = λ r. 0; t = λ r. 0; y = λ r. 0; x = λ r. 0; newskb = λ j o. 0 };
}

frame_bytes : (o : ℕ) → IsByte (frame o)
frame_bytes o =
    let sum : IsByte (xsum 2 (term 1 0 random packets 0 (o - 5))) =
      xsum-IsByte 2 _ (λ c h. xsum-IsByte 1 _ (λ j m. gmul-IsByte _ _)) in
    ground (arith, sum)

slots-HasBytes : HasBytes stack slots
slots-HasBytes = record {
  coefficient = λ r c. omega arith;
  u = λ r c. omega arith;
  l = λ r c. omega arith;
  frames = bytes;
}
  where
    bytes : AllBytes (frames_of slots)
    bytes zero c = omega arith
    bytes (suc zero) c = frame_bytes c
    bytes (suc (suc r)) c = omega arith

packets_bytes : AllBytes (original_of false packets)
packets_bytes zero y = omega arith
packets_bytes (suc zero) y = omega arith
packets_bytes (suc (suc c)) y = omega arith

diagonal : let f = lu_fac 2 2 (lu_start stack 2 1 slots) in (f.u 0 0 ≡ 1) × (f.u 1 1 ≡ 6)
unfolding lu_fac lu_init column_step row_step eliminate swap_rows swap_cells swap_pivot find_change
    clear_cell for_range gmul gdiv gsub gmul_inverse log antilog fill_coefficients systematic_rows
    coded_rows
diagonal = (refl, refl)

regular : (r : ℕ) → r < 2 * 1 → (lu_fac (2 * 1) (2 * 1) (lu_start stack 2 1 slots)).u r r ≢ 0
regular zero h = λ e. omega (arith, diagonal.0, e)
regular (suc zero) h = λ e. omega (arith, diagonal.1, e)
regular (suc (suc r)) h = absurd (omega arith)

decode_slots-Restored_example :
    (new : List Packet) × (decode_slots stack 2 1 slots ≡ decoded new)
    × Restored slots.is_sys (4 * 1) (lengths_of slots) (original_of false packets) 2 0 new
decode_slots-Restored_example =
    decode_slots-Restored false 1 42 4 packets (λ i. random) stack slots (omega arith)
      slots-IsReceived slots-HasBytes packets_bytes refl (omega arith) regular

abbrev uneven : List Packet
uneven =
    record { len = 4; content = λ o. o % 256 } ∷ record { len = 5; content = λ o. o % 256 } ∷ []

make_skb_new-runs_on_example : make_skb_new 1000 true true (λ o. 0) random uneven 1 3 ≡ runs_on
make_skb_new-runs_on_example =
    make_skb_new-runs_on 1000 true (λ o. 0) random uneven 1 3 1 (omega arith) (omega arith)
      (omega arith) (omega arith)

abbrev stray : Packet
stray = record { len = 9; content = λ o. 8 }

-- The second of two packets calls itself the third of two; the first is coded.
skbs_decoding-faults_example :
    skbs_decoding stack (record { len = 9; content = λ o. 252 } ∷ stray ∷ []) 9 ≡ faults
skbs_decoding-faults_example =
    skbs_decoding-faults stack (record { len = 9; content = λ o. 252 } ∷ []) stray [] 9
      (omega arith) (inl (refl, tt)) (omega arith) (omega arith)
