-- ===== src/Mnc/Stray.antt =====
-- mnc_rx.c, `skbs_decoding`: a packet that calls itself an original one of a number that there is not.
use mac.Base.{
  ℕ, zero, suc, ◌/◌, ◌≤◌, ◌<◌, ◌≡◌, ◌≢◌, refl, ap, arith, Bool, true, false, List, [], ◌∷◌, ◌++◌,
  leb, ◌==◌, length, none, some, inl, inr, ◌⊎◌,
}
use mac.Mnc.Queue.{Packet}
use mac.Mnc.Decode.Skbs.{Slots, Stack, faults, outside, update, place_systematic, skbs_decoding}

-- The number that a packet gives itself; 63 is that of a coded one.
abbrev pub number : Packet → ℕ
number skb = skb.content 2 / 4

-- Packets that are placed without an early return, where the slots `taken` are: each is coded, or is the first
-- of its number, which is below `k`.
abbrev pub Fits : ℕ → (ℕ → Bool) → List Packet → Type 0
Fits k taken [] = Unit {0}
Fits k taken (skb ∷ skbs) =
    ((number skb ≡ 63) × Fits k taken skbs)
    ⊎ ((number skb < k)
        × (number skb ≢ 63)
        × (taken (number skb) ≡ false)
        × Fits k (update taken (number skb) true) skbs)

append_assoc : (xs ys zs : List Packet) → (xs ++ ys) ++ zs ≡ xs ++ (ys ++ zs)
append_assoc [] ys zs = refl
append_assoc (x ∷ xs) ys zs = ap (λ r. x ∷ r) (append_assoc xs ys zs)

place_systematic-outside :
    (k left : ℕ) (s : Slots) (before : List Packet) (skb : Packet) (rest : List Packet)
    → length before < left
    → Fits k s.is_sys before
    → s.queue ≡ before ++ skb ∷ rest
    → k ≤ number skb
    → number skb ≢ 63
    → place_systematic k left s ≡ outside
unfolding place_systematic
place_systematic-outside k zero s before skb rest h fit e high ne = absurd (omega arith)
place_systematic-outside k (suc left) s [] skb rest h fit e high ne =
    let whole : (number skb == 63) ≡ false = ground (arith, ne) in
    let beyond : leb k (number skb) ≡ true = ground (arith, high) in rw (e, whole, beyond) refl
place_systematic-outside k (suc left) s (first ∷ before) skb rest h (inl (coded, fit)) e high ne =
    let whole : (number first == 63) ≡ true = ground (arith, coded) in
    rw (e, whole)
      (place_systematic-outside k left (record s { queue = (before ++ skb ∷ rest) ++ first ∷ [] })
        before skb (rest ++ first ∷ []) (omega arith) fit
        (append_assoc before (skb ∷ rest) (first ∷ [])) high ne)
place_systematic-outside k (suc left) s (first ∷ before) skb rest h (inr (below, own, free, fit)) e
      high ne =
    let whole : (number first == 63) ≡ false = ground (arith, own) in
    let inside : leb k (number first) ≡ false = ground (arith, below) in
    rw (e, whole, inside, free)
      (place_systematic-outside k left
        (record {
          is_sys = update s.is_sys (number first) true;
          skb = update s.skb (number first) (some first);
          queue = before ++ skb ∷ rest;
        })
        before skb rest (omega arith) fit refl high ne)

-- Let one of the first `k` waiting packets call itself the original packet of a number that is not below `k` and
-- is not 63, where each of the packets before it is coded, or is the first of its number, which is below `k`.
-- Then `skbs_decoding` accesses its arrays outside their bounds.
pub skbs_decoding-faults :
    (stack : Stack) (before : List Packet) (skb : Packet) (rest : List Packet) (kp : ℕ)
    → length before < kp / 4
    → Fits (kp / 4) (λ i. false) before
    → kp / 4 ≤ number skb
    → number skb ≢ 63
    → skbs_decoding stack (before ++ skb ∷ rest) kp ≡ faults
unfolding skbs_decoding
skbs_decoding-faults stack before skb rest kp h fit high ne =
    rw
      (
        skbs_decoding,
        place_systematic-outside (kp / 4) (kp / 4)
            (record { is_sys = λ i. false; skb = λ i. none; queue = before ++ skb ∷ rest }) before
            skb rest h fit refl high ne,
      )
      refl
