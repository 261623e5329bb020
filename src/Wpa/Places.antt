-- ===== src/Wpa/Places.antt =====
-- wpa.c: where the parts of a frame stand before and after its bytes are moved.
use mac.Base.{
  ℕ, ◌+◌, ◌-◌, ◌≤◌, ◌≡◌, refl, sym, ◌∙◌, ap, arith, List, [], ◌++◌, length, slice, take, drop,
  overwrite, length-append, take-append, drop-append, slice-append_mid, overwrite-append,
  drop-append_le, drop-append_add, take-append-slice, length-take,
}
use mathlib.Core.List.{append_assoc, append-nil}
use mac.Wpa.{memmove}

pub take_twelve : (a b c : List ℕ) → length a ≡ 6 → length b ≡ 6 → take 12 (a ++ (b ++ c)) ≡ a ++ b
take_twelve a b c e f =
    rw (← append_assoc a b c) (take-append (a ++ b) c 12 (omega (arith, length-append a b)))

-- The header is moved to the front, and back.
pub move_front :
    (junk h body : List ℕ) (n : ℕ)
    → length junk ≡ 8
    → n ≡ length h
    → memmove 0 8 n (junk ++ (h ++ body)) ≡ h ++ (drop n (junk ++ h) ++ body)
move_front junk h body n eight e = rw (slice-append_mid junk h body 8 n (sym eight) e) (
    rw (← append_assoc junk h body) (
      let count : 0 + length h ≡ n = omega arith in
      rw (count, drop-append_le (junk ++ h) body n (omega (arith, length-append junk h))) refl))

pub move_back :
    (h pn body : List ℕ) (n : ℕ)
    → length pn ≡ 8
    → n ≡ length h
    → drop 8 (memmove 8 0 n (h ++ (pn ++ body))) ≡ h ++ body
move_back h pn body n eight e =
    let front = take-append h (pn ++ body) n e in
    let frame : List ℕ = h ++ (pn ++ body) in
    let long : 8 ≤ length frame =
      omega (arith, length-append h (pn ++ body), length-append pn body) in
    rw (front) (
      rw
        (drop-append (take 8 frame) (h ++ drop (8 + length h) frame) 8
          (sym (length-take 8 frame long)))
        (let count : 8 + length h ≡ length h + 8 = omega arith in
          rw
            (
              count,
              drop-append_add h (pn ++ body) (length h) 8 refl,
              drop-append pn body 8 (sym eight),
            )
            refl))

-- The encrypted text is written over the body, and the code behind it.
pub seal_body :
    (xs body out : List ℕ) (start m : ℕ)
    → start ≡ length xs
    → length out ≡ length body + m
    → overwrite start (take (length body) out) (xs ++ body) ++ slice (length body) m out ≡ xs ++ out
seal_body xs body out start m e size =
    let n : ℕ = length body in
    let text : length (take n out) ≡ n = length-take n out (omega arith) in
    let end : drop n body ≡ [] = ap (drop n) (sym (append-nil body)) ∙ drop-append body [] n refl in
    rw
      (
        take-append xs body start e,
        drop-append_add xs body start (length (take n out)) e,
        text,
        end,
      )
      (rw
        (
          append-nil (take n out),
          append_assoc xs (take n out) (slice n m out),
          take-append-slice out n m size,
        )
        refl)

-- The text and the code of a received frame.
pub open_body :
    (xs out : List ℕ) (start n m : ℕ)
    → start ≡ length xs
    → length out ≡ n + m
    → (slice start (length (xs ++ out) - start - m) (xs ++ out) ≡ take n out)
      × (slice (length (xs ++ out) - m) m (xs ++ out) ≡ slice n m out)
open_body xs out start n m e size =
    let both = length-append xs out in
    let text : length (xs ++ out) - start - m ≡ n = omega arith in
    let code : length (xs ++ out) - m ≡ start + n = omega arith in
    (rw (text, drop-append xs out start e) refl, rw (code, drop-append_add xs out start n e) refl)

-- The decrypted text in its place.
pub write_body :
    (xs body out : List ℕ) (start m : ℕ)
    → start ≡ length xs
    → length out ≡ length body + m
    → overwrite start body (xs ++ out) ≡ xs ++ (body ++ slice (length body) m out)
write_body xs body out start m e size =
    let n : ℕ = length body in
    rw (← take-append-slice out n m size) (
      rw
        (overwrite-append xs (take n out) body (slice n m out) start e
          (sym (length-take n out (omega arith))))
        (rw (take-append-slice out n m size) refl))
