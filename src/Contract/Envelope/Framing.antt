-- ===== src/Contract/Envelope/Framing.antt =====
-- Framing against unframing (crates/longtrader-contract/src/envelope.rs).
use longtrader.Prelude.{
  ℕ, zero, suc, ◌+◌, ◌/◌, ◌%◌, ◌<◌, ltb, length, length-append, length-take, take, ◌≡◌, refl, ap,
  true, false, some, List, [], ◌∷◌, ◌++◌, ok, is_ok, arith,
}
use longtrader.Contract.Envelope.{
  u32_limit, to_be_bytes, from_be_bytes, encode_envelope, decode_envelope_result,
}

from-to_be_bytes :
    (n : ℕ)
    → n < u32_limit
    → from_be_bytes ((n / 16777216) % 256) ((n / 65536) % 256) ((n / 256) % 256) (n % 256) ≡ n
from-to_be_bytes n h = omega arith

take-append : {A : Type 0} (xs ys : List A) → take (length xs) (xs ++ ys) ≡ xs
take-append [] ys = refl
take-append (x ∷ xs) ys = ap (λ r. x ∷ r) (take-append xs ys)

fits :
    (flags : ℕ) (payload : List ℕ) {frame : List ℕ}
    → encode_envelope flags payload ≡ some frame
    → (length payload < u32_limit) × (frame ≡ flags ∷ (to_be_bytes (length payload) ++ payload))
unfolding encode_envelope
fits flags payload e = ground arith

-- A frame that is followed by anything decodes to its flags and payload, and consumes just the frame.
pub decode-encode :
    (flags : ℕ) (payload rest frame : List ℕ)
    → encode_envelope flags payload ≡ some frame
    → decode_envelope_result (frame ++ rest) ≡ ok (flags, payload, length frame)
unfolding decode_envelope_result to_be_bytes
decode-encode flags payload rest frame e =
    let (short, shape) = fits flags payload e in
    let same = from-to_be_bytes (length payload) short in
    let total = length-append payload rest in
    let whole : ltb (length (payload ++ rest) + 5) (5 + length payload) ≡ false =
      ground (arith, total) in
    let counted : length frame ≡ 5 + length payload = rw shape (omega arith) in
    rw (counted, shape, same, whole, take-append payload rest) refl

cut_at :
    (flags : ℕ) (payload : List ℕ) (n : ℕ)
    → length payload < u32_limit
    → n < 5 + length payload
    → is_ok (decode_envelope_result (take n (flags ∷ (to_be_bytes (length payload) ++ payload))))
      ≡ false
unfolding decode_envelope_result to_be_bytes
cut_at flags payload zero short cut = refl
cut_at flags payload (suc zero) short cut = refl
cut_at flags payload (suc (suc zero)) short cut = refl
cut_at flags payload (suc (suc (suc zero))) short cut = refl
cut_at flags payload (suc (suc (suc (suc zero)))) short cut = refl
cut_at flags payload (suc (suc (suc (suc (suc n))))) short cut =
    let same = from-to_be_bytes (length payload) short in
    let left = length-take n payload in
    let lacks : ltb (length (take n payload) + 5) (5 + length payload) ≡ true =
      ground (arith, left) in
    rw (same, lacks) refl

-- A frame that is cut short anywhere does not decode.
pub decode_cut :
    (flags : ℕ) (payload frame : List ℕ) (n : ℕ)
    → encode_envelope flags payload ≡ some frame
    → n < length frame
    → is_ok (decode_envelope_result (take n frame)) ≡ false
unfolding decode_envelope_result to_be_bytes
decode_cut flags payload frame n e cut =
    let (short, shape) = fits flags payload e in
    let shorter : n < 5 + length payload = rw (← shown shape) cut in
    rw shape (cut_at flags payload n short shorter)
  where
    shown :
        frame ≡ flags ∷ (to_be_bytes (length payload) ++ payload)
        → length frame ≡ 5 + length payload
    shown shape = rw shape (omega arith)
