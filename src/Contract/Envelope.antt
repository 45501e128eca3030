-- ===== src/Contract/Envelope.antt =====
-- The framing of stream messages (crates/longtrader-contract/src/envelope.rs). Bytes are numbers
-- below 256; offsets are those of a 64-bit machine, where five bytes and a u32 never overflow.
pub mod Framing
use longtrader.Prelude.{
  ℕ, ◌+◌, ◌*◌, ◌/◌, ◌%◌, ◌<◌, ◌≤◌, ltb, length, take, drop, ◌≡◌, refl, sym, ap, ◌∙◌, Bool, true,
  false, Option, none, some, List, [], ◌∷◌, ◌++◌, Result, ok, err, if◌then◌else◌, arith,
}

abbrev pub u32_limit : ℕ
u32_limit = 4294967296

-- `len.to_be_bytes()`
unfoldable pub to_be_bytes : ℕ → List ℕ
to_be_bytes len = (len / 16777216) % 256 ∷ (len / 65536) % 256 ∷ (len / 256) % 256 ∷ len % 256 ∷ []

-- `u32::from_be_bytes`
abbrev pub from_be_bytes : ℕ → ℕ → ℕ → ℕ → ℕ
from_be_bytes a b c d = a * 16777216 + b * 65536 + c * 256 + d

-- `none` is the panic on a payload that is too long to be framed.
unfoldable pub encode_envelope : ℕ → List ℕ → Option (List ℕ)
unfolding to_be_bytes
encode_envelope flags payload =
    if ltb (length payload) u32_limit
    then some (flags ∷ (to_be_bytes (length payload) ++ payload))
    else none

pub data EnvelopeError : Type 0 where
  too_short : EnvelopeError
  truncated : ℕ → ℕ → EnvelopeError

-- The flags, the payload and the number of bytes consumed; shorter buffers have no whole header.
unfoldable pub decode_envelope_result : List ℕ → Result EnvelopeError (ℕ × List ℕ × ℕ)
decode_envelope_result (flags ∷ a ∷ b ∷ c ∷ d ∷ rest) =
    let len : ℕ = from_be_bytes a b c d in
    if ltb (length rest + 5) (5 + len)
    then err (truncated (5 + len) (length rest + 5))
    else ok (flags, take len rest, 5 + len)
decode_envelope_result _ = err too_short

unfoldable pub decode_envelope : List ℕ → Result EnvelopeError (ℕ × List ℕ × ℕ)
unfolding decode_envelope_result
decode_envelope buf = decode_envelope_result buf
