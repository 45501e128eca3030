-- ===== src/Tests/Pipes.antt =====
-- Examples of the theorems about frames, pipes and the risk gateway.
use longtrader.Prelude.{
  ℕ, ◌==◌, ◌≡◌, refl, Bool, false, Option, none, some, String, List, [], ◌∷◌, ◌++◌, take, Result,
  ok, is_ok, arith,
}
use longtrader.Ports.{PortError, drop_oldest, block}
use longtrader.Contract.Envelope.{encode_envelope, decode_envelope_result, to_be_bytes}
use longtrader.Contract.Envelope.Framing.{decode-encode, decode_cut}
use longtrader.Overflow.{Pipe}
use longtrader.Session.Policy.{known}
use longtrader.Risk.Gate.{RiskGate}
use longtrader.Risk.Gateway.{OrderRequest, VenueOrder, CreateOrderRequest, CreateOrdersRequest, buy}
use longtrader.Risk.Gateway.Guarded.{Guarded}
use longtrader.Tests.Gating.{strict, full}

abbrev framed : List ℕ
framed = 2 ∷ 0 ∷ 0 ∷ 0 ∷ 2 ∷ 7 ∷ 9 ∷ []

decode-encode_example : decode_envelope_result (framed ++ (1 ∷ [])) ≡ ok (2, 7 ∷ 9 ∷ [], 7)
unfolding encode_envelope to_be_bytes
decode-encode_example = decode-encode 2 (7 ∷ 9 ∷ []) (1 ∷ []) framed refl

decode_cut_example : is_ok (decode_envelope_result (take 6 framed)) ≡ false
unfolding encode_envelope to_be_bytes
decode_cut_example = decode_cut 2 (7 ∷ 9 ∷ []) framed 6 refl (omega arith)

abbrev same_key : ℕ → ℕ → Bool
same_key a b = a == b

abbrev key : ℕ → ℕ
key n = n

abbrev pipe_of : Pipe ℕ ℕ
pipe_of = record {
  buf = (1, 1) ∷ (2, 2) ∷ [];
  cap = 2;
  policy = drop_oldest;
  source_closed = false;
  queued = [];
  received = [];
  receiver_gone = false;
}

-- A receiver that takes out one item whenever a send waits.
abbrev one_each : Pipe ℕ ℕ → ℕ
one_each p = 1

abbrev direct : Pipe ℕ ℕ
direct = record pipe_of { buf = []; policy = block }

abbrev reads_three : String → Option ℕ
reads_three s = some 3

abbrev ask : OrderRequest
ask = record { symbol = "BTC"; side = known buy; amount = some "3"; price = none }

abbrev gate : RiskGate ℕ
gate = record { limits = strict; bucket = full }

abbrev no_orders : Result PortError (List VenueOrder)
no_orders = ok []

abbrev placed : Result PortError ℕ
placed = ok 1

abbrev single : CreateOrderRequest
single = record { exchange_id = none; order = some ask }

abbrev several : CreateOrdersRequest
several = record { exchange_id = none; orders = ask ∷ [] }
