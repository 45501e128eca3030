-- ===== src/Ports.antt =====
-- Shared vocabulary of the ports (bin/longtrader-worker/src/ports.rs): venue identity, errors,
-- sequence gaps, page limits and overflow policies.

use longtrader.Prelude.{
  ℕ, ◌+◌, ◌%◌, min, Bool, false, not, Option, none, some, String, ◌==◌, if◌then◌else◌,
}

-- `common.v1.ExchangeId`
pub record ExchangeId : Type 0 where
  pub id : String
  pub label : String

unfoldable pub exchange_id : String → String → ExchangeId
exchange_id id label = record { id = id; label = label }

-- The out-of-range error's source, an error of the decimal library, is left out.
pub data DecimalConvertError : Type 0 where
  empty : DecimalConvertError
  not_base10 : String → String → DecimalConvertError
  out_of_range : String → DecimalConvertError

pub data PortError : Type 0 where
  transport : String → PortError
  rpc : ℕ → String → PortError
  unsupported : String → PortError
  missing_field : String → PortError
  invalid_argument : String → PortError
  not_found : String → PortError
  decimal : DecimalConvertError → PortError

abbrev pub u32_mod : ℕ
u32_mod = 4294967296

abbrev pub u64_mod : ℕ
u64_mod = 18446744073709551616

-- `next != prev.wrapping_add(1)`
unfoldable pub is_sequence_gap : ℕ → ℕ → Bool
is_sequence_gap prev next = not (next == ((prev + 1) % u64_mod))

-- `none` is the absence of an earlier watermark; the header is given by its sequence.
unfoldable pub has_sequence_gap : Option ℕ → ℕ → Bool
unfolding is_sequence_gap
has_sequence_gap none sequence = false
has_sequence_gap (some p) sequence = if sequence == 0 then false else is_sequence_gap p sequence

pub data OverflowPolicy : Type 0 where
  drop_oldest coalesce block : OverflowPolicy

abbrev pub overflow_ticker : OverflowPolicy
overflow_ticker = drop_oldest

abbrev pub overflow_orderbook : OverflowPolicy
overflow_orderbook = coalesce

abbrev pub overflow_orders : OverflowPolicy
overflow_orders = block

abbrev pub default_page_limit : ℕ
default_page_limit = 100

abbrev pub max_page_limit : ℕ
max_page_limit = 1000

unfoldable pub page_limit_or_default : ℕ → ℕ
page_limit_or_default limit = if limit == 0 then default_page_limit else min limit max_page_limit

-- `market.v1.StreamChannel`; a channel number that the build does not know reaches the code as
-- `channel_unspecified`.
pub data StreamChannel : Type 0 where
  channel_unspecified ticker orderbook trades ohlcv : StreamChannel

unfoldable pub overflow_policy_for_channel : StreamChannel → OverflowPolicy
overflow_policy_for_channel orderbook = overflow_orderbook
overflow_policy_for_channel ticker = overflow_ticker
overflow_policy_for_channel trades = overflow_ticker
overflow_policy_for_channel ohlcv = overflow_ticker
overflow_policy_for_channel channel_unspecified = overflow_orders
