-- ===== src/Session/Venue.antt =====
-- What the session control plane asks of the venue (`TradingGateway`), and the venue's answers,
-- which are parameters of the model.
use longtrader.Prelude.{String}
use longtrader.Ports.{ExchangeId, PortError}

pub data VenueRequest : Type 0 where
  cancel_order : ExchangeId → String → VenueRequest
  cancel_all_orders : ExchangeId → VenueRequest
  sync_state : ExchangeId → VenueRequest

-- The outcome of one cancel under its time budget.
pub data CancelAnswer : Type 0 where
  acknowledged : CancelAnswer
  refused : PortError → CancelAnswer
  timed_out : CancelAnswer

-- The answers to the cancels of one call, by order id.
abbrev pub Cancels : Type 0
Cancels = String → CancelAnswer
