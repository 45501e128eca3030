-- ===== src/Lib.antt =====
-- The worker of LongTrader: the control plane of its strategy sessions, its risk gate, the pipes and
-- frames that carry its streams, its mock venue, its indicators and some of its strategies.
--
-- A strategy attaches to the worker, reconciles with the venue, and may then submit orders as long as
-- it sends heartbeats. A watchdog ends sessions whose lease has run out, and cancels their orders. A
-- pre-trade gate measures submissions against limits before they reach the venue. Strategies run over
-- the ports of a venue, of which the mock is one implementation.
--
-- Files, by the part of the program (paths without a directory are in bin/longtrader-worker/src):
--   Prelude, Prelude/*        the helpers that all modules share
--   Ports                     ports.rs: venue identity, errors, sequence gaps, overflow policies
--   Session/State             session/state.rs: `SessionState`
--   Session/Lease             session/lease.rs: `lease_timeout_from_proto`, `default_lease`
--   Session/Policy            session/mod.rs: `SessionPolicy`, `apply_policy`
--   Session/Handle            session/mod.rs: `SessionHandle` and its methods; session/events.rs
--   Session/Venue             the requests to the venue, and its answers to cancels
--   Session/Gate              session/gate.rs: gate, attribution, cancels, late unwind
--   Session/Lifecycle         session/lifecycle.rs and the kill switch of session/health.rs
--   Session/Race              `attribute` of session/proxy.rs against the kill switch
--   Session/Proxy             session/proxy.rs: gate, attribution, batches and their recovery; below it
--                             Errors, Unified and Handlers are the errors, conversions and other handlers
--   Session/Manager           the registry: session/mod.rs, session/lifecycle.rs
--   Session/Stream            `stream_strategy_events` of session/service.rs
--   Session/Watchdog          session/health.rs: probes and one pass of `watchdog_loop`
--   Session/Service           session/service.rs: the other handlers
--   Risk/Limits, Risk/Bucket, Risk/Gate    risk.rs: data, token bucket, `RiskGate::admit`
--   Risk/Gateway              risk.rs: `RiskGateway` in front of a venue
--   Overflow                  overflow.rs: `policy_channel`, `send`, `forward_loop`
--   Contract/Decimal          crates/longtrader-contract/src/ext.rs
--   Contract/Envelope         crates/longtrader-contract/src/envelope.rs
--   Numbers                   what the strategies and the indicators ask of the decimal crate
--   Clock                     session/time.rs
--   Adapters/Orders           the messages of the trading port, and the port
--   Adapters/Mock             adapters/mock.rs: the order book and the scripted failures
--   Adapters/Wallet           adapters/mock.rs: `WalletGateway`
--   Adapters/Triggers         adapters/mock.rs: `TriggerOrderGateway`
--   Strategies/Requests       strategies/mod.rs: `limit_order`, `market_order`
--   Strategies/Sentinel       strategies/sentinel/mod.rs: `tick`
--   Strategies/SimpleGrid     strategies/simple_grid/grid.rs; below it Saved is persistence.rs, Rebalance
--                             and Cycle are mod.rs
--   Strategies/Twap           strategies/twap_executor/mod.rs: `plan_twap`, `tick`
--   Indicators/*              the files of indicators/ of the same names; dema.rs is in Ema, keltner.rs in Atr
--   Tests, Tests/*            sample data and examples
-- The modules below these prove what their names say: Session/Lifecycle/Stop is about `stop_session`.
--
-- State. A `SessionHandle` of the source is shared by tasks and made of atomics and locked fields; here
-- it is one record, and a method returns the new record. The steps of an operation that other tasks may
-- interrupt take what those do as a function on the handle (`env`, `env'`), and the theorems say what
-- this interference has to keep. Session/Race has the interleavings as a step relation,
-- and Gaps of Session/Watchdog names the awaits of a watchdog pass.
--
-- Numbers. Unsigned integers are natural numbers with their wrap-around written out; signed ones are
-- those of Prelude/Int. Instants are nanoseconds of the monotonic clock, leases are milliseconds. The
-- event ring holds 1024 events. All functions are structurally recursive but one: the ladder loop of
-- the grid, which climbs while a price is below a bound, takes turns as fuel. It is given two more than
-- the configured levels, and it tests its length against that number.
--
-- Parameters. The venue's answers, generated ids, clocks and tokens are arguments. The decimal type of
-- the risk gate is a record of operations, of which the additions and products may panic, and its
-- parser is a function. That of the strategies and indicators is the record in Numbers, whose operations
-- give nothing where the crate's operators panic; what a theorem needs of their order is a record of
-- laws. How many items the receiver behind a pipe takes out
-- while a send waits for room is a function; a send that waits on gives nothing. A strategy takes its
-- venue, state store, ticker and client order ids as arguments.
--
-- Not modelled: the transport and its framing, the remote venue adapter and the synthetic market data of
-- the mock, the reading of configuration, the command line, the other strategies, the
-- state store's file operations, and the timers that call the operations.
pub mod Prelude
pub mod Ports
pub mod Numbers
pub mod Clock
pub mod Overflow
pub mod Contract
pub mod Session
pub mod Risk
pub mod Adapters
pub mod Indicators
pub mod Strategies
pub mod Tests
