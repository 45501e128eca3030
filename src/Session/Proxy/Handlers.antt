-- ===== src/Session/Proxy/Handlers.antt =====
-- The proxy's handlers for single orders, conditional orders and the wallet
-- (bin/longtrader-worker/src/session/proxy.rs), over ports with a state of their own. A backend may lack
-- a port.
use longtrader.Prelude.{
  ℕ, Option, none, some, String, List, [], ◌∷◌, map, length, min, Result, ok, err,
}
use longtrader.Ports.{ExchangeId, PortError}
use longtrader.Numbers.{Numbers}
use longtrader.Session.Errors.{ManagerError, port}
use longtrader.Session.Venue.{Cancels}
use longtrader.Session.Gate.{Order}
use longtrader.Session.Manager.{SessionManager}
use longtrader.Session.Proxy.{ProxyCall, Meanwhile, gate_submission, resolved_exchange, attribute}
use longtrader.Session.Proxy.Errors.{ErrorCode, ConnectError, map_port, not_implemented}
use longtrader.Session.Proxy.Unified.{
  UnifiedLedgerEntry, UnifiedTriggerRequest, UnifiedTriggerOrder, pagination_limit,
  ledger_entry_to_unified, required_decimal, trigger_request_from_unified, trigger_order_to_unified,
}
use longtrader.Adapters.Wallet.{LedgerEntry, TransferReceipt, TransferRequest}
use longtrader.Adapters.Triggers.{TriggerOrder, TriggerOrderRequest}

-- A handler's error: the gate's, or one with a code.
pub data ProxyError : Type 0 where
  gate_refused : ManagerError → ProxyError
  refused : ConnectError → ProxyError

-- What a single order leaves: the registry, the unwinding calls, and the reply.
unfoldable pub create_single_order :
    Cancels
    → Meanwhile
    → Result PortError Order
    → String
    → SessionManager
    → SessionManager × List ProxyCall × Result ManagerError Order
unfolding gate_submission attribute
create_single_order answers meanwhile created session_id m =
    elim (gate_submission (some m) session_id) [
      | err e ↦ (m, [], err e)
      | ok session ↦
          let (m', session') = meanwhile m session in
          elim created [
            | err e ↦ (m', [], err (port e))
            | ok order ↦
                let out = attribute answers m' session' (order ∷ []) in (out.0, out.1, ok order)
          ]
    ]

pub record TriggerOrderGateway (A S : Type 0) : Type 0 where
  pub place_trigger : S → ExchangeId → TriggerOrderRequest A → S × Result PortError (TriggerOrder A)
  pub cancel_trigger : S → ExchangeId → String → S × Result PortError (TriggerOrder A)
  pub list_triggers : S → ExchangeId → List String → Result PortError (List (TriggerOrder A))

pub record WalletGateway (A S : Type 0) : Type 0 where
  pub ledger : S → ExchangeId → String → String → ℕ → Result PortError (List (LedgerEntry A))
  pub send : S → ExchangeId → TransferRequest A → S × Result PortError (TransferReceipt A)

-- `trading.v1.TransferRequest`
pub record UnifiedTransferRequest : Type 0 where
  pub exchange_id : Option ExchangeId
  pub asset : String
  pub amount : Option String
  pub dest_label : String
  pub client_transfer_id : String
  pub session_id : String

pub record UnifiedTransferReply : Type 0 where
  pub transfer_id : String
  pub entry : Option UnifiedLedgerEntry

-- A port's answer as a handler's reply.
abbrev pub port_reply {ℓ κ} :
    {A : Type ℓ} {B : Type κ}
    → (ℕ → Option ErrorCode)
    → (A → B)
    → Result PortError A
    → Result ProxyError B
port_reply from_grpc_code f (err e) = err (refused (map_port from_grpc_code e))
port_reply from_grpc_code f (ok a) = ok (f a)

abbrev pub port_transfer : {A : Type 0} → UnifiedTransferRequest → A → TransferRequest A
port_transfer req amount = record {
  asset = req.asset;
  amount = amount;
  dest_label = req.dest_label;
  client_transfer_id = req.client_transfer_id;
}

module _ (N : Numbers) (print : N.Decimal → String) (parse : String → Option N.Decimal) where
  unfoldable pub transfer_reply : TransferReceipt N.Decimal → UnifiedTransferReply
  unfolding ledger_entry_to_unified
  transfer_reply receipt = record {
    transfer_id = receipt.transfer_id;
    entry = elim receipt.entry [
      | none ↦ none
      | some e ↦ some (ledger_entry_to_unified N print parse e)
    ];
  }

module _ (N : Numbers) (print : N.Decimal → String) (parse : String → Option N.Decimal)
    (from_grpc_code : ℕ → Option ErrorCode) (default_exchange : ExchangeId) {S : Type 0} where
  -- The gate comes before the validation, and the validation before the venue.
  unfoldable pub forward_trigger_order :
      Option (TriggerOrderGateway N.Decimal S)
      → Option SessionManager
      → S
      → Option ExchangeId
      → String
      → Option UnifiedTriggerRequest
      → S × Result ProxyError UnifiedTriggerOrder
  unfolding map_port trigger_request_from_unified trigger_order_to_unified gate_submission
  forward_trigger_order none m s exchange session_id req =
      (s, err (refused (not_implemented "conditional orders")))
  forward_trigger_order (some triggers) m s exchange session_id req =
      elim (gate_submission m session_id) [
        | err e ↦ (s, err (gate_refused e))
        | ok session ↦ elim (trigger_request_from_unified N print parse req) [
          | err e ↦ (s, err (refused e))
          | ok order ↦
              let r =
                triggers.place_trigger s (resolved_exchange exchange default_exchange) order in
              (r.0, port_reply from_grpc_code (trigger_order_to_unified N print parse) r.1)
        ]
      ]

  unfoldable pub forward_trigger_cancel :
      Option (TriggerOrderGateway N.Decimal S)
      → S
      → Option ExchangeId
      → String
      → S × Result ProxyError UnifiedTriggerOrder
  unfolding map_port trigger_order_to_unified
  forward_trigger_cancel none s exchange order_id =
      (s, err (refused (not_implemented "conditional orders")))
  forward_trigger_cancel (some triggers) s exchange order_id =
      let r = triggers.cancel_trigger s (resolved_exchange exchange default_exchange) order_id in
      (r.0, port_reply from_grpc_code (trigger_order_to_unified N print parse) r.1)

  unfoldable pub forward_trigger_list :
      Option (TriggerOrderGateway N.Decimal S)
      → S
      → Option ExchangeId
      → List String
      → Result ProxyError (List UnifiedTriggerOrder)
  unfolding map_port trigger_order_to_unified
  forward_trigger_list none s exchange symbols =
      err (refused (not_implemented "conditional orders"))
  forward_trigger_list (some triggers) s exchange symbols =
      port_reply from_grpc_code (map (trigger_order_to_unified N print parse))
        (triggers.list_triggers s (resolved_exchange exchange default_exchange) symbols)

  -- The entries and their number.
  unfoldable pub fetch_ledger_entries :
      Option (WalletGateway N.Decimal S)
      → S
      → Option ExchangeId
      → String
      → String
      → Option ℕ
      → Result ProxyError (List UnifiedLedgerEntry × ℕ)
  unfolding map_port pagination_limit ledger_entry_to_unified
  fetch_ledger_entries none s exchange currency entry_type limit =
      err (refused (not_implemented "wallet ledger"))
  fetch_ledger_entries (some wallet) s exchange currency entry_type limit =
      port_reply from_grpc_code
        (λ (es : List (LedgerEntry N.Decimal)).
          (map (ledger_entry_to_unified N print parse) es, min (length es) 4294967295))
        (wallet.ledger s (resolved_exchange exchange default_exchange) currency entry_type
          (pagination_limit limit))

  unfoldable pub forward_transfer :
      Option (WalletGateway N.Decimal S)
      → Option SessionManager
      → S
      → UnifiedTransferRequest
      → S × Result ProxyError UnifiedTransferReply
  unfolding map_port required_decimal transfer_reply gate_submission
  forward_transfer none m s req = (s, err (refused (not_implemented "transfers")))
  forward_transfer (some wallet) m s req = elim (gate_submission m req.session_id) [
    | err e ↦ (s, err (gate_refused e))
    | ok session ↦ elim (required_decimal N print parse "amount is required" req.amount) [
      | err e ↦ (s, err (refused e))
      | ok amount ↦
          let exchange = resolved_exchange req.exchange_id default_exchange in
          let r = wallet.send s exchange (port_transfer req amount) in
          (r.0, port_reply from_grpc_code (transfer_reply N print parse) r.1)
    ]
  ]
