-- ===== src/Session/Proxy/Retried.antt =====
-- A transfer that a client retries through the proxy (bin/longtrader-worker/src/session/proxy.rs) in front
-- of the mock wallet (bin/longtrader-worker/src/adapters/mock.rs).
use longtrader.Prelude.{
  ◌≡◌, refl, ap, ◌∙◌, ℕ, false, Option-cases, Result-cases, inl, inr, Option, none, some, String,
  List, str_eq, Result, ok, err, arith,
}
use longtrader.Prelude.Int.{ℤ}
use longtrader.Ports.{ExchangeId, PortError}
use longtrader.Numbers.{Numbers}
use longtrader.Session.Handle.{SessionHandle}
use longtrader.Session.Manager.{SessionManager}
use longtrader.Session.Proxy.{gate_submission}
use longtrader.Session.Proxy.Errors.{ErrorCode}
use longtrader.Session.Proxy.Unified.{required_decimal}
use longtrader.Session.Proxy.Handlers.{
  ProxyError, WalletGateway, UnifiedTransferRequest, UnifiedTransferReply, port_reply,
  port_transfer, transfer_reply, forward_transfer,
}
use longtrader.Adapters.Wallet.{
  TransferReceipt, TransferRequest, Wallet, transfer, check_transfer, list_ledger_entries,
}
use longtrader.Adapters.Wallet.Idempotent.{WalletCall, after, transfer_once}

module _ (N : Numbers) (transfer_name : ℕ → String) where
  -- The mock wallet at an instant, as the port that the proxy forwards to.
  abbrev pub mock_wallet : ℤ → WalletGateway N.Decimal (Wallet N transfer_name)
  mock_wallet now = record {
    ledger = λ s e currency entry_type limit. ok (list_ledger_entries s currency entry_type limit);
    send = λ s e req. transfer N transfer_name s now req;
  }

  -- A transfer that succeeds passed the checks.
  transfer_checked :
      (s : Wallet N transfer_name) (now : ℤ) (req : TransferRequest N.Decimal)
      (r : TransferReceipt N.Decimal)
      → (transfer N transfer_name s now req).1 ≡ ok r
      → check_transfer N transfer_name req ≡ none
  unfolding transfer
  transfer_checked s now req r h = elim (Option-cases (check_transfer N transfer_name req)) [
    | inl good ↦ good
    | inr (e, bad) ↦ absurd (ground (arith, rw (bad, transfer) at h))
  ]

  module _ (print : N.Decimal → String) (parse : String → Option N.Decimal)
      (from_grpc_code : ℕ → Option ErrorCode) (default_exchange : ExchangeId) where
    -- The handler in front of the mock wallet.
    abbrev pub forwarded :
        ℤ
        → Option SessionManager
        → Wallet N transfer_name
        → UnifiedTransferRequest
        → Wallet N transfer_name × Result ProxyError UnifiedTransferReply
    forwarded now m s req =
        forward_transfer N print parse from_grpc_code default_exchange (some (mock_wallet now)) m s
          req

    abbrev pub answered :
        Wallet N transfer_name × Result PortError (TransferReceipt N.Decimal)
        → Wallet N transfer_name × Result ProxyError UnifiedTransferReply
    answered r = (r.0, port_reply from_grpc_code (transfer_reply N print parse) r.1)

    forwarded_open :
        (now : ℤ) (m : Option SessionManager) (session : Option SessionHandle)
        (s : Wallet N transfer_name) (req : UnifiedTransferRequest) (amount : N.Decimal)
        → gate_submission m req.session_id ≡ ok session
        → required_decimal N print parse "amount is required" req.amount ≡ ok amount
        → forwarded now m s req
          ≡ answered (transfer N transfer_name s now (port_transfer req amount))
    unfolding forward_transfer
    forwarded_open now m session s req amount passed read = rw (passed, forward_transfer, read) refl

    -- What a handler that answers was given.
    forwarded_passed :
        (now : ℤ) (m : Option SessionManager) (s : Wallet N transfer_name)
        (req : UnifiedTransferRequest) (reply : UnifiedTransferReply)
        → (forwarded now m s req).1 ≡ ok reply
        → ((session : Option SessionHandle) × (gate_submission m req.session_id ≡ ok session))
          × ((amount : N.Decimal) × (required_decimal N print parse "amount is required" req.amount
                ≡ ok amount))
    unfolding forward_transfer
    forwarded_passed now m s req reply h = elim (Result-cases (gate_submission m req.session_id)) [
      | inr (e, closed) ↦ absurd (ground (arith, rw (closed, forward_transfer) at h))
      | inl (session, passed) ↦
          elim (Result-cases (required_decimal N print parse "amount is required" req.amount)) [
            | inr (e, bad) ↦ absurd (ground (arith, rw (passed, forward_transfer, bad) at h))
            | inl (amount, read) ↦ ((session, passed), (amount, read))
          ]
    ]

    answered_ok :
        (r : Result PortError (TransferReceipt N.Decimal)) (reply : UnifiedTransferReply)
        → port_reply from_grpc_code (transfer_reply N print parse) r ≡ ok reply
        → (receipt : TransferReceipt N.Decimal) × (r ≡ ok receipt)
    answered_ok (ok receipt) reply h = (receipt, refl)
    answered_ok (err e) reply h = absurd (ground (arith, h))

    -- If a transfer under a key is answered through the proxy, then whatever deposits and transfers
    -- reach the wallet after it, the same request of a session that the gate still lets through gets
    -- the same reply, and moves nothing.
    pub forward_transfer_once :
        (m m' : Option SessionManager) (session : Option SessionHandle) (s : Wallet N transfer_name)
        (now later : ℤ) (req : UnifiedTransferRequest) (cs : List (WalletCall N.Decimal))
        (reply : UnifiedTransferReply)
        → str_eq req.client_transfer_id "" ≡ false
        → gate_submission m' req.session_id ≡ ok session
        → (forwarded now m s req).1 ≡ ok reply
        → let s' = after N transfer_name (forwarded now m s req).0 cs in
          forwarded later m' s' req ≡ (s', ok reply)
    forward_transfer_once m m' session s now later req cs reply given passed h =
        let (before, (amount, read)) = forwarded_passed now m s req reply h in
        let order = port_transfer req amount in
        let first = forwarded_open now m before.0 s req amount before.1 read in
        let told : (answered (transfer N transfer_name s now order)).1 ≡ ok reply = rw first at h in
        let (receipt, done) = answered_ok (transfer N transfer_name s now order).1 reply told in
        let good = transfer_checked s now order receipt done in
        let once =
          transfer_once N transfer_name s now later order order receipt cs given done refl good in
        let s' = after N transfer_name (transfer N transfer_name s now order).0 cs in
        let again = forwarded_open later m' session s' req amount passed read in
        rw first (again ∙ ap answered once ∙ ap (λ a. (s', a)) (rw done at told))
