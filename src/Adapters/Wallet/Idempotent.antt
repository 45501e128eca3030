-- ===== src/Adapters/Wallet/Idempotent.antt =====
-- A transfer under a key moves funds once (bin/longtrader-worker/src/adapters/mock.rs).
use longtrader.Prelude.{
  ◌≡◌, refl, ap, ◌∙◌, ℕ, false, Bool-cases, Option-cases, inl, inr, Option, none, some, String,
  List, [], ◌∷◌, ◌++◌, str_eq, eq_iff, Result, ok, err, arith,
}
use longtrader.Prelude.Int.{ℤ}
use longtrader.Numbers.{Numbers}
use longtrader.Adapters.Wallet.{
  LedgerEntry, TransferReceipt, TransferRequest, Wallet, push_deposit, find_receipt, earlier,
  check_transfer, transfer_id, move_funds, transfer,
}

-- What may happen between two transfers.
pub data WalletCall (A : Type 0) : Type 0 where
  deposit : LedgerEntry A → WalletCall A
  move : ℤ → TransferRequest A → WalletCall A

module _ (N : Numbers) (transfer_name : ℕ → String) where
  -- The wallet after some calls.
  abbrev pub after : Wallet N transfer_name → List (WalletCall N.Decimal) → Wallet N transfer_name
  after s [] = s
  after s (deposit e ∷ cs) = after (push_deposit e s) cs
  after s (move now req ∷ cs) = after (transfer N transfer_name s now req).0 cs

abbrev success : {E A : Type 0} → Result E A → Option A
success (ok a) = some a
success (err e) = none

find_receipt-append :
    {A : Type 0} (key : String) (rs more : List (String × TransferReceipt A))
    (r : TransferReceipt A)
    → find_receipt key rs ≡ some r
    → find_receipt key (rs ++ more) ≡ some r
unfolding find_receipt
find_receipt-append key [] more r h = absurd (ground (arith, h))
find_receipt-append key ((k, q) ∷ rs) more r h = elim (Bool-cases (str_eq q.transfer_id key)) [
  | inl same ↦ rw same (rw same at h)
  | inr other ↦ rw other (find_receipt-append key rs more r (rw other at h))
]

find_receipt-new :
    {A : Type 0} (key : String) (rs : List (String × TransferReceipt A)) (r : TransferReceipt A)
    → find_receipt key rs ≡ none
    → r.transfer_id ≡ key
    → find_receipt key (rs ++ (key, r) ∷ []) ≡ some r
unfolding find_receipt
find_receipt-new key [] r h e = rw ((eq_iff r.transfer_id key).1 e) refl
find_receipt-new key ((k, q) ∷ rs) r h e = elim (Bool-cases (str_eq q.transfer_id key)) [
  | inl same ↦ absurd (ground (arith, rw same at h))
  | inr other ↦ rw other (find_receipt-new key rs r (rw other at h) e)
]

module _ (N : Numbers) (transfer_name : ℕ → String) where
  move_keeps :
      (s : Wallet N transfer_name) (now : ℤ) (req : TransferRequest N.Decimal) (key : String)
      (r : TransferReceipt N.Decimal)
      → earlier s key ≡ some r
      → earlier (move_funds N transfer_name s now req).0 key ≡ some r
  unfolding earlier move_funds
  move_keeps s now req key r h = elim (Bool-cases (str_eq key "")) [
    | inl blank ↦ absurd (ground (arith, rw blank at h))
    | inr given ↦ rw given (find_receipt-append key s.transfer_receipts _ r (rw given at h))
  ]

  transfer_keeps :
      (s : Wallet N transfer_name) (now : ℤ) (req : TransferRequest N.Decimal) (key : String)
      (r : TransferReceipt N.Decimal)
      → earlier s key ≡ some r
      → earlier (transfer N transfer_name s now req).0 key ≡ some r
  unfolding transfer
  transfer_keeps s now req key r h = elim (Option-cases (check_transfer N transfer_name req)) [
    | inr (e, bad) ↦ rw (bad, transfer) h
    | inl good ↦ elim (Option-cases (earlier s req.client_transfer_id)) [
      | inr (q, old) ↦ rw (good, transfer, old) h
      | inl new ↦ rw (good, transfer, new) (move_keeps s now req key r h)
    ]
  ]

  earlier_push :
      (s : Wallet N transfer_name) (e : LedgerEntry N.Decimal) (key : String)
      → earlier (push_deposit e s) key ≡ earlier s key
  unfolding push_deposit earlier
  earlier_push s e key = refl

  after_keeps :
      (s : Wallet N transfer_name) (cs : List (WalletCall N.Decimal)) (key : String)
      (r : TransferReceipt N.Decimal)
      → earlier s key ≡ some r
      → earlier (after N transfer_name s cs) key ≡ some r
  unfolding push_deposit
  after_keeps s [] key r h = h
  after_keeps s (deposit e ∷ cs) key r h =
      after_keeps (push_deposit e s) cs key r (rw (earlier_push s e key) h)
  after_keeps s (move now req ∷ cs) key r h =
      after_keeps (transfer N transfer_name s now req).0 cs key r (transfer_keeps s now req key r h)

  transfer_known :
      (s : Wallet N transfer_name) (now : ℤ) (req : TransferRequest N.Decimal)
      (r : TransferReceipt N.Decimal)
      → check_transfer N transfer_name req ≡ none
      → earlier s req.client_transfer_id ≡ some r
      → transfer N transfer_name s now req ≡ (s, ok r)
  unfolding transfer
  transfer_known s now req r good old = rw (good, transfer, old) refl

  transfer_new :
      (s : Wallet N transfer_name) (now : ℤ) (req : TransferRequest N.Decimal)
      → check_transfer N transfer_name req ≡ none
      → earlier s req.client_transfer_id ≡ none
      → let m = move_funds N transfer_name s now req in
        transfer N transfer_name s now req ≡ (m.0, ok m.1)
  unfolding transfer
  transfer_new s now req good new = rw (good, transfer, new) refl

  move_receipt :
      (s : Wallet N transfer_name) (now : ℤ) (req : TransferRequest N.Decimal)
      → str_eq req.client_transfer_id "" ≡ false
      → earlier s req.client_transfer_id ≡ none
      → let m = move_funds N transfer_name s now req in
        earlier m.0 req.client_transfer_id ≡ some m.1
  unfolding earlier move_funds transfer_id
  move_receipt s now req given new =
      rw given
        (find_receipt-new req.client_transfer_id s.transfer_receipts _ (rw given at new) refl)

  -- What a transfer that succeeds under a key leaves for the key.
  transfer_receipt :
      (s : Wallet N transfer_name) (now : ℤ) (req : TransferRequest N.Decimal)
      (r : TransferReceipt N.Decimal)
      → str_eq req.client_transfer_id "" ≡ false
      → (transfer N transfer_name s now req).1 ≡ ok r
      → earlier (transfer N transfer_name s now req).0 req.client_transfer_id ≡ some r
  unfolding transfer
  transfer_receipt s now req r given h = elim (Option-cases (check_transfer N transfer_name req)) [
    | inr (e, bad) ↦ absurd (ground (arith, rw (bad, transfer) at h))
    | inl good ↦ elim (Option-cases (earlier s req.client_transfer_id)) [
      | inr (q, old) ↦
          let e = transfer_known s now req q good old in rw e (old ∙ ap success (rw e at h))
      | inl new ↦
          let e = transfer_new s now req good new in
          rw e (move_receipt s now req given new ∙ ap success (rw e at h))
    ]
  ]

  -- Once a transfer under a key succeeds, then whatever deposits and transfers follow, a transfer under
  -- the same key that passes the checks answers with the same receipt and changes nothing.
  pub transfer_once :
      (s : Wallet N transfer_name) (now later : ℤ) (req retry : TransferRequest N.Decimal)
      (r : TransferReceipt N.Decimal) (cs : List (WalletCall N.Decimal))
      → str_eq req.client_transfer_id "" ≡ false
      → (transfer N transfer_name s now req).1 ≡ ok r
      → retry.client_transfer_id ≡ req.client_transfer_id
      → check_transfer N transfer_name retry ≡ none
      → let s' = after N transfer_name (transfer N transfer_name s now req).0 cs in
        transfer N transfer_name s' later retry ≡ (s', ok r)
  transfer_once s now later req retry r cs given done same good =
      let s' = after N transfer_name (transfer N transfer_name s now req).0 cs in
      let kept =
        after_keeps (transfer N transfer_name s now req).0 cs req.client_transfer_id r
          (transfer_receipt s now req r given done) in
      transfer_known s' later retry r good (rw same kept)
