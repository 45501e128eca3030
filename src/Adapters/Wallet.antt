-- ===== src/Adapters/Wallet.antt =====
-- The mock venue's wallet (bin/longtrader-worker/src/adapters/mock.rs, `WalletGateway`): the ledger, and
-- transfers with their receipts. The clock and the name of an unnamed transfer are parameters.
pub mod Idempotent
pub mod Ledger
use longtrader.Prelude.{
  ℕ, ◌+◌, ◌%◌, Bool, true, false, ◌&&◌, ◌||◌, Option, none, some, String, List, [], ◌∷◌, ◌++◌,
  str_eq, take, Result, ok, err, if◌then◌else◌,
}
use longtrader.Prelude.Int.{ℤ, ltb_ℤ}
use longtrader.Ports.{PortError, missing_field, invalid_argument}
use longtrader.Numbers.{Numbers, is_unpayable}
use longtrader.Contract.Decimal.{is_blank, codes}
use longtrader.Ports.{u64_mod}

pub record LedgerEntry (A : Type 0) : Type 0 where
  pub id : String
  pub currency : String
  pub amount : A
  pub entry_type : String
  pub completed : Bool
  pub time_ms : ℤ

pub record TransferReceipt (A : Type 0) : Type 0 where
  pub transfer_id : String
  pub entry : Option (LedgerEntry A)

-- The part of `State` that the wallet calls read or write.
pub record WalletState (A : Type 0) : Type 0 where
  pub deposits : List (LedgerEntry A)
  pub transfers : List (String × A × String)
  pub transfer_receipts : List (String × TransferReceipt A)
  pub next_id : ℕ

pub record TransferRequest (A : Type 0) : Type 0 where
  pub asset : String
  pub amount : A
  pub dest_label : String
  pub client_transfer_id : String

-- `x.is_empty() || y == x`
abbrev pub accepts : String → String → Bool
accepts wish value = str_eq wish "" || str_eq value wish

module _ {A : Type 0} where
  unfoldable pub filter_entries : String → String → List (LedgerEntry A) → List (LedgerEntry A)
  filter_entries currency entry_type [] = []
  filter_entries currency entry_type (e ∷ es) =
      let rest = filter_entries currency entry_type es in
      if accepts currency e.currency && accepts entry_type e.entry_type then e ∷ rest else rest

  -- Before the first row that is not newer, so that rows of one time keep their order.
  unfoldable pub insert_newest : LedgerEntry A → List (LedgerEntry A) → List (LedgerEntry A)
  insert_newest x [] = x ∷ []
  insert_newest x (y ∷ ys) =
      let rest = insert_newest x ys in if ltb_ℤ x.time_ms y.time_ms then y ∷ rest else x ∷ y ∷ ys

  -- `rows.sort_by_key(|e| Reverse(e.time_ms))`, a stable sort.
  unfoldable pub sort_newest : List (LedgerEntry A) → List (LedgerEntry A)
  unfolding insert_newest
  sort_newest [] = []
  sort_newest (x ∷ xs) = insert_newest x (sort_newest xs)

  unfoldable pub list_ledger_entries : WalletState A → String → String → ℕ → List (LedgerEntry A)
  unfolding filter_entries sort_newest
  list_ledger_entries s currency entry_type limit =
      take limit (sort_newest (filter_entries currency entry_type s.deposits))

  unfoldable pub fetch_deposits : WalletState A → ℕ → List (LedgerEntry A)
  unfolding list_ledger_entries
  fetch_deposits s limit = list_ledger_entries s "" "deposit" limit

  unfoldable pub push_deposit : LedgerEntry A → WalletState A → WalletState A
  push_deposit e s = record s { deposits = s.deposits ++ e ∷ [] }

  unfoldable pub find_receipt :
      String → List (String × TransferReceipt A) → Option (TransferReceipt A)
  find_receipt key [] = none
  find_receipt key ((k, r) ∷ rs) = if str_eq r.transfer_id key then some r else find_receipt key rs

  -- The receipt of an earlier transfer under the caller's key, if the caller gave one.
  unfoldable pub earlier : WalletState A → String → Option (TransferReceipt A)
  unfolding find_receipt
  earlier s key = if str_eq key "" then none else find_receipt key s.transfer_receipts

module _ (N : Numbers) (transfer_name : ℕ → String) where
  abbrev pub Wallet : Type 0
  Wallet = WalletState N.Decimal

  -- The refused amount at the end of the message is left out.
  unfoldable pub check_transfer : TransferRequest N.Decimal → Option PortError
  unfolding is_blank codes
  check_transfer req =
      if is_blank (codes req.asset)
      then some (missing_field "asset")
      else if is_unpayable N req.amount
      then some (invalid_argument "transfer amount must be positive")
      else if is_blank (codes req.dest_label)
      then some (missing_field "dest_label")
      else none

  -- The id of a new transfer, and the counter after it.
  unfoldable pub transfer_id : ℕ → String → String × ℕ
  transfer_id next key =
      if str_eq key "" then (transfer_name next, (next + 1) % u64_mod) else (key, next)

  unfoldable pub move_funds :
      Wallet → ℤ → TransferRequest N.Decimal → Wallet × TransferReceipt N.Decimal
  unfolding transfer_id
  move_funds s now req =
      let named = transfer_id s.next_id req.client_transfer_id in
      let entry : LedgerEntry N.Decimal = record {
        id = named.0;
        currency = req.asset;
        amount = N.negate req.amount;
        entry_type = "transfer";
        completed = true;
        time_ms = now;
      } in
      let receipt : TransferReceipt N.Decimal = record {
        transfer_id = named.0;
        entry = some entry;
      } in
      (
        record {
          deposits = entry ∷ s.deposits;
          transfers = s.transfers ++ (req.asset, req.amount, req.dest_label) ∷ [];
          transfer_receipts = s.transfer_receipts ++ (req.client_transfer_id, receipt) ∷ [];
          next_id = named.1;
        },
        receipt,
      )

  unfoldable pub transfer :
      Wallet → ℤ → TransferRequest N.Decimal → Wallet × Result PortError (TransferReceipt N.Decimal)
  unfolding check_transfer earlier move_funds
  transfer s now req = elim (check_transfer req) [
    | some e ↦ (s, err e)
    | none ↦ elim (earlier s req.client_transfer_id) [
      | some receipt ↦ (s, ok receipt)
      | none ↦ let moved = move_funds s now req in (moved.0, ok moved.1)
    ]
  ]
