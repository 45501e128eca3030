-- ===== src/Tests/Wallets.antt =====
-- Examples of the theorems about the mock wallet and the clock.
use longtrader.Prelude.{◌≡◌, refl, ℕ, ◌<◌, ◌%◌, Option, none, some, [], ◌∷◌, ok, true}
use longtrader.Prelude.Int.{ℤ, pos, negsuc}
use longtrader.Contract.Decimal.{is_blank, codes, common_to_decimal, grammar_violation}
use longtrader.Adapters.Wallet.{
  WalletState, LedgerEntry, TransferRequest, transfer, check_transfer, earlier, find_receipt,
  move_funds,
}
use longtrader.Adapters.Wallet.Idempotent.{deposit, move, after}
use longtrader.Clock.{timestamp_from_ms}
use longtrader.Clock.Exact.{millis, timestamp_exact}
use longtrader.Session.Proxy.{gate_submission}
use longtrader.Session.Proxy.Errors.{ErrorCode}
use longtrader.Session.Proxy.Unified.{required_decimal}
use longtrader.Session.Proxy.Handlers.{
  UnifiedTransferRequest, UnifiedTransferReply, forward_transfer, transfer_reply, port_transfer,
}
use longtrader.Session.Proxy.Retried.{forwarded, forward_transfer_once}
use longtrader.Tests.Integers.{integers, tally, print, parse}
use longtrader.Tests.{venue}

abbrev wallet : WalletState ℤ
wallet = record { deposits = []; transfers = []; transfer_receipts = []; next_id = 1 }

abbrev payment : TransferRequest ℤ
payment = record {
  asset = "USDT";
  amount = pos 25;
  dest_label = "futures";
  client_transfer_id = "k1";
}

abbrev credit : LedgerEntry ℤ
credit = record {
  id = "d1";
  currency = "USDT";
  amount = pos 100;
  entry_type = "deposit";
  completed = true;
  time_ms = pos 7;
}

abbrev request : UnifiedTransferRequest
request = record {
  exchange_id = none;
  asset = "USDT";
  amount = some "11";
  dest_label = "futures";
  client_transfer_id = "k1";
  session_id = "";
}

-- No status number is known.
abbrev unknown_status : ℕ → Option ErrorCode
unknown_status n = none

abbrev first_reply : UnifiedTransferReply
first_reply =
    transfer_reply integers print parse
      (move_funds integers tally wallet (pos 5) (port_transfer request (pos 2))).1

forward_transfer_once_example :
    let s' =
      after integers tally
        (forwarded integers tally print parse unknown_status venue (pos 5) none wallet request).0
        (deposit credit ∷ move (pos 8) payment ∷ []) in
    forwarded integers tally print parse unknown_status venue (pos 9) none s' request
    ≡ (s', ok first_reply)
unfolding forward_transfer required_decimal transfer check_transfer earlier find_receipt is_blank
    codes gate_submission common_to_decimal grammar_violation
forward_transfer_once_example =
    forward_transfer_once integers tally print parse unknown_status venue none none none wallet
      (pos 5) (pos 9) request (deposit credit ∷ move (pos 8) payment ∷ []) first_reply refl refl
      refl

timestamp_exact_example :
    (millis (timestamp_from_ms (negsuc 0)) ≡ negsuc 0)
    × ((timestamp_from_ms (negsuc 0)).nanos < 1000000000)
    × ((timestamp_from_ms (negsuc 0)).nanos % 1000000 ≡ 0)
timestamp_exact_example = timestamp_exact (negsuc 0)
