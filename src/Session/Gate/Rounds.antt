-- ===== src/Session/Gate/Rounds.antt =====
-- What a round of cancels asks, and what its failures mean (session/gate.rs).
use longtrader.Prelude.{
  ◌≡◌, refl, ap, Bool, false, ◌||◌, String, List, [], ◌∷◌, ◌++◌, map, arith, str_eq,
}
use longtrader.Prelude.Dict.{contains}
use longtrader.Ports.{ExchangeId}
use longtrader.Session.Venue.{
  VenueRequest, Cancels, cancel_order, cancel_all_orders, sync_state, acknowledged,
}
use longtrader.Session.Gate.{cancel_coids}

-- One request for each id, in the order of the ids.
pub cancel_coids_requests :
    (exchange : ExchangeId) (answers : Cancels) (coids : List String)
    → (cancel_coids exchange answers coids).0 ≡ map (cancel_order exchange) coids
unfolding cancel_coids
cancel_coids_requests exchange answers [] = refl
cancel_coids_requests exchange answers (c ∷ coids) =
    ap (λ l. cancel_order exchange c ∷ l) (cancel_coids_requests exchange answers coids)

abbrev pub AllAcknowledged : Cancels → List String → Type 0
AllAcknowledged answers [] = Unit
AllAcknowledged answers (c ∷ coids) = (answers c ≡ acknowledged) × AllAcknowledged answers coids

-- No failure is reported exactly when the venue acknowledged every cancel.
pub cancel_coids_clean :
    (exchange : ExchangeId) (answers : Cancels) (coids : List String)
    → (cancel_coids exchange answers coids).1 ≡ []
    → AllAcknowledged answers coids
unfolding cancel_coids
cancel_coids_clean exchange answers [] e = tt
cancel_coids_clean exchange answers (c ∷ coids) e =
    (ground arith, cancel_coids_clean exchange answers coids (ground arith))

-- Whether a cancel of the order was requested.
abbrev pub is_cancel_of : String → VenueRequest → Bool
is_cancel_of c (cancel_order exchange coid) = str_eq coid c
is_cancel_of c (cancel_all_orders exchange) = false
is_cancel_of c (sync_state exchange) = false

abbrev pub asks_cancel : String → List VenueRequest → Bool
asks_cancel c [] = false
asks_cancel c (r ∷ rs) = is_cancel_of c r || asks_cancel c rs

pub asks_cancel-cancel_coids :
    (exchange : ExchangeId) (answers : Cancels) (c : String) (coids : List String)
    → asks_cancel c (cancel_coids exchange answers coids).0 ≡ contains c coids
unfolding cancel_coids contains
asks_cancel-cancel_coids exchange answers c [] = refl
asks_cancel-cancel_coids exchange answers c (k ∷ coids) =
    ap (λ b. str_eq k c || b) (asks_cancel-cancel_coids exchange answers c coids)

pub asks_cancel-append :
    (c : String) (xs ys : List VenueRequest)
    → asks_cancel c (xs ++ ys) ≡ (asks_cancel c xs || asks_cancel c ys)
asks_cancel-append c [] ys = refl
asks_cancel-append c (x ∷ xs) ys = ground (arith, asks_cancel-append c xs ys)
