-- ===== src/Session/Stream.antt =====
-- The event stream of a session (`stream_strategy_events` in
-- bin/longtrader-worker/src/session/service.rs): the replay from the ring, then what the receiver
-- hears. Each publication is one atomic step here.
use longtrader.Prelude.{
  ℕ, zero, suc, ◌+◌, ◌-◌, ◌≤◌, ◌≡◌, refl, sym, ap, ◌∙◌, List, [], ◌∷◌, ◌++◌, arith, length, take,
  drop, leb, if◌then◌else◌, inl, inr, Bool-cases,
}
use longtrader.Session.Handle.{
  SessionHandle, StrategyEvent, event_ring_capacity, replay_after, current_seq,
}
use longtrader.Session.Handle.History.{NumberedFrom, NumberedFrom-drop, IsLogged, replay_complete}

-- The replayed events that the stream passes on: those up to the watermark.
unfoldable pub up_to : ℕ → List StrategyEvent → List StrategyEvent
up_to watermark [] = []
up_to watermark (e ∷ es) =
    let rest = up_to watermark es in if leb e.sequence watermark then e ∷ rest else rest

-- All that a stream has delivered once the session stands at `later`: the handler subscribed at
-- `subscribed`, read the watermark at `marked` and took the replay at `replayed`. The receiver hears
-- what is sent after the subscription, and has not lagged.
unfoldable pub delivered :
    ℕ → SessionHandle → SessionHandle → SessionHandle → SessionHandle → List StrategyEvent
unfolding up_to
delivered after_seq subscribed marked replayed later =
    up_to (current_seq marked) (replay_after replayed after_seq)
    ++ drop (length subscribed.sent) later.sent

take-nil : (n : ℕ) → take {A = StrategyEvent} n [] ≡ []
take-nil zero = refl
take-nil (suc n) = refl

-- On numbered events the watermark is a cut.
up_to-take :
    (k w : ℕ) (xs : List StrategyEvent) → NumberedFrom k xs → up_to w xs ≡ take (w + 1 - k) xs
unfolding up_to
up_to-take k w [] h = sym (take-nil (w + 1 - k))
up_to-take k w (x ∷ xs) h =
    let ih = up_to-take (suc k) w xs h.2 in
    elim (Bool-cases (leb k w)) [
      | inl inside ↦
          let e : w + 1 - k ≡ suc (w + 1 - suc k) = ground arith in rw (e, h.0, inside, ih) refl
      | inr outside ↦
          let e : w + 1 - k ≡ 0 = ground arith in
          let e' : w + 1 - suc k ≡ 0 = omega arith in rw (e, h.0, outside, ih, e') refl
    ]

take-drop : (m n : ℕ) (xs : List StrategyEvent) → take m (drop n xs) ≡ drop n (take (n + m) xs)
take-drop m zero xs = let e : m ≡ zero + m = omega arith in ap (λ k. take k xs) e
take-drop m (suc n) [] = let e : suc n + m ≡ suc (n + m) = omega arith in rw (e, take-nil m) refl
take-drop m (suc n) (x ∷ xs) =
    let e : suc n + m ≡ suc (n + m) = omega arith in rw e (take-drop m n xs)

take-append_le :
    (n : ℕ) (xs ys : List StrategyEvent) → n ≤ length xs → take n (xs ++ ys) ≡ take n xs
take-append_le zero xs ys h = refl
take-append_le (suc n) [] ys h = absurd (omega arith)
take-append_le (suc n) (x ∷ xs) ys h = ap (λ l. x ∷ l) (take-append_le n xs ys (omega arith))

drop-take-append :
    (a n : ℕ) (xs : List StrategyEvent) → a ≤ n → drop a (take n xs) ++ drop n xs ≡ drop a xs
drop-take-append zero zero xs h = refl
drop-take-append zero (suc n) [] h = refl
drop-take-append zero (suc n) (x ∷ xs) h =
    ap (λ l. x ∷ l) (drop-take-append zero n xs (omega arith))
drop-take-append (suc a) zero xs h = absurd (omega arith)
drop-take-append (suc a) (suc n) [] h = refl
drop-take-append (suc a) (suc n) (x ∷ xs) h = drop-take-append a n xs (omega arith)

-- The four moments of a stream: nothing but publications lies between them, and the ring has kept
-- all that the client has not seen.
pub record IsHandoff (after_seq : ℕ) (subscribed marked replayed later : SessionHandle)
    : Type 0 where
  pub logged : IsLogged replayed
  pub subscribed_at : length subscribed.sent ≤ marked.seq
  pub marked_at : marked.seq ≤ replayed.seq
  pub resumed_at : after_seq ≤ length subscribed.sent
  pub kept : replayed.seq ≤ after_seq + event_ring_capacity
  pub since : List StrategyEvent
  pub grown : later.sent ≡ replayed.sent ++ since

-- A stream delivers what the client has not seen up to the watermark, and then all that is sent after
-- its subscription.
pub delivered_lem :
    (after_seq : ℕ) (subscribed marked replayed later : SessionHandle)
    → IsHandoff after_seq subscribed marked replayed later
    → delivered after_seq subscribed marked replayed later
      ≡ drop after_seq (take marked.seq later.sent) ++ drop (length subscribed.sent) later.sent
unfolding delivered current_seq
delivered_lem after_seq subscribed marked replayed later v =
    let w : ℕ = marked.seq in
    let bounds : after_seq ≤ replayed.seq =
      omega (arith, v.subscribed_at, v.marked_at, v.resumed_at) in
    let tail : NumberedFrom (1 + after_seq) (drop after_seq replayed.sent) =
      NumberedFrom-drop 1 after_seq replayed.sent v.logged.numbered in
    let e : w + 1 - (1 + after_seq) ≡ w - after_seq = omega arith in
    let e' : after_seq + (w - after_seq) ≡ w = omega (arith, v.subscribed_at, v.resumed_at) in
    let same : take w later.sent ≡ take w replayed.sent =
      ap (take w) v.grown
      ∙ take-append_le w replayed.sent v.since (omega (arith, v.marked_at, v.logged.counted)) in
    rw
      (
        replay_complete replayed after_seq v.logged bounds v.kept,
        up_to-take (1 + after_seq) w (drop after_seq replayed.sent) tail,
        e,
        take-drop (w - after_seq) after_seq replayed.sent,
        e',
        same,
      )
      refl

-- When nothing is published between the subscription and the watermark, the client gets every event
-- that it has not seen exactly once, in order.
pub delivered_once :
    (after_seq : ℕ) (subscribed marked replayed later : SessionHandle)
    → IsHandoff after_seq subscribed marked replayed later
    → marked.seq ≡ length subscribed.sent
    → delivered after_seq subscribed marked replayed later ≡ drop after_seq later.sent
delivered_once after_seq subscribed marked replayed later v e =
    delivered_lem after_seq subscribed marked replayed later v
    ∙ (ap (λ n. drop after_seq (take n later.sent) ++ drop (length subscribed.sent) later.sent) e
        ∙ drop-take-append after_seq (length subscribed.sent) later.sent v.resumed_at)
