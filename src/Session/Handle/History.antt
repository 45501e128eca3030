-- ===== src/Session/Handle/History.antt =====
-- The replay ring against the whole history of a session's events.
use longtrader.Prelude.{
  ℕ, zero, suc, ◌+◌, ◌-◌, ◌%◌, ◌≤◌, ◌<◌, ◌≡◌, refl, sym, ◌∙◌, List, [], ◌∷◌, ◌++◌, arith, length,
  length-append, drop, length-drop, drop-append_le, drop-drop, drop-nil, ltb, leb, inl, inr,
  Bool-cases,
}
use longtrader.Ports.{u64_mod}
use longtrader.Session.Handle.{
  SessionHandle, StrategyEvent, EventBody, event_ring_capacity, drop_front, push_ring, publish,
  events_after, replay_after,
}

-- Events numbered one by one from `k`, each with its own number as its resume token.
abbrev pub NumberedFrom : ℕ → List StrategyEvent → Type 0
NumberedFrom k [] = Unit
NumberedFrom k (e ∷ es) = (e.sequence ≡ k) × (e.resume_token ≡ k) × NumberedFrom (suc k) es

-- The newest `n` of a list.
abbrev pub newest {ℓ} : {A : Type ℓ} → ℕ → List A → List A
newest n xs = drop (length xs - n) xs

-- Every event so far was numbered from 1 without a gap, and the ring holds the newest of them.
pub record IsLogged (h : SessionHandle) : Type 0 where
  pub counted : h.seq ≡ length h.sent
  pub numbered : NumberedFrom 1 h.sent
  pub retained : h.ring ≡ newest event_ring_capacity h.sent

module _ {ℓ} {A : Type ℓ} where
  drop_front-drop : (n : ℕ) (xs : List A) → drop_front (drop n xs) ≡ drop (suc n) xs
  drop_front-drop zero [] = refl
  drop_front-drop zero (x ∷ xs) = refl
  drop_front-drop (suc n) [] = refl
  drop_front-drop (suc n) (x ∷ xs) = drop_front-drop n xs

  length-newest : (n : ℕ) (xs : List A) → length (newest n xs) ≡ length xs - (length xs - n)
  length-newest n xs = length-drop (length xs - n) xs

  push_full :
      (capacity : ℕ) (ring : List A) (x : A)
      → capacity ≤ length ring
      → push_ring capacity ring x ≡ drop_front ring ++ (x ∷ [])
  unfolding push_ring
  push_full capacity ring x h = ground arith

  push_room :
      (capacity : ℕ) (ring : List A) (x : A)
      → length ring < capacity
      → push_ring capacity ring x ≡ ring ++ (x ∷ [])
  unfolding push_ring
  push_room capacity ring x h = ground arith

  newest-append_full :
      (capacity : ℕ) (xs : List A) (x : A)
      → 0 < capacity
      → capacity ≤ length xs
      → drop_front (newest capacity xs) ++ (x ∷ []) ≡ newest capacity (xs ++ (x ∷ []))
  newest-append_full capacity xs x pos full =
      let e : length (xs ++ (x ∷ [])) - capacity ≡ suc (length xs - capacity) =
        omega (arith, length-append xs (x ∷ [])) in
      rw (drop_front-drop, e)
        (sym (drop-append_le (suc (length xs - capacity)) xs (x ∷ []) (omega arith)))

  newest-append_room :
      (capacity : ℕ) (xs : List A) (x : A)
      → length xs < capacity
      → newest capacity xs ++ (x ∷ []) ≡ newest capacity (xs ++ (x ∷ []))
  newest-append_room capacity xs x room =
      let e : length (xs ++ (x ∷ [])) - capacity ≡ 0 = omega (arith, length-append xs (x ∷ [])) in
      let e' : length xs - capacity ≡ 0 = omega arith in rw (e, e')

  -- Pushing on a full ring drops its oldest item, and the ring stays the newest part.
  pub push_ring-newest :
      (capacity : ℕ) (xs : List A) (x : A)
      → 0 < capacity
      → push_ring capacity (newest capacity xs) x ≡ newest capacity (xs ++ (x ∷ []))
  push_ring-newest capacity xs x pos = elim (Bool-cases (leb capacity (length xs))) [
    | inl full ↦
        let full' : capacity ≤ length xs = ground arith in
        push_full capacity (newest capacity xs) x (omega (arith, length-newest capacity xs))
        ∙ newest-append_full capacity xs x pos full'
    | inr room ↦
        let room' : length xs < capacity = ground arith in
        push_room capacity (newest capacity xs) x (omega (arith, length-newest capacity xs))
        ∙ newest-append_room capacity xs x room'
  ]

NumberedFrom-append :
    (k : ℕ) (xs : List StrategyEvent) (e : StrategyEvent)
    → NumberedFrom k xs
    → e.sequence ≡ k + length xs
    → e.resume_token ≡ k + length xs
    → NumberedFrom k (xs ++ (e ∷ []))
NumberedFrom-append k [] e h p q = (omega arith, omega arith, tt)
NumberedFrom-append k (x ∷ xs) e h p q =
    (h.0, h.1, NumberedFrom-append (suc k) xs e h.2 (omega arith) (omega arith))

pub NumberedFrom-drop :
    (k n : ℕ) (xs : List StrategyEvent) → NumberedFrom k xs → NumberedFrom (k + n) (drop n xs)
NumberedFrom-drop k zero xs h = let e : k + zero ≡ k = omega arith in rw e h
NumberedFrom-drop k (suc n) [] h = tt
NumberedFrom-drop k (suc n) (x ∷ xs) h =
    let e : k + suc n ≡ suc k + n = omega arith in rw e (NumberedFrom-drop (suc k) n xs h.2)

-- Publishing keeps the log complete until the sequence counter would wrap: the event gets the next
-- number and the ring still holds the newest events of the whole history.
pub publish-IsLogged :
    (body : EventBody) (h : SessionHandle)
    → h.seq + 1 < u64_mod
    → IsLogged h
    → IsLogged (publish body h)
unfolding publish
publish-IsLogged body h fits v =
    let e : (h.seq + 1) % u64_mod ≡ h.seq + 1 = omega arith in
    let event : StrategyEvent = record {
      sequence = (h.seq + 1) % u64_mod;
      resume_token = (h.seq + 1) % u64_mod;
      body = body;
    } in
    record {
      counted = omega (arith, e, v.counted, length-append h.sent (event ∷ []));
      numbered =
          NumberedFrom-append 1 h.sent _ v.numbered (omega (arith, e, v.counted))
            (omega (arith, e, v.counted));
      retained = rw v.retained (push_ring-newest event_ring_capacity h.sent _ (omega arith));
    }

events_after_all :
    (k after_seq : ℕ) (xs : List StrategyEvent)
    → NumberedFrom k xs
    → after_seq < k
    → events_after after_seq xs ≡ xs
unfolding events_after
events_after_all k after_seq [] h lt = refl
events_after_all k after_seq (x ∷ xs) h lt = ground (arith, events_after_all (suc k) after_seq xs)

-- On numbered events the filter is a cut.
pub events_after-drop :
    (k after_seq : ℕ) (xs : List StrategyEvent)
    → NumberedFrom k xs
    → k ≤ after_seq + 1
    → events_after after_seq xs ≡ drop (after_seq + 1 - k) xs
unfolding events_after
events_after-drop k after_seq [] h le = sym (drop-nil (after_seq + 1 - k))
events_after-drop k after_seq (x ∷ xs) h le = elim (Bool-cases (ltb after_seq k)) [
  | inl past ↦
      let e : after_seq + 1 - k ≡ 0 = ground arith in
      rw e (ground (arith, events_after_all (suc k) after_seq xs))
  | inr seen ↦
      let e : after_seq + 1 - k ≡ suc (after_seq + 1 - suc k) = ground arith in
      rw e (ground (arith, events_after-drop (suc k) after_seq xs))
]

-- A client that is at most a ring behind gets exactly the events that it has not seen, in order.
pub replay_complete :
    (h : SessionHandle) (after_seq : ℕ)
    → IsLogged h
    → after_seq ≤ h.seq
    → h.seq ≤ after_seq + event_ring_capacity
    → replay_after h after_seq ≡ drop after_seq h.sent
unfolding replay_after
replay_complete h after_seq v le near =
    let gone : ℕ = length h.sent - event_ring_capacity in
    let e : gone + (after_seq + 1 - (1 + gone)) ≡ after_seq = omega (arith, v.counted) in
    rw (
      v.retained,
      events_after-drop (1 + gone) after_seq (drop gone h.sent)
          (NumberedFrom-drop 1 gone h.sent v.numbered) (omega (arith, v.counted)),
      drop-drop,
      e,
    )
