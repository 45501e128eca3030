-- ===== src/Overflow/Kept.antt =====
-- What the overflow policies with a buffer keep, and a run of sends (bin/longtrader-worker/src/overflow.rs).
use longtrader.Prelude.{
  ℕ, zero, suc, ◌+◌, ◌-◌, ◌≤◌, ltb, length, length-append, length-drop, drop, drop-append_le, ◌≡◌,
  refl, sym, ap, ◌∙◌, Bool, true, false, List, [], ◌∷◌, ◌++◌, Option, none, some, if◌then◌else◌,
  arith, inl, inr, Bool-cases, Option-cases,
}
use longtrader.Ports.{drop_oldest, coalesce}
use longtrader.Session.Handle.History.{newest}
use longtrader.Overflow.{Pipe, trim, replace, push_coalesced, send_open, send}

module _ {A : Type 0} where
  drop-drop : (a b : ℕ) (xs : List A) → drop a (drop b xs) ≡ drop (b + a) xs
  drop-drop a zero xs = let e : 0 + a ≡ a = omega arith in rw e refl
  drop-drop zero (suc b) [] = let e : suc b + 0 ≡ suc b = omega arith in rw e refl
  drop-drop (suc a) (suc b) [] = let e : suc b + suc a ≡ suc (b + suc a) = omega arith in rw e refl
  drop-drop a (suc b) (x ∷ xs) =
      let e : suc b + a ≡ suc (b + a) = omega arith in rw e (drop-drop a b xs)

  newest-append_newest :
      (c : ℕ) (xs : List A) (x : A) → newest c (newest c xs ++ (x ∷ [])) ≡ newest c (xs ++ (x ∷ []))
  newest-append_newest c xs x =
      let d : ℕ = length xs - c in
      let moved : drop (length xs - c) xs ++ (x ∷ []) ≡ drop (length xs - c) (xs ++ (x ∷ [])) =
        sym (drop-append_le (length xs - c) xs (x ∷ []) (omega arith)) in
      let long = length-append xs (x ∷ []) in
      let left = length-drop (length xs - c) (xs ++ (x ∷ [])) in
      let count : (length xs - c) + (length (drop (length xs - c) (xs ++ (x ∷ []))) - c)
          ≡ length (xs ++ (x ∷ [])) - c =
        omega (arith, long, left) in
      ap (newest c) moved
      ∙ drop-drop _ (length xs - c) (xs ++ (x ∷ []))
      ∙ ap (λ n. drop n (xs ++ (x ∷ []))) count

module _ {K T : Type 0} where
  trim-newest : (cap : ℕ) (buf : List (K × T)) → trim cap buf ≡ newest cap buf
  unfolding trim
  trim-newest cap [] = sym (nothing (0 - cap))
    where
      nothing : (n : ℕ) → drop {A = K × T} n [] ≡ []
      nothing zero = refl
      nothing (suc n) = refl
  trim-newest cap (e ∷ buf) = elim (Bool-cases (ltb cap (length buf + 1))) [
    | inl over ↦
        let one_more : length (e ∷ buf) - cap ≡ suc (length buf - cap) = ground arith in
        rw (over, one_more) (trim-newest cap buf)
    | inr fits ↦ let whole : length (e ∷ buf) - cap ≡ 0 = ground arith in rw (fits, whole) refl
  ]

  trim_fits : (cap : ℕ) (buf : List (K × T)) → length buf ≤ cap → trim cap buf ≡ buf
  trim_fits cap buf fits =
      let whole : length buf - cap ≡ 0 = omega arith in
      trim-newest cap buf ∙ ap (λ n. drop n buf) whole

  trim_le : (cap : ℕ) (buf : List (K × T)) → length (trim cap buf) ≤ cap
  trim_le cap buf = rw (trim-newest cap buf) (omega (arith, length-drop (length buf - cap) buf))

  module _ (same : K → K → Bool) (key_of : T → K) where
    length-replace :
        (key : K) (item : T) (buf : List (K × T)) {buf' : List (K × T)}
        → replace same key_of key item buf ≡ some buf'
        → length buf' ≡ length buf
    unfolding replace
    length-replace key item [] e = absurd cc
    length-replace key item ((k, old) ∷ buf) e = elim (Bool-cases (same k key)) [
      | inl hit ↦ ground arith
      | inr other ↦ elim (Option-cases (replace same key_of key item buf)) [
        | inl gone ↦ absurd (ground arith)
        | inr (rest, at) ↦ let shorter = length-replace key item buf at in ground arith
      ]
    ]

    -- Under the policy that drops the oldest, the buffer holds the newest items of all that were sent
    -- since the last drain, and the item is accepted.
    pub send-newest :
        (takes : Pipe K T → ℕ) (item : T) (p : Pipe K T) (history : List (K × T))
        → p.policy ≡ drop_oldest
        → p.receiver_gone ≡ false
        → p.buf ≡ newest p.cap history
        → (q : Pipe K T) × (send same key_of takes item p ≡ some (q, true))
          × (q.buf ≡ newest p.cap (history ++ ((key_of item, item) ∷ [])))
    unfolding send send_open
    send-newest takes item p history policy open_end held =
        let trimmed = trim-newest p.cap (p.buf ++ ((key_of item, item) ∷ [])) in
        let again = newest-append_newest p.cap history (key_of item, item) in
        (
          record p { buf = trim p.cap (p.buf ++ ((key_of item, item) ∷ [])) },
          rw (open_end, send, policy) refl,
          trimmed ∙ ap (λ b. newest p.cap (b ++ ((key_of item, item) ∷ []))) held ∙ again,
        )

    -- What is buffered for a key.
    abbrev pub buffered : K → List (K × T) → Option T
    buffered key [] = none
    buffered key ((k, item) ∷ buf) = if same k key then some item else buffered key buf

    replaced :
        (key : K) (item : T) (buf : List (K × T)) {buf' : List (K × T)}
        → same key key ≡ true
        → replace same key_of key item buf ≡ some buf'
        → buffered key buf' ≡ some item
    unfolding replace
    replaced key item [] reflexive e = absurd cc
    replaced key item ((k, old) ∷ buf) reflexive e = elim (Bool-cases (same k key)) [
      | inl hit ↦ ground arith
      | inr other ↦ elim (Option-cases (replace same key_of key item buf)) [
        | inl gone ↦ absurd (ground arith)
        | inr (rest, at) ↦ let deeper = replaced key item buf reflexive at in ground arith
      ]
    ]

    skipped :
        (cap : ℕ) (key k : K) (old : T) (rest : List (K × T))
        → same k key ≡ false
        → buffered key (trim cap rest) ≡ buffered key (trim cap ((k, old) ∷ rest))
    unfolding trim
    skipped cap key k old rest other = elim (Bool-cases (ltb cap (length rest + 1))) [
      | inl over ↦ rw over refl
      | inr room ↦ let whole = trim_fits cap rest (ground arith) in rw (room, other, whole) refl
    ]

    appended :
        (cap : ℕ) (key : K) (item : T) (buf : List (K × T))
        → 1 ≤ cap
        → same key key ≡ true
        → replace same key_of key item buf ≡ none
        → buffered key (trim cap (buf ++ ((key, item) ∷ []))) ≡ some item
    unfolding replace trim
    appended cap key item [] pos reflexive absent = ground arith
    appended cap key item ((k, old) ∷ buf) pos reflexive absent = elim (Bool-cases (same k key)) [
      | inl hit ↦ absurd (ground arith)
      | inr other ↦
          sym (skipped cap key k old (buf ++ ((key, item) ∷ [])) other)
          ∙ appended cap key item buf pos reflexive (ground arith)
    ]

    -- Under the coalescing policy, what is buffered for an item's key after it was sent is that item.
    pub send-buffered :
        (takes : Pipe K T → ℕ) (item : T) (p : Pipe K T)
        → p.policy ≡ coalesce
        → p.receiver_gone ≡ false
        → 1 ≤ p.cap
        → same (key_of item) (key_of item) ≡ true
        → (q : Pipe K T) × (send same key_of takes item p ≡ some (q, true))
          × (buffered (key_of item) q.buf ≡ some item)
    unfolding send send_open push_coalesced
    send-buffered takes item p policy open_end pos reflexive = (
      record p { buf = push_coalesced same key_of p.cap (key_of item) item p.buf },
      rw (open_end, send, policy) refl,
      pushed (replace same key_of (key_of item) item p.buf) refl,
    )
      where
        pushed :
            (o : Option (List (K × T)))
            → replace same key_of (key_of item) item p.buf ≡ o
            → buffered (key_of item) (push_coalesced same key_of p.cap (key_of item) item p.buf)
              ≡ some item
        pushed none at =
            rw (at, push_coalesced) (appended p.cap (key_of item) item p.buf pos reflexive at)
        pushed (some buf') at =
            rw (at, push_coalesced) (replaced (key_of item) item p.buf reflexive at)

    unfoldable pub send_all : (Pipe K T → ℕ) → List T → Pipe K T → Option (Pipe K T)
    unfolding send
    send_all takes [] p = some p
    send_all takes (item ∷ items) p = elim (send same key_of takes item p) [
      | none ↦ none
      | some r ↦ send_all takes items r.0
    ]
