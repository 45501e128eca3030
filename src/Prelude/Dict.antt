-- ===== src/Prelude/Dict.antt =====
-- Maps and sets of texts, for `HashMap<String, _>` and `HashSet<String>`: a key stands at most once
-- in what the operations build, and the order of the entries is no part of their meaning.
use longtrader.Prelude.{
  ◌≡◌, refl, Bool, false, ◌||◌, Option, none, some, String, List, [], ◌∷◌, arith, if◌then◌else◌,
  str_eq, eq_iff, Bool-cases, inl, inr,
}

module _ {ℓ} {V : Type ℓ} where
  -- `map.get(key)`
  unfoldable pub find : String → List (String × V) → Option V
  find key [] = none
  find key ((k, v) ∷ m) = if str_eq k key then some v else find key m

  -- `map.insert(key, value)`
  unfoldable pub put : String → V → List (String × V) → List (String × V)
  put key value [] = (key, value) ∷ []
  put key value ((k, v) ∷ m) = if str_eq k key then (key, value) ∷ m else (k, v) ∷ put key value m

  pub find-put :
      (key other : String) (value : V) (m : List (String × V))
      → find other (put key value m) ≡ (if str_eq key other then some value else find other m)
  unfolding find put
  find-put key other value [] = refl
  find-put key other value ((k, v) ∷ m) =
      ground (arith, eq_iff key other, eq_iff k key, eq_iff k other, find-put key other value m)

-- `set.contains(key)`
unfoldable pub contains : String → List String → Bool
contains key [] = false
contains key (k ∷ s) = str_eq k key || contains key s

-- `set.insert(key)`
unfoldable pub insert : String → List String → List String
insert key [] = key ∷ []
insert key (k ∷ s) = if str_eq k key then k ∷ s else k ∷ insert key s

pub contains-insert :
    (key other : String) (s : List String)
    → contains other (insert key s) ≡ (str_eq key other || contains other s)
unfolding contains insert
contains-insert key other [] = refl
contains-insert key other (k ∷ s) =
    ground (arith, eq_iff key other, eq_iff k key, eq_iff k other, contains-insert key other s)

module _ {ℓ} {V : Type ℓ} where
  -- No key stands twice.
  abbrev pub Distinct : List (String × V) → Type ℓ
  Distinct [] = Unit
  Distinct ((k, v) ∷ m) = (find k m ≡ none) × Distinct m

  pub put-Distinct :
      (key : String) (value : V) (m : List (String × V)) → Distinct m → Distinct (put key value m)
  unfolding put find
  put-Distinct key value [] d = (refl, tt)
  put-Distinct key value ((k, v) ∷ m) d = elim (Bool-cases (str_eq k key)) [
    | inl same ↦ let e : k ≡ key = (eq_iff k key).0 same in rw (same, put) (rw (← e) d.0, d.1)
    | inr other ↦
        rw (other, put)
          (
            ground (arith, find-put key k value m, eq_iff k key, eq_iff key k),
            put-Distinct key value m d.1,
          )
  ]
