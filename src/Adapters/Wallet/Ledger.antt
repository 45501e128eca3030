-- ===== src/Adapters/Wallet/Ledger.antt =====
-- The ledger that a client reads (bin/longtrader-worker/src/adapters/mock.rs, `list_ledger_entries`).
use longtrader.Prelude.{◌≡◌, refl, ℕ, Bool-cases, inl, inr, String, List, [], ◌∷◌, take, arith}
use mathlib.Core.List.{Perm}
use mathlib.Core.List.Perm
use longtrader.Prelude.Int.{ℤ, ltb_ℤ, ◌≤ℤ◌}
use longtrader.Adapters.Wallet.{
  LedgerEntry, WalletState, filter_entries, insert_newest, sort_newest, list_ledger_entries,
}

module _ {A : Type 0} where
  abbrev pub StartsBefore : ℤ → List (LedgerEntry A) → Type 0
  StartsBefore t [] = Unit
  StartsBefore t (x ∷ xs) = x.time_ms ≤ℤ t

  -- No row is older than the one after it.
  abbrev pub NewestFirst : List (LedgerEntry A) → Type 0
  NewestFirst [] = Unit
  NewestFirst (x ∷ xs) = StartsBefore x.time_ms xs × NewestFirst xs

  insert-Perm : (x : LedgerEntry A) (ys : List (LedgerEntry A)) → Perm (insert_newest x ys) (x ∷ ys)
  unfolding insert_newest
  insert-Perm x [] = Perm.rfl
  insert-Perm x (y ∷ ys) = elim (Bool-cases (ltb_ℤ x.time_ms y.time_ms)) [
    | inl older ↦ rw older (Perm.trans (Perm.cons y (insert-Perm x ys)) (Perm.swap x y ys))
    | inr newer ↦ rw newer Perm.rfl
  ]

  sort-Perm : (xs : List (LedgerEntry A)) → Perm (sort_newest xs) xs
  unfolding sort_newest
  sort-Perm [] = Perm.rfl
  sort-Perm (x ∷ xs) = Perm.trans (insert-Perm x (sort_newest xs)) (Perm.cons x (sort-Perm xs))

  insert-StartsBefore :
      (t : ℤ) (x : LedgerEntry A) (ys : List (LedgerEntry A))
      → x.time_ms ≤ℤ t
      → StartsBefore t ys
      → StartsBefore t (insert_newest x ys)
  unfolding insert_newest
  insert-StartsBefore t x [] le h = le
  insert-StartsBefore t x (y ∷ ys) le h = elim (Bool-cases (ltb_ℤ x.time_ms y.time_ms)) [
    | inl older ↦ rw older h
    | inr newer ↦ rw newer le
  ]

  insert-NewestFirst :
      (x : LedgerEntry A) (ys : List (LedgerEntry A))
      → NewestFirst ys
      → NewestFirst (insert_newest x ys)
  unfolding insert_newest
  insert-NewestFirst x [] h = (tt, tt)
  insert-NewestFirst x (y ∷ ys) h = elim (Bool-cases (ltb_ℤ x.time_ms y.time_ms)) [
    | inl older ↦ rw older (
      insert-StartsBefore y.time_ms x ys (ground (arith, older)) h.0,
      insert-NewestFirst x ys h.1,
    )
    | inr newer ↦ rw newer (ground (arith, newer), h)
  ]

  sort-NewestFirst : (xs : List (LedgerEntry A)) → NewestFirst (sort_newest xs)
  unfolding sort_newest
  sort-NewestFirst [] = tt
  sort-NewestFirst (x ∷ xs) = insert-NewestFirst x (sort_newest xs) (sort-NewestFirst xs)

  -- What a client reads of the ledger are the first rows, up to its limit, of an arrangement of all the
  -- rows that match its filter in which no row is older than the one after it.
  pub ledger-NewestFirst :
      (s : WalletState A) (currency entry_type : String) (limit : ℕ)
      → (rows : List (LedgerEntry A)) × (list_ledger_entries s currency entry_type limit
          ≡ take limit rows)
        × NewestFirst rows
        × Perm rows (filter_entries currency entry_type s.deposits)
  unfolding list_ledger_entries
  ledger-NewestFirst s currency entry_type limit =
      let matching = filter_entries currency entry_type s.deposits in
      (sort_newest matching, refl, sort-NewestFirst matching, sort-Perm matching)
