-- ===== src/External/Table.antt =====
-- A Postgres table behind gorm, with the calls that the repository makes. A predicate on rows is the
-- WHERE clause that the repository writes.
use digital_wallet.Prelude.{
  ℕ, ◌≡◌, ◌≢◌, ◌⊎◌, Bool, true, false, Option, List, [], ◌∷◌, ◌++◌, map, Memᴰ, select, set_where,
  All, length,
}
use digital_wallet.Shared.{record_not_found, not_found, transfer_not_pending}
use digital_wallet.Exec.{ok, err, Exec}

-- ORDER BY created_at
pub data Order : Type 0 where
  unordered oldest_first newest_first : Order

pub record Table (Row : Type 0) : Type 1 where
  pub State : Type 0
  -- `Where(…).First(&row)`; no matching row is `gorm.ErrRecordNotFound`
  pub first : (Row → Bool) → Exec State Row
  -- `Where(…).Order(…).Limit(…).Offset(…).Find(&rows)`
  pub find : (Row → Bool) → Order → Option ℕ → ℕ → Exec State (List Row)
  -- `Where(…).Count(&total)`
  pub count : (Row → Bool) → Exec State ℕ
  -- `Create(&row)`
  pub create : Row → Exec State Row
  -- `Clauses(Returning{}).Where(…).Update(…)`: the rows affected, as they are afterwards
  pub update : (Row → Bool) → (Row → Row) → Exec State (List Row)

-- A read changes no row and returns rows that match. A write is one statement, so it is applied to
-- every matching row or to none, and an error does not say which of the two.
pub record TableLaws {Row : Type 0} (T : Table Row) : Type 0 where
  pub rows : T.State → List Row
  pub rows-first : (p : Row → Bool) (s : T.State) → rows (T.first p s).1 ≡ rows s
  pub first_matches :
      (p : Row → Bool) (s : T.State) (r : Row)
      → (T.first p s).0 ≡ ok r
      → (p r ≡ true) × Memᴰ r (rows s)
  pub first_misses :
      (p : Row → Bool) (s : T.State)
      → (T.first p s).0 ≡ err record_not_found
      → All (λ r. p r ≡ false) (rows s)
  -- not_found is the repository's own error
  pub first_foreign : (p : Row → Bool) (s : T.State) → (T.first p s).0 ≢ err not_found
  pub rows-find :
      (p : Row → Bool) (order : Order) (limit : Option ℕ) (offset : ℕ) (s : T.State)
      → rows (T.find p order limit offset s).1 ≡ rows s
  pub find_matches :
      (p : Row → Bool) (order : Order) (limit : Option ℕ) (offset : ℕ) (s : T.State) (rs : List Row)
      → (T.find p order limit offset s).0 ≡ ok rs
      → All (λ r. (p r ≡ true) × Memᴰ r (rows s)) rs
  pub rows-count : (p : Row → Bool) (s : T.State) → rows (T.count p s).1 ≡ rows s
  pub count_counts :
      (p : Row → Bool) (s : T.State) (n : ℕ)
      → (T.count p s).0 ≡ ok n
      → n ≡ length (select p (rows s))
  pub rows-update :
      (p : Row → Bool) (f : Row → Row) (s : T.State)
      → (rows (T.update p f s).1 ≡ rows s) ⊎ (rows (T.update p f s).1 ≡ set_where p f (rows s))
  pub update_returns :
      (p : Row → Bool) (f : Row → Row) (s : T.State) (rs : List Row)
      → (T.update p f s).0 ≡ ok rs
      → (rs ≡ map f (select p (rows s))) × (rows (T.update p f s).1 ≡ set_where p f (rows s))
  -- transfer_not_pending is the repository's own error
  pub update_foreign :
      (p : Row → Bool) (f : Row → Row) (s : T.State) → (T.update p f s).0 ≢ err transfer_not_pending
  pub rows-create :
      (r : Row) (s : T.State)
      → (rows (T.create r s).1 ≡ rows s) ⊎ (rows (T.create r s).1 ≡ rows s ++ r ∷ [])

-- A primary key: no two rows share it.
pub record KeyLaws {Row : Type 0} {T : Table Row} (laws : TableLaws T) (key : Row → ℕ)
    : Type 0 where
  pub unique :
      (s : T.State) (r r' : Row)
      → Memᴰ r (laws.rows s)
      → Memᴰ r' (laws.rows s)
      → key r ≡ key r'
      → r ≡ r'
