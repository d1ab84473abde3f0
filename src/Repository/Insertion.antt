-- ===== src/Repository/Insertion.antt =====
-- internal/repository: an insertion, and the rows after it, whatever it answers.
use digital_wallet.Prelude.{◌≡◌, refl, ◌∙◌, ◌⊎◌, inl, inr, true, List, [], ◌∷◌, ◌++◌}
use digital_wallet.Shared.{Error, is_already_exists}
use digital_wallet.Exec.{Result, ok, err, wrap}
use digital_wallet.Exec.Ensures.{Ensures, Ensures-wrap}
use digital_wallet.External.Table.{Table, TableLaws}
use digital_wallet.Repository.Errors.{wrap_gorm_error}

-- An insertion that returns a row has added that row; one that is refused as a duplicate, which a unique
-- index does, has added none. Any other error does not say which of the two.
pub record InsertLaws {Row : Type 0} (T : Table Row) : Type 0 where
  pub table : TableLaws T
  pub open table use {rows, rows-create}
  pub insert_adds :
      (r r' : Row) (s : T.State)
      → (T.create r s).0 ≡ ok r'
      → (r' ≡ r) × (rows (T.create r s).1 ≡ rows s ++ r ∷ [])
  pub insert_duplicate :
      (r : Row) (e : Error) (s : T.State)
      → (T.create r s).0 ≡ err e
      → is_already_exists (wrap_gorm_error e) ≡ true
      → rows (T.create r s).1 ≡ rows s

module _ {Row : Type 0} {T : Table Row} (laws : InsertLaws T) (base : List Row) where
  abbrev pub Inserted : Row → Result Row → T.State → Type 0
  Inserted row (ok r) s = (r ≡ row) × (laws.rows s ≡ base ++ row ∷ [])
  Inserted row (err e) s =
      ((laws.rows s ≡ base) ⊎ (laws.rows s ≡ base ++ row ∷ []))
      × (is_already_exists (wrap_gorm_error e) ≡ true → laws.rows s ≡ base)

  pub create-Inserted :
      (row : Row) → Ensures (λ s. laws.rows s ≡ base) (T.create row) (Inserted row)
  create-Inserted row = record { at = λ s h. by_result s h (T.create row s).0 refl }
    where
      by_result :
          (s : T.State)
          → laws.rows s ≡ base
          → (r : Result Row) → (T.create row s).0 ≡ r
          → Inserted row r (T.create row s).1
      by_result s h (ok r) e =
          let (same, added) = laws.insert_adds row r s e in (same, rw h at added)
      by_result s h (err e) failed = (
        elim (laws.rows-create row s) [
          | inl same ↦ inl (same ∙ h)
          | inr added ↦ inr (rw h at added)
        ],
        λ taken. laws.insert_duplicate row e s failed taken ∙ h,
      )

  -- the same, once an error has been turned into the repository's
  abbrev pub Stored : Row → Result Row → T.State → Type 0
  Stored row (ok r) s = (r ≡ row) × (laws.rows s ≡ base ++ row ∷ [])
  Stored row (err e) s = (laws.rows s ≡ base) ⊎ (laws.rows s ≡ base ++ row ∷ [])

  pub create-Stored :
      (row : Row)
      → Ensures (λ s. laws.rows s ≡ base) (wrap wrap_gorm_error (T.create row)) (Stored row)
  create-Stored row =
      Ensures-wrap wrap_gorm_error (Inserted row) (create-Inserted row) (λ r s h. h) (λ e s h. h.0)
