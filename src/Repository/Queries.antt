-- ===== src/Repository/Queries.antt =====
-- internal/repository: the form that the reads by id share, and the rows behind its result.
use digital_wallet.Prelude.{
  String, ◌≡◌, ◌≢◌, refl, sym, subst, ap, ◌∙◌, ◌⊎◌, inl, inr, Bool, true, false, some, List, [],
  ◌∷◌, Memᴰ, All, map, select, set_where, Bool-cases, ◌&&◌,
}
use digital_wallet.Shared.{Error, record_not_found, duplicated_key, not_found}
use digital_wallet.Exec.{Result, ok, err, Exec, pure, wrap, or_else, ◌>>=◌}
use digital_wallet.Exec.Ensures.{
  Ensures, Keeps, Ensures-pure, Ensures-raise, Ensures-bind, Ensures-wrap, Ensures-or_else,
  Ensures-or_else-some, Keeps-pure, Keeps-raise, Keeps-bind, Keeps-wrap, Keeps-or_else,
}
use digital_wallet.External.Uuids.{Uuid, Uuids}
use digital_wallet.External.Table.{Table, TableLaws}
use digital_wallet.Repository.Errors.{wrap_gorm_error, affected_row}

pub affected_row-Keeps :
    {S Row : Type 0} {P : S → Type 0} (e : Error) (rs : List Row) → Keeps P (affected_row e rs)
affected_row-Keeps e [] = Keeps-raise e
affected_row-Keeps e (r ∷ rs) = Keeps-pure r

-- A read by id, in the form that all of them have.
abbrev pub read_by_id :
    (U : Uuids) {Row A : Type 0} (T : Table Row)
    → (Uuid → Row → Bool)
    → (Row → A)
    → String
    → Exec T.State A
read_by_id U T matches view id = do
  parsed ← or_else (U.parse id) not_found
  row ← wrap wrap_gorm_error (T.first (matches parsed))
  pure (view row)

module _ (U : Uuids) {Row A : Type 0} {T : Table Row} (laws : TableLaws T)
    (matches : Uuid → Row → Bool) (view : Row → A) (id : String) where
  -- It changes no row.
  pub read-Keeps :
      (P : List Row → Type 0) → Keeps (λ s. P (laws.rows s)) (read_by_id U T matches view id)
  read-Keeps P = Keeps-bind (Keeps-or_else (U.parse id) not_found) (λ u.
      Keeps-bind
        (Keeps-wrap wrap_gorm_error
          (record { at = λ s h. subst P (sym (laws.rows-first (matches u) s)) h }))
        (λ row. Keeps-pure _))

  -- What it returns is the view of a row that matches the parsed id.
  abbrev pub Found : List Row → Result A → Type 0
  Found base r =
      (x : A)
      → r ≡ ok x
      → (u : Uuid) × (row : Row) × (U.parse id ≡ some u)
        × (matches u row ≡ true)
        × Memᴰ row base
        × (x ≡ view row)

  pub read-Found :
      (base : List Row)
      → Ensures (λ s. laws.rows s ≡ base) (read_by_id U T matches view id) (λ r s. Found base r)
  read-Found base =
      Ensures-or_else _ (U.parse id) not_found
        (λ u parsed.
          Ensures-bind (IsMatch u)
            (Ensures-wrap wrap_gorm_error (IsMatch u)
              (record {
                at = λ s h row e.
                    let (fits, member) = laws.first_matches (matches u) s row e in
                    (fits, subst (Memᴰ row) h member);
              })
              (λ row s h. h) (λ e s h row bad. cc))
            (λ row.
              Ensures-pure _ _ (λ s h x e. (u, row, parsed, (h row refl).0, (h row refl).1, cc)))
            (λ e s h x bad. cc))
        (λ s h x bad. cc)
    where
      IsMatch : Uuid → Result Row → T.State → Type 0
      IsMatch u r s = (row : Row) → r ≡ ok row → (matches u row ≡ true) × Memᴰ row base

-- Only gorm's own error is turned into the repository's, or it was that already.
wrap_cases : (e : Error) → wrap_gorm_error e ≡ not_found → (e ≡ record_not_found) ⊎ (e ≡ not_found)
wrap_cases record_not_found h = inl refl
wrap_cases duplicated_key h = cc
wrap_cases e h = inr h

module _ (U : Uuids) {Row A : Type 0} {T : Table Row} (laws : TableLaws T)
    (matches : Uuid → Row → Bool) (view : Row → A) (id : String) where
  -- the rows stay, and none matches if the answer is that there is none
  abbrev pub Misses : Uuid → List Row → Result A → T.State → Type 0
  Misses u base r s =
      (laws.rows s ≡ base) × (r ≡ err not_found → All (λ row. matches u row ≡ false) base)

  pub read-Misses :
      (base : List Row) (u : Uuid)
      → U.parse id ≡ some u
      → Ensures (λ s. laws.rows s ≡ base) (read_by_id U T matches view id) (Misses u base)
  read-Misses base u parsed = Ensures-or_else-some (U.parse id) not_found u _ parsed (
      Ensures-bind Missed
        (Ensures-wrap wrap_gorm_error Asked
          (record {
            at = λ s h. (
              laws.rows-first (matches u) s ∙ h,
              λ e. subst (All (λ row. matches u row ≡ false)) h (laws.first_misses (matches u) s e),
              laws.first_foreign (matches u) s,
            );
          })
          (λ row s h. (h.0, λ bad. cc))
          (λ e s h. (
            h.0,
            λ same. elim (wrap_cases e (err-eq same)) [
              | inl hit ↦ h.1 (ap err hit)
              | inr own ↦ absurd (h.2 (ap err own))
            ],
          )))
        (λ row. Ensures-pure _ _ (λ s h. (h.0, λ bad. cc)))
        (λ e s h. (h.0, λ bad. h.1 (ap err (err-eq bad)))))
    where
      err-eq : {B : Type 0} {e e' : Error} → ◌≡◌ {A = Result B} (err e) (err e') → e ≡ e'
      err-eq p = cc

      Missed : Result Row → T.State → Type 0
      Missed r s =
          (laws.rows s ≡ base) × (r ≡ err not_found → All (λ row. matches u row ≡ false) base)

      Asked : Result Row → T.State → Type 0
      Asked r s =
          (laws.rows s ≡ base)
          × (r ≡ err record_not_found → All (λ row. matches u row ≡ false) base)
          × (r ≢ err not_found)

-- The row behind the first row that an update returned.
pub select_member {ℓ} :
    {A : Type ℓ} (p : A → Bool) (f : A → A) (xs : List A) {y : A} {ys : List A}
    → map f (select p xs) ≡ y ∷ ys
    → (x : A) × (p x ≡ true) × Memᴰ (f x) (set_where p f xs)
select_member p f [] e = cc
select_member p f (x ∷ xs) e = elim (Bool-cases (p x)) [
  | inl fits ↦ (x, fits, rw fits (Memᴰ.head refl))
  | inr misses ↦
      let (z, fits, member) = select_member p f xs (rw misses at e) in (z, fits, Memᴰ.tail member)
]

pub first_of_and : (a b : Bool) → (a && b) ≡ true → a ≡ true
first_of_and true b h = refl
first_of_and false b h = cc

abbrev pub IsHead : {Row : Type 0} → List Row → Result Row → Type 0
IsHead {Row} rs r = (row : Row) → r ≡ ok row → (zs : List Row) × (rs ≡ row ∷ zs)

pub affected_row-IsHead :
    {S Row : Type 0} {P : S → Type 0} (e : Error) (rs : List Row)
    → Ensures P (affected_row e rs) (λ r s. P s × IsHead rs r)
affected_row-IsHead e [] = Ensures-raise _ e (λ s h. (h, λ row bad. cc))
affected_row-IsHead e (r ∷ rs) = Ensures-pure _ r (λ s h. (h, λ row same. (rs, cc)))
