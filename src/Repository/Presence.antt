-- ===== src/Repository/Presence.antt =====
-- internal/repository/user_repository.go, `UserEmailExists` and `CreateUser`: the rows behind an answer.
use digital_wallet.Prelude.{
  ℕ, suc, String, ◌≡◌, refl, subst, ap, ◌∙◌, ◌⊎◌, inl, inr, Bool, true, false, not, List, [], ◌∷◌,
  ◌++◌, All, select, length, str_eq, ◌==◌, Bool-cases, arith,
}
use digital_wallet.Exec.{Result, ok, err}
use digital_wallet.Exec.Ensures.{Ensures, Ensures-pure, Ensures-bind, Ensures-wrap}
use digital_wallet.External.Uuids.{Uuid, Uuids}
use digital_wallet.External.Table.{Table, TableLaws}
use digital_wallet.Repository.Types.{UserRow, User, UserInputParam}
use digital_wallet.Repository.Errors.{wrap_gorm_error}
use digital_wallet.Repository.Insertion.{InsertLaws, Stored, create-Stored}
use digital_wallet.Repository.Users.{or_empty, map_user, user_email_exists, create_user}

-- When none is counted, none passes the test.
none_selected :
    {A : Type 0} (p : A → Bool) (xs : List A)
    → not (length (select p xs) == 0) ≡ false
    → All (λ x. p x ≡ false) xs
none_selected p [] h = tt
none_selected p (x ∷ xs) h = elim (Bool-cases (p x)) [
  | inl hit ↦
      (let some_counted : not (suc (length (select p xs)) == 0) ≡ false = rw hit at h in
        ground arith)
  | inr miss ↦ (miss, none_selected p xs (rw miss at h))
]

module _ (U : Uuids) {T : Table UserRow} (laws : TableLaws T) (base : List UserRow)
    (address : String) where
  abbrev pub IsFree : Type 0
  IsFree = All (λ r. str_eq r.email address ≡ false) base

  -- whether the address is taken; the rows stay
  abbrev pub Answers : Result Bool → T.State → Type 0
  Answers r s = (laws.rows s ≡ base) × (r ≡ ok false → IsFree)

  pub user_email_exists-Answers :
      Ensures (λ s. laws.rows s ≡ base) (user_email_exists U T address) Answers
  unfolding user_email_exists
  user_email_exists-Answers =
      Ensures-bind Counted
        (Ensures-wrap wrap_gorm_error Counted
          (record {
            at = λ s h. (
              laws.rows-count _ s ∙ h,
              λ n e. laws.count_counts _ s n e ∙ ap (λ rows. length (select taken rows)) h,
            );
          })
          (λ n s h. h) (λ e s h. (h.0, λ n bad. cc)))
        (λ n. Ensures-pure _ _ (λ s h. (
          h.0,
          λ e. none_selected taken base (subst (λ z. not (z == 0) ≡ false) (h.1 n refl) (same e)),
        )))
        (λ e s h. (h.0, λ bad. cc))
    where
      taken : UserRow → Bool
      taken r = str_eq r.email address

      Counted : Result ℕ → T.State → Type 0
      Counted r s = (laws.rows s ≡ base) × ((n : ℕ) → r ≡ ok n → n ≡ length (select taken base))

      same : {a b : Bool} → ok a ≡ ok b → a ≡ b
      same p = cc

module _ (U : Uuids) {T : Table UserRow} (laws : InsertLaws T) (base : List UserRow) where
  -- what a new row has of the request; the gender is the database's default, whatever was asked for
  pub record IsNew (user : UserInputParam) (row : UserRow) : Type 0 where
    pub email : row.email ≡ or_empty user.email
    pub passwordhash : row.passwordhash ≡ user.passwordhash
    pub gender : row.gender ≡ "OTHER"
    pub is_active : row.is_active ≡ true
    pub is_verified : row.is_verified ≡ false

  abbrev pub Adds : UserInputParam → Result User → T.State → Type 0
  Adds user (ok x) s =
      (row : UserRow) × (laws.rows s ≡ base ++ row ∷ []) × (x ≡ map_user U row) × IsNew user row
  Adds user (err e) s =
      (laws.rows s ≡ base) ⊎ ((row : UserRow) × (laws.rows s ≡ base ++ row ∷ []) × IsNew user row)

  pub create_user-Adds :
      (fresh : Uuid) (user : UserInputParam)
      → Ensures (λ s. laws.rows s ≡ base) (create_user U T fresh user) (Adds user)
  unfolding create_user
  create_user-Adds fresh user =
      Ensures-bind (Stored laws base _) (create-Stored laws base _)
        (λ r. Ensures-pure (Adds user) _ (λ s h. (
          _,
          h.1,
          ap (map_user U) h.0,
          record {
            email = refl;
            passwordhash = refl;
            gender = refl;
            is_active = refl;
            is_verified = refl;
          },
        )))
        (λ e s h. elim h [
          | inl same ↦ inl same
          | inr added ↦ inr (
            _,
            added,
            record {
              email = refl;
              passwordhash = refl;
              gender = refl;
              is_active = refl;
              is_verified = refl;
            },
          )
        ])
