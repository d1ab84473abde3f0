-- ===== src/Repository/Changes.antt =====
-- internal/repository/user_repository.go: the rows that updating by id and deleting leave.
use digital_wallet.Prelude.{
  String, ◌≡◌, refl, sym, subst, ap, ◌∙◌, ◌⊎◌, inl, inr, Bool, false, some, List, Memᴰ, set_where,
  ◌==◌, ==_iff, str_eq, none,
}
use digital_wallet.Shared.{not_found, nothing_to_update}
use digital_wallet.Exec.{Result, ok, pure, wrap, ◌>>◌}
use digital_wallet.Exec.Ensures.{
  Ensures, Ensures-pure, Ensures-raise, Ensures-bind, Ensures-wrap, Ensures-if, Ensures-or_else,
  Ensures-imp, Ensures-from, Keeps-bind, Keeps-pure,
}
use digital_wallet.External.Uuids.{Uuid, Uuids}
use digital_wallet.External.Table.{Table, TableLaws}
use digital_wallet.Repository.Types.{UserRow, User, UserInputParam}
use digital_wallet.Repository.Errors.{wrap_gorm_error}
use digital_wallet.Repository.Queries.{affected_row-Keeps}
use digital_wallet.Repository.Users.{apply_fields, has_no_fields, update_user_by, delete_user}

module _ (U : Uuids) {T : Table UserRow} (laws : TableLaws T) (base : List UserRow) where
  abbrev From : T.State → Type 0
  From s = laws.rows s ≡ base

  -- a write that was carried out whole, or not at all
  abbrev Either :
      {A : Type 0} → (UserRow → Bool) → (UserRow → UserRow) → Result A → T.State → Type 0
  Either {A} p f r s =
      ((laws.rows s ≡ base) ⊎ (laws.rows s ≡ set_where p f base))
      × ((a : A) → r ≡ ok a → laws.rows s ≡ set_where p f base)

  update-Either :
      (p : UserRow → Bool) (f : UserRow → UserRow)
      → Ensures From (wrap wrap_gorm_error (T.update p f)) (Either p f)
  update-Either p f =
      Ensures-wrap wrap_gorm_error (Either p f)
        (record {
          at = λ s h. (
            subst
                (λ b.
                  (laws.rows (T.update p f s).1 ≡ b)
                  ⊎ (laws.rows (T.update p f s).1 ≡ set_where p f b))
                h (laws.rows-update p f s),
            λ rs e. (laws.update_returns p f s rs e).1 ∙ ap (set_where p f) h,
          );
        })
        (λ rs s h. h) (λ e s h. (h.0, λ rs bad. cc))

  -- the row of that id, made inactive
  abbrev pub Deleted : String → List UserRow → Type 0
  Deleted id rows =
      (model : UserRow) × Memᴰ model base
      × (U.parse id ≡ some model.id)
      × (rows ≡ set_where (λ r. r.id == model.id) (λ r. record model { is_active = false }) base)

  abbrev pub Deletes : String → Result (Unit {0}) → T.State → Type 0
  Deletes id r s =
      ((laws.rows s ≡ base) ⊎ Deleted id (laws.rows s)) × (r ≡ ok tt → Deleted id (laws.rows s))

  write-Deletes :
      (id : String) (model : UserRow)
      → Memᴰ model base
      → U.parse id ≡ some model.id
      → Ensures From
          (wrap wrap_gorm_error
              (T.update (λ r. r.id == model.id) (λ r. record model { is_active = false }))
            >> pure tt)
          (Deletes id)
  write-Deletes id model member parsed =
      Ensures-bind _ (update-Either _ _)
        (λ rs. Ensures-pure (Deletes id) tt (λ s h.
          (inr (model, member, parsed, h.1 rs refl), λ e. (model, member, parsed, h.1 rs refl))))
        (λ e s h. (
          elim h.0 [ inl same ↦ inl same | inr changed ↦ inr (model, member, parsed, changed) ],
          λ bad. cc,
        ))

  pub delete_user-Deletes : (id : String) → Ensures From (delete_user U T id) (Deletes id)
  unfolding delete_user
  delete_user-Deletes id =
      Ensures-or_else (Deletes id) (U.parse id) not_found
        (λ u parsed.
          Ensures-bind (Found u)
            (Ensures-wrap wrap_gorm_error (Found u)
              (record {
                at = λ s h. (
                  laws.rows-first _ s ∙ h,
                  λ row e.
                      let (fits, member) = laws.first_matches _ s row e in
                      ((==_iff row.id u).0 fits, subst (Memᴰ row) h member),
                );
              })
              (λ row s h. h) (λ e s h. (h.0, λ row bad. cc)))
            (λ model. record {
              at = λ s h.
                  let (same, member) = h.1 model refl in
                  (write-Deletes id model member (parsed ∙ ap some (sym same))).at s h.0;
            })
            (λ e s h. (inl h.0, λ bad. cc)))
        (λ s h. (inl h, λ bad. cc))
    where
      Found : Uuid → Result UserRow → T.State → Type 0
      Found u r s =
          (laws.rows s ≡ base) × ((row : UserRow) → r ≡ ok row → (row.id ≡ u) × Memᴰ row base)

  -- the columns that were given, of the row of that id
  abbrev pub Updated : UserInputParam → String → List UserRow → Type 0
  Updated user id rows =
      (u : Uuid) × (U.parse id ≡ some u)
      × (rows ≡ set_where (λ r. r.id == u) (apply_fields user) base)

  abbrev pub Updates : UserInputParam → String → Result User → T.State → Type 0
  Updates user id r s =
      ((laws.rows s ≡ base) ⊎ Updated user id (laws.rows s))
      × ((x : User) → r ≡ ok x → Updated user id (laws.rows s))

  pub update_user-Updates :
      (user : UserInputParam) (id : String)
      → Ensures From (update_user_by U T (some id) user.email user) (Updates user id)
  unfolding update_user_by
  update_user-Updates user id =
      Ensures-or_else (Updates user id) (U.parse id) not_found
        (λ u parsed.
          Ensures-if (has_no_fields user)
            (λ _. Ensures-raise _ nothing_to_update (λ s h. (inl h, λ x bad. cc)))
            (λ _.
              Ensures-bind _ (update-Either (λ r. r.id == u) (apply_fields user))
                (λ rs.
                  Ensures-imp
                    (Ensures-from
                      (Keeps-bind (affected_row-Keeps not_found rs) (λ model. Keeps-pure _))
                      (λ s h. h.1 rs refl))
                    (λ r s kept. (inr (u, parsed, kept), λ x e. (u, parsed, kept))))
                (λ e s h. (
                  elim h.0 [ inl same ↦ inl same | inr changed ↦ inr (u, parsed, changed) ],
                  λ x bad. cc,
                ))))
        (λ s h. (inl h, λ x bad. cc))

  -- the columns that were given but the address, of the rows of that address
  abbrev pub UpdatedEmail : UserInputParam → String → List UserRow → Type 0
  UpdatedEmail user address rows =
      rows
      ≡ set_where (λ r. str_eq r.email address) (apply_fields (record user { email = none })) base

  pub update_by_email-Updates :
      (user : UserInputParam) (address : String)
      → Ensures From
          (update_user_by U T none (some address) user)
          (λ r s. (laws.rows s ≡ base) ⊎ UpdatedEmail user address (laws.rows s))
  unfolding update_user_by
  update_by_email-Updates user address =
      Ensures-if (has_no_fields (record user { email = none }))
        (λ _. Ensures-raise _ nothing_to_update (λ s h. inl h))
        (λ _.
          Ensures-bind _
            (update-Either (λ r. str_eq r.email address)
              (apply_fields (record user { email = none })))
            (λ rs.
              Ensures-imp
                (Ensures-from (Keeps-bind (affected_row-Keeps not_found rs) (λ model. Keeps-pure _))
                  (λ s h. h.1 rs refl))
                (λ r s kept. inr kept))
            (λ e s h. h.0))
