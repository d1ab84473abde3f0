-- ===== src/Repository/Profiles.antt =====
-- internal/repository/user_repository.go, `UpdateUser`: the columns that it leaves alone.
use digital_wallet.Prelude.{
  String, ◌≡◌, refl, ◌∙◌, inl, inr, Bool, Option, none, some, List, [], ◌∷◌, map, set_where, ◌==◌,
  str_eq, Bool-cases,
}
use digital_wallet.Shared.{not_found, nothing_to_update, no_identifier}
use digital_wallet.Exec.Ensures.{
  Keeps, Keeps-bind, Keeps-wrap, Keeps-pure, Keeps-raise, Keeps-or_else, Keeps-if,
}
use digital_wallet.External.Uuids.{Uuid, Uuids}
use digital_wallet.External.Table.{Table, TableLaws}
use digital_wallet.Repository.Types.{UserRow, UserInputParam}
use digital_wallet.Repository.Errors.{wrap_gorm_error}
use digital_wallet.Repository.Queries.{affected_row-Keeps}
use digital_wallet.Repository.Users.{
  apply_fields, has_no_fields, update_rows, update_user_by, update_user,
}

-- A change that keeps a view of each member keeps the view of the list.
map-set_where :
    {A B : Type 0} (view : A → B) (p : A → Bool) (f : A → A) (xs : List A)
    → ((x : A) → view (f x) ≡ view x)
    → map view (set_where p f xs) ≡ map view xs
map-set_where view p f [] keep = refl
map-set_where view p f (x ∷ xs) keep = elim (Bool-cases (p x)) [
  | inl e ↦ rw (e, keep x, map-set_where view p f xs keep) refl
  | inr e ↦ rw (e, map-set_where view p f xs keep) refl
]

-- who a user is, and whether and how the user may log in
abbrev pub credentials : UserRow → Uuid × Option String × Bool
credentials r = (r.id, r.passwordhash, r.is_active)

module _ (U : Uuids) (T : Table UserRow) (laws : TableLaws T)
    (base : List (Uuid × Option String × Bool)) where
  abbrev SameCredentials : T.State → Type 0
  SameCredentials s = map credentials (laws.rows s) ≡ base

  update-SameCredentials :
      (p : UserRow → Bool) (user : UserInputParam)
      → Keeps SameCredentials (T.update p (apply_fields user))
  unfolding apply_fields
  update-SameCredentials p user = record {
    at = λ s h. elim (laws.rows-update p (apply_fields user) s) [
      | inl same ↦ rw same h
      | inr changed ↦
          rw changed (map-set_where credentials p (apply_fields user) (laws.rows s) (λ x. refl) ∙ h)
    ];
  }

  update_rows-SameCredentials :
      (p : UserRow → Bool) (user : UserInputParam) → Keeps SameCredentials (update_rows U T p user)
  update_rows-SameCredentials p user =
      Keeps-if (has_no_fields user) (Keeps-raise nothing_to_update) (
        Keeps-bind (Keeps-wrap wrap_gorm_error (update-SameCredentials p user))
          (λ updated. Keeps-bind (affected_row-Keeps not_found updated) (λ model. Keeps-pure _)))

  update_user_by-SameCredentials :
      (id email : Option String) (user : UserInputParam)
      → Keeps SameCredentials (update_user_by U T id email user)
  unfolding update_user_by
  update_user_by-SameCredentials (some id) email user =
      Keeps-bind (Keeps-or_else (U.parse id) not_found)
        (λ u. update_rows-SameCredentials (λ r. r.id == u) user)
  update_user_by-SameCredentials none (some email) user =
      update_rows-SameCredentials (λ r. str_eq r.email email) (record user { email = none })
  update_user_by-SameCredentials none none user = Keeps-raise no_identifier

module _ (U : Uuids) (T : Table UserRow) (laws : TableLaws T) where
  -- Updating a user, whatever is asked for and whatever fails, changes no user's identity, password or
  -- activity, and adds and removes no user.
  pub update_user-SameCredentials :
      (user : UserInputParam) (s : T.State)
      → map credentials (laws.rows (update_user U T user s).1) ≡ map credentials (laws.rows s)
  unfolding update_user
  update_user-SameCredentials user s =
      (update_user_by-SameCredentials U T laws (map credentials (laws.rows s)) user.id user.email
          user).at
        s refl
