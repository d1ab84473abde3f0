-- ===== src/Api/Accounts/Deleted.antt =====
-- internal/api/services/user-service.go: what a refresh token is good for once its account is deleted.
use digital_wallet.Prelude.{
  ℕ, String, ◌≡◌, refl, sym, subst, ap, ◌∙◌, inl, inr, Bool, false, some, List, [], ◌∷◌, Memᴰ,
  set_where, ◌==◌, ==_iff, Bool-cases, some_eq, if◌then◌else◌,
}
use digital_wallet.Exec.{ok, pure, wrap, attempt}
use digital_wallet.Exec.Ensures.{Ensures, Ensures-bind, Ensures-wrap}
use digital_wallet.External.Uuids.{UuidLaws}
use digital_wallet.External.Jwt.{Jwt}
use digital_wallet.External.Bcrypt.{Bcrypt}
use digital_wallet.External.Table.{TableLaws}
use digital_wallet.Repository.Types.{UserRow, User}
use digital_wallet.Repository.Users.{map_user, get_user_by_id}
use digital_wallet.Repository.Queries.{read-Found}
use digital_wallet.Repository.Changes.{Deleted, delete_user-Deletes}
use digital_wallet.Queues.Services.{Services, World}
use digital_wallet.Api.Accounts.Types.{AccountService}
use digital_wallet.Api.Accounts.Tokens.{
  generate_access_token, generate_refresh_token, parse_refresh_token,
}
use digital_wallet.Api.Accounts.{claims_payload, logged_in}
use digital_wallet.Api.Accounts.Sessions.{refresh_user_token}
use digital_wallet.Api.Accounts.Owners.{delete_failure, delete_user}
use digital_wallet.Api.Accounts.Ownership.{validat_owner-Owned}

-- A member of a list after a change was a member before it, changed or not.
Memᴰ-set_where_inv :
    {A : Type 0} (p : A → Bool) (f : A → A) (xs : List A) (y : A)
    → Memᴰ y (set_where p f xs)
    → (x : A) × Memᴰ x xs × (y ≡ (if p x then f x else x))
Memᴰ-set_where_inv p f [] y m = elim m [ ]
Memᴰ-set_where_inv p f (x ∷ xs) y (Memᴰ.head e) = (x, Memᴰ.head refl, e)
Memᴰ-set_where_inv p f (x ∷ xs) y (Memᴰ.tail m) =
    let (z, member, e) = Memᴰ-set_where_inv p f xs y m in (z, Memᴰ.tail member, e)

module _ (S : Services) (ids : UuidLaws S.uuids) (laws : TableLaws S.users) where
  -- A row of a deleted account is not active.
  inactive :
      (base rows : List UserRow) (id : String) (row : UserRow)
      → Deleted S.uuids laws base id rows
      → S.uuids.parse id ≡ some row.id
      → Memᴰ row rows
      → row.is_active ≡ false
  inactive base rows id row (model, known, parsed, changed) named m =
      let (x, member, e) =
        Memᴰ-set_where_inv (λ r. r.id == model.id) (λ r. record model { is_active = false }) base
          row (subst (Memᴰ row) changed m) in
      elim (Bool-cases (x.id == model.id)) [
        | inl hit ↦
            (let same : row ≡ record model { is_active = false } = rw hit at e in
              ap (λ (z : UserRow). z.is_active) same)
        | inr miss ↦
            (let same : row ≡ x = rw miss at e in
              let hit =
                (==_iff x.id model.id).1
                  (ap (λ (z : UserRow). z.id) (sym same) ∙ some_eq refl (sym named ∙ parsed)) in
              cc)
      ]

  delete_user-Deleted :
      (base : List UserRow) (caller id : String)
      → Ensures
          (λ w. laws.rows w.users ≡ base)
          (delete_user S caller id)
          (λ r w. r ≡ ok tt → Deleted S.uuids laws base id (laws.rows w.users))
  unfolding delete_user
  delete_user-Deleted base caller id =
      Ensures-bind _ (validat_owner-Owned S ids laws base id caller)
        (λ owner.
          Ensures-wrap delete_failure
            (λ r w. r ≡ ok tt → Deleted S.uuids laws base id (laws.rows w.users))
            (record {
              at = λ w h e.
                  let (mine, printed) = h.1 owner refl in
                  let (model, member, parsed, changed) =
                    ((delete_user-Deletes S.uuids laws base owner.id).at w.users h.0).1 e in
                  (model, member, printed ∙ parsed, changed);
            })
            (λ u w h. h) (λ e w h bad. cc))
        (λ e w h bad. cc)

  -- Once an account has been deleted, a refresh token for it still gets a new pair of tokens, if it has not
  -- expired, the account can be read and the tokens can be signed; the account that was read is not active.
  pub refresh-delete :
      (jwt : Jwt) (B : Bcrypt) (c : AccountService) (now : ℕ)
      (caller id token access refresh : String) (w : World S) (user : User)
      → (delete_user S caller id w).0 ≡ ok tt
      → parse_refresh_token jwt c now token ≡ ok id
      → (get_user_by_id S.uuids S.users id (delete_user S caller id w).1.users).0 ≡ ok user
      → generate_access_token jwt c now (claims_payload user) ≡ ok access
      → generate_refresh_token jwt c now (claims_payload user) ≡ ok refresh
      → (user.is_active ≡ false)
        × ((refresh_user_token S jwt B c now token (delete_user S caller id w).1).0
            ≡ ok (logged_in S jwt c user (access, refresh)))
  unfolding refresh_user_token map_user pure wrap attempt get_user_by_id
  refresh-delete jwt B c now caller id token access refresh w user deleted parsed read signed
        signed' =
      let w' = (delete_user S caller id w).1 in
      let gone = (delete_user-Deleted (laws.rows w.users) caller id).at w refl deleted in
      let (u, row, named, same, member, view) =
        (read-Found S.uuids laws (λ u r. r.id == u) (map_user S.uuids) id (laws.rows w'.users)).at
          w'.users refl user read in
      (
        ap (λ (z : User). z.is_active) view
            ∙ inactive (laws.rows w.users) (laws.rows w'.users) id row gone
                (named ∙ ap some (sym ((==_iff row.id u).0 same))) member,
        rw (parsed, read, signed, signed') refl,
      )
