-- ===== src/Api/Accounts/Registered.antt =====
-- internal/api/services/user-service.go, `CreateUser`: the account that a registration leaves.
use digital_wallet.Prelude.{
  ℕ, String, ◌≡◌, refl, sym, subst, ap, ◌∙◌, ◌⊎◌, inl, inr, Bool, true, false, some, List, [], ◌∷◌,
  ◌++◌,
}
use digital_wallet.Shared.{Error}
use digital_wallet.Exec.{Result, ok, err, wrap, ◌>>=◌}
use digital_wallet.Exec.Ensures.{
  Ensures, Keeps, Keeps-attempt, Keeps-bind, Keeps-pure, Ensures-pure, Ensures-raise, Ensures-bind,
  Ensures-wrap, Ensures-if, Ensures-imp, Ensures-from,
}
use digital_wallet.External.Uuids.{Uuid}
use digital_wallet.External.Jwt.{Jwt}
use digital_wallet.External.Bcrypt.{Bcrypt, BcryptLaws}
use digital_wallet.Repository.Types.{UserRow, User}
use digital_wallet.Repository.Users.{map_user, user_email_exists}
use digital_wallet.Repository.Users as Users
use digital_wallet.Repository.Insertion.{InsertLaws}
use digital_wallet.Repository.Presence.{
  IsFree, user_email_exists-Answers, Adds, IsNew, create_user-Adds,
}
use digital_wallet.Queues.Services.{Services, World, on_users}
use digital_wallet.Api.Events.{publish}
use digital_wallet.Api.Accounts.Events.{user_created_listeners, welcome_listener}
use digital_wallet.Api.Transfers.{server_error}
use digital_wallet.Api.Accounts.Types.{AccountService, LoginSuccessful, UserInputParam}
use digital_wallet.Api.Accounts.{map_user_to_service_domain}
use digital_wallet.Api.Accounts.Login.{ok-eq, from_result-Ensures, Signed, issue_tokens-Signed}
use digital_wallet.Api.Accounts.Registration.{
  row_of, birth_date, bcrypt_cost, register, welcome, created_event, create_user,
}

module _ (S : Services) (jwt : Jwt) (B : Bcrypt) (bcrypt : BcryptLaws B) (c : AccountService)
    (laws : InsertLaws S.users) (base : List UserRow) (fresh : Uuid) (salt now : ℕ)
    (drawn : Result String) (input : UserInputParam) where
  abbrev From : World S → Type 0
  From w = laws.rows w.users ≡ base

  -- one new account, for an address that had none
  pub record Registered (rows : List UserRow) (row : UserRow) : Type 0 where
    pub free : IsFree S.uuids laws.table base input.email
    pub added : rows ≡ base ++ row ∷ []
    pub email : row.email ≡ input.email
    pub hash : String
    pub passwordhash : row.passwordhash ≡ some hash
    pub accepted : B.compare_hash_and_password hash input.password ≡ ok tt
    pub gender : row.gender ≡ "OTHER"
    pub is_active : row.is_active ≡ true
    pub is_verified : row.is_verified ≡ false

  -- the answer to a registration
  abbrev pub AnswersFor : UserRow → LoginSuccessful → Type 0
  AnswersFor row l =
      (l.user ≡ map_user_to_service_domain (map_user S.uuids row))
      × Signed S jwt c now (map_user S.uuids row) (l.access_token, l.refresh_token)

  abbrev pub Registers : Result LoginSuccessful → World S → Type 0
  Registers r w =
      ((laws.rows w.users ≡ base) ⊎ ((row : UserRow) × Registered (laws.rows w.users) row))
      × ((l : LoginSuccessful)
          → r ≡ ok l
          → (row : UserRow) × Registered (laws.rows w.users) row × AnswersFor row l)

  abbrev Kept : World S → Type 0
  Kept w = laws.rows w.users ≡ base

  refused : (e : Error) (w : World S) → Kept w → Registers (err e) w
  refused e w h = (inl h, λ l bad. cc)

  -- what the bus does leaves the users alone
  publish-Kept :
      (P : List UserRow → Type 0) (user : User)
      → Keeps
          (λ w. P (laws.rows w.users))
          (publish S (user_created_listeners S c.hash_code drawn) (created_event user))
  unfolding welcome_listener
  publish-Kept P user =
      Keeps-attempt (Keeps-bind (record { at = λ w h. h }) (λ code. record { at = λ w h. h }))
        (λ r. Keeps-pure tt)

  welcome-Registers :
      (row : UserRow)
      → Ensures
          (λ w. Registered (laws.rows w.users) row)
          (welcome S jwt B c now drawn (map_user S.uuids row))
          Registers
  unfolding welcome
  welcome-Registers row =
      let user = map_user S.uuids row in
      Ensures-bind _ (issue_tokens-Signed S jwt c now user)
        (λ tokens.
          Ensures-bind (λ r w. Signed S jwt c now user tokens × Registered (laws.rows w.users) row)
            (Ensures-from
              (publish-Kept (λ rows. Signed S jwt c now user tokens × Registered rows row) user)
              (λ w h. (h.0 tokens refl, h.1)))
            (λ _. Ensures-pure Registers _ (λ w h.
              (inr (row, h.1), λ l e. (row, h.1, subst (AnswersFor row) (ok-eq e) (refl, h.0)))))
            (λ e w h. (inr (row, h.1), λ l bad. cc)))
        (λ e w h. (inr (row, h.1), λ l bad. cc))

  -- the account is stored, with the hash that was made
  store-Registers :
      (born : ℕ) (hash : String)
      → IsFree S.uuids laws.table base input.email
      → B.generate_from_password salt input.password bcrypt_cost ≡ ok hash
      → Ensures Kept
          (wrap (server_error "Error Registering User") (
              on_users S
                (Users.create_user S.uuids S.users fresh (row_of S jwt B c input born hash)))
            >>= welcome S jwt B c now drawn)
          Registers
  store-Registers born hash free hashed =
      let Stored = λ (r : Result User) (w : World S).
        Adds S.uuids laws base (row_of S jwt B c input born hash) r w.users in
      Ensures-bind Stored
        (Ensures-wrap (server_error "Error Registering User") Stored
          (record {
            at = λ w h.
                (create_user-Adds S.uuids laws base fresh (row_of S jwt B c input born hash)).at
                  w.users h;
          })
          (λ x w h. h) (λ e w h. h))
        (λ x. record {
          at = λ w (row, added, view, new).
              subst
                (λ (z : User).
                  Registers (welcome S jwt B c now drawn z w).0 (welcome S jwt B c now drawn z w).1)
                (sym view) ((welcome-Registers row).at w (registered row w added new));
        })
        (λ e w h. elim h [
          | inl same ↦ refused e w same
          | inr (row, added, new) ↦ (inr (row, registered row w added new), λ l bad. cc)
        ])
    where
      registered :
          (row : UserRow) (w : World S)
          → laws.rows w.users ≡ base ++ row ∷ []
          → IsNew S.uuids laws base (row_of S jwt B c input born hash) row
          → Registered (laws.rows w.users) row
      registered row w added new = record {
        free = free;
        added = added;
        email = new.email;
        hash = hash;
        passwordhash = new.passwordhash;
        accepted = bcrypt.compare-generate salt input.password bcrypt_cost hash hashed;
        gender = new.gender;
        is_active = new.is_active;
        is_verified = new.is_verified;
      }

  register-Registers :
      IsFree S.uuids laws.table base input.email
      → Ensures Kept (register S jwt B c fresh salt now drawn input) Registers
  unfolding register
  register-Registers free =
      Ensures-bind (λ r w. Hashed r × Kept w)
        (Ensures-wrap (server_error "Error Registering User") (λ r w. Hashed r × Kept w)
          (Ensures-imp
            (from_result-Ensures (B.generate_from_password salt input.password bcrypt_cost))
            (λ r w h. ((λ hash e. sym h.0 ∙ e), h.1)))
          (λ hash w h. h) (λ e w h. ((λ hash bad. cc), h.1)))
        (λ hash.
          Ensures-bind (λ r w. Hashed (ok hash) × Kept w)
            (Ensures-wrap (server_error "Error Registering User") (λ r w. Hashed (ok hash) × Kept w)
              (Ensures-imp (from_result-Ensures (birth_date c input.date_of_birth)) (λ r w h. h.1))
              (λ born w h. h) (λ e w h. h))
            (λ born. record {
              at = λ w h. (store-Registers born hash free (h.0 hash refl)).at w h.1;
            })
            (λ e w h. refused e w h.1))
        (λ e w h. refused e w h.1)
    where
      Hashed : Result String → Type 0
      Hashed r =
          (hash : String)
          → r ≡ ok hash
          → B.generate_from_password salt input.password bcrypt_cost ≡ ok hash

  create_user-Registers : Ensures Kept (create_user S jwt B c fresh salt now drawn input) Registers
  unfolding create_user
  create_user-Registers =
      let Asked = λ (r : Result Bool) (w : World S).
        Kept w × (r ≡ ok false → IsFree S.uuids laws.table base input.email) in
      Ensures-bind Asked
        (Ensures-wrap _ Asked
          (record {
            at =
                λ w h. (user_email_exists-Answers S.uuids laws.table base input.email).at w.users h;
          })
          (λ b w h. h) (λ e w h. (h.0, λ bad. cc)))
        (λ exists.
          Ensures-if exists (λ _. Ensures-raise _ _ (λ w h. refused _ w h.0))
            (λ free. record { at = λ w h. (register-Registers (h.1 (ap ok free))).at w h.0 }))
        (λ e w h. refused e w h.0)

module _ (S : Services) (jwt : Jwt) (B : Bcrypt) (bcrypt : BcryptLaws B) (c : AccountService)
    (laws : InsertLaws S.users) where
  -- A registration stores one new account or none. The new one is for an address that no account had, not
  -- even one that was deleted; it is active and not verified, has the gender OTHER whatever was asked for, and a hash that bcrypt accepts with the
  -- password that was given; an answer with tokens is for it, and no token is answered without it.
  pub create_user-Registers_lem :
      (fresh : Uuid) (salt now : ℕ) (drawn : Result String) (input : UserInputParam) (w : World S)
      → Registers S jwt B bcrypt c laws
          (laws.rows w.users)
          fresh
          salt
          now
          drawn
          input
          (create_user S jwt B c fresh salt now drawn input w).0
          (create_user S jwt B c fresh salt now drawn input w).1
  create_user-Registers_lem fresh salt now drawn input w =
      (create_user-Registers S jwt B bcrypt c laws (laws.rows w.users) fresh salt now drawn
          input).at
        w refl
