-- ===== src/Api/Accounts/Login.antt =====
-- internal/api/services/user-service.go, `LoginUser`: who is let in.
use digital_wallet.Prelude.{
  ℕ, String, ◌≡◌, refl, sym, subst, ◌∙◌, Bool, true, not, ◌&&◌, none, some, List, Memᴰ, str_eq,
  eq_iff, arith,
}
use digital_wallet.Exec.{from_result, Result, ok, err}
use digital_wallet.Exec.Ensures.{
  Ensures, Ensures-pure, Ensures-raise, Ensures-bind, Ensures-wrap, Ensures-if, Ensures-imp,
}
use digital_wallet.External.Jwt.{Jwt}
use digital_wallet.External.Bcrypt.{Bcrypt}
use digital_wallet.External.Uuids.{Uuids}
use digital_wallet.External.Table.{Table, TableLaws}
use digital_wallet.Repository.Types.{UserRow, User}
use digital_wallet.Repository.Errors.{wrap_gorm_error}
use digital_wallet.Repository.Users.{map_user, get_user_credentials_by_email}
use digital_wallet.Queues.Services.{Services, World}
use digital_wallet.Api.Accounts.Types.{AccountService, LoginSuccessful}
use digital_wallet.Api.Accounts.Tokens.{generate_access_token, generate_refresh_token}
use digital_wallet.Api.Accounts.{map_user_to_service_domain, claims_payload, issue_tokens}
use digital_wallet.Api.Accounts.Sessions.{login_failure, log_in, login_user}

abbrev pub hash_of : UserRow → String
hash_of row = elim row.passwordhash [ none ↦ "" | some hash ↦ hash ]

pub ok-eq : {A : Type 0} {a b : A} → ok a ≡ ok b → a ≡ b
ok-eq p = cc

pub both : (a b : Bool) → (a && b) ≡ true → (a ≡ true) × (b ≡ true)
both a b h = ground arith

pub is_text : (a b : String) → str_eq a b ≡ true → a ≡ b
is_text a b h = ground (arith, eq_iff a b)

module _ {S A : Type 0} {P : S → Type 0} where
  pub from_result-Ensures :
      (r : Result A) → Ensures P (from_result {A = A} {S = S} r) (λ r' s. (r' ≡ r) × P s)
  from_result-Ensures (ok a) = Ensures-pure _ a (λ s h. (refl, h))
  from_result-Ensures (err e) = Ensures-raise _ e (λ s h. (refl, h))

module _ (S : Services) (J : Jwt) (c : AccountService) where
  -- the tokens are those of the user
  abbrev pub Signed : ℕ → User → String × String → Type 0
  Signed now user tokens =
      (generate_access_token J c now (claims_payload user) ≡ ok tokens.0)
      × (generate_refresh_token J c now (claims_payload user) ≡ ok tokens.1)

  abbrev pub AllSigned : ℕ → User → Result (String × String) → World S → Type 0
  AllSigned now user r w = (tokens : String × String) → r ≡ ok tokens → Signed now user tokens

  pub issue_tokens-Signed :
      {P : World S → Type 0} (now : ℕ) (user : User)
      → Ensures P (issue_tokens S J c now user) (λ r w. AllSigned now user r w × P w)
  issue_tokens-Signed now user =
      Ensures-bind _ (from_result-Ensures (generate_access_token J c now (claims_payload user)))
        (λ access.
          Ensures-bind _
            (from_result-Ensures (generate_refresh_token J c now (claims_payload user)))
            (λ refresh.
              Ensures-pure _ (access, refresh)
                (λ w h.
                  (λ tokens e. subst (Signed now user) (ok-eq e) (sym h.1.0, sym h.0), h.1.1)))
            (λ e w h. ((λ tokens bad. cc), h.1.1)))
        (λ e w h. ((λ tokens bad. cc), h.1))

module _ (U : Uuids) {T : Table UserRow} (laws : TableLaws T) (base : List UserRow)
    (address : String) where
  -- an active account of that address, with its hash
  abbrev pub Known : User × String → Type 0
  Known found =
      (row : UserRow) × Memᴰ row base
      × (row.email ≡ address)
      × (row.is_active ≡ true)
      × (found ≡ (map_user U row, hash_of row))

  abbrev Matches : Result UserRow → T.State → Type 0
  Matches r s =
      (row : UserRow)
      → r ≡ ok row
      → ((str_eq row.email address && row.is_active) ≡ true) × Memᴰ row base

  pub credentials-Known :
      Ensures
        (λ s. laws.rows s ≡ base)
        (get_user_credentials_by_email U T address)
        (λ r s. (found : User × String) → r ≡ ok found → Known found)
  unfolding get_user_credentials_by_email
  credentials-Known =
      Ensures-bind Matches
        (Ensures-wrap wrap_gorm_error Matches
          (record {
            at = λ s h row e.
                let (fits, member) = laws.first_matches _ s row e in
                (fits, subst (Memᴰ row) h member);
          })
          (λ row s h. h) (λ e s h row bad. cc))
        (λ row. Ensures-pure _ _ (λ s h found e.
          let (fits, member) = h row refl in
          let (same, active) = both (str_eq row.email address) row.is_active fits in
          (row, member, is_text row.email address same, active, sym (ok-eq e))))
        (λ e s h found bad. cc)

-- whom a login lets in, and with what
pub record LetIn (S : Services) (J : Jwt) (B : Bcrypt) (c : AccountService) (rows : List UserRow)
    (now : ℕ) (address password : String) (l : LoginSuccessful) : Type 0 where
  pub row : UserRow
  pub known : Memᴰ row rows
  pub of_address : row.email ≡ address
  pub active : row.is_active ≡ true
  pub accepted : B.compare_hash_and_password (hash_of row) password ≡ ok tt
  pub shown : l.user ≡ map_user_to_service_domain (map_user S.uuids row)
  pub signed : Signed S J c now (map_user S.uuids row) (l.access_token, l.refresh_token)

module _ (S : Services) (J : Jwt) (B : Bcrypt) (c : AccountService) (laws : TableLaws S.users)
    (base : List UserRow) (now : ℕ) (address password : String) where
  abbrev Lets : Result LoginSuccessful → World S → Type 0
  Lets r w = (l : LoginSuccessful) → r ≡ ok l → LetIn S J B c base now address password l

  log_in-LetIn :
      (row : UserRow)
      → Memᴰ row base
      → row.email ≡ address
      → row.is_active ≡ true
      → Ensures
          (λ w. Unit {0})
          (log_in S J B c now password (map_user S.uuids row, hash_of row))
          Lets
  unfolding log_in map_user
  log_in-LetIn row member same active =
      let user = map_user S.uuids row in
      let Accepted = λ (r : Result (Unit {0})) (w : World S).
        r ≡ ok tt → B.compare_hash_and_password (hash_of row) password ≡ ok tt in
      Ensures-bind Accepted
        (Ensures-wrap _ Accepted
          (Ensures-imp (from_result-Ensures (B.compare_hash_and_password (hash_of row) password))
            (λ r w h e. sym h.0 ∙ e))
          (λ u w h. h) (λ e w h bad. cc))
        (λ u.
          Ensures-if (not user.is_active) (λ _. Ensures-raise _ _ (λ w h l bad. cc))
            (λ _.
              Ensures-bind _ (issue_tokens-Signed S J c now user)
                (λ tokens.
                  Ensures-bind
                    (λ r w.
                      AllSigned S J c now user (ok tokens) w
                      × (B.compare_hash_and_password (hash_of row) password ≡ ok tt))
                    (record { at = λ w h. (h.0, h.1 refl) })
                    (λ _. Ensures-pure _ _ (λ w h l e.
                      subst (LetIn S J B c base now address password) (ok-eq e) (record {
                        row = row;
                        known = member;
                        of_address = same;
                        active = active;
                        accepted = h.1;
                        shown = refl;
                        signed = h.0 tokens refl;
                      })))
                    (λ e w h l bad. cc))
                (λ e w h l bad. cc)))
        (λ e w h l bad. cc)

  login_user-Lets :
      Ensures (λ w. laws.rows w.users ≡ base) (login_user S J B c now address password) Lets
  unfolding login_user
  login_user-Lets =
      Ensures-bind
        (λ r w. (found : User × String) → r ≡ ok found → Known S.uuids laws base address found)
        (Ensures-wrap login_failure
          (λ r w. (found : User × String) → r ≡ ok found → Known S.uuids laws base address found)
          (record { at = λ w h. (credentials-Known S.uuids laws base address).at w.users h })
          (λ found w h. h) (λ e w h found bad. cc))
        (λ found. record {
          at = λ w h.
              let (row, member, same, active, view) = h found refl in
              subst (λ (z : User × String). Lets (log_in S J B c now password z w).0 w) (sym view)
                ((log_in-LetIn row member same active).at w tt);
        })
        (λ e w h l bad. cc)

module _ (S : Services) (J : Jwt) (B : Bcrypt) (c : AccountService) (laws : TableLaws S.users) where
  -- A login that is answered with tokens is that of a known account of the address, which is active and
  -- whose hash bcrypt accepts with the password; what is shown is that account, and the tokens are its own.
  pub login_user-LetIn :
      (now : ℕ) (address password : String) (w : World S) (l : LoginSuccessful)
      → (login_user S J B c now address password w).0 ≡ ok l
      → LetIn S J B c (laws.rows w.users) now address password l
  login_user-LetIn now address password w l answered =
      (login_user-Lets S J B c laws (laws.rows w.users) now address password).at w refl l answered
