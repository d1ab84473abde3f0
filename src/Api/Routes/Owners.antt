-- ===== src/Api/Routes/Owners.antt =====
-- internal/api/routes: who changes or deletes an account, from the request's token to the tables.
use digital_wallet.Prelude.{
  ℕ, String, ◌≡◌, ◌≤◌, refl, sym, subst, ◌⊎◌, inl, inr, Bool, true, false, not, Option, str_eq,
  Bool-cases, arith, if◌then◌else◌,
}
use digital_wallet.Shared.{Error, app_error}
use digital_wallet.Exec.{Result, ok, err, raise, attempt}
use digital_wallet.Queues.Services.{Services, World}
use digital_wallet.Api.Accounts.Types.{UpdateUserParam, Profile}
use digital_wallet.Api.Accounts.Ownership.{same_id}
use digital_wallet.Api.Accounts.Owners as Owners
use digital_wallet.Api.Routes.{
  Answer, Body, Payload, write_app_error, after_validation, after_decoding, decode_and_validate,
  answer, given,
}
use digital_wallet.Api.Routes.Table.{ProtectedCall, Setup, Draws}
use digital_wallet.Api.Routes.Users.{user_id_of}
use digital_wallet.Api.Routes.Users as Users
use digital_wallet.Api.Routes.Serving.{handle, serve_protected}
use digital_wallet.Api.Routes.Admitted.{IsAdmitted, serve_protected-Serves}

-- the two routes that change an account, by the id in their path
pub data Changes : String → ProtectedCall → Type 0 where
  updates :
      (id : String) (payload : Payload UpdateUserParam)
      → Changes id (ProtectedCall.patch_users_id id payload)
  deletes : (id : String) → Changes id (ProtectedCall.delete_users_id id)

-- a value, or an error that is answered with 400 or more
abbrev IsAnswered : {A : Type 0} → Result A → Type 0
IsAnswered {A} r =
    ((a : A) × (r ≡ ok a))
    ⊎ ((code : ℕ) × (message : String) × (400 ≤ code) × (r ≡ err (app_error code message)))

user_id_of-IsAnswered : (id : String) → IsAnswered (user_id_of id)
user_id_of-IsAnswered id = by_test (str_eq id "")
  where
    by_test : (b : Bool) → IsAnswered (if b then err (app_error 400 "Missing user id") else ok id)
    by_test true = inr (400, "Missing user id", omega arith, refl)
    by_test false = inl (id, refl)

after_validation-IsAnswered :
    {A : Type 0} (error_text : Error → String) (body : A) (r : Result (Unit {0}))
    → IsAnswered (after_validation error_text body r)
after_validation-IsAnswered error_text body (ok _) = inl (body, refl)
after_validation-IsAnswered error_text body (err e) = inr (422, error_text e, omega arith, refl)

after_decoding-IsAnswered :
    {A : Type 0} (error_text : Error → String) (payload : Payload A) (r : Result A)
    → IsAnswered (after_decoding error_text payload r)
after_decoding-IsAnswered error_text payload (ok body) =
    after_validation-IsAnswered error_text body (payload.validated body)
after_decoding-IsAnswered error_text payload (err e) =
    inr (400, "Invalid request body", omega arith, refl)

decode_and_validate-IsAnswered :
    {A : Type 0} (error_text : Error → String) (payload : Payload A)
    → IsAnswered (decode_and_validate error_text payload)
unfolding decode_and_validate
decode_and_validate-IsAnswered error_text payload =
    after_decoding-IsAnswered error_text payload payload.decoded

module _ (S : Services) (c : Setup) (d : Draws) (w : World S) where
  abbrev Refused : Answer × World S → Type 0
  Refused (a, w') = (400 ≤ a.status) × (w' ≡ w)

  given-Refused :
      {A : Type 0} (r : Result A) (next : A → World S → Answer × World S)
      → IsAnswered r
      → ((a : A) → r ≡ ok a → Refused (next a w))
      → Refused (given c.web r next w)
  unfolding write_app_error
  given-Refused (ok a) next answered later = later a refl
  given-Refused (err e) next (inl (a, same)) later = cc
  given-Refused (err e) next (inr (code, message, large, same)) later =
      (subst (λ r. 400 ≤ (given c.web r next w).0.status) (sym same) (ground arith), refl)

  user_id-same : (id a : String) → user_id_of id ≡ ok a → id ≡ a
  user_id-same id a = by_test (str_eq id "")
    where
      by_test :
          (b : Bool) → (if b then err (app_error 400 "Missing user id") else ok id) ≡ ok a → id ≡ a
      by_test true h = cc
      by_test false h = cc

  -- The service refuses whoever asks for another's account.
  other-update :
      (caller id : String) (body : UpdateUserParam) (f : Profile → Body)
      → not (str_eq id caller) ≡ true
      → Refused (answer c.web (Owners.update_user S caller id body) 200 f w)
  unfolding answer write_app_error Owners.update_user Owners.validat_owner attempt raise
  other-update caller id body f other = rw other (omega arith, refl)

  other-delete :
      (caller id : String) (f : Unit {0} → Body)
      → not (str_eq id caller) ≡ true
      → Refused (answer c.web (Owners.delete_user S caller id) 204 f w)
  unfolding answer write_app_error Owners.delete_user Owners.validat_owner attempt raise
  other-delete caller id f other = rw other (omega arith, refl)

  other-Refused :
      (id caller : String) (call : ProtectedCall)
      → Changes id call
      → not (str_eq id caller) ≡ true
      → Refused (handle S c d caller call w)
  unfolding handle Users.update_user_route Users.delete_user_route
  other-Refused _ caller _ (updates id payload) other =
      given-Refused (user_id_of id) _ (user_id_of-IsAnswered id) (λ a same.
        given-Refused (decode_and_validate c.web.error_text payload) _
          (decode_and_validate-IsAnswered c.web.error_text payload)
          (λ body read.
            other-update caller a body _
              (subst (λ z. not (str_eq z caller) ≡ true) (user_id-same id a same) other)))
  other-Refused _ caller _ (deletes id) other =
      given-Refused (user_id_of id) _ (user_id_of-IsAnswered id) (λ a same.
        other-delete caller a _
          (subst (λ z. not (str_eq z caller) ≡ true) (user_id-same id a same) other))

  -- A request that asks to change or delete an account carries a signed and unexpired access token of that
  -- account's id, or is answered with a status of at least 400 and changes nothing.
  pub serve_protected-Changes :
      (carried : Option String) (id : String) (call : ProtectedCall)
      → Changes id call
      → IsAdmitted c.jwt d.now carried id ⊎ Refused (serve_protected S c d carried call w)
  serve_protected-Changes carried id call change =
      elim (serve_protected-Serves S c d call w carried) [
        | inr (code, same) ↦ inr (subst (λ n. 400 ≤ n) (sym code) (omega arith), same)
        | inl (caller, admitted, ran) ↦ elim (Bool-cases (not (str_eq id caller))) [
          | inl other ↦ inr (subst Refused (sym ran) (other-Refused id caller call change other))
          | inr mine ↦ inl (
              subst (λ z. IsAdmitted c.jwt d.now carried z) (sym (same_id id caller mine)) admitted)
        ]
      ]
