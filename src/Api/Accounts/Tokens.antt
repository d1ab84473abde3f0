-- ===== src/Api/Accounts/Tokens.antt =====
-- internal/api/services/jwt.go and internal/api/routes/middelware.go: the two kinds of tokens, who may
-- refresh with one and who may call a protected route with one.
use digital_wallet.Prelude.{ℕ, ◌+◌, ◌*◌, String, not, Option, none, some, str_eq, if◌then◌else◌}
use digital_wallet.Shared.{app_error}
use digital_wallet.Exec.{Result, ok, err}
use digital_wallet.External.Jwt.{Claims, Jwt}
use digital_wallet.Api.Accounts.Types.{AccountService, ClaimsPayload, access_hours, refresh_hours}

abbrev pub token_type_access : String
token_type_access = "access"

abbrev pub token_type_refresh : String
token_type_refresh = "refresh"

-- the map of claims, with the expiry that `SetExpiry` adds
abbrev pub claims_of : ClaimsPayload → String → ℕ → Claims
claims_of payload token_type exp = record {
  sub = some payload.id;
  email = some payload.email;
  first_name = some payload.first_name;
  last_name = some payload.last_name;
  is_verified = some payload.is_verified;
  token_type = some token_type;
  exp = exp;
}

abbrev pub or_server_error : {A : Type 0} → String → Result A → Result A
or_server_error message (ok a) = ok a
or_server_error message (err e) = err (app_error 500 message)

abbrev pub bad_refresh : {A : Type 0} → Result A
bad_refresh = err (app_error 401 "Invalid Or Expired Refresh Token")

-- the subject, which may not be empty
abbrev pub subject_of : Option String → Result String
subject_of none = bad_refresh
subject_of (some subject) = if str_eq subject "" then bad_refresh else ok subject

abbrev pub refresh_subject : Option String → Option String → Result String
refresh_subject none subject = bad_refresh
refresh_subject (some token_type) subject =
    if not (str_eq token_type token_type_refresh) then bad_refresh else subject_of subject

abbrev pub read_refresh : Result Claims → Result String
read_refresh (err e) = bad_refresh
read_refresh (ok claims) = refresh_subject claims.token_type claims.sub

abbrev pub text_of : Option String → String
text_of none = ""
text_of (some s) = s

abbrev pub caller_of : Option String → Result String
caller_of none = err (app_error 401 "Sub Couldnt be mapped to string")
caller_of (some id) = ok id

-- `AuthMiddleWare`, on the claims that the verifier put on the request
abbrev pub auth_middleware : Result Claims → Result String
auth_middleware (err e) = err (app_error 401 "Unauhorized Context Mapping")
auth_middleware (ok claims) =
    if not (str_eq (text_of claims.token_type) token_type_access)
    then err (app_error 401 "Unauhorized, An Access Token Is Required")
    else caller_of claims.sub

-- `Authenticator`, and then `AuthMiddleWare`
abbrev pub authenticator : Result Claims → Result String
authenticator (err e) = err (app_error 401 "Unauhorized Inavlid or Expired Token")
authenticator (ok claims) = auth_middleware (ok claims)

module _ (J : Jwt) (c : AccountService) where
  unfoldable pub generate_access_token : ℕ → ClaimsPayload → Result String
  generate_access_token now payload =
      or_server_error "Failed To generate Access token"
        (J.encode (claims_of payload token_type_access (now + 3600 * access_hours c)))

  unfoldable pub generate_refresh_token : ℕ → ClaimsPayload → Result String
  generate_refresh_token now payload =
      or_server_error "Failed To generate Refresh token"
        (J.encode (claims_of payload token_type_refresh (now + 3600 * refresh_hours c)))

  unfoldable pub parse_refresh_token : ℕ → String → Result String
  parse_refresh_token now token = read_refresh (J.verify_token now token)

  -- The group of protected routes: `jwtauth.Verifier`, `Authenticator` and `AuthMiddleWare`, on the token
  -- of the request. A request without one is an error of the verifier.
  unfoldable pub authenticate : ℕ → Option String → Result String
  authenticate now none = err (app_error 401 "Unauhorized Inavlid or Expired Token")
  authenticate now (some token) = authenticator (J.verify_token now token)
