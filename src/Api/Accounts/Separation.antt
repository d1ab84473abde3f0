-- ===== src/Api/Accounts/Separation.antt =====
-- internal/api/services/jwt.go and internal/api/routes/middelware.go: what each kind of token is good for.
use digital_wallet.Prelude.{ℕ, ◌<◌, ◌+◌, ◌*◌, String, ◌≡◌, refl, false, some, str_eq}
use digital_wallet.Shared.{app_error}
use digital_wallet.Exec.{Result, ok, err}
use digital_wallet.External.Jwt.{Jwt, JwtLaws}
use digital_wallet.Api.Accounts.Types.{AccountService, ClaimsPayload, access_hours, refresh_hours}
use digital_wallet.Api.Accounts.Tokens.{
  or_server_error, generate_access_token, generate_refresh_token, parse_refresh_token, authenticate,
}

answered :
    (message token : String) (r : Result String)
    → or_server_error message r ≡ ok token
    → r ≡ ok token
answered message token (ok t) h = h
answered message token (err e) h = cc

module _ (J : Jwt) (laws : JwtLaws J) (c : AccountService) where
  -- Until they expire, the two tokens of a user with an id are good for one thing each: the access token
  -- opens the protected routes as that user and is refused for refreshing, and the refresh token is
  -- accepted for refreshing as that user and is refused by the protected routes.
  pub authenticate-generate :
      (now later : ℕ) (payload : ClaimsPayload) (access refresh : String)
      → str_eq payload.id "" ≡ false
      → generate_access_token J c now payload ≡ ok access
      → generate_refresh_token J c now payload ≡ ok refresh
      → later < now + 3600 * access_hours c
      → later < now + 3600 * refresh_hours c
      → (authenticate J c later (some access) ≡ ok payload.id)
        × (parse_refresh_token J c later access
            ≡ err (app_error 401 "Invalid Or Expired Refresh Token"))
        × (parse_refresh_token J c later refresh ≡ ok payload.id)
        × (authenticate J c later (some refresh)
            ≡ err (app_error 401 "Unauhorized, An Access Token Is Required"))
  unfolding generate_access_token generate_refresh_token parse_refresh_token authenticate
  authenticate-generate now later payload access refresh named signed signed' fresh fresh' =
      let a = laws.verify-encode _ access later (answered _ access _ signed) fresh in
      let r = laws.verify-encode _ refresh later (answered _ refresh _ signed') fresh' in
      (rw a refl, rw a refl, rw (r, named) refl, rw r refl)
