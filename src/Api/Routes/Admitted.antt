-- ===== src/Api/Routes/Admitted.antt =====
-- internal/api/routes: what a request needs to get past the middleware of the protected group.
use digital_wallet.Prelude.{
  ℕ, String, ◌≡◌, refl, ◌⊎◌, inl, inr, Bool, true, false, not, Option, none, some, str_eq, eq_iff,
  arith, if◌then◌else◌, ap,
}
use digital_wallet.Shared.{app_error}
use digital_wallet.Exec.{Result, ok, err}
use digital_wallet.External.Jwt.{Claims, Jwt}
use digital_wallet.Queues.Services.{Services, World}
use digital_wallet.Api.Accounts.Types.{AccountService}
use digital_wallet.Api.Accounts.Tokens.{
  token_type_access, text_of, caller_of, auth_middleware, authenticator, authenticate,
}
use digital_wallet.Api.Routes.{Answer, write_app_error, given}
use digital_wallet.Api.Routes.Table.{ProtectedCall, Setup, Draws}
use digital_wallet.Api.Routes.Serving.{handle, serve_protected}

-- The request carries a signed and unexpired access token of that caller.
pub record IsAdmitted (J : Jwt) (now : ℕ) (carried : Option String) (caller : String) : Type 0 where
  pub token : String
  pub claims : Claims
  pub carries : carried ≡ some token
  pub verified : J.verify_token now token ≡ ok claims
  pub is_access : claims.token_type ≡ some token_type_access
  pub is_caller : claims.sub ≡ some caller

access_type :
    (t : Option String)
    → not (str_eq (text_of t) token_type_access) ≡ false
    → t ≡ some token_type_access
access_type none h = cc
access_type (some text) h = ap some (ground (arith, eq_iff text token_type_access))

named : (s : Option String) (caller : String) → caller_of s ≡ ok caller → s ≡ some caller
named none caller h = cc
named (some id) caller h = cc

abbrev Unauthorized : Result String → Type 0
Unauthorized r = (message : String) × (r ≡ err (app_error 401 message))

-- either nobody, or the caller of an access token
abbrev Access : Claims → Result String → Type 0
Access claims r =
    ((caller : String) × (r ≡ ok caller)
      × (claims.token_type ≡ some token_type_access)
      × (claims.sub ≡ some caller))
    ⊎ Unauthorized r

subject-Access :
    (claims : Claims) (s : Option String)
    → claims.sub ≡ s
    → claims.token_type ≡ some token_type_access
    → Access claims (caller_of s)
subject-Access claims none same access = inr ("Sub Couldnt be mapped to string", refl)
subject-Access claims (some id) same access = inl (id, refl, access, same)

auth_middleware-Access : (claims : Claims) → Access claims (auth_middleware (ok claims))
auth_middleware-Access claims =
    by_kind (not (str_eq (text_of claims.token_type) token_type_access)) refl
  where
    by_kind :
        (b : Bool)
        → not (str_eq (text_of claims.token_type) token_type_access) ≡ b
        → Access claims (
            if b
            then err (app_error 401 "Unauhorized, An Access Token Is Required")
            else caller_of claims.sub)
    by_kind true h = inr ("Unauhorized, An Access Token Is Required", refl)
    by_kind false h = subject-Access claims claims.sub refl (access_type claims.token_type h)

module _ (J : Jwt) (c : AccountService) (now : ℕ) where
  abbrev Admits : Option String → Result String → Type 0
  Admits carried r =
      ((caller : String) × (r ≡ ok caller) × IsAdmitted J now carried caller) ⊎ Unauthorized r

  verified-Admits :
      (token : String) (r : Result Claims)
      → J.verify_token now token ≡ r
      → Admits (some token) (authenticator r)
  verified-Admits token (err e) read = inr ("Unauhorized Inavlid or Expired Token", refl)
  verified-Admits token (ok claims) read = elim (auth_middleware-Access claims) [
    | inl (caller, same, access, subject) ↦ inl (
      caller,
      same,
      record {
        token = token;
        claims = claims;
        carries = refl;
        verified = read;
        is_access = access;
        is_caller = subject;
      },
    )
    | inr refused ↦ inr refused
  ]

  pub authenticate-Admits :
      (carried : Option String) → Admits carried (authenticate J c now carried)
  unfolding authenticate
  authenticate-Admits none = inr ("Unauhorized Inavlid or Expired Token", refl)
  authenticate-Admits (some token) = verified-Admits token (J.verify_token now token) refl

module _ (S : Services) (c : Setup) (d : Draws) (call : ProtectedCall) (w : World S) where
  -- the request runs for the caller of its token, or is refused with 401 and changes nothing
  abbrev pub Serves : Option String → Answer × World S → Type 0
  Serves carried (a, w') =
      ((caller : String) × IsAdmitted c.jwt d.now carried caller
        × ((a, w') ≡ handle S c d caller call w))
      ⊎ ((a.status ≡ 401) × (w' ≡ w))

  given-Serves :
      (carried : Option String) (r : Result String)
      → Admits c.jwt c.accounts d.now carried r
      → Serves carried (given c.web r (λ caller. handle S c d caller call) w)
  unfolding write_app_error
  given-Serves carried (ok id) (inl (caller, same, admitted)) =
      inl (caller, admitted, ap (λ r. given c.web r (λ z. handle S c d z call) w) same)
  given-Serves carried (ok id) (inr (message, same)) = cc
  given-Serves carried (err e) (inl (caller, same, admitted)) = cc
  given-Serves carried (err e) (inr (message, same)) =
      inr (ap (λ r. (given c.web r (λ z. handle S c d z call) w).0.status) same, refl)

  -- A request to a protected route either carries a signed and unexpired access token and runs as the
  -- user that the token names, or is answered 401 and changes nothing.
  pub serve_protected-Serves :
      (carried : Option String) → Serves carried (serve_protected S c d carried call w)
  unfolding serve_protected
  serve_protected-Serves carried =
      given-Serves carried (authenticate c.jwt c.accounts d.now carried)
        (authenticate-Admits c.jwt c.accounts d.now carried)
