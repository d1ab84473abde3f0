-- ===== src/Tests/MemoryTokens.antt =====
-- A signer that knows four tokens, and a password hash that keeps the password.
use digital_wallet.Prelude.{
  ℕ, String, Bool, ◌≡◌, ◌≢◌, ◌<◌, refl, subst, inl, inr, Option, str_eq, eq_iff, Bool-cases,
  if◌then◌else◌, ltb, arith,
}
use text.Mathlib.TextPositions.{eq_refl}
use native.Mathlib.Decide.{ℕ_discrete}
use mathlib.Core.Bool.{Bool-discrete}
use mathlib.Core.Option
use mathlib.Core.HLevel.{Discrete}
use digital_wallet.Shared.{record_not_found}
use digital_wallet.Exec.{Result, ok, err}
use digital_wallet.External.Bcrypt.{Bcrypt, BcryptLaws}
use digital_wallet.External.Jwt.{Claims, Jwt, JwtLaws}

pub String-discrete : Discrete String
String-discrete a b = elim (Bool-cases (str_eq a b)) [
  | inl e ↦ yes (ground (arith, eq_iff a b))
  | inr e ↦ no (λ p. ground (arith, eq_iff a b))
]

texts : Discrete (Option String)
texts = Option.discrete String-discrete

bools : Discrete (Option Bool)
bools = Option.discrete Bool-discrete

pub Claims-discrete : Discrete Claims
Claims-discrete = hlevel (texts, bools, ℕ_discrete)

-- `a` for the one token and `r` for the other
abbrev pub token_a : String
token_a = "a"

abbrev pub token_r : String
token_r = "r"

abbrev read_until : ℕ → Claims → Result Claims
read_until now claims = if ltb now claims.exp then ok claims else err record_not_found

read_until-fresh :
    (now : ℕ) (claims : Claims) → now < claims.exp → read_until now claims ≡ ok claims
read_until-fresh now claims fresh = ground arith

module _ (a r : Claims) where
  abbrev sign_a : (c : Claims) → Dec (c ≡ a) → Dec (c ≡ r) → Result String
  sign_a c (yes p) d = ok token_a
  sign_a c (no n) (yes p) = ok token_r
  sign_a c (no n) (no n') = err record_not_found

  abbrev pub memory_jwt : Jwt
  memory_jwt = record {
    encode = λ c. sign_a c (Claims-discrete c a) (Claims-discrete c r);
    verify_token = λ now token.
        if str_eq token token_a
        then read_until now a
        else if str_eq token token_r
        then read_until now r
        else err record_not_found;
  }

  sign_a-first : (d : Dec (a ≡ a)) (d' : Dec (a ≡ r)) → sign_a a d d' ≡ ok token_a
  sign_a-first (yes p) d' = refl
  sign_a-first (no n) d' = absurd (n refl)

  sign_a-second : (d : Dec (r ≡ a)) (d' : Dec (r ≡ r)) → r ≢ a → sign_a r d d' ≡ ok token_r
  sign_a-second (yes p) d' other = absurd (other p)
  sign_a-second (no n) (yes p) other = refl
  sign_a-second (no n) (no n') other = absurd (n' refl)

  pub encode_first : memory_jwt.encode a ≡ ok token_a
  encode_first = sign_a-first _ _

  pub encode_second : r ≢ a → memory_jwt.encode r ≡ ok token_r
  encode_second other = sign_a-second _ _ other

  verify-sign :
      (c : Claims) (d : Dec (c ≡ a)) (d' : Dec (c ≡ r)) (token : String) (now : ℕ)
      → sign_a c d d' ≡ ok token
      → now < c.exp
      → memory_jwt.verify_token now token ≡ ok c
  verify-sign c (yes p) d token now signed fresh =
      let same : token_a ≡ token = cc in
      subst (λ t. memory_jwt.verify_token now t ≡ ok c) same
        (subst (λ (z : Claims). read_until now z ≡ ok c) p (read_until-fresh now c fresh))
  verify-sign c (no n) (yes p) token now signed fresh =
      let same : token_r ≡ token = cc in
      subst (λ t. memory_jwt.verify_token now t ≡ ok c) same
        (subst (λ (z : Claims). read_until now z ≡ ok c) p (read_until-fresh now c fresh))
  verify-sign c (no n) (no n') token now signed fresh = cc

  pub memory-JwtLaws : JwtLaws memory_jwt
  memory-JwtLaws = record {
    verify-encode = λ c token now signed fresh. verify-sign c _ _ token now signed fresh;
  }

-- A hash is the password.
abbrev pub memory_bcrypt : Bcrypt
memory_bcrypt = record {
  generate_from_password = λ salt password cost. ok password;
  compare_hash_and_password =
      λ hash password. if str_eq hash password then ok tt else err record_not_found;
}

accepts_itself :
    (password hash : String)
    → ok password ≡ ok hash
    → memory_bcrypt.compare_hash_and_password hash password ≡ ok tt
accepts_itself password hash made =
    let same : password ≡ hash = cc in
    subst (λ h. memory_bcrypt.compare_hash_and_password h password ≡ ok tt) same
      (rw (eq_refl password) refl)

pub memory-BcryptLaws : BcryptLaws memory_bcrypt
memory-BcryptLaws = record {
  compare-generate = λ salt password cost hash made. accepts_itself password hash made;
}
