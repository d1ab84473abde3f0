-- ===== src/Api/Accounts/Verified.antt =====
-- internal/api/services/user-service.go, `VerifyOtp`: what marks an address as verified.
use digital_wallet.Prelude.{
  ◌<◌, String, ◌≡◌, refl, subst, ◌⊎◌, inl, inr, true, not, some, List, set_where, str_eq,
}
use digital_wallet.Shared.{app_error}
use digital_wallet.Exec.{Result, ok, wrap}
use digital_wallet.Exec.Ensures.{
  Ensures, Ensures-pure, Ensures-raise, Ensures-bind, Ensures-wrap, Ensures-if, Ensures-attempt,
  Keeps-wrap,
}
use digital_wallet.External.Redis.{RedisLaws}
use digital_wallet.External.Jwt.{Jwt}
use digital_wallet.External.Bcrypt.{Bcrypt}
use digital_wallet.External.Table.{TableLaws}
use digital_wallet.Otp.Attempts.{verify-accepts}
use digital_wallet.Repository.Types.{UserRow}
use digital_wallet.Repository.Users.{user_email_exists}
use digital_wallet.Repository.Users as Users
use digital_wallet.Repository.Presence.{user_email_exists-Answers}
use digital_wallet.Repository.Changes.{update_by_email-Updates}
use digital_wallet.Queues.Services.{Services, World, on_users}
use digital_wallet.Api.Accounts.Types.{AccountService}
use digital_wallet.Api.Accounts.Registration.{verified_by_email, accept_otp, verify_otp}
use digital_wallet.Api.Transfers.{server_error}

module _ (S : Services) (redis : RedisLaws S.redis) (laws : TableLaws S.users) (c : AccountService)
    (base : List UserRow) (r₀ : S.redis.State) (address code : String) where
  -- the code that Redis held is the given one, and there were attempts left
  abbrev pub Proved : Type 0
  Proved =
      (redis.code r₀ address ≡ some (c.hash_code code)) × (redis.tries r₀ address < c.max_attempts)

  -- the users of that address, marked as verified
  abbrev pub Marked : List UserRow → Type 0
  Marked rows =
      rows ≡ set_where (λ r. str_eq r.email address) (λ r. record r { is_verified = true }) base

  abbrev pub VerifiesBy : Result String → World S → Type 0
  VerifiesBy r w =
      ((laws.rows w.users ≡ base) ⊎ (Proved × Marked (laws.rows w.users)))
      × ((m : String) → r ≡ ok m → Proved)

  abbrev From : World S → Type 0
  From w = (laws.rows w.users ≡ base) × (w.redis ≡ r₀)

  accept_otp-VerifiesBy :
      (jwt : Jwt) (B : Bcrypt) → Ensures From (accept_otp S jwt B c address code) VerifiesBy
  unfolding accept_otp Users.update_user Users.apply_fields
  accept_otp-VerifiesBy jwt B =
      Ensures-bind Checked
        (Ensures-wrap (λ e. app_error 400 "Couldnt Verify User") Checked
          (record {
            at = λ w h. (
              h.0,
              λ u e.
                  subst
                    (λ z.
                      (redis.code z address ≡ some (c.hash_code code))
                      × (redis.tries z address < c.max_attempts))
                    h.1 (verify-accepts redis c.hash_code c.max_attempts address code w.redis e),
            );
          })
          (λ u w h. h) (λ e w h. (h.0, λ u bad. cc)))
        (λ u.
          Ensures-attempt
            (λ r w. Proved × ((laws.rows w.users ≡ base) ⊎ Marked (laws.rows w.users)))
            (record {
              at = λ w h. (
                h.1 u refl,
                (update_by_email-Updates S.uuids laws base (verified_by_email S jwt B c address)
                      address).at
                    w.users h.0,
              );
            })
            (λ r. Ensures-pure _ _ (λ w h.
              (elim h.1 [ inl same ↦ inl same | inr marked ↦ inr (h.0, marked) ], λ m e. h.0))))
        (λ e w h. (inl h.0, λ m bad. cc))
    where
      Checked : Result (Unit {0}) → World S → Type 0
      Checked r w = (laws.rows w.users ≡ base) × ((u : Unit {0}) → r ≡ ok u → Proved)

  user_email_exists-From :
      Ensures From
        (wrap
          (server_error "Couldnt Verify User")
          (on_users S (user_email_exists S.uuids S.users address)))
        (λ r w. From w)
  user_email_exists-From = Keeps-wrap (server_error "Couldnt Verify User") (record {
    at = λ w h. (((user_email_exists-Answers S.uuids laws base address).at w.users h.0).0, h.1);
  })

  verify_otp-VerifiesBy :
      (jwt : Jwt) (B : Bcrypt) → Ensures From (verify_otp S jwt B c address code) VerifiesBy
  unfolding verify_otp
  verify_otp-VerifiesBy jwt B =
      Ensures-bind _ user_email_exists-From
        (λ exists.
          Ensures-if (not exists) (λ _. Ensures-raise _ _ (λ w h. (inl h.0, λ m bad. cc)))
            (λ _. accept_otp-VerifiesBy jwt B))
        (λ e w h. (inl h.0, λ m bad. cc))

module _ (S : Services) (redis : RedisLaws S.redis) (laws : TableLaws S.users) (jwt : Jwt)
    (B : Bcrypt) (c : AccountService) where
  -- A request to verify an address is answered with success only if the hash of its code is the one that
  -- Redis held for the address and fewer attempts than the maximum had been counted. The users are left
  -- as they were or, only if the code was such, with those of the address marked as verified and no more.
  pub verify_otp-VerifiesBy_lem :
      (address code : String) (w : World S)
      → VerifiesBy S redis laws c
          (laws.rows w.users)
          w.redis
          address
          code
          (verify_otp S jwt B c address code w).0
          (verify_otp S jwt B c address code w).1
  verify_otp-VerifiesBy_lem address code w =
      (verify_otp-VerifiesBy S redis laws c (laws.rows w.users) w.redis address code jwt B).at w
        (refl, refl)
