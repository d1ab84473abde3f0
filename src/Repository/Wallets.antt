-- ===== src/Repository/Wallets.antt =====
-- internal/repository/transaction_repository.go and account_number.go: wallets and their numbers.
use digital_wallet.Prelude.{
  ℕ, zero, suc, ◌+◌, String, not, ◌&&◌, ◌||◌, none, List, map, ◌==◌, str_eq, if◌then◌else◌,
}
use digital_wallet.Shared.{is_already_exists, account_number_exhausted}
use digital_wallet.Exec.{Result, ok, err, Exec, pure, raise, attempt, wrap, ◌>>=◌}
use digital_wallet.External.Uuids.{Uuid, Uuids, nil}
use digital_wallet.External.Table.{Table, oldest_first}
use digital_wallet.Repository.Types.{active, WalletRow, Wallet}
use digital_wallet.Repository.Errors.{wrap_gorm_error, parse_uuid, before_create}

abbrev pub account_number_min : ℕ
account_number_min = 1_000_000_000

abbrev pub account_number_span : ℕ
account_number_span = 9_000_000_000

abbrev pub account_number_attempts : ℕ
account_number_attempts = 5

-- `NewAccountNumber`, on what `rand.Int` drew below the span, and with `strconv.FormatInt` in base 10
unfoldable pub new_account_number : (ℕ → String) → ℕ → String
new_account_number format_int drawn = format_int (drawn + account_number_min)

module _ (U : Uuids) where
  unfoldable pub map_wallet : WalletRow → Wallet
  map_wallet r = record {
    id = U.to_string r.id;
    account_number = r.account_number;
    user_id = U.to_string r.user_id;
    currency = r.currency;
    status = r.status;
  }

  module _ (T : Table WalletRow) where
    unfoldable pub get_wallet_by_user : String → String → Exec T.State Wallet
    unfolding map_wallet parse_uuid
    get_wallet_by_user user_id currency = do
      user ← parse_uuid U user_id
      wallet ←
          wrap wrap_gorm_error
            (T.first (λ r. r.user_id == user && (str_eq currency "" || str_eq r.currency currency)))
      pure (map_wallet wallet)

    unfoldable pub list_wallets_by_user : String → Exec T.State (List Wallet)
    unfolding map_wallet parse_uuid
    list_wallets_by_user user_id = do
      user ← parse_uuid U user_id
      models ← wrap wrap_gorm_error (T.find (λ r. r.user_id == user) oldest_first none 0)
      pure (map map_wallet models)

    unfoldable pub get_wallet_by_id : String → Exec T.State Wallet
    unfolding map_wallet parse_uuid
    get_wallet_by_id wallet_id = do
      parsed ← parse_uuid U wallet_id
      wallet ← wrap wrap_gorm_error (T.first (λ r. r.id == parsed))
      pure (map_wallet wallet)

    unfoldable pub get_wallet_by_account_number : String → Exec T.State Wallet
    unfolding map_wallet
    get_wallet_by_account_number account_number = do
      wallet ← wrap wrap_gorm_error (T.first (λ r. str_eq r.account_number account_number))
      pure (map_wallet wallet)

    -- the loop of `create_wallet`: one attempt for each draw of an account number
    abbrev pub after_insert : Exec T.State Wallet → Result WalletRow → Exec T.State Wallet
    after_insert again (ok row) = pure (map_wallet row)
    after_insert again (err e) =
        if not (is_already_exists (wrap_gorm_error e)) then raise (wrap_gorm_error e) else again

    -- one attempt, with the random number or the error of drawing it, and the new row's id and time
    unfoldable pub try_draw :
        (ℕ → String)
        → Uuid
        → String
        → Exec T.State Wallet
        → Result ℕ × Uuid × ℕ
        → Exec T.State Wallet
    unfolding map_wallet new_account_number
    try_draw format_int user currency again (err e, fresh, now) = raise e
    try_draw format_int user currency again (ok drawn, fresh, now) =
        attempt
          (T.create (record {
            id = before_create fresh nil;
            account_number = new_account_number format_int drawn;
            user_id = user;
            currency = if str_eq currency "" then "USD" else currency;
            status = active;
            created_at = now;
          }))
          (after_insert again)

    -- `draws` is numbered from the last attempt, 0, to the first.
    unfoldable pub create_wallet_from :
        (ℕ → String) → Uuid → String → (ℕ → Result ℕ × Uuid × ℕ) → ℕ → Exec T.State Wallet
    unfolding try_draw
    create_wallet_from format_int user currency draws zero = raise account_number_exhausted
    create_wallet_from format_int user currency draws (suc left) =
        let again = create_wallet_from format_int user currency draws left in
        try_draw format_int user currency again (draws left)

    unfoldable pub create_wallet :
        (ℕ → String) → (ℕ → Result ℕ × Uuid × ℕ) → String → String → Exec T.State Wallet
    unfolding parse_uuid create_wallet_from
    create_wallet format_int draws user_id currency = do
      user ← parse_uuid U user_id
      create_wallet_from format_int user currency draws account_number_attempts
