-- ===== src/Api/Wallets/Unique.antt =====
-- internal/api/services/wallet-service.go, `CreateWallet`: a user's wallets in one currency.
use digital_wallet.Prelude.{
  ℕ, String, ◌≡◌, refl, sym, subst, inl, inr, Bool, not, Option, none, some, List, [], ◌∷◌, str_eq,
}
use digital_wallet.Shared.{is_not_found}
use digital_wallet.Exec.{Result, ok, err, attempt}
use digital_wallet.Exec.Ensures.{
  Keeps, Keeps-bind, Keeps-pure, Keeps-raise, Keeps-attempt, Keeps-if, Keeps-wrap, Keeps-or_else,
  Keeps-or_else-none,
}
use digital_wallet.External.Uuids.{Uuid}
use digital_wallet.Ledger.Types.{ledger_for_currency}
use digital_wallet.Repository.Types.{WalletRow, Wallet}
use digital_wallet.Repository.Insertion.{InsertLaws}
use digital_wallet.Repository.Wallets as Wallets
use digital_wallet.Queues.Services.{Services, World, on_wallets}
use digital_wallet.Api.Transfers.{caller_id, server_error}
use digital_wallet.Api.Wallets.{currency_of, open_wallet, open_if_missing, create_wallet}
use digital_wallet.Api.Wallets.Pairs.{OnePerCurrency, append-OnePerCurrency}
use digital_wallet.Api.Wallets.Opening.{Opened, ensure_ledger_account-Keeps, create_wallet-Opened}

-- a request to open a wallet, with what is drawn for it
pub record WalletRequest : Type 0 where
  pub caller : Option String
  pub currency : String
  pub draws : ℕ → Result ℕ × Uuid × ℕ

module _ (S : Services) (has_ledger : Bool) (format_int : ℕ → String) where
  unfoldable pub run_requests : List WalletRequest → World S → World S
  run_requests [] w = w
  run_requests (q ∷ qs) w =
      run_requests qs (create_wallet S has_ledger format_int q.draws q.caller q.currency w).1

  module _ (laws : InsertLaws S.wallets) where
    abbrev One : World S → Type 0
    One w = OnePerCurrency (laws.rows w.wallets)

    -- A user id that is not one opens no wallet.
    nameless-Keeps :
        (draws : ℕ → Result ℕ × Uuid × ℕ) (user_id asked : String)
        → S.uuids.parse user_id ≡ none
        → Keeps One (
            attempt
              (on_wallets S
                (Wallets.get_wallet_by_user S.uuids S.wallets user_id (currency_of asked)))
              (open_if_missing S has_ledger format_int draws user_id (currency_of asked)))
    unfolding Wallets.get_wallet_by_user Wallets.create_wallet open_wallet
    nameless-Keeps draws user_id asked nameless =
        Keeps-attempt
          (record {
            at = λ w h.
                (Keeps-or_else-none {P = λ s. OnePerCurrency (laws.rows s)} (S.uuids.parse user_id)
                    _ _ nameless).at
                  w.wallets h;
          })
          (λ r. after r)
      where
        after :
            (r : Result Wallet)
            → Keeps One
                (open_if_missing S has_ledger format_int draws user_id (currency_of asked) r)
        after (ok wallet) = Keeps-raise _
        after (err e) = Keeps-if (not (is_not_found e)) (Keeps-raise _) (
            Keeps-bind
              (Keeps-wrap (server_error "Could Not Create Wallet") (record {
                at = λ w h.
                    (Keeps-or_else-none {P = λ s. OnePerCurrency (laws.rows s)}
                        (S.uuids.parse user_id) _ _ nameless).at
                      w.wallets h;
              }))
              (λ wallet.
                Keeps-bind (ensure_ledger_account-Keeps S has_ledger laws OnePerCurrency wallet)
                  (λ _. Keeps-pure _)))

    named-Keeps :
        (draws : ℕ → Result ℕ × Uuid × ℕ) (user_id asked : String) (o : Option Uuid)
        → S.uuids.parse user_id ≡ o
        → Keeps One (
            attempt
              (on_wallets S
                (Wallets.get_wallet_by_user S.uuids S.wallets user_id (currency_of asked)))
              (open_if_missing S has_ledger format_int draws user_id (currency_of asked)))
    named-Keeps draws user_id asked none nameless = nameless-Keeps draws user_id asked nameless
    named-Keeps draws user_id asked (some user) parsed = record {
      at = λ w one. kept (laws.rows w.wallets) one (
          (create_wallet-Opened S has_ledger laws (laws.rows w.wallets) user_id asked user parsed
              format_int draws).at
            w refl);
    }
      where
        kept :
            (base : List WalletRow) {rows : List WalletRow}
            → OnePerCurrency base
            → Opened S has_ledger laws base user_id asked user parsed rows
            → OnePerCurrency rows
        kept base one (inl same) = subst OnePerCurrency (sym same) one
        kept base one (inr (row, mine, held, missing, more)) =
            subst OnePerCurrency (sym more)
              (append-OnePerCurrency base row one (rw (mine, held) missing))

    create_wallet-Keeps :
        (draws : ℕ → Result ℕ × Uuid × ℕ) (caller : Option String) (asked : String)
        → Keeps One (create_wallet S has_ledger format_int draws caller asked)
    unfolding create_wallet caller_id
    create_wallet-Keeps draws caller asked = Keeps-bind (caller_id-Keeps caller) (λ user_id.
        Keeps-bind (Keeps-or_else (ledger_for_currency (currency_of asked)) _)
          (λ _. named-Keeps draws user_id asked (S.uuids.parse user_id) refl))
      where
        caller_id-Keeps : (caller : Option String) → Keeps One (caller_id caller)
        caller_id-Keeps none = Keeps-raise _
        caller_id-Keeps (some id) = Keeps-if (str_eq id "") (Keeps-raise _) (Keeps-pure id)

    -- However many wallets are asked for, by whomever and in whatever currencies, and whatever fails, no
    -- user gets two wallets in one currency, if there were none before and the requests come one after
    -- another.
    pub create_wallet-OnePerCurrency :
        (requests : List WalletRequest) (w : World S)
        → OnePerCurrency (laws.rows w.wallets)
        → OnePerCurrency (laws.rows (run_requests requests w).wallets)
    unfolding run_requests
    create_wallet-OnePerCurrency [] w one = one
    create_wallet-OnePerCurrency (q ∷ qs) w one =
        create_wallet-OnePerCurrency qs _
          ((create_wallet-Keeps q.draws q.caller q.currency).at w one)
