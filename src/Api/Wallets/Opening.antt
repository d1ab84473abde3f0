-- ===== src/Api/Wallets/Opening.antt =====
-- internal/api/services/wallet-service.go, `CreateWallet`: the row that one request may add.
use digital_wallet.Prelude.{
  ℕ, String, ◌≡◌, refl, subst, ap, ◌∙◌, ◌⊎◌, inl, inr, Bool, true, false, not, ◌&&◌, ◌||◌, Option,
  none, some, List, [], ◌∷◌, ◌++◌, All, str_eq, ◌==◌, Bool-cases, arith, if◌then◌else◌,
}
use digital_wallet.Prelude.Text.{to_upper, trim_space}
use digital_wallet.Shared.{Error, not_found, is_not_found}
use digital_wallet.Exec.{Result, ok, err, attempt}
use digital_wallet.Exec.Ensures.{
  Ensures, Keeps, Ensures-raise, Ensures-bind, Ensures-wrap, Ensures-attempt, Ensures-if,
  Ensures-imp, Keeps-bind, Keeps-pure, Keeps-attempt, Keeps-if,
}
use digital_wallet.External.Uuids.{Uuid}
use digital_wallet.Repository.Types.{WalletRow, Wallet}
use digital_wallet.Repository.Insertion.{InsertLaws}
use digital_wallet.Repository.Allocation.{create_wallet-Adds, AddsOne-rows}
use digital_wallet.Repository.Wallets as Wallets
use digital_wallet.Repository.Queries.{read-Misses}
use digital_wallet.Queues.Services.{Services, World, on_wallets}
use digital_wallet.Api.Transfers.{server_error}
use digital_wallet.Api.Wallets.{
  currency_of, after_parse, ensure_ledger_account, open_wallet, open_if_missing,
}
use digital_wallet.Api.Wallets.Pairs.{holds}

-- A supported currency is not the empty text.
currency_of-named : (asked : String) → str_eq (currency_of asked) "" ≡ false
unfolding currency_of
currency_of-named asked = elim (Bool-cases (str_eq (to_upper (trim_space asked)) "")) [
  | inl e ↦ rw e refl
  | inr e ↦ rw (e, e) refl
]

found-eq : (e : Error) → is_not_found e ≡ true → e ≡ not_found
found-eq not_found h = refl
found-eq e h = cc

module _ (S : Services) (has_ledger : Bool) (laws : InsertLaws S.wallets) where
  -- the ledger's account leaves the wallets alone
  pub ensure_ledger_account-Keeps :
      (P : List WalletRow → Type 0) (wallet : Wallet)
      → Keeps (λ w. P (laws.rows w.wallets)) (ensure_ledger_account S has_ledger wallet)
  unfolding ensure_ledger_account
  ensure_ledger_account-Keeps P wallet =
      Keeps-if (not has_ledger) (Keeps-pure tt) (after (S.uuids.parse wallet.id))
    where
      after :
          (o : Option Uuid)
          → Keeps (λ w. P (laws.rows w.wallets)) (after_parse S has_ledger wallet o)
      after none = Keeps-pure tt
      after (some id) = Keeps-attempt (record { at = λ w h. h }) (λ r. Keeps-pure tt)

module _ (S : Services) (has_ledger : Bool) (laws : InsertLaws S.wallets) (base : List WalletRow)
    (user_id asked : String) (user : Uuid) (parsed : S.uuids.parse user_id ≡ some user) where
  abbrev From : World S → Type 0
  From w = laws.rows w.wallets ≡ base

  abbrev currency : String
  currency = currency_of asked

  abbrev Missing : Type 0
  Missing = All (λ r. holds user currency r ≡ false) base

  -- the rows as they were, or one more, for a pair that no row had
  abbrev pub Opened : List WalletRow → Type 0
  Opened rows =
      (rows ≡ base)
      ⊎ ((row : WalletRow) × (row.user_id ≡ user)
          × (row.currency ≡ currency)
          × Missing
          × (rows ≡ base ++ row ∷ []))

  open_wallet-Opened :
      (format_int : ℕ → String) (draws : ℕ → Result ℕ × Uuid × ℕ)
      → Missing
      → Ensures From
          (open_wallet S has_ledger format_int draws user_id currency)
          (λ r w. Opened (laws.rows w.wallets))
  unfolding open_wallet
  open_wallet-Opened format_int draws missing =
      Ensures-bind (λ r w. Opened (laws.rows w.wallets))
        (Ensures-wrap (server_error "Could Not Create Wallet") (λ r w. Opened (laws.rows w.wallets))
          (Ensures-imp
            (record {
              at = λ w h.
                  (create_wallet-Adds S.uuids S.wallets laws user currency base format_int draws
                      user_id parsed).at
                    w.wallets h;
            })
            (λ r w h. added (AddsOne-rows S.uuids S.wallets laws user currency base r w.wallets h)))
          (λ r w h. h) (λ e w h. h))
        (λ wallet.
          Keeps-bind (ensure_ledger_account-Keeps S has_ledger laws Opened wallet)
            (λ _. Keeps-pure _))
        (λ e w h. h)
    where
      added :
          {rows : List WalletRow}
          → (rows ≡ base)
            ⊎ ((row : WalletRow) × (row.user_id ≡ user)
                × (row.currency ≡ (if str_eq currency "" then "USD" else currency))
                × (rows ≡ base ++ row ∷ []))
          → Opened rows
      added (inl same) = inl same
      added (inr (row, mine, held, more)) =
          inr (row, mine, held ∙ rw (currency_of-named asked) refl, missing, more)

  open_if_missing-Opened :
      (format_int : ℕ → String) (draws : ℕ → Result ℕ × Uuid × ℕ) (r : Result Wallet)
      → Ensures
          (λ w. From w × (r ≡ err not_found → Missing))
          (open_if_missing S has_ledger format_int draws user_id currency r)
          (λ r' w. Opened (laws.rows w.wallets))
  open_if_missing-Opened format_int draws (ok wallet) = Ensures-raise _ _ (λ w h. inl h.0)
  open_if_missing-Opened format_int draws (err e) =
      Ensures-if (not (is_not_found e)) (λ _. Ensures-raise _ _ (λ w h. inl h.0))
        (λ known. record {
          at = λ w h.
              (open_wallet-Opened format_int draws (h.1 (ap err (found-eq e (ground arith))))).at w
                h.0;
        })

  pub create_wallet-Opened :
      (format_int : ℕ → String) (draws : ℕ → Result ℕ × Uuid × ℕ)
      → Ensures From
          (attempt
            (on_wallets S (Wallets.get_wallet_by_user S.uuids S.wallets user_id currency))
            (open_if_missing S has_ledger format_int draws user_id currency))
          (λ r w. Opened (laws.rows w.wallets))
  unfolding Wallets.get_wallet_by_user
  create_wallet-Opened format_int draws =
      Ensures-attempt (λ r w. From w × (r ≡ err not_found → Missing))
        (record {
          at = λ w h.
              let asked' =
                (read-Misses S.uuids laws.table
                    (λ u r. r.user_id == u && (str_eq currency "" || str_eq r.currency currency))
                    (Wallets.map_wallet S.uuids) user_id base user parsed).at
                  w.wallets h in
              (
                asked'.0,
                λ e.
                    subst
                      (λ (b : Bool).
                        All (λ r. (r.user_id == user && (b || str_eq r.currency currency)) ≡ false)
                          base)
                      (currency_of-named asked) (asked'.1 e),
              );
        })
        (open_if_missing-Opened format_int draws)
