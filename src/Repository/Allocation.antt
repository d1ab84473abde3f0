-- ===== src/Repository/Allocation.antt =====
-- internal/repository/transaction_repository.go, `CreateWallet`: the rows that it adds.
use digital_wallet.Prelude.{
  ℕ, zero, suc, String, ◌≡◌, refl, ap, ◌⊎◌, inl, inr, true, false, arith, not, some, List, [], ◌∷◌,
  ◌++◌, str_eq, if◌then◌else◌,
}
use digital_wallet.Shared.{Error, is_already_exists, account_number_exhausted}
use digital_wallet.Exec.{Result, ok, err, Exec}
use digital_wallet.Exec.Ensures.{
  Ensures, Ensures-pure, Ensures-raise, Ensures-attempt, Ensures-if, Ensures-or_else-some,
  Ensures-from,
}
use digital_wallet.External.Uuids.{Uuid, Uuids}
use digital_wallet.External.Table.{Table}
use digital_wallet.Repository.Types.{Wallet, WalletRow}
use digital_wallet.Repository.Insertion.{InsertLaws, Inserted, create-Inserted}
use digital_wallet.Repository.Errors.{wrap_gorm_error}
use digital_wallet.Repository.Wallets.{
  account_number_attempts, map_wallet, after_insert, try_draw, create_wallet_from, create_wallet,
}

module _ (U : Uuids) (T : Table WalletRow) (laws : InsertLaws T) (user : Uuid) (currency : String)
    (base : List WalletRow) where
  abbrev From : T.State → Type 0
  From s = laws.rows s ≡ base

  abbrev pub stored : String
  stored = if str_eq currency "" then "USD" else currency

  -- one new row, which is the user's in the currency
  abbrev pub HasAdded : WalletRow → T.State → Type 0
  HasAdded row s = (row.user_id ≡ user) × (row.currency ≡ stored) × (laws.rows s ≡ base ++ row ∷ [])

  abbrev pub AddsOne : Result Wallet → T.State → Type 0
  AddsOne (ok w) s = (row : WalletRow) × (w ≡ map_wallet U row) × HasAdded row s
  AddsOne (err e) s = (laws.rows s ≡ base) ⊎ ((row : WalletRow) × HasAdded row s)

  after_insert-AddsOne :
      (again : Exec T.State Wallet) (row : WalletRow) (r : Result WalletRow)
      → row.user_id ≡ user
      → row.currency ≡ stored
      → Ensures From again AddsOne
      → Ensures (Inserted laws base row r) (after_insert U T again r) AddsOne
  after_insert-AddsOne again row (ok r) mine held next =
      Ensures-pure AddsOne _ (λ s h. (row, ap (map_wallet U) h.0, (mine, held, h.1)))
  after_insert-AddsOne again row (err e) mine held next =
      Ensures-if (not (is_already_exists (wrap_gorm_error e)))
        (λ _.
          Ensures-raise AddsOne (wrap_gorm_error e)
            (λ s h. elim h.0 [ inl same ↦ inl same | inr added ↦ inr (row, (mine, held, added)) ]))
        (λ taken. Ensures-from next (λ s h. h.1 (is_taken (wrap_gorm_error e) taken)))
    where
      is_taken : (e : Error) → not (is_already_exists e) ≡ false → is_already_exists e ≡ true
      is_taken e h = ground arith

  try_draw-AddsOne :
      (format_int : ℕ → String) (again : Exec T.State Wallet) (draw : Result ℕ × Uuid × ℕ)
      → Ensures From again AddsOne
      → Ensures From (try_draw U T format_int user currency again draw) AddsOne
  unfolding try_draw
  try_draw-AddsOne format_int again (err e, fresh, now) next =
      Ensures-raise AddsOne e (λ s h. inl h)
  try_draw-AddsOne format_int again (ok drawn, fresh, now) next =
      Ensures-attempt (Inserted laws base _) (create-Inserted laws base _)
        (λ r. after_insert-AddsOne again _ r refl refl next)

  create_wallet_from-AddsOne :
      (format_int : ℕ → String) (draws : ℕ → Result ℕ × Uuid × ℕ) (left : ℕ)
      → Ensures From (create_wallet_from U T format_int user currency draws left) AddsOne
  unfolding create_wallet_from
  create_wallet_from-AddsOne format_int draws zero =
      Ensures-raise AddsOne account_number_exhausted (λ s h. inl h)
  create_wallet_from-AddsOne format_int draws (suc left) =
      try_draw-AddsOne format_int _ (draws left) (create_wallet_from-AddsOne format_int draws left)

  pub create_wallet-Adds :
      (format_int : ℕ → String) (draws : ℕ → Result ℕ × Uuid × ℕ) (user_id : String)
      → U.parse user_id ≡ some user
      → Ensures From (create_wallet U T format_int draws user_id currency) AddsOne
  unfolding create_wallet
  create_wallet-Adds format_int draws user_id parsed =
      Ensures-or_else-some (U.parse user_id) _ user _ parsed
        (create_wallet_from-AddsOne format_int draws account_number_attempts)

  pub AddsOne-rows :
      (r : Result Wallet) (s : T.State)
      → AddsOne r s
      → (laws.rows s ≡ base)
        ⊎ ((row : WalletRow) × (row.user_id ≡ user)
            × (row.currency ≡ stored)
            × (laws.rows s ≡ base ++ row ∷ []))
  AddsOne-rows (ok w) s (row, view, (mine, held, added)) = inr (row, mine, held, added)
  AddsOne-rows (err e) s (inl same) = inl same
  AddsOne-rows (err e) s (inr (row, (mine, held, added))) = inr (row, mine, held, added)

module _ (U : Uuids) (T : Table WalletRow) (laws : InsertLaws T) where
  -- Creating a wallet for a user, however many numbers are drawn that are taken and whatever fails, adds at
  -- most one row, which is the user's in that currency, USD if it is empty. A wallet that is returned is that
  -- of the one row added; an error may come with none or with one.
  pub create_wallet-AddsOne :
      (format_int : ℕ → String) (draws : ℕ → Result ℕ × Uuid × ℕ) (user_id currency : String)
      (user : Uuid) (s : T.State)
      → U.parse user_id ≡ some user
      → AddsOne U T laws user currency
          (laws.rows s)
          (create_wallet U T format_int draws user_id currency s).0
          (create_wallet U T format_int draws user_id currency s).1
  create_wallet-AddsOne format_int draws user_id currency user s parsed =
      (create_wallet-Adds U T laws user currency (laws.rows s) format_int draws user_id parsed).at s
        refl
