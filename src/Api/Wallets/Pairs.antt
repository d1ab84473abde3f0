-- ===== src/Api/Wallets/Pairs.antt =====
-- internal/api/services/wallet-service.go, `CreateWallet`: rows that are apart in user and currency.
use digital_wallet.Prelude.{
  ◌+◌, ◌≤◌, String, ◌≡◌, refl, subst, inl, inr, Bool, true, false, ◌&&◌, List, [], ◌∷◌, ◌++◌, All,
  select, length, str_eq, eq_iff, ◌==◌, ==_iff, Bool-cases, arith, if◌then◌else◌,
}
use digital_wallet.External.Uuids.{Uuid}
use digital_wallet.Repository.Types.{WalletRow}

abbrev pub holds : Uuid → String → WalletRow → Bool
holds user currency r = r.user_id == user && str_eq r.currency currency

-- no user has two wallets in one currency
abbrev pub OnePerCurrency : List WalletRow → Type 0
OnePerCurrency rows =
    (user : Uuid) (currency : String) → length (select (holds user currency) rows) ≤ 1

length-select-append :
    {A : Type 0} (p : A → Bool) (xs : List A) (y : A)
    → length (select p (xs ++ y ∷ [])) ≡ length (select p xs) + (if p y then 1 else 0)
length-select-append p [] y = elim (Bool-cases (p y)) [ inl e ↦ rw e refl | inr e ↦ rw e refl ]
length-select-append p (x ∷ xs) y =
    let more = length-select-append p xs y in
    elim (Bool-cases (p x)) [ inl e ↦ rw e (omega arith) | inr e ↦ rw e more ]

none_selected :
    {A : Type 0} (p : A → Bool) (xs : List A) → All (λ x. p x ≡ false) xs → length (select p xs) ≡ 0
none_selected p [] h = refl
none_selected p (x ∷ xs) h = rw h.0 (none_selected p xs h.1)

-- A row for a pair that no row has keeps the pairs apart.
pub append-OnePerCurrency :
    (rows : List WalletRow) (row : WalletRow)
    → OnePerCurrency rows
    → All (λ r. holds row.user_id row.currency r ≡ false) rows
    → OnePerCurrency (rows ++ row ∷ [])
append-OnePerCurrency rows row one missing user currency =
    let before = one user currency in
    elim (Bool-cases (holds user currency row)) [
      | inl hit ↦
          (let pair = holds_pair user currency row hit in
            let none_yet : length (select (holds user currency) rows) ≡ 0 =
              subst (λ (z : Uuid × String). length (select (holds z.0 z.1) rows) ≡ 0) pair
                (none_selected (holds row.user_id row.currency) rows missing) in
            rw (length-select-append (holds user currency) rows row, hit, none_yet) (omega arith))
      | inr miss ↦ rw (length-select-append (holds user currency) rows row, miss) (omega arith)
    ]
  where
    holds_pair :
        (user : Uuid) (currency : String) (row : WalletRow)
        → holds user currency row ≡ true
        → ◌≡◌ {A = Uuid × String} (row.user_id, row.currency) (user, currency)
    holds_pair user currency row hit =
        let same_user : row.user_id ≡ user = ground (arith, ==_iff row.user_id user) in
        let same_currency : row.currency ≡ currency =
          ground (arith, eq_iff row.currency currency) in
        cc
