-- ===== src/Ledger/Types.antt =====
-- internal/ledger/types.go
use digital_wallet.Prelude.{ℕ, String, Option, none, some, List, [], ◌∷◌, if◌then◌else◌, str_eq}

abbrev pub LedgerId : Type 0
LedgerId = ℕ

abbrev pub currency_ledgers : List (String × LedgerId)
currency_ledgers =
    ("NGN", 1)
    ∷ ("USD", 2)
    ∷ ("EUR", 3)
    ∷ ("GBP", 4)
    ∷ ("JPY", 5)
    ∷ ("AUD", 6)
    ∷ ("CAD", 7)
    ∷ ("CHF", 8)
    ∷ ("CNY", 9)
    ∷ ("SEK", 10)
    ∷ ("NZD", 11)
    ∷ []

-- `m[key]` of a Go map with text keys
unfoldable pub get_key {ℓ} : {V : Type ℓ} → String → List (String × V) → Option V
get_key k [] = none
get_key k ((j, v) ∷ m) = if str_eq j k then some v else get_key k m

-- `none` is the error "no ledger for currency"
unfoldable pub ledger_for_currency : String → Option LedgerId
unfolding get_key
ledger_for_currency currency = get_key currency currency_ledgers

pub data AccountCode : Type 0 where
  wallet settlement fees : AccountCode

abbrev pub account_code : AccountCode → ℕ
account_code wallet = 1
account_code settlement = 2
account_code fees = 3

pub data TransferCode : Type 0 where
  deposit internal withdrawal fee : TransferCode

abbrev pub transfer_code : TransferCode → ℕ
transfer_code deposit = 1
transfer_code internal = 2
transfer_code withdrawal = 3
transfer_code fee = 4
