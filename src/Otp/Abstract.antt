-- ===== src/Otp/Abstract.antt =====
-- internal/otp/store.go, as its users may think of it: for each address the hash of an issued code, if there
-- is one, and the number of attempts that have been made with it.
use digital_wallet.Prelude.{ℕ, suc, String, Option, none, some, leb, str_eq, if◌then◌else◌}
use digital_wallet.Shared.{otp_not_found, otp_mismatch, too_many_tries}
use digital_wallet.Exec.{Result, ok, err}

abbrev pub Codes : Type 0
Codes = (String → Option String) × (String → ℕ)

-- a map with one key changed
abbrev pub change : {A : Type 0} → String → A → (String → A) → String → A
change i v f j = if str_eq i j then v else f j

abbrev pub forget : String → Codes → Codes
forget i c = (change i none c.0, change i 0 c.1)

abbrev pub count_attempt : String → Codes → Codes
count_attempt i c = (c.0, change i (suc (c.1 i)) c.1)

module _ (hash : String → String) (max : ℕ) where
  abbrev pub issue : String → String → Codes → Codes
  issue i code c = (change i (some (hash code)) c.0, change i 0 c.1)

  abbrev pub judge : String → String → Option String → Codes → Result (Unit {0}) × Codes
  judge i code none c = (err otp_not_found, count_attempt i c)
  judge i code (some stored) c =
      if str_eq stored (hash code)
      then (ok tt, forget i c)
      else (err otp_mismatch, count_attempt i c)

  abbrev pub try_code : String → String → Codes → Result (Unit {0}) × Codes
  try_code i code c =
      if leb max (c.1 i) then (err too_many_tries, forget i c) else judge i code (c.0 i) c
