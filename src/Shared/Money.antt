-- ===== src/Shared/Money.antt =====
-- shared/money.go: `Money` is an `int64` of minor units. Values are integers; where the code keeps a
-- value in a machine word, the wrap-around is written out.
pub mod Printing
use digital_wallet.Prelude.{
  ℕ, zero, suc, ◌-◌, ◌/◌, ◌%◌, ◌^◌, Bool, String, ltb, ◌==◌, if◌then◌else◌,
}
use Prim.Native.String.{◌++◌, slice}
use digital_wallet.Prelude.Int.{ℤ, pos, negsuc, ◌+ℤ◌, ◌-ℤ◌, ltb_ℤ, eq_ℤ}

abbrev pub Money : Type 0
Money = ℤ

abbrev pub minor_units : ℕ
minor_units = 100

-- The `int64` with the same low 64 bits.
abbrev pub signed64 : ℕ → ℤ
signed64 n = if ltb n (2 ^ 63) then pos n else negsuc (2 ^ 64 - 1 - n)

unfoldable pub int64 : ℤ → ℤ
int64 (pos n) = signed64 (n % 2 ^ 64)
int64 (negsuc n) = signed64 (2 ^ 64 - 1 - n % 2 ^ 64)

-- `uint64(x)` for an `int64` x
unfoldable pub uint64 : ℤ → ℕ
uint64 (pos n) = n % 2 ^ 64
uint64 (negsuc n) = 2 ^ 64 - 1 - n % 2 ^ 64

unfoldable pub is_zero : Money → Bool
is_zero m = eq_ℤ m (pos 0)

unfoldable pub is_positive : Money → Bool
is_positive m = ltb_ℤ (pos 0) m

unfoldable pub is_negative : Money → Bool
is_negative m = ltb_ℤ m (pos 0)

unfoldable pub add : Money → Money → Money
unfolding int64 ◌+ℤ◌
add m other = int64 (m +ℤ other)

unfoldable pub sub : Money → Money → Money
unfolding int64 ◌-ℤ◌
sub m other = int64 (m -ℤ other)

-- the text of a number below ten
abbrev pub digit : ℕ → String
digit n = slice "0123456789" n (suc n)

-- `%d` of a number with at most as many digits as the fuel
abbrev pub decimal_from : ℕ → ℕ → String
decimal_from zero n = ""
decimal_from (suc fuel) n =
    let rest = decimal_from fuel (n / 10) in if ltb n 10 then digit n else rest ++ digit (n % 10)

-- A 64-bit number has at most 20 digits.
unfoldable pub decimal : ℕ → String
decimal n = decimal_from 20 n

-- `%d.%02d` of the minor units
unfoldable pub major_minor : ℕ → String
unfolding decimal
major_minor v =
    decimal (v / minor_units) ++ "." ++ digit (v % minor_units / 10) ++ digit (v % minor_units % 10)

-- `int64(m)` negated in 64 bits: the least value is its own negation, and its quotient and remainder
-- are negative too.
unfoldable pub to_string : Money → String
unfolding major_minor
to_string (pos v) = major_minor v
to_string (negsuc v) =
    if v == 2 ^ 63 - 1 then "--92233720368547758.-8" else "-" ++ major_minor (suc v)
