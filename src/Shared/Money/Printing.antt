-- ===== src/Shared/Money/Printing.antt =====
-- shared/money.go, `String`: an amount can be read off its text.
use Prim.Native.Char.{code}
use Prim.Native.String.{◌++◌}
use Prim.Native.String.append.{nil, cons}
use Prim.Native.Nat.pow.{suc as pow_suc}
use digital_wallet.Prelude.{
  ℕ, zero, suc, ◌+◌, ◌-◌, ◌*◌, ◌/◌, ◌%◌, ◌^◌, ◌<◌, ◌≤◌, String, ◌≡◌, refl, ap, subst, ◌∙◌, ◌⊎◌, inl,
  inr, Bool, true, false, ◌&&◌, Option, none, some, List, [], ◌∷◌, ◌==◌, ltb, leb, Bool-cases,
  if◌then◌else◌, arith,
}
use mathlib.Core.List.{◌++◌ as append}
use digital_wallet.Prelude.Int.{ℤ, pos, negsuc}
use digital_wallet.Prelude.Text.{codes}
use digital_wallet.Shared.Money.{Money, digit, decimal_from, decimal, major_minor, to_string}

-- A reader of amounts, which does not look at how they are printed: an optional sign, digits, one point,
-- and exactly two digits. Any other text is none.
unfoldable pub is_digit : ℕ → Bool
is_digit c = leb b'0' c && leb c b'9'

unfoldable pub read_minor : List ℕ → ℕ → Option ℕ
unfolding is_digit
read_minor (a ∷ b ∷ []) n =
    if is_digit a && is_digit b then some (n * 100 + (a - b'0') * 10 + (b - b'0')) else none
read_minor _ n = none

unfoldable pub read_major : List ℕ → ℕ → Option ℕ
unfolding read_minor is_digit
read_major [] n = none
read_major (c ∷ cs) n =
    let more = read_major cs (n * 10 + (c - b'0')) in
    if c == b'.' then read_minor cs n else if is_digit c then more else none

abbrev negated : Option ℕ → Option ℤ
negated none = none
negated (some n) = if n == 0 then none else some (negsuc (n - 1))

abbrev unsigned : Option ℕ → Option ℤ
unsigned none = none
unsigned (some n) = some (pos n)

unfoldable pub read_signed : List ℕ → Option ℤ
unfolding read_major
read_signed [] = none
read_signed (c ∷ cs) =
    if c == b'-' then negated (read_major cs 0) else unsigned (read_major (c ∷ cs) 0)

codes-append : (s t : String) → codes (s ++ t) ≡ append (codes s) (codes t)
codes-append String.[] t = ap codes (nil t)
codes-append (String.◌∷◌ c s) t = ap codes (cons c s t) ∙ ap (λ cs. code c ∷ cs) (codes-append s t)

abbrev IsDigit : ℕ → Type 0
IsDigit n =
    (n ≡ 0)
    ⊎ ((n ≡ 1)
        ⊎ ((n ≡ 2)
            ⊎ ((n ≡ 3) ⊎ ((n ≡ 4) ⊎ ((n ≡ 5) ⊎ ((n ≡ 6) ⊎ ((n ≡ 7) ⊎ ((n ≡ 8) ⊎ (n ≡ 9)))))))))

IsDigit-cases : (n : ℕ) → n < 10 → IsDigit n
IsDigit-cases n h = ground arith

digit-codes : (n : ℕ) → n < 10 → codes (digit n) ≡ (b'0' + n) ∷ []
digit-codes n h = elim (IsDigit-cases n h) [
  | inl e ↦ rw e refl
  | inr (inl e) ↦ rw e refl
  | inr (inr (inl e)) ↦ rw e refl
  | inr (inr (inr (inl e))) ↦ rw e refl
  | inr (inr (inr (inr (inl e)))) ↦ rw e refl
  | inr (inr (inr (inr (inr (inl e))))) ↦ rw e refl
  | inr (inr (inr (inr (inr (inr (inl e)))))) ↦ rw e refl
  | inr (inr (inr (inr (inr (inr (inr (inl e))))))) ↦ rw e refl
  | inr (inr (inr (inr (inr (inr (inr (inr (inl e)))))))) ↦ rw e refl
  | inr (inr (inr (inr (inr (inr (inr (inr (inr (e))))))))) ↦ rw e refl
]

-- One digit is read, and the rest after it.
next_digit :
    (m : ℕ) (ys : List ℕ) (n : ℕ)
    → m < 10
    → read_major (append (codes (digit m)) ys) n ≡ read_major ys (n * 10 + m)
unfolding read_major is_digit
next_digit m ys n h = rw (digit-codes m h) (
    let not_point : b'0' + m == b'.' ≡ false = ground arith in
    let fits : (leb b'0' (b'0' + m) && leb (b'0' + m) b'9') ≡ true = ground arith in
    rw (not_point, fits) (ap (λ k. read_major ys (n * 10 + k)) (omega arith)))

shrink : (p n : ℕ) → n < p * 10 → n / 10 < p
shrink p n h = omega arith

append-append : (xs ys zs : List ℕ) → append (append xs ys) zs ≡ append xs (append ys zs)
append-append [] ys zs = refl
append-append (x ∷ xs) ys zs = ap (λ l. x ∷ l) (append-append xs ys zs)

decimal_from_lem :
    (fuel n : ℕ) (ys : List ℕ)
    → n < 10 ^ fuel
    → read_major (append (codes (decimal_from fuel n)) ys) 0 ≡ read_major ys n
decimal_from_lem zero n ys h = ap (read_major ys) (omega arith)
decimal_from_lem (suc fuel) n ys h = elim (Bool-cases (ltb n 10)) [
  | inl small ↦ rw small (next_digit n ys 0 (ground arith) ∙ ap (read_major ys) (omega arith))
  | inr large ↦
      (let rest =
          decimal_from_lem fuel (n / 10) (append (codes (digit (n % 10))) ys)
            (shrink (10 ^ fuel) n (subst (λ z. n < z) (pow_suc 10 fuel) h)) in
        rw large (
          ap (λ cs. read_major (append cs ys) 0)
            (codes-append (decimal_from fuel (n / 10)) (digit (n % 10)))
          ∙ ap (λ cs. read_major cs 0)
              (append-append (codes (decimal_from fuel (n / 10))) (codes (digit (n % 10))) ys)
          ∙ rest
          ∙ next_digit (n % 10) ys (n / 10) (omega arith)
          ∙ ap (read_major ys) (omega arith)))
]

-- the two digits after the point
minor_lem :
    (a b n : ℕ)
    → a < 10
    → b < 10
    → read_major (codes ("." ++ digit a ++ digit b)) n ≡ some (n * 100 + a * 10 + b)
unfolding read_major read_minor is_digit
minor_lem a b n ha hb =
    let first : (leb b'0' (b'0' + a) && leb (b'0' + a) b'9') ≡ true = ground arith in
    let second : (leb b'0' (b'0' + b) && leb (b'0' + b) b'9') ≡ true = ground arith in
    rw
      (
        codes-append "." (digit a ++ digit b),
        codes-append (digit a) (digit b),
        digit-codes a ha,
        digit-codes b hb,
        first,
        second,
      )
      (ap some (omega arith))

major_minor_lem : (v : ℕ) → v < 2 ^ 64 → read_major (codes (major_minor v)) 0 ≡ some v
unfolding major_minor decimal
major_minor_lem v h =
    ap (λ cs. read_major cs 0)
      (codes-append (decimal (v / 100)) ("." ++ digit (v % 100 / 10) ++ digit (v % 100 % 10)))
    ∙ decimal_from_lem 20 (v / 100) (codes ("." ++ digit (v % 100 / 10) ++ digit (v % 100 % 10)))
        (omega arith)
    ∙ minor_lem (v % 100 / 10) (v % 100 % 10) (v / 100) (omega arith) (omega arith)
    ∙ ap some (omega arith)

-- A text that begins with a digit, or with what comes after the digits among the codes.
abbrev BeginsDigit : List ℕ → Type 0
BeginsDigit [] = ⊥
BeginsDigit (c ∷ cs) = b'0' ≤ c

BeginsDigit-append : (xs ys : List ℕ) → BeginsDigit xs → BeginsDigit (append xs ys)
BeginsDigit-append [] ys h = absurd h
BeginsDigit-append (x ∷ xs) ys h = h

digit-BeginsDigit : (n : ℕ) → n < 10 → BeginsDigit (codes (digit n))
digit-BeginsDigit n h = rw (digit-codes n h) (omega arith)

begins_if :
    (rest : String) (n : ℕ)
    → BeginsDigit (append (codes rest) (codes (digit (n % 10))))
    → BeginsDigit (codes (if ltb n 10 then digit n else rest ++ digit (n % 10)))
begins_if rest n later = elim (Bool-cases (ltb n 10)) [
  | inl small ↦ rw small (digit-BeginsDigit n (ground arith))
  | inr large ↦ rw (large, codes-append rest (digit (n % 10))) later
]

decimal-BeginsDigit : (fuel n : ℕ) → BeginsDigit (codes (decimal_from (suc fuel) n))
decimal-BeginsDigit zero n = begins_if "" n (digit-BeginsDigit (n % 10) (omega arith))
decimal-BeginsDigit (suc less) n =
    begins_if (decimal_from (suc less) (n / 10)) n
      (BeginsDigit-append _ _ (decimal-BeginsDigit less (n / 10)))

read_signed-plus : (cs : List ℕ) → BeginsDigit cs → read_signed cs ≡ unsigned (read_major cs 0)
unfolding read_signed
read_signed-plus [] h = absurd h
read_signed-plus (c ∷ cs) h = let plus : c == b'-' ≡ false = ground arith in rw plus refl

negated-suc : (v : ℕ) → negated (some (suc v)) ≡ some (negsuc v)
negated-suc v =
    let positive : suc v == 0 ≡ false = ground arith in
    rw positive (ap (λ n. some (negsuc n)) (omega arith))

-- every int64 but the least
abbrev pub IsPrintable : Money → Type 0
IsPrintable (pos v) = v < 2 ^ 63
IsPrintable (negsuc v) = v < 2 ^ 63 - 1

-- The text of an amount, for every int64 but the least, is read as that amount by a reader that takes an
-- optional sign, digits, one point and exactly two digits, and nothing else.
pub read_signed-to_string : (m : Money) → IsPrintable m → read_signed (codes (to_string m)) ≡ some m
unfolding to_string read_signed major_minor decimal
read_signed-to_string (pos v) h =
    read_signed-plus (codes (major_minor v)) (
      rw (codes-append (decimal (v / 100)) ("." ++ digit (v % 100 / 10) ++ digit (v % 100 % 10)))
        (BeginsDigit-append _ _ (decimal-BeginsDigit 19 (v / 100))))
    ∙ ap unsigned (major_minor_lem v (omega arith))
read_signed-to_string (negsuc v) h =
    let other : v == 2 ^ 63 - 1 ≡ false = ground arith in
    rw (other, codes-append "-" (major_minor (suc v)))
      (ap negated (major_minor_lem (suc v) (omega arith)) ∙ negated-suc v)
