-- ===== src/Prelude/Text.antt =====
-- What the program uses of Go's `strings`, over the code points of a text.
use Prim.Native.Char.{Char, code}
use Prim.Native.String.{String}
use Prim.Native.Nat.{ℕ, ◌+◌}
use mathlib.Core.Bool.{Bool, true, false, ◌&&◌, ◌||◌}
use mathlib.Core.Path.{◌≡◌, refl}
use mathlib.Core.List.{List, [], ◌∷◌}
use digital_wallet.Prelude.Tests.{leb, ◌==◌, if◌then◌else◌}

abbrev pub codes : String → List ℕ
codes String.[] = []
codes (String.◌∷◌ c s) = code c ∷ codes s

abbrev pub lower : ℕ → ℕ
lower c = if leb b'A' c && leb c b'Z' then c + 32 else c

equal_codes : List ℕ → List ℕ → Bool
equal_codes [] [] = true
equal_codes (x ∷ xs) (y ∷ ys) = lower x == lower y && equal_codes xs ys
equal_codes _ _ = false

-- `strings.EqualFold`, with the case folding of ASCII, which is all that a currency code needs.
unfoldable pub equal_fold : String → String → Bool
unfolding equal_codes
equal_fold s t = equal_codes (codes s) (codes t)

-- `unicode.IsSpace`
abbrev pub is_space : ℕ → Bool
is_space c =
    leb 9 c && leb c 13
    || c == 32
    || c == 133
    || c == 160
    || c == 5760
    || leb 8192 c && leb c 8202
    || c == 8232
    || c == 8233
    || c == 8239
    || c == 8287
    || c == 12288

abbrev pub trim_left : String → String
trim_left String.[] = String.[]
trim_left (String.◌∷◌ c s) =
    let rest = trim_left s in if is_space (code c) then rest else String.◌∷◌ c s

abbrev pub keep_unless_last : Bool → String → String → String
keep_unless_last true whole String.[] = String.[]
keep_unless_last _ whole rest = whole

abbrev pub trim_right : String → String
trim_right String.[] = String.[]
trim_right (String.◌∷◌ c s) =
    let rest = trim_right s in keep_unless_last (is_space (code c)) (String.◌∷◌ c rest) rest

-- `strings.TrimSpace`
unfoldable pub trim_space : String → String
trim_space s = trim_left (trim_right s)

abbrev pub capitals : List (ℕ × Char)
capitals =
    (b'a', "A")
    ∷ (b'b', "B")
    ∷ (b'c', "C")
    ∷ (b'd', "D")
    ∷ (b'e', "E")
    ∷ (b'f', "F")
    ∷ (b'g', "G")
    ∷ (b'h', "H")
    ∷ (b'i', "I")
    ∷ (b'j', "J")
    ∷ (b'k', "K")
    ∷ (b'l', "L")
    ∷ (b'm', "M")
    ∷ (b'n', "N")
    ∷ (b'o', "O")
    ∷ (b'p', "P")
    ∷ (b'q', "Q")
    ∷ (b'r', "R")
    ∷ (b's', "S")
    ∷ (b't', "T")
    ∷ (b'u', "U")
    ∷ (b'v', "V")
    ∷ (b'w', "W")
    ∷ (b'x', "X")
    ∷ (b'y', "Y")
    ∷ (b'z', "Z")
    ∷ (0x131, "I")
    ∷ (0x17f, "S")
    ∷ []

abbrev mapped_among : List (ℕ × Char) → Char → Char
mapped_among [] c = c
mapped_among ((n, image) ∷ rest) c =
    let other = mapped_among rest c in if n == code c then image else other

-- `strings.ToUpper`, on the characters whose capital is an ASCII letter; every other one is kept, and its
-- capital is no ASCII letter.
unfoldable pub to_upper : String → String
to_upper String.[] = String.[]
to_upper (String.◌∷◌ c s) = String.◌∷◌ (mapped_among capitals c) (to_upper s)

abbrev pub small_letters : List (ℕ × Char)
small_letters =
    (b'A', "a")
    ∷ (b'B', "b")
    ∷ (b'C', "c")
    ∷ (b'D', "d")
    ∷ (b'E', "e")
    ∷ (b'F', "f")
    ∷ (b'G', "g")
    ∷ (b'H', "h")
    ∷ (b'I', "i")
    ∷ (b'J', "j")
    ∷ (b'K', "k")
    ∷ (b'L', "l")
    ∷ (b'M', "m")
    ∷ (b'N', "n")
    ∷ (b'O', "o")
    ∷ (b'P', "p")
    ∷ (b'Q', "q")
    ∷ (b'R', "r")
    ∷ (b'S', "s")
    ∷ (b'T', "t")
    ∷ (b'U', "u")
    ∷ (b'V', "v")
    ∷ (b'W', "w")
    ∷ (b'X', "x")
    ∷ (b'Y', "y")
    ∷ (b'Z', "z")
    ∷ (0x130, "i")
    ∷ (0x212a, "k")
    ∷ []

-- `strings.ToLower`, on the characters whose small letter is an ASCII one
unfoldable pub to_lower : String → String
to_lower String.[] = String.[]
to_lower (String.◌∷◌ c s) = String.◌∷◌ (mapped_among small_letters c) (to_lower s)

begins_with : List ℕ → List ℕ → Bool
begins_with xs [] = true
begins_with [] (y ∷ ys) = false
begins_with (x ∷ xs) (y ∷ ys) = x == y && begins_with xs ys

-- `strings.HasPrefix`
unfoldable pub has_prefix : String → String → Bool
unfolding begins_with
has_prefix s prefix = begins_with (codes s) (codes prefix)

lowers : to_lower "SucCess" ≡ "success"
unfolding to_lower
lowers = refl

prefixed : (has_prefix "charge.success" "charge." ≡ true) × (has_prefix "char" "charge." ≡ false)
unfolding has_prefix begins_with
prefixed = (refl, refl)

capitalises : to_upper "nGn 7" ≡ "NGN 7"
unfolding to_upper
capitalises = refl

trims : trim_space "  01 23 " ≡ "01 23"
unfolding trim_space
trims = refl
