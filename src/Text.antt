-- ===== src/Text.antt =====
-- The operations of Python's str and int that the program uses, on texts as lists of code points.
pub mod Laws
pub mod Decimal
use Prim.Native.Char.{code}
use video_journal_be.Prelude.{
  ℕ, zero, suc, ◌+◌, ◌-◌, ◌*◌, ◌/◌, ◌%◌, String, Bool, true, false, ◌&&◌, ◌||◌, Option, none, some,
  List, [], ◌∷◌, ◌++◌, reverse, leb, ltb, ◌==◌, if◌then◌else◌, ℤ, pos, negsuc, sub_ℕ,
}
use video_journal_be.Errors.{Text}

-- The code points of a literal. `String` has its own `[]` and `∷`.
abbrev pub codes : String → Text
codes String.[] = []
codes (String.◌∷◌ c s) = code c ∷ codes s

-- `a == b` of two texts.
abbrev pub text_eq : Text → Text → Bool
text_eq [] [] = true
text_eq [] (d ∷ t) = false
text_eq (c ∷ s) [] = false
text_eq (c ∷ s) (d ∷ t) = c == d && text_eq s t

-- `x in {…}` of a set of texts.
unfoldable pub text_in : Text → List Text → Bool
text_in x [] = false
text_in x (y ∷ ys) = text_eq x y || text_in x ys

unfoldable pub is_digit : ℕ → Bool
is_digit c = leb 48 c && leb c 57

-- The characters below 256 for which str.isspace holds.
unfoldable pub is_space : ℕ → Bool
is_space c = leb 9 c && leb c 13 || leb 28 c && leb c 32 || c == 133 || c == 160

-- `str.lower` on the ASCII letters.
unfoldable pub lower_char : ℕ → ℕ
lower_char c = if leb 65 c && leb c 90 then c + 32 else c

unfoldable pub lower : Text → Text
unfolding lower_char
lower [] = []
lower (c ∷ s) = lower_char c ∷ lower s

unfoldable pub lstrip : Text → Text
unfolding is_space
lstrip [] = []
lstrip (c ∷ s) = if is_space c then lstrip s else c ∷ s

unfoldable pub strip : Text → Text
unfolding lstrip
strip s = reverse (lstrip (reverse (lstrip s)))

-- `s[len(p):]` where `s.startswith(p)`, else `none`.
unfoldable pub strip_prefix : Text → Text → Option Text
strip_prefix [] s = some s
strip_prefix (p ∷ ps) [] = none
strip_prefix (p ∷ ps) (c ∷ s) = if p == c then strip_prefix ps s else none

cons_first : ℕ → Option (Text × Text) → Option (Text × Text)
cons_first c none = none
cons_first c (some (a, b)) = some (c ∷ a, b)

-- `s.split(sep, 1)`: the two parts, or `none` where the separator is missing.
unfoldable pub split_once : ℕ → Text → Option (Text × Text)
unfolding cons_first
split_once sep [] = none
split_once sep (c ∷ s) = if c == sep then some ([], s) else cons_first c (split_once sep s)

-- The digits of an integer literal: single underscores may stand between digits. `ready` holds
-- just behind a digit.
unfoldable pub scan_digits : Bool → ℕ → Text → Option ℕ
unfolding is_digit
scan_digits ready acc [] = if ready then some acc else none
scan_digits ready acc (c ∷ s) =
    if is_digit c || ready && c == 95
    then scan_digits (is_digit c) (if is_digit c then acc * 10 + (c - 48) else acc) s
    else none

unfoldable pub negate : Option ℕ → Option ℤ
negate none = none
negate (some n) = some (sub_ℕ 0 n)

unfoldable pub positive : Option ℕ → Option ℤ
positive none = none
positive (some n) = some (pos n)

unfoldable pub int_of_stripped : Text → Option ℤ
unfolding negate positive scan_digits
int_of_stripped [] = none
int_of_stripped (c ∷ s) =
    if c == 45
    then negate (scan_digits false 0 s)
    else if c == 43
    then positive (scan_digits false 0 s)
    else positive (scan_digits false 0 (c ∷ s))

-- `int(s)`; `none` is ValueError.
unfoldable pub int_of : Text → Option ℤ
unfolding int_of_stripped strip
int_of s = int_of_stripped (strip s)

-- `str(n)`. One digit more on each round; `n + 1` rounds are enough.
unfoldable pub decimal_fuel : ℕ → ℕ → Text
decimal_fuel zero n = []
decimal_fuel (suc f) n =
    let rest = decimal_fuel f (n / 10) in
    if ltb n 10 then (48 + n) ∷ [] else rest ++ (48 + n % 10) ∷ []

unfoldable pub decimal : ℕ → Text
unfolding decimal_fuel
decimal n = decimal_fuel (suc n) n

unfoldable pub decimal_ℤ : ℤ → Text
unfolding decimal
decimal_ℤ (pos n) = decimal n
decimal_ℤ (negsuc n) = 45 ∷ decimal (suc n)
