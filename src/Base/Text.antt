-- ===== src/Base/Text.antt =====
-- Texts as the list of their bytes, and C strings in a block.
use Prim.Native.Nat.{ℕ, ◌+◌, ◌-◌, ◌*◌}
use Prim.Native.Char.{code}
use Prim.Native.String.{String}
use mathlib.Core.Bool.{Bool, true, false, ◌&&◌}
use mathlib.Core.Option.{Option, none, some}
use mathlib.Core.List.{List, [], ◌∷◌, ◌++◌}
use wsclient.Base.Tests.{◌==◌, leb, if◌then◌else◌}

abbrev pub codes : String → List ℕ
codes String.[] = []
codes (String.◌∷◌ c s) = code c ∷ codes s

-- A text with a carriage return and a line feed behind it.
abbrev pub line : String → List ℕ
line s = codes s ++ (13 ∷ 10 ∷ [])

-- The bytes before the first zero.
unfoldable pub c_string : List ℕ → List ℕ
c_string [] = []
c_string (x ∷ xs) = if x == 0 then [] else x ∷ c_string xs

-- `strcmp(a, b) == 0` on the bytes before the zeros.
unfoldable pub same_bytes : List ℕ → List ℕ → Bool
same_bytes [] [] = true
same_bytes [] (y ∷ ys) = false
same_bytes (x ∷ xs) [] = false
same_bytes (x ∷ xs) (y ∷ ys) = x == y && same_bytes xs ys

-- The parts of `sscanf` that the code uses: a literal, white space, and `%d`.
unfoldable pub skip_literal : List ℕ → List ℕ → Option (List ℕ)
skip_literal [] ys = some ys
skip_literal (x ∷ xs) [] = none
skip_literal (x ∷ xs) (y ∷ ys) = if x == y then skip_literal xs ys else none

abbrev pub is_space : ℕ → Bool
is_space c = if c == 32 then true else leb 9 c && leb c 13

abbrev pub is_digit : ℕ → Bool
is_digit c = leb 48 c && leb c 57

unfoldable pub skip_space : List ℕ → List ℕ
skip_space [] = []
skip_space (x ∷ xs) = if is_space x then skip_space xs else x ∷ xs

-- The value of the digits at the front, if there is one.
unfoldable pub digits_value : ℕ → List ℕ → ℕ
digits_value acc [] = acc
digits_value acc (x ∷ xs) = if is_digit x then digits_value (acc * 10 + (x - 48)) xs else acc

unfoldable pub scan_digits : List ℕ → Option ℕ
unfolding digits_value
scan_digits [] = none
scan_digits (x ∷ xs) = if is_digit x then some (digits_value 0 (x ∷ xs)) else none

-- A scanned integer: whether it is negative, and its absolute value. (No bound is put on it.)
abbrev with_sign : Bool → Option ℕ → Option (Bool × ℕ)
with_sign negative none = none
with_sign negative (some n) = some (negative, n)

unfoldable pub scan_int : List ℕ → Option (Bool × ℕ)
unfolding scan_digits
scan_int [] = none
scan_int (x ∷ xs) =
    if x == 45
    then with_sign true (scan_digits xs)
    else if x == 43
    then with_sign false (scan_digits xs)
    else with_sign false (scan_digits (x ∷ xs))
