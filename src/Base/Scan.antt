-- ===== src/Base/Scan.antt =====
-- The conversions of `sscanf` and `printf` that the code uses, on lists of bytes.
pub mod Print
pub mod Lengths
use Prim.Native.Nat.{ℕ, zero, suc, ◌+◌, ◌-◌, ◌*◌, ◌/◌, ◌%◌}
use mathlib.Core.Bool.{Bool, true, false}
use mathlib.Core.Option.{Option, none, some}
use mathlib.Core.List.{List, [], ◌∷◌, ◌++◌}
use wsclient.Base.Tests.{◌==◌, ltb, if◌then◌else◌}
use wsclient.Base.Text.{is_space, is_digit}

-- The longest front whose bytes pass the test, and what stands behind it.
unfoldable pub span : (ℕ → Bool) → List ℕ → List ℕ × List ℕ
span p [] = ([], [])
span p (x ∷ xs) = if p x then (x ∷ (span p xs).0, (span p xs).1) else ([], x ∷ xs)

-- A conversion that needs at least one byte.
abbrev at_least_one : List ℕ × List ℕ → Option (List ℕ × List ℕ)
at_least_one ([], rest) = none
at_least_one (x ∷ front, rest) = some (x ∷ front, rest)

-- `%[…]`
unfoldable pub scan_set : (ℕ → Bool) → List ℕ → Option (List ℕ × List ℕ)
scan_set p xs = at_least_one (span p xs)

abbrev pub is_graph : ℕ → Bool
is_graph c = if is_space c then false else true

-- `%s`, behind the white space that it skips
unfoldable pub scan_word : List ℕ → Option (List ℕ × List ℕ)
scan_word xs = scan_set is_graph ((span is_space xs).1)

unfoldable pub value_of : ℕ → List ℕ → ℕ
value_of acc [] = acc
value_of acc (x ∷ xs) = value_of (acc * 10 + (x - 48)) xs

-- An integer: whether it has a minus sign, and its digits' value.
pub record Integer : Type 0 where
  pub negative : Bool
  pub magnitude : ℕ

unfoldable pub scan_unsigned : Bool → List ℕ → Option (Integer × List ℕ)
scan_unsigned negative xs = elim (scan_set is_digit xs) [
  | none ↦ none
  | some (digits, rest) ↦ some (record { negative = negative; magnitude = value_of 0 digits }, rest)
]

unfoldable pub scan_signed : List ℕ → Option (Integer × List ℕ)
scan_signed [] = none
scan_signed (x ∷ xs) =
    if x == 45
    then scan_unsigned true xs
    else if x == 43
    then scan_unsigned false xs
    else scan_unsigned false (x ∷ xs)

-- `%d`, behind the white space that it skips
unfoldable pub scan_integer : List ℕ → Option (Integer × List ℕ)
scan_integer xs = scan_signed ((span is_space xs).1)

-- The decimal digits of a number. Its own value is more rounds than it has digits.
unfoldable pub decimal_loop : ℕ → ℕ → List ℕ
decimal_loop zero n = []
decimal_loop (suc fuel) n =
    let front = decimal_loop fuel (n / 10) in
    if ltb n 10 then (48 + n) ∷ [] else front ++ ((48 + n % 10) ∷ [])

unfoldable pub decimal : ℕ → List ℕ
decimal n = decimal_loop (suc n) n

-- `%d` of an integer
unfoldable pub print_integer : Integer → List ℕ
print_integer i = if i.negative then 45 ∷ decimal i.magnitude else decimal i.magnitude
