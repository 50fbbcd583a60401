-- ===== src/Base/Scan/Lengths.antt =====
-- How long what is scanned and printed can be.
use Prim.Native.Nat.{ℕ, zero, suc, ◌+◌, ◌/◌, ◌%◌, ◌^◌, ◌<◌, ◌≤◌}
use mathlib.Core.Path.{◌≡◌, refl}
use mathlib.Core.Logic.{inl, inr}
use mathlib.Core.Bool.{Bool, true, false}
use mathlib.Core.Option.{Option, none, some}
use mathlib.Core.List.{List, [], ◌∷◌}
use native.Mathlib.Nat.{pow-suc}
use native.Mathlib.Omega.{arith}
use wsclient.Base.Tests.{ltb, Bool-cases, ◌==◌}
use wsclient.Base.Lists.{length, length-append}
use wsclient.Base.Text.{skip_literal, is_space, is_digit}
use wsclient.Base.Scan.{
  span, scan_set, scan_word, is_graph, decimal_loop, decimal, Integer, print_integer, scan_unsigned,
  scan_signed, scan_integer,
}

length-span :
    (p : ℕ → Bool) (xs : List ℕ) → length ((span p xs).0) + length ((span p xs).1) ≡ length xs
unfolding span
length-span p [] = refl
length-span p (x ∷ xs) = elim (Bool-cases (p x)) [
  | inl pass ↦ rw pass (omega (arith, length-span p xs))
  | inr fail ↦ rw fail (omega arith)
]

-- A conversion does not make its input longer.
abbrev pub Within : ℕ → Option (List ℕ × List ℕ) → Type 0
Within n none = Unit {0}
Within n (some (xs, rest)) = length xs + length rest ≤ n

pub scan_set-Within : (p : ℕ → Bool) (xs : List ℕ) → Within (length xs) (scan_set p xs)
unfolding scan_set
scan_set-Within p xs = ground (arith, length-span p xs)

pub length-skip_literal : (xs ys zs : List ℕ) → skip_literal xs ys ≡ some zs → length zs ≤ length ys
unfolding skip_literal
length-skip_literal [] ys zs e = ground arith
length-skip_literal (x ∷ xs) [] zs e = absurd (cc e)
length-skip_literal (x ∷ xs) (y ∷ ys) zs e = ground (arith, length-skip_literal xs ys zs)

length-decimal_loop : (fuel n k : ℕ) → n < 10 ^ suc k → length (decimal_loop fuel n) ≤ suc k
unfolding decimal_loop
length-decimal_loop zero n k h = omega arith
length-decimal_loop (suc fuel) n zero h = ground (arith, pow-suc 10 0)
length-decimal_loop (suc fuel) n (suc k) h =
    let shorter : length (decimal_loop fuel (n / 10)) ≤ suc k =
      length-decimal_loop fuel (n / 10) k (omega (arith, pow-suc 10 (suc k))) in
    elim (Bool-cases (ltb n 10)) [
      | inl small ↦ rw small (omega arith)
      | inr large ↦
          rw large (omega (arith, length-append (decimal_loop fuel (n / 10)) ((48 + n % 10) ∷ [])))
    ]

-- An integer of up to ten digits.
pub length-print_integer : (i : Integer) → i.magnitude < 10 ^ 10 → length (print_integer i) ≤ 11
unfolding print_integer decimal
length-print_integer i h =
    let digits = length-decimal_loop (suc i.magnitude) i.magnitude 9 h in
    elim (Bool-cases i.negative) [
      | inl minus ↦ simp minus (omega arith)
      | inr plus ↦ simp plus (omega arith)
    ]

Within-le : (n m : ℕ) (o : Option (List ℕ × List ℕ)) → n ≤ m → Within n o → Within m o
Within-le n m none h k = tt
Within-le n m (some (xs, rest)) h k = omega arith

pub scan_word-Within : (xs : List ℕ) → Within (length xs) (scan_word xs)
unfolding scan_word
scan_word-Within xs =
    let rest = (span is_space xs).1 in
    Within-le (length rest) (length xs) (scan_set is_graph rest)
      (omega (arith, length-span is_space xs)) (scan_set-Within is_graph rest)

-- What an integer leaves.
abbrev pub Leaves : ℕ → Option (Integer × List ℕ) → Type 0
Leaves n none = Unit {0}
Leaves n (some (i, rest)) = length rest ≤ n

scan_unsigned-Leaves :
    (negative : Bool) (n : ℕ) (xs : List ℕ) → length xs ≤ n → Leaves n (scan_unsigned negative xs)
unfolding scan_unsigned
scan_unsigned-Leaves negative n xs h = ground (arith, scan_set-Within is_digit xs)

scan_signed-Leaves : (n : ℕ) (xs : List ℕ) → length xs ≤ n → Leaves n (scan_signed xs)
unfolding scan_signed
scan_signed-Leaves n [] h = tt
scan_signed-Leaves n (x ∷ xs) h = elim (Bool-cases (x == 45)) [
  | inl minus ↦ rw minus (scan_unsigned-Leaves true n xs (omega arith))
  | inr other ↦ elim (Bool-cases (x == 43)) [
    | inl plus ↦ rw (other, plus) (scan_unsigned-Leaves false n xs (omega arith))
    | inr digit ↦ rw (other, digit) (scan_unsigned-Leaves false n (x ∷ xs) h)
  ]
]

pub scan_integer-Leaves : (xs : List ℕ) → Leaves (length xs) (scan_integer xs)
unfolding scan_integer
scan_integer-Leaves xs =
    scan_signed-Leaves (length xs) ((span is_space xs).1) (omega (arith, length-span is_space xs))
