-- ===== src/Base/Scan/Print.antt =====
-- What is printed is scanned again.
use Prim.Native.Nat.{ℕ, zero, suc, ◌+◌, ◌-◌, ◌*◌, ◌/◌, ◌%◌, ◌<◌}
use mathlib.Core.Path.{◌≡◌, refl, sym, ap, ◌∙◌}
use mathlib.Core.Logic.{inl, inr}
use mathlib.Core.Bool.{Bool, true, false}
use mathlib.Core.Option.{some}
use mathlib.Core.List.{List, [], ◌∷◌, ◌++◌}
use native.Mathlib.Omega.{arith}
use wsclient.Base.Tests.{ltb, Bool-cases, ◌==◌}
use wsclient.Base.Lists.{All, All-append, length, length-append}
use wsclient.Base.Text.{is_space, is_digit, skip_literal}
use wsclient.Base.Scan.{
  span, scan_set, scan_word, value_of, Integer, scan_unsigned, scan_signed, scan_integer, is_graph,
  decimal_loop, decimal, print_integer,
}

-- The bytes all pass a test, and a rest does not go on with one that does.
abbrev pub Passes : (ℕ → Bool) → List ℕ → Type 0
Passes p xs = All (λ x. p x ≡ true) xs

abbrev pub Stops : (ℕ → Bool) → List ℕ → Type 0
Stops p [] = Unit {0}
Stops p (x ∷ xs) = p x ≡ false

pub span-append :
    (p : ℕ → Bool) (xs rest : List ℕ)
    → Passes p xs
    → Stops p rest
    → span p (xs ++ rest) ≡ (xs, rest)
unfolding span
span-append p [] [] h k = refl
span-append p [] (x ∷ rest) h k = rw k
span-append p (x ∷ xs) rest h k = rw (h.0) (ap (λ r. (x ∷ r.0, r.1)) (span-append p xs rest h.1 k))

pub scan_set-append :
    (p : ℕ → Bool) (xs rest : List ℕ)
    → 0 < length xs
    → Passes p xs
    → Stops p rest
    → scan_set p (xs ++ rest) ≡ some (xs, rest)
unfolding scan_set
scan_set-append p [] rest some_bytes h k = absurd (omega arith)
scan_set-append p (x ∷ xs) rest some_bytes h k = rw (span-append p (x ∷ xs) rest h k)

pub scan_word-append :
    (xs rest : List ℕ)
    → 0 < length xs
    → Passes is_graph xs
    → Stops is_graph rest
    → scan_word (xs ++ rest) ≡ some (xs, rest)
unfolding scan_word
scan_word-append [] rest some_bytes h k = absurd (omega arith)
scan_word-append (x ∷ xs) rest some_bytes h k =
    let skipped : span is_space (x ∷ (xs ++ rest)) ≡ ([], x ∷ (xs ++ rest)) =
      span-append is_space [] (x ∷ (xs ++ rest)) tt (ground (arith, h.0)) in
    rw skipped (scan_set-append is_graph (x ∷ xs) rest some_bytes h k)

pub skip_literal-append : (xs rest : List ℕ) → skip_literal xs (xs ++ rest) ≡ some rest
unfolding skip_literal
skip_literal-append [] rest = refl
skip_literal-append (x ∷ xs) rest = ground (arith, skip_literal-append xs rest)

value_of-snoc :
    (acc : ℕ) (xs : List ℕ) (d : ℕ)
    → value_of acc (xs ++ (d ∷ [])) ≡ value_of acc xs * 10 + (d - 48)
unfolding value_of
value_of-snoc acc [] d = refl
value_of-snoc acc (x ∷ xs) d = value_of-snoc (acc * 10 + (x - 48)) xs d

value_of-decimal_loop : (fuel n : ℕ) → n < fuel → value_of 0 (decimal_loop fuel n) ≡ n
unfolding decimal_loop value_of
value_of-decimal_loop zero n h = absurd (omega arith)
value_of-decimal_loop (suc fuel) n h = elim (Bool-cases (ltb n 10)) [
  | inl small ↦ rw small (omega arith)
  | inr large ↦ rw large (
      value_of-snoc 0 (decimal_loop fuel (n / 10)) (48 + n % 10)
      ∙ ground (arith, value_of-decimal_loop fuel (n / 10)))
]

decimal_loop-digits :
    (fuel n : ℕ)
    → n < fuel
    → Passes is_digit (decimal_loop fuel n) × (0 < length (decimal_loop fuel n))
unfolding decimal_loop
decimal_loop-digits zero n h = absurd (omega arith)
decimal_loop-digits (suc fuel) n h = elim (Bool-cases (ltb n 10)) [
  | inl small ↦ rw small ((ground arith, tt), omega arith)
  | inr large ↦
      let (digits, some_digit) = decimal_loop-digits fuel (n / 10) (ground arith) in
      rw large (
        All-append (λ x. is_digit x ≡ true) (decimal_loop fuel (n / 10)) ((48 + n % 10) ∷ []) digits
            (ground arith, tt),
        omega (arith, length-append (decimal_loop fuel (n / 10)) ((48 + n % 10) ∷ [])),
      )
]

scan_unsigned-digits :
    (negative : Bool) (ds rest : List ℕ)
    → 0 < length ds
    → Passes is_digit ds
    → Stops is_digit rest
    → scan_unsigned negative (ds ++ rest)
      ≡ some (record { negative = negative; magnitude = value_of 0 ds }, rest)
unfolding scan_unsigned
scan_unsigned-digits negative ds rest some_digit h k =
    rw (scan_unsigned, scan_set-append is_digit ds rest some_digit h k)

-- A digit is no sign and no white space.
scan_signed-digits :
    (ds rest : List ℕ)
    → 0 < length ds
    → Passes is_digit ds
    → Stops is_digit rest
    → scan_signed (ds ++ rest) ≡ some (record { negative = false; magnitude = value_of 0 ds }, rest)
unfolding scan_signed
scan_signed-digits [] rest some_digit h k = absurd (omega arith)
scan_signed-digits (x ∷ ds) rest some_digit h k =
    let no_minus : (x == 45) ≡ false = ground (arith, h.0) in
    let no_plus : (x == 43) ≡ false = ground (arith, h.0) in
    rw (no_minus, no_plus) (scan_unsigned-digits false (x ∷ ds) rest some_digit h k)

unspaced : (x : ℕ) (xs : List ℕ) → is_space x ≡ false → (span is_space (x ∷ xs)).1 ≡ x ∷ xs
unspaced x xs h = ap (λ r. r.1) (span-append is_space [] (x ∷ xs) tt h)

scan_integer-digits :
    (ds rest : List ℕ)
    → 0 < length ds
    → Passes is_digit ds
    → Stops is_digit rest
    → scan_integer (ds ++ rest)
      ≡ some (record { negative = false; magnitude = value_of 0 ds }, rest)
unfolding scan_integer
scan_integer-digits [] rest some_digit h k = absurd (omega arith)
scan_integer-digits (x ∷ ds) rest some_digit h k =
    ap scan_signed (unspaced x (ds ++ rest) (ground (arith, h.0)))
    ∙ scan_signed-digits (x ∷ ds) rest some_digit h k

scan_integer-minus :
    (ds rest : List ℕ)
    → 0 < length ds
    → Passes is_digit ds
    → Stops is_digit rest
    → scan_integer (45 ∷ (ds ++ rest))
      ≡ some (record { negative = true; magnitude = value_of 0 ds }, rest)
unfolding scan_integer scan_signed
scan_integer-minus ds rest some_digit h k =
    ap scan_signed (unspaced 45 (ds ++ rest) refl)
    ∙ scan_unsigned-digits true ds rest some_digit h k

-- An integer that is printed by `%d` is read by `%d` again, if no digit follows it.
pub scan_integer-print_integer :
    (i : Integer) (rest : List ℕ)
    → Stops is_digit rest
    → scan_integer (print_integer i ++ rest) ≡ some (i, rest)
unfolding print_integer decimal
scan_integer-print_integer i rest k =
    let n = i.magnitude in
    let (digits, some_digit) = decimal_loop-digits (suc n) n (omega arith) in
    let value = value_of-decimal_loop (suc n) n (omega arith) in
    elim (Bool-cases (i.negative)) [
      | inl minus ↦ simp minus (
          scan_integer-minus (decimal_loop (suc n) n) rest some_digit digits k
          ∙ ap (λ t. some (record { negative = true; magnitude = t }, rest)) value
          ∙ ap (λ t. some (record { negative = t; magnitude = n }, rest)) (sym minus))
      | inr plus ↦ simp plus (
          scan_integer-digits (decimal_loop (suc n) n) rest some_digit digits k
          ∙ ap (λ t. some (record { negative = false; magnitude = t }, rest)) value
          ∙ ap (λ t. some (record { negative = t; magnitude = n }, rest)) (sym plus))
    ]

-- A printed integer is an optional minus sign and digits.
pub print_integer-Passes :
    (p : ℕ → Bool) (i : Integer)
    → p 45 ≡ true
    → ((x : ℕ) → is_digit x ≡ true → p x ≡ true)
    → Passes p (print_integer i)
unfolding print_integer decimal
print_integer-Passes p i minus digit =
    let all =
      All-map p digit (decimal_loop (suc i.magnitude) i.magnitude)
        (decimal_loop-digits (suc i.magnitude) i.magnitude (omega arith)).0 in
    elim (Bool-cases i.negative) [ inl e ↦ simp e (minus, all) | inr e ↦ simp e all ]
  where
    All-map :
        (p : ℕ → Bool)
        → ((x : ℕ) → is_digit x ≡ true → p x ≡ true)
        → (xs : List ℕ) → Passes is_digit xs
        → Passes p xs
    All-map p digit [] h = tt
    All-map p digit (x ∷ xs) h = (digit x h.0, All-map p digit xs h.1)
