-- ===== src/Base/Bits.antt =====
-- `^`, `|` and `&` on words as arithmetic. `bit_xor`, `bit_or` and `bit_and` stand for a recursion
-- on binary digits with fuel; one equation for the lowest digit drops the fuel.
use Prim.Native.Nat.{
  ℕ, zero, suc, ◌+◌, ◌-◌, ◌*◌, ◌/◌, ◌%◌, ◌^◌, ◌≤◌, ◌<◌, min, max, bit_and, bit_or, bit_xor,
  bit_and-bitwise, bit_or-bitwise, bit_xor-bitwise, bitwise, digits, differ,
}
use mathlib.Core.Path.{◌≡◌, refl, ap, ◌∙◌}
use native.Mathlib.Nat.{le_refl, pow-suc}
use native.Mathlib.Omega.{arith}

-- Any two amounts of fuel that cover the first operand give the same digits.
spare_between :
    (unit : ℕ → ℕ) (op : ℕ → ℕ → ℕ) (fuel enough x y : ℕ)
    → x ≤ fuel
    → x ≤ enough
    → digits unit op fuel x y ≡ digits unit op enough x y
spare_between unit op fuel enough zero y h k = none_left fuel enough
  where
    none_left : (fuel enough : ℕ) → digits unit op fuel zero y ≡ digits unit op enough zero y
    none_left zero zero = refl
    none_left zero (suc enough) = refl
    none_left (suc fuel) zero = refl
    none_left (suc fuel) (suc enough) = refl
spare_between unit op (suc fuel) (suc enough) (suc x) y h k =
    ap (λ t. t * 2 + op (suc x % 2) (y % 2))
      (spare_between unit op fuel enough (suc x / 2) (y / 2) (omega arith) (omega arith))
spare_between unit op zero enough (suc x) y h k = absurd (omega arith)
spare_between unit op (suc fuel) zero (suc x) y h k = absurd (omega arith)

-- `k` digits of fuel beyond the first operand change nothing.
spare_fuel :
    (unit : ℕ → ℕ) (op : ℕ → ℕ → ℕ) (x y k fuel : ℕ)
    → x + k ≡ fuel
    → digits unit op fuel x y ≡ digits unit op x x y
spare_fuel unit op x y k fuel e = spare_between unit op fuel x x y (omega arith) (le_refl _)

low_digit :
    (unit : ℕ → ℕ) (op : ℕ → ℕ → ℕ) (x y : ℕ)
    → 0 < x
    → bitwise unit op x y ≡ op (x % 2) (y % 2) + 2 * bitwise unit op (x / 2) (y / 2)
low_digit unit op zero y h = absurd (omega arith)
low_digit unit op (suc x) y h =
    omega (arith, spare_fuel unit op (suc x / 2) (y / 2) (x - suc x / 2) x (omega arith))

differ_digits : (x y : ℕ) → x < 2 → y < 2 → differ x y ≡ (x + y) % 2
differ_digits zero y p q = omega arith
differ_digits (suc zero) zero p q = refl
differ_digits (suc zero) (suc zero) p q = refl
differ_digits (suc zero) (suc (suc y)) p q = absurd (omega arith)
differ_digits (suc (suc x)) y p q = absurd (omega arith)

differ_mod : (a b : ℕ) → differ (a % 2) (b % 2) ≡ (a + b) % 2
differ_mod a b = omega (arith, differ_digits (a % 2) (b % 2) (omega arith) (omega arith))

pub bit_xor_step : (a b : ℕ) → bit_xor a b ≡ (a + b) % 2 + 2 * bit_xor (a / 2) (b / 2)
bit_xor_step zero b = simp bit_xor-bitwise (omega arith)
bit_xor_step (suc a) b = omega (
  arith,
  bit_xor-bitwise (suc a) b,
  bit_xor-bitwise (suc a / 2) (b / 2),
  low_digit (λ y. y) differ (suc a) b (omega arith),
  differ_mod (suc a) b,
)

pub bit_or_step : (a b : ℕ) → bit_or a b ≡ max (a % 2) (b % 2) + 2 * bit_or (a / 2) (b / 2)
bit_or_step zero b = simp bit_or-bitwise (omega arith)
bit_or_step (suc a) b = simp bit_or-bitwise (low_digit (λ y. y) max (suc a) b (omega arith))

pub bit_and_step : (a b : ℕ) → bit_and a b ≡ min (a % 2) (b % 2) + 2 * bit_and (a / 2) (b / 2)
bit_and_step zero b = simp bit_and-bitwise (omega arith)
bit_and_step (suc a) b = simp bit_and-bitwise (low_digit (λ y. 0) min (suc a) b (omega arith))

mul_two_pow : (q k : ℕ) → q * 2 ^ suc k ≡ 2 * (q * 2 ^ k)
mul_two_pow q k = omega (arith, ap (λ (t : ℕ). q * t) (pow-suc 2 k))

-- Exclusive or works on the low `k` bits and on the rest apart, and stays below `2 ^ k`.
pub xor_fields :
    (k x y a b : ℕ)
    → x < 2 ^ k
    → y < 2 ^ k
    → bit_xor (x + a * 2 ^ k) (y + b * 2 ^ k) ≡ bit_xor x y + bit_xor a b * 2 ^ k
xor_fields zero zero zero a b p q = ground arith
xor_fields zero (suc x) y a b p q = absurd (omega arith)
xor_fields zero zero (suc y) a b p q = absurd (omega arith)
xor_fields (suc k) x y a b p q = ground (
  arith,
  bit_xor_step (x + a * 2 ^ suc k) (y + b * 2 ^ suc k),
  bit_xor_step x y,
  mul_two_pow a k,
  mul_two_pow b k,
  mul_two_pow (bit_xor a b) k,
  pow-suc 2 k,
  xor_fields k (x / 2) (y / 2) a b (omega (arith, pow-suc 2 k)) (omega (arith, pow-suc 2 k)),
)

pub xor-lt : (k x y : ℕ) → x < 2 ^ k → y < 2 ^ k → bit_xor x y < 2 ^ k
xor-lt zero zero zero p q = omega arith
xor-lt zero (suc x) y p q = absurd (omega arith)
xor-lt zero zero (suc y) p q = absurd (omega arith)
xor-lt (suc k) x y p q = omega (
  arith,
  bit_xor_step x y,
  pow-suc 2 k,
  xor-lt k (x / 2) (y / 2) (omega (arith, pow-suc 2 k)) (omega (arith, pow-suc 2 k)),
)

-- Exclusive or with the same word twice changes nothing.
pub xor_twice : (k x y : ℕ) → x < 2 ^ k → y < 2 ^ k → bit_xor (bit_xor x y) y ≡ x
xor_twice zero zero zero p q = refl
xor_twice zero (suc x) y p q = absurd (omega arith)
xor_twice zero zero (suc y) p q = absurd (omega arith)
xor_twice (suc k) x y p q =
    let step : bit_xor x y ≡ (x + y) % 2 + 2 * bit_xor (x / 2) (y / 2) = bit_xor_step x y in
    let half : bit_xor x y / 2 ≡ bit_xor (x / 2) (y / 2) = omega arith in
    omega (
      arith,
      bit_xor_step (bit_xor x y) y,
      ap (λ t. bit_xor t (y / 2)) half,
      xor_twice k (x / 2) (y / 2) (omega (arith, pow-suc 2 k)) (omega (arith, pow-suc 2 k)),
    )

pub xor-zero : (k x : ℕ) → x < 2 ^ k → bit_xor x 0 ≡ x
xor-zero zero zero p = refl
xor-zero zero (suc x) p = absurd (omega arith)
xor-zero (suc k) x p =
    omega (arith, bit_xor_step x 0, xor-zero k (x / 2) (omega (arith, pow-suc 2 k)))

bit_and-zero : (n a : ℕ) → a ≤ n → bit_and a 0 ≡ 0
bit_and-zero n zero h = refl
bit_and-zero zero (suc a) h = absurd (omega arith)
bit_and-zero (suc n) (suc a) h =
    omega (arith, bit_and_step (suc a) 0, bit_and-zero n (suc a / 2) (omega arith))

and_one : (a : ℕ) → bit_and a 1 ≡ a % 2
and_one a = omega (arith, bit_and_step a 1, bit_and-zero _ (a / 2) (le_refl _))

pub and_three : (a : ℕ) → bit_and a 3 ≡ a % 4
and_three a = omega (arith, bit_and_step a 3, and_one (a / 2))

pub and_seven : (a : ℕ) → bit_and a 7 ≡ a % 8
and_seven a = omega (arith, bit_and_step a 7, and_three (a / 2))

pub and_low_nibble : (a : ℕ) → bit_and a 0x0f ≡ a % 16
and_low_nibble a = omega (arith, bit_and_step a 15, and_seven (a / 2))

and_31 : (a : ℕ) → bit_and a 31 ≡ a % 32
and_31 a = omega (arith, bit_and_step a 31, and_low_nibble (a / 2))

and_63 : (a : ℕ) → bit_and a 63 ≡ a % 64
and_63 a = omega (arith, bit_and_step a 63, and_31 (a / 2))

pub and_127 : (a : ℕ) → bit_and a 0x7f ≡ a % 128
and_127 a = omega (arith, bit_and_step a 127, and_63 (a / 2))

pub and_255 : (a : ℕ) → bit_and a 0xff ≡ a % 256
and_255 a = omega (arith, bit_and_step a 255, and_127 (a / 2))

and_double : (a b : ℕ) → bit_and a (b * 2) ≡ bit_and (a / 2) b * 2
and_double a b = omega (arith, bit_and_step a (b * 2), ap (bit_and (a / 2)) (half b))
  where
    half : (b : ℕ) → b * 2 / 2 ≡ b
    half b = omega arith

-- The top bit of a byte.
pub and_top_bit : (a : ℕ) → a < 256 → bit_and a 0x80 ≡ a / 128 * 128
and_top_bit a h =
    let a3 : ℕ = a / 2 / 2 / 2 in
    let a6 : ℕ = a3 / 2 / 2 / 2 in
    omega (
      arith,
      and_double a 64,
      and_double (a / 2) 32,
      and_double (a / 2 / 2) 16,
      and_double a3 8,
      and_double (a3 / 2) 4,
      and_double (a3 / 2 / 2) 2,
      and_double a6 1,
      and_one (a6 / 2),
    )

or-zero : (n a : ℕ) → a ≤ n → bit_or a 0 ≡ a
or-zero n zero h = refl
or-zero zero (suc a) h = absurd (omega arith)
or-zero (suc n) (suc a) h =
    omega (arith, bit_or_step (suc a) 0, or-zero n (suc a / 2) (omega arith))

-- `(q << k) | r` is a sum when `r` has `k` bits.
pub or_fields : (k q r : ℕ) → r < 2 ^ k → bit_or (q * 2 ^ k) r ≡ q * 2 ^ k + r
or_fields zero q zero h = ground (arith, or-zero _ q (le_refl _))
or_fields zero q (suc r) h = absurd (omega arith)
or_fields (suc k) q r h = ground (
  arith,
  bit_or_step (q * 2 ^ suc k) r,
  mul_two_pow q k,
  or_fields k q (r / 2) (omega (arith, pow-suc 2 k)),
)

or_comm_step : (k x y : ℕ) → x < 2 ^ k → y < 2 ^ k → bit_or x y ≡ bit_or y x
or_comm_step zero zero zero p q = refl
or_comm_step zero (suc x) y p q = absurd (omega arith)
or_comm_step zero zero (suc y) p q = absurd (omega arith)
or_comm_step (suc k) x y p q = omega (
  arith,
  bit_or_step x y,
  bit_or_step y x,
  or_comm_step k (x / 2) (y / 2) (omega (arith, pow-suc 2 k)) (omega (arith, pow-suc 2 k)),
)

-- Setting the top bit of a byte, from either side.
pub top_bit_or : (r : ℕ) → r < 128 → bit_or 0x80 r ≡ 128 + r
top_bit_or r h = or_fields 7 1 r h

pub or_top_bit : (r : ℕ) → r < 128 → bit_or r 0x80 ≡ 128 + r
or_top_bit r h = or_comm_step 8 r 0x80 (omega arith) (omega arith) ∙ top_bit_or r h

pub or_no_bit : (r : ℕ) → bit_or r 0 ≡ r
or_no_bit r = or-zero r r (le_refl _)
