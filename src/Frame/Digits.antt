-- ===== src/Frame/Digits.antt =====
-- A 64-bit length and its eight bytes, highest first.
use wsclient.Base.{ℕ, ◌+◌, ◌*◌, ◌/◌, ◌%◌, ◌^◌, ◌<◌, ◌≡◌, bit_or, arith, refl}
use wsclient.Base.Bits.{or_fields}

-- `acc |= r`, where `acc` has its low `k` bits free and `r` no others.
or_sum : (k acc q r : ℕ) → acc ≡ q * 2 ^ k → r < 2 ^ k → bit_or acc r ≡ acc + r
or_sum k acc q r e h = rw e (or_fields k q r h)

or_onto_zero : (r : ℕ) → r < 2 ^ 64 → bit_or 0 r ≡ r
or_onto_zero r h = omega (arith, or_fields 64 0 r h)

pub join_two :
    (d2 d3 : ℕ) → d2 < 256 → d3 < 256 → bit_or (bit_or 0 (d2 * 2 ^ 8)) d3 ≡ d2 * 2 ^ 8 + d3
join_two d2 d3 h2 h3 =
    rw (or_onto_zero (d2 * 2 ^ 8) (omega arith)) (or_sum 8 (d2 * 2 ^ 8) d2 d3 refl h3)

pub join_eight :
    (d2 d3 d4 d5 d6 d7 d8 d9 : ℕ)
    → d2 < 256
    → d3 < 256
    → d4 < 256
    → d5 < 256
    → d6 < 256
    → d7 < 256
    → d8 < 256
    → d9 < 256
    → bit_or
        (bit_or
          (bit_or
            (bit_or
              (bit_or
                (bit_or (bit_or (bit_or 0 (d2 * 2 ^ 56)) (d3 * 2 ^ 48)) (d4 * 2 ^ 40))
                (d5 * 2 ^ 32))
              (d6 * 2 ^ 24))
            (d7 * 2 ^ 16))
          (d8 * 2 ^ 8))
        d9
      ≡ d2 * 2 ^ 56
        + d3 * 2 ^ 48
        + d4 * 2 ^ 40
        + d5 * 2 ^ 32
        + d6 * 2 ^ 24
        + d7 * 2 ^ 16
        + d8 * 2 ^ 8
        + d9
join_eight d2 d3 d4 d5 d6 d7 d8 d9 h2 h3 h4 h5 h6 h7 h8 h9 =
    let a3 = d2 * 2 ^ 8 + d3 in
    let a4 = a3 * 2 ^ 8 + d4 in
    let a5 = a4 * 2 ^ 8 + d5 in
    let a6 = a5 * 2 ^ 8 + d6 in
    let a7 = a6 * 2 ^ 8 + d7 in
    let a8 = a7 * 2 ^ 8 + d8 in
    let s2 = d2 * 2 ^ 56 in
    let s3 = s2 + d3 * 2 ^ 48 in
    let s4 = s3 + d4 * 2 ^ 40 in
    let s5 = s4 + d5 * 2 ^ 32 in
    let s6 = s5 + d6 * 2 ^ 24 in
    let s7 = s6 + d7 * 2 ^ 16 in
    let s8 = s7 + d8 * 2 ^ 8 in
    rw (
      or_onto_zero (d2 * 2 ^ 56) (omega arith),
      or_sum 56 s2 d2 (d3 * 2 ^ 48) refl (omega arith),
      or_sum 48 s3 a3 (d4 * 2 ^ 40) (omega arith) (omega arith),
      or_sum 40 s4 a4 (d5 * 2 ^ 32) (omega arith) (omega arith),
      or_sum 32 s5 a5 (d6 * 2 ^ 24) (omega arith) (omega arith),
      or_sum 24 s6 a6 (d7 * 2 ^ 16) (omega arith) (omega arith),
      or_sum 16 s7 a7 (d8 * 2 ^ 8) (omega arith) (omega arith),
      or_sum 8 s8 a8 d9 (omega arith) h9,
    )

-- The bytes of a length, put together again.
pub split_two : (n : ℕ) → n < 2 ^ 16 → n / 2 ^ 8 % 256 * 2 ^ 8 + n / 2 ^ 0 % 256 ≡ n
split_two n h = omega arith

pub split_eight :
    (n : ℕ)
    → n < 2 ^ 64
    → n / 2 ^ 56 % 256 * 2 ^ 56
        + n / 2 ^ 48 % 256 * 2 ^ 48
        + n / 2 ^ 40 % 256 * 2 ^ 40
        + n / 2 ^ 32 % 256 * 2 ^ 32
        + n / 2 ^ 24 % 256 * 2 ^ 24
        + n / 2 ^ 16 % 256 * 2 ^ 16
        + n / 2 ^ 8 % 256 * 2 ^ 8
        + n / 2 ^ 0 % 256
      ≡ n
split_eight n h = omega arith
