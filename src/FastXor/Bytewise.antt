-- ===== src/FastXor/Bytewise.antt =====
-- The byte-wise loop: lengths, splitting, the period of the key, and that it undoes itself.
use wsclient.Base.{
  ℕ, suc, ◌+◌, ◌%◌, ◌<◌, bit_and, bit_xor, List, [], ◌∷◌, ◌++◌, ◌≡◌, refl, sym, ap, ap₂, ◌∙◌, arith,
  length, take, drop, take-append-drop,
}
use wsclient.Base.Bits.{and_three, xor_twice, xor-lt}
use wsclient.Base.Word.{IsByte, IsBytes}
use wsclient.FastXor.{Key, key_at, xor_loop, align_key}

abbrev pub IsKey : Key → Type 0
IsKey k = IsByte k.k0 × IsByte k.k1 × IsByte k.k2 × IsByte k.k3

pub key_at-lt : (k : Key) (i : ℕ) → IsKey k → key_at k i < 256
unfolding key_at
key_at-lt k i h = ground arith

pub length-xor_loop : (k : Key) (i : ℕ) (xs : List ℕ) → length (xor_loop k i xs) ≡ length xs
unfolding xor_loop
length-xor_loop k i [] = refl
length-xor_loop k i (x ∷ xs) = ap suc (length-xor_loop k (i + 1) xs)

-- Only the index modulo 4 matters.
pub xor_loop_mod :
    (k : Key) (i j : ℕ) (xs : List ℕ) → i % 4 ≡ j % 4 → xor_loop k i xs ≡ xor_loop k j xs
unfolding xor_loop
xor_loop_mod k i j [] e = refl
xor_loop_mod k i j (x ∷ xs) e =
    ap₂ ◌∷◌ (ap (λ t. bit_xor x (key_at k t)) (and_three i ∙ omega (arith, and_three j)))
      (xor_loop_mod k (i + 1) (j + 1) xs (omega arith))

pub xor_loop-append :
    (k : Key) (i j : ℕ) (xs ys : List ℕ)
    → j ≡ i + length xs
    → xor_loop k i (xs ++ ys) ≡ xor_loop k i xs ++ xor_loop k j ys
unfolding xor_loop
xor_loop-append k i j [] ys e = xor_loop_mod k i j ys (omega arith)
xor_loop-append k i j (x ∷ xs) ys e =
    ap (λ t. bit_xor x (key_at k (bit_and i 3)) ∷ t)
      (xor_loop-append k (i + 1) j xs ys (omega arith))

pub xor_loop_split :
    (k : Key) (i j n : ℕ) (xs : List ℕ)
    → j ≡ i + length (take n xs)
    → xor_loop k i xs ≡ xor_loop k i (take n xs) ++ xor_loop k j (drop n xs)
xor_loop_split k i j n xs e =
    ap (xor_loop k i) (sym (take-append-drop n xs))
    ∙ xor_loop-append k i j (take n xs) (drop n xs) e

key_at-align_key :
    (k : Key) (s i : ℕ) → key_at (align_key k s) (bit_and i 3) ≡ key_at k (bit_and (s + i) 3)
unfolding key_at align_key
key_at-align_key k s i = ground (
  arith,
  and_three i,
  and_three (s + i),
  and_three (s + 0),
  and_three (s + 1),
  and_three (s + 2),
  and_three (s + 3),
)

-- A key that was rotated by `s` goes on where the first one stands after `s` bytes.
pub xor_loop-align_key :
    (k : Key) (s i : ℕ) (xs : List ℕ) → xor_loop (align_key k s) i xs ≡ xor_loop k (s + i) xs
unfolding xor_loop
xor_loop-align_key k s i [] = refl
xor_loop-align_key k s i (x ∷ xs) =
    ap₂ ◌∷◌ (ap (bit_xor x) (key_at-align_key k s i)) (
      xor_loop-align_key k s (i + 1) xs ∙ xor_loop_mod k (s + (i + 1)) (s + i + 1) xs (omega arith))

pub align_key-IsKey : (k : Key) (s : ℕ) → IsKey k → IsKey (align_key k s)
unfolding align_key
align_key-IsKey k s h = (key_at-lt k _ h, key_at-lt k _ h, key_at-lt k _ h, key_at-lt k _ h)

pub xor_loop-IsBytes :
    (k : Key) (i : ℕ) (xs : List ℕ) → IsKey k → IsBytes xs → IsBytes (xor_loop k i xs)
unfolding xor_loop
xor_loop-IsBytes k i [] h b = tt
xor_loop-IsBytes k i (x ∷ xs) h b =
    (xor-lt 8 x _ b.0 (key_at-lt k _ h), xor_loop-IsBytes k (i + 1) xs h b.1)

pub xor_loop_twice :
    (k : Key) (i : ℕ) (xs : List ℕ) → IsKey k → IsBytes xs → xor_loop k i (xor_loop k i xs) ≡ xs
unfolding xor_loop
xor_loop_twice k i [] h b = refl
xor_loop_twice k i (x ∷ xs) h b =
    ap₂ ◌∷◌ (xor_twice 8 x _ b.0 (key_at-lt k _ h)) (xor_loop_twice k (i + 1) xs h b.1)
