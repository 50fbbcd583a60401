-- ===== src/Base/Slices.antt =====
-- Windows of a list, and the write of a run of elements in place.
use Prim.Native.Nat.{ℕ, zero, suc, ◌+◌, ◌-◌, ◌≤◌}
use mathlib.Core.Path.{◌≡◌, refl, ap, ◌∙◌}
use mathlib.Core.List.{List, [], ◌∷◌, ◌++◌}
use native.Mathlib.Omega.{arith}
use wsclient.Base.Lists.{
  length, take, drop, All, All-take, All-drop, drop-take, drop-drop, drop-append_length,
  take-append_length,
}

module _ {ℓ} {A : Type ℓ} where
  -- `n` elements from index `i` on.
  abbrev pub slice : ℕ → ℕ → List A → List A
  slice i n xs = take n (drop i xs)

  -- The elements of the third list go to index `off` and on; past the end nothing is written.
  abbrev pub write : List A → ℕ → List A → List A
  write [] off bs = []
  write (x ∷ xs) (suc off) bs = x ∷ write xs off bs
  write (x ∷ xs) zero [] = x ∷ xs
  write (x ∷ xs) zero (b ∷ bs) = b ∷ write xs zero bs

module _ {ℓ} {A : Type ℓ} where
  pub length-write : (xs : List A) (off : ℕ) (bs : List A) → length (write xs off bs) ≡ length xs
  length-write [] off bs = refl
  length-write (x ∷ xs) (suc off) bs = ap suc (length-write xs off bs)
  length-write (x ∷ xs) zero [] = refl
  length-write (x ∷ xs) zero (b ∷ bs) = ap suc (length-write xs zero bs)

  pub length-slice : (i n : ℕ) (xs : List A) → i + n ≤ length xs → length (slice i n xs) ≡ n
  length-slice zero zero xs h = refl
  length-slice zero (suc n) [] h = absurd (omega arith)
  length-slice zero (suc n) (x ∷ xs) h = ap suc (length-slice zero n xs (omega arith))
  length-slice (suc i) zero [] h = refl
  length-slice (suc i) (suc n) [] h = absurd (omega arith)
  length-slice (suc i) n (x ∷ xs) h = length-slice i n xs (omega arith)

  -- What was written is read back, and a window beside it is unchanged.
  pub slice-write_self :
      (xs : List A) (off n : ℕ) (bs : List A)
      → n ≡ length bs
      → off + n ≤ length xs
      → slice off n (write xs off bs) ≡ bs
  slice-write_self [] zero zero [] e h = refl
  slice-write_self [] off (suc n) bs e h = absurd (omega arith)
  slice-write_self [] off n (b ∷ bs) e h = absurd (omega arith)
  slice-write_self [] (suc off) zero [] e h = refl
  slice-write_self (x ∷ xs) (suc off) n bs e h = slice-write_self xs off n bs e (omega arith)
  slice-write_self (x ∷ xs) zero zero [] e h = refl
  slice-write_self (x ∷ xs) zero (suc n) [] e h = absurd (omega arith)
  slice-write_self (x ∷ xs) zero zero (b ∷ bs) e h = absurd (omega arith)
  slice-write_self (x ∷ xs) zero (suc n) (b ∷ bs) e h =
      ap (λ t. b ∷ t) (slice-write_self xs zero n bs (omega arith) (omega arith))

  pub take-write_before :
      (xs : List A) (off n : ℕ) (bs : List A) → n ≤ off → take n (write xs off bs) ≡ take n xs
  take-write_before xs off zero bs h = refl
  take-write_before [] off (suc n) bs h = refl
  take-write_before (x ∷ xs) zero (suc n) bs h = absurd (omega arith)
  take-write_before (x ∷ xs) (suc off) (suc n) bs h =
      ap (λ t. x ∷ t) (take-write_before xs off n bs (omega arith))

  pub slice-write_before :
      (xs : List A) (off i n : ℕ) (bs : List A)
      → i + n ≤ off
      → slice i n (write xs off bs) ≡ slice i n xs
  slice-write_before xs off zero n bs h = take-write_before xs off n bs (omega arith)
  slice-write_before [] off (suc i) n bs h = refl
  slice-write_before (x ∷ xs) zero (suc i) n bs h = absurd (omega arith)
  slice-write_before (x ∷ xs) (suc off) (suc i) n bs h =
      slice-write_before xs off i n bs (omega arith)

  pub drop-write_after :
      (xs : List A) (off i : ℕ) (bs : List A)
      → off + length bs ≤ i
      → drop i (write xs off bs) ≡ drop i xs
  drop-write_after [] off i bs h = refl
  drop-write_after (x ∷ xs) (suc off) zero bs h = absurd (omega arith)
  drop-write_after (x ∷ xs) (suc off) (suc i) bs h = drop-write_after xs off i bs (omega arith)
  drop-write_after (x ∷ xs) zero i [] h = refl
  drop-write_after (x ∷ xs) zero zero (b ∷ bs) h = absurd (omega arith)
  drop-write_after (x ∷ xs) zero (suc i) (b ∷ bs) h = drop-write_after xs zero i bs (omega arith)

  -- A window in two parts.
  pub take_split : (m n k : ℕ) (xs : List A) → k ≡ m + n → take k xs ≡ take m xs ++ slice m n xs
  take_split zero n k xs e = ap (λ t. take t xs) (let e' : k ≡ n = omega arith in e')
  take_split (suc m) n zero xs e = absurd (omega arith)
  take_split (suc m) zero (suc k) [] e = refl
  take_split (suc m) (suc n) (suc k) [] e = refl
  take_split (suc m) n (suc k) (x ∷ xs) e = ap (λ t. x ∷ t) (take_split m n k xs (omega arith))

  pub slice_split :
      (i j m n k : ℕ) (xs : List A)
      → k ≡ m + n
      → j ≡ i + m
      → slice i k xs ≡ slice i m xs ++ slice j n xs
  slice_split zero j m n k xs e f = let e' : j ≡ m = omega arith in rw e' (take_split m n k xs e)
  slice_split (suc i) zero m n k xs e f = absurd (omega arith)
  slice_split (suc i) (suc j) m n k (x ∷ xs) e f = slice_split i j m n k xs e (omega arith)
  slice_split (suc i) (suc j) zero zero zero [] e f = refl
  slice_split (suc i) (suc j) zero (suc n) (suc k) [] e f = refl
  slice_split (suc i) (suc j) (suc m) zero (suc k) [] e f = refl
  slice_split (suc i) (suc j) (suc m) (suc n) (suc k) [] e f = refl
  slice_split (suc i) (suc j) (suc m) n zero [] e f = absurd (omega arith)
  slice_split (suc i) (suc j) zero (suc n) zero [] e f = absurd (omega arith)
  slice_split (suc i) (suc j) zero zero (suc k) [] e f = refl

module _ {ℓ κ} {A : Type ℓ} (P : A → Type κ) where
  pub All-write :
      (xs : List A) (off : ℕ) (bs : List A) → All P xs → All P bs → All P (write xs off bs)
  All-write [] off bs h k = tt
  All-write (x ∷ xs) (suc off) bs h k = (h.0, All-write xs off bs h.1 k)
  All-write (x ∷ xs) zero [] h k = h
  All-write (x ∷ xs) zero (b ∷ bs) h k = (k.0, All-write xs zero bs h.1 k.1)

  pub All-slice : (i n : ℕ) (xs : List A) → All P xs → All P (slice i n xs)
  All-slice i n xs h = All-take P n (drop i xs) (All-drop P i xs h)

pub write_nil {ℓ} : {A : Type ℓ} (xs : List A) (off : ℕ) → write xs off [] ≡ xs
write_nil [] off = refl
write_nil (x ∷ xs) zero = refl
write_nil (x ∷ xs) (suc off) = ap (λ t. x ∷ t) (write_nil xs off)

-- A write inside a window.
module _ {ℓ} {A : Type ℓ} where
  pub drop-write :
      (xs : List A) (s off k : ℕ) (bs : List A)
      → k ≡ s + off
      → drop s (write xs k bs) ≡ write (drop s xs) off bs
  drop-write xs zero off k bs e = ap (λ t. write xs t bs) (let e' : k ≡ off = omega arith in e')
  drop-write [] (suc s) off k bs e = refl
  drop-write (x ∷ xs) (suc s) off zero bs e = absurd (omega arith)
  drop-write (x ∷ xs) (suc s) off (suc k) bs e = drop-write xs s off k bs (omega arith)

  pub take-write :
      (xs : List A) (n off : ℕ) (bs : List A)
      → off + length bs ≤ n
      → take n (write xs off bs) ≡ write (take n xs) off bs
  take-write [] zero off bs h = refl
  take-write [] (suc n) off bs h = refl
  take-write (x ∷ xs) zero zero [] h = refl
  take-write (x ∷ xs) zero zero (b ∷ bs) h = absurd (omega arith)
  take-write (x ∷ xs) zero (suc off) bs h = absurd (omega arith)
  take-write (x ∷ xs) (suc n) (suc off) bs h =
      ap (λ t. x ∷ t) (take-write xs n off bs (omega arith))
  take-write (x ∷ xs) (suc n) zero [] h = refl
  take-write (x ∷ xs) (suc n) zero (b ∷ bs) h =
      ap (λ t. b ∷ t) (take-write xs n zero bs (omega arith))

  -- A write over the front of the second of two runs, and over all of it.
  pub write-append :
      (xs ys : List A) (n : ℕ) (bs : List A)
      → n ≡ length xs
      → write (xs ++ ys) n bs ≡ xs ++ write ys 0 bs
  write-append [] ys zero bs e = refl
  write-append [] ys (suc n) bs e = absurd (omega arith)
  write-append (x ∷ xs) ys zero bs e = absurd (omega arith)
  write-append (x ∷ xs) ys (suc n) bs e = ap (λ t. x ∷ t) (write-append xs ys n bs (omega arith))

  pub write_all : (xs bs : List A) → length bs ≡ length xs → write xs 0 bs ≡ bs
  write_all [] [] e = refl
  write_all [] (b ∷ bs) e = absurd (omega arith)
  write_all (x ∷ xs) [] e = absurd (omega arith)
  write_all (x ∷ xs) (b ∷ bs) e = ap (λ t. b ∷ t) (write_all xs bs (omega arith))

module _ {ℓ} {A : Type ℓ} where
  pub write_front : (xs ys bs : List A) → length bs ≡ length xs → write (xs ++ ys) 0 bs ≡ bs ++ ys
  write_front [] [] [] e = refl
  write_front [] (y ∷ ys) [] e = refl
  write_front [] ys (b ∷ bs) e = absurd (omega arith)
  write_front (x ∷ xs) ys [] e = absurd (omega arith)
  write_front (x ∷ xs) ys (b ∷ bs) e = ap (λ t. b ∷ t) (write_front xs ys bs (omega arith))

  pub take-take : (n k : ℕ) (xs : List A) → n ≤ k → take n (take k xs) ≡ take n xs
  take-take zero k xs h = refl
  take-take (suc n) zero xs h = absurd (omega arith)
  take-take (suc n) (suc k) [] h = refl
  take-take (suc n) (suc k) (x ∷ xs) h = ap (λ t. x ∷ t) (take-take n k xs (omega arith))

  -- A window of a window.
  pub slice-slice :
      (i j m n : ℕ) (xs : List A) → j + n ≤ m → slice j n (slice i m xs) ≡ slice (i + j) n xs
  slice-slice i j m n xs h =
      ap (take n) (drop-take j m (m - j) (drop i xs) (omega arith))
      ∙ take-take n (m - j) (drop j (drop i xs)) (omega arith)
      ∙ ap (take n) (drop-drop j i (i + j) xs refl)

  -- A window that is the second of three runs.
  pub slice_middle :
      (xs ys zs : List A) (i n : ℕ)
      → i ≡ length xs
      → n ≡ length ys
      → slice i n (xs ++ (ys ++ zs)) ≡ ys
  slice_middle xs ys zs i n e f =
      ap (take n) (drop-append_length xs (ys ++ zs) i e) ∙ take-append_length ys zs n f
