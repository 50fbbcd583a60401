-- ===== src/FastXor/Word64.antt =====
-- One 64-bit word: a load, an exclusive or and a store work byte by byte.
use wsclient.Base.{
  ℕ, zero, suc, ◌+◌, ◌*◌, ◌≤◌, bit_and, bit_xor, List, [], ◌∷◌, ◌++◌, ◌≡◌, refl, sym, ap, ap₂, ◌∙◌,
  arith, length, take, drop, slice, take_split, length-take, length-drop, All-take, All-drop,
}
use wsclient.Base.Bits.{xor_fields, xor-lt}
use wsclient.Base.Word.{IsByte, IsBytes}
use wsclient.FastXor.{Key, key_at, xor_loop, load, store, key_mask, xor_blocks}
use wsclient.FastXor.Bytewise.{IsKey, xor_loop_mod, xor_loop-append}

-- The exclusive or of two runs of bytes.
xor_lists : List ℕ → List ℕ → List ℕ
xor_lists [] ys = []
xor_lists (x ∷ xs) [] = []
xor_lists (x ∷ xs) (y ∷ ys) = bit_xor x y ∷ xor_lists xs ys

store-xor-load :
    (n : ℕ) (xs ys : List ℕ)
    → length xs ≡ n
    → length ys ≡ n
    → IsBytes xs
    → IsBytes ys
    → store n (bit_xor (load xs) (load ys)) ≡ xor_lists xs ys
unfolding store load xor_lists
store-xor-load zero [] ys e f p q = refl
store-xor-load zero (x ∷ xs) ys e f p q = absurd (omega arith)
store-xor-load (suc n) [] ys e f p q = absurd (omega arith)
store-xor-load (suc n) (x ∷ xs) [] e f p q = absurd (omega arith)
store-xor-load (suc n) (x ∷ xs) (y ∷ ys) e f p q =
    let fields = xor_fields 8 x y (load xs) (load ys) p.0 q.0 in
    let low = xor-lt 8 x y p.0 q.0 in
    ap₂ ◌∷◌ (omega (arith, fields, low)) (
      ap (store n) (omega (arith, fields, low))
      ∙ store-xor-load n xs ys (omega arith) (omega arith) p.1 q.1)

-- The key bytes that `n` rounds from index `i` on use.
key_run : Key → ℕ → ℕ → List ℕ
key_run k i zero = []
key_run k i (suc n) = key_at k (bit_and i 3) ∷ key_run k (i + 1) n

xor_lists-key_run :
    (k : Key) (i : ℕ) (xs : List ℕ) → xor_lists xs (key_run k i (length xs)) ≡ xor_loop k i xs
unfolding xor_lists key_run xor_loop
xor_lists-key_run k i [] = refl
xor_lists-key_run k i (x ∷ xs) = rw (xor_lists-key_run k (i + 1) xs)

key_mask-key_run : (k : Key) → key_mask k ≡ load (key_run k 0 8)
unfolding key_mask key_run key_at
key_mask-key_run k = refl

-- Eight bytes against the mask are eight rounds of the loop from a key index of 0.
block-xor_loop :
    (k : Key) (xs : List ℕ)
    → IsKey k
    → IsBytes xs
    → length xs ≡ 8
    → store 8 (bit_xor (load xs) (key_mask k)) ≡ xor_loop k 0 xs
block-xor_loop k xs h b e = rw (key_mask-key_run k) (
    store-xor-load 8 xs (key_run k 0 8) e (unfold key_run in refl) b keys
    ∙ ap (λ n. xor_lists xs (key_run k 0 n)) (sym e)
    ∙ xor_lists-key_run k 0 xs)
  where
    keys : IsBytes (key_run k 0 8)
    keys = unfold key_run key_at in assumption

-- `n` words are `8 * n` rounds of the loop.
pub xor_blocks-xor_loop :
    (n : ℕ) (k : Key) (xs : List ℕ)
    → IsKey k
    → IsBytes xs
    → n * 8 ≤ length xs
    → xor_blocks n (key_mask k) xs ≡ xor_loop k 0 (take (n * 8) xs)
unfolding xor_blocks
xor_blocks-xor_loop zero k xs h b e = unfold xor_loop in refl
xor_blocks-xor_loop (suc n) k xs h b e =
    ap₂ ◌++◌ (block-xor_loop k (take 8 xs) h (All-take IsByte 8 xs b) full) (
      xor_blocks-xor_loop n k (drop 8 xs) h (All-drop IsByte 8 xs b)
        (omega (arith, length-drop 8 xs))
      ∙ xor_loop_mod k 0 8 (slice 8 (n * 8) xs) refl)
    ∙ sym (xor_loop-append k 0 8 (take 8 xs) (slice 8 (n * 8) xs) (omega (arith, full)))
    ∙ ap (xor_loop k 0) (sym (take_split 8 (n * 8) (suc n * 8) xs (omega arith)))
  where
    full : length (take 8 xs) ≡ 8
    full = omega (arith, length-take 8 xs)
