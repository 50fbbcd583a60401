-- ===== src/FastXor/Agree.antt =====
-- The fast routine against the byte-wise one.
use wsclient.Base.{
  ℕ, ◌+◌, ◌*◌, ◌/◌, Bool, true, false, List, ◌++◌, ◌≡◌, refl, sym, ap, ap₂, ◌∙◌, arith, length,
  take, drop, length-take, All-drop, bit_and, ◌==◌, inl, inr, Bool-cases,
}
use wsclient.Base.Bits.{and_three}
use wsclient.Base.Word.{IsByte, IsBytes}
use wsclient.FastXor.{
  Key, xor_loop, xor_bytes, slow_xor, align_key, xor_aligned, skip_bytes, fast_xor,
}
use wsclient.FastXor.Bytewise.{
  IsKey, xor_loop_mod, xor_loop_split, xor_loop-align_key, align_key-IsKey, length-xor_loop,
  xor_loop_twice, xor_loop-IsBytes,
}
use wsclient.FastXor.Word64.{xor_blocks-xor_loop}

xor_aligned-xor_loop :
    (k : Key) (xs : List ℕ) → IsKey k → IsBytes xs → xor_aligned k xs ≡ xor_loop k 0 xs
unfolding xor_aligned xor_bytes
xor_aligned-xor_loop k xs h b =
    let n = length xs / 8 * 8 in
    ap₂ ◌++◌ (xor_blocks-xor_loop (length xs / 8) k xs h b (omega arith))
      (xor_loop_mod k 0 n (drop n xs) (omega arith))
    ∙ sym (xor_loop_split k 0 n n xs (omega (arith, length-take n xs)))

skipped :
    (k : Key) (s : ℕ) (xs : List ℕ)
    → IsKey k
    → IsBytes xs
    → xor_loop k 0 (take s xs)
        ++ xor_aligned (align_key k (bit_and (length (take s xs)) 3)) (drop s xs)
      ≡ xor_loop k 0 xs
skipped k s xs h b =
    let n = bit_and (length (take s xs)) 3 in
    ap (λ t. xor_loop k 0 (take s xs) ++ t)
      (xor_aligned-xor_loop (align_key k n) (drop s xs) (align_key-IsKey k n h)
          (All-drop IsByte s xs b)
        ∙ xor_loop-align_key k n 0 (drop s xs)
        ∙ xor_loop_mod k (n + 0) (length (take s xs)) (drop s xs)
            (omega (arith, and_three (length (take s xs)))))
    ∙ sym (xor_loop_split k 0 (length (take s xs)) s xs (omega arith))

-- For key and data bytes below 256, on a machine of either byte order and from every start address,
-- `fastXOR` changes the data as the byte-wise `slowXOR` does.
pub fast_xor-eq-slow_xor :
    (big_endian : Bool) (address : ℕ) (k : Key) (xs : List ℕ)
    → IsKey k
    → IsBytes xs
    → fast_xor big_endian address k xs ≡ slow_xor k xs
unfolding fast_xor slow_xor xor_bytes
fast_xor-eq-slow_xor true address k xs h b = refl
fast_xor-eq-slow_xor false address k xs h b =
    let s = skip_bytes address (length xs) in
    elim (Bool-cases (s == 0)) [
      | inl e ↦ rw e (xor_aligned-xor_loop k xs h b)
      | inr e ↦ rw e (skipped k s xs h b)
    ]

pub length-fast_xor :
    (big_endian : Bool) (address : ℕ) (k : Key) (xs : List ℕ)
    → IsKey k
    → IsBytes xs
    → length (fast_xor big_endian address k xs) ≡ length xs
unfolding slow_xor xor_bytes
length-fast_xor big address k xs h b =
    rw (fast_xor-eq-slow_xor big address k xs h b) (length-xor_loop k 0 xs)

pub fast_xor-IsBytes :
    (big_endian : Bool) (address : ℕ) (k : Key) (xs : List ℕ)
    → IsKey k
    → IsBytes xs
    → IsBytes (fast_xor big_endian address k xs)
unfolding slow_xor xor_bytes
fast_xor-IsBytes big address k xs h b =
    rw (fast_xor-eq-slow_xor big address k xs h b) (xor_loop-IsBytes k 0 xs h b)

-- For key and data bytes below 256, two runs of `fastXOR` with one key give the data back, whatever
-- the byte orders of the two machines and the two start addresses are.
fast_xor_twice :
    (big big' : Bool) (address address' : ℕ) (k : Key) (xs : List ℕ)
    → IsKey k
    → IsBytes xs
    → fast_xor big' address' k (fast_xor big address k xs) ≡ xs
unfolding slow_xor xor_bytes
fast_xor_twice big big' address address' k xs h b =
    fast_xor-eq-slow_xor big' address' k _ h (fast_xor-IsBytes big address k xs h b)
    ∙ ap (xor_loop k 0) (fast_xor-eq-slow_xor big address k xs h b)
    ∙ xor_loop_twice k 0 xs h b
