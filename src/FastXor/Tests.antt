-- ===== src/FastXor/Tests.antt =====
-- The theorems on FastXOR.cpp at concrete inputs, and runs of its functions.
use wsclient.Base.{ℕ, false, List, [], ◌∷◌, ◌≡◌, refl, arith}
use wsclient.FastXor.{
  Key, slow_xor, fast_xor, xor_loop, xor_bytes, xor_aligned, xor_blocks, align_key, skip_bytes,
  key_at, key_mask, load, store,
}
use wsclient.FastXor.Agree.{fast_xor-eq-slow_xor}

abbrev key : Key
key = record { k0 = 0x12; k1 = 0x34; k2 = 0x56; k3 = 0x78 }

abbrev message : List ℕ
message = 1 ∷ 2 ∷ 3 ∷ 4 ∷ 5 ∷ 6 ∷ 7 ∷ 8 ∷ 9 ∷ 10 ∷ 11 ∷ 12 ∷ 13 ∷ 14 ∷ 15 ∷ 16 ∷ 17 ∷ 18 ∷ []

-- Three bytes up to the aligned address, one word, and seven bytes.
fast_xor_runs :
    fast_xor false 5 key message
    ≡ 0x13 ∷ 0x36 ∷ 0x55 ∷ 0x7c ∷ 0x17 ∷ 0x32 ∷ 0x51 ∷ 0x70 ∷ 0x1b ∷ 0x3e ∷ 0x5d ∷ 0x74 ∷ 0x1f
      ∷ 0x3a ∷ 0x59 ∷ 0x68 ∷ 0x03 ∷ 0x26 ∷ []
unfolding fast_xor xor_bytes xor_loop xor_aligned xor_blocks align_key skip_bytes key_at key_mask
    load store
fast_xor_runs = refl

fast_xor-eq-slow_xor_example : fast_xor false 5 key message ≡ slow_xor key message
fast_xor-eq-slow_xor_example = fast_xor-eq-slow_xor false 5 key message (omega arith) (omega arith)
