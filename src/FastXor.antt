-- ===== src/FastXor.antt =====
-- ext/easywsclient/FastXOR.cpp: the XOR of a block of memory by a repeated 32-bit key, byte by byte
-- and 64 bits at a time. A byte is a number below 256 and a block the list of its bytes; the start
-- address of the block and the byte order of the machine are arguments.
pub mod Word64
pub mod Bytewise
pub mod Agree
mod Tests
use wsclient.Base.{
  ℕ, zero, suc, ◌+◌, ◌-◌, ◌*◌, ◌/◌, ◌%◌, bit_and, bit_xor, Bool, List, [], ◌∷◌, ◌++◌, ltb, ◌==◌,
  if◌then◌else◌, length, take, drop,
}

-- `uint8_t key[4]`
pub record Key : Type 0 where
  pub k0 : ℕ
  pub k1 : ℕ
  pub k2 : ℕ
  pub k3 : ℕ

-- `key[i]`, for `i` below 4
unfoldable pub key_at : Key → ℕ → ℕ
key_at k i = if i == 0 then k.k0 else if i == 1 then k.k1 else if i == 2 then k.k2 else k.k3

-- The loop of `xorBytes`: the list is `data[i..dataLen)`.
unfoldable pub xor_loop : Key → ℕ → List ℕ → List ℕ
xor_loop key i [] = []
xor_loop key i (x ∷ xs) = bit_xor x (key_at key (bit_and i 3)) ∷ xor_loop key (i + 1) xs

-- The changed bytes, and the key index that the loop ended on.
unfoldable pub xor_bytes : Key → List ℕ → List ℕ × ℕ
xor_bytes key bytes = (xor_loop key 0 bytes, bit_and (length bytes) 3)

unfoldable pub slow_xor : Key → List ℕ → List ℕ
slow_xor key bytes = (xor_bytes key bytes).0

-- A 64-bit load from, and store to, `n` bytes on a little-endian machine.
unfoldable pub load : List ℕ → ℕ
load [] = 0
load (x ∷ xs) = x + load xs * 256

unfoldable pub store : ℕ → ℕ → List ℕ
store zero v = []
store (suc n) v = v % 256 ∷ store n (v / 256)

-- `mask`, two copies of the key in memory order
unfoldable pub key_mask : Key → ℕ
key_mask k = load (k.k0 ∷ k.k1 ∷ k.k2 ∷ k.k3 ∷ k.k0 ∷ k.k1 ∷ k.k2 ∷ k.k3 ∷ [])

-- `scan64[i] ^= mask` for `blockCount` words
unfoldable pub xor_blocks : ℕ → ℕ → List ℕ → List ℕ
xor_blocks zero mask bytes = []
xor_blocks (suc n) mask bytes =
    store 8 (bit_xor (load (take 8 bytes)) mask) ++ xor_blocks n mask (drop 8 bytes)

-- The key as it stands after `key_index` bytes.
unfoldable pub align_key : Key → ℕ → Key
align_key key key_index = record {
  k0 = key_at key (bit_and (key_index + 0) 3);
  k1 = key_at key (bit_and (key_index + 1) 3);
  k2 = key_at key (bit_and (key_index + 2) 3);
  k3 = key_at key (bit_and (key_index + 3) 3);
}

-- The blocks of 8 bytes, then the rest one by one. (The guards on `blockCount` and on what is left
-- of `dataLen` only skip empty loops.)
unfoldable pub xor_aligned : Key → List ℕ → List ℕ
xor_aligned key bytes =
    let block_count = length bytes / 8 in
    xor_blocks block_count (key_mask key) bytes ++ (xor_bytes key (drop (block_count * 8) bytes)).0

-- How many bytes lie before the next address that is a multiple of 8, at most `data_len`.
unfoldable pub skip_bytes : ℕ → ℕ → ℕ
skip_bytes address data_len =
    let off = bit_and address 7 in
    if off == 0 then 0 else if ltb data_len (8 - off) then data_len else 8 - off

unfoldable pub fast_xor : Bool → ℕ → Key → List ℕ → List ℕ
fast_xor big_endian address key bytes =
    if big_endian
    then (xor_bytes key bytes).0
    else (let skip = skip_bytes address (length bytes) in
        if skip == 0
        then xor_aligned key bytes
        else (let (front, key_index) = xor_bytes key (take skip bytes) in
            front ++ xor_aligned (align_key key key_index) (drop skip bytes)))
