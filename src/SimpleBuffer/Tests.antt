-- ===== src/SimpleBuffer/Tests.antt =====
-- The theorems on SimpleBuffer.cpp at concrete inputs, and runs of its functions.
use wsclient.Base.{
  ℕ, some, none, [], ◌∷◌, ◌≡◌, arith, Block, replicate, take, length-replicate, zero, suc,
  if◌then◌else◌, max,
}
use wsclient.Base.Word.{IsBytes}
use wsclient.SimpleBuffer.{
  SimpleBuffer, get_data, get_size, add_buffer, confirm_capacity, shrink_buffer,
}
use wsclient.SimpleBuffer.Invariant.{IsAllocator}
use wsclient.SimpleBuffer.Grow.{can_fit, Grown}
use wsclient.SimpleBuffer.Queue.{Appended, add_buffer_lem, confirm_capacity_lem, shrink_buffer_lem}

-- An allocator that fills its blocks.
abbrev filled : ℕ → Block
filled n = replicate n 0xcd

filled-IsBytes : (n : ℕ) → IsBytes (filled n)
filled-IsBytes zero = tt
filled-IsBytes (suc n) = (omega arith, filled-IsBytes n)

pub filled-IsAllocator : IsAllocator filled
filled-IsAllocator = record { enough = λ n. length-replicate n 0xcd; bytes = filled-IsBytes }

-- Eight bytes, of which three are content.
abbrev sample : SimpleBuffer
sample = record {
  buffer = 1 ∷ 2 ∷ 3 ∷ 4 ∷ 5 ∷ 6 ∷ 7 ∷ 8 ∷ [];
  start_loc = 3;
  end_loc = 6;
  max_len = 8;
  max_grow_size = 64;
  default_size = 8;
}

add_buffer_lem_example :
    (b' : SimpleBuffer) × (add_buffer filled sample (some (9 ∷ 9 ∷ 9 ∷ 9 ∷ [])) 4
      ≡ some (can_fit sample 4, b'))
    × Appended sample (9 ∷ 9 ∷ 9 ∷ 9 ∷ []) b'
unfolding get_size
add_buffer_lem_example =
    add_buffer_lem filled (9 ∷ 9 ∷ 9 ∷ 9 ∷ []) filled-IsAllocator (omega arith) (omega arith)
      (omega arith) (omega arith)

confirm_capacity_lem_example :
    (b' : SimpleBuffer) × (confirm_capacity filled sample 7
      ≡ some (if can_fit sample 7 then some b'.end_loc else none, b'))
    × Grown sample 7 b'
unfolding get_size
confirm_capacity_lem_example =
    confirm_capacity_lem filled 7 filled-IsAllocator (omega arith) (omega arith) (omega arith)

shrink_buffer_lem_example :
    (b' : SimpleBuffer) × (shrink_buffer filled sample ≡ some (max 8 (get_size sample), b'))
    × (get_data b' ≡ take (get_size sample) sample.buffer)
shrink_buffer_lem_example = shrink_buffer_lem filled filled-IsAllocator (omega arith)
