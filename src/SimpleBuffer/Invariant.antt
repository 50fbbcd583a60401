-- ===== src/SimpleBuffer/Invariant.antt =====
-- The representation invariant of a buffer, what the C library's allocator promises, and the
-- operations that do not grow the buffer.
use wsclient.Base.{
  ℕ, ◌+◌, ◌-◌, ◌≤◌, ◌<◌, ◌^◌, ◌≡◌, refl, ap, some, none, [], arith, Block, length, take, drop, ◌==◌,
  ==_iff, Bool-cases, inl, inr, sym, ◌∙◌, drop_all, length-slice, All-slice, drop-take, drop-drop,
}
use wsclient.Base.Word.{IsByte, IsBytes}
use wsclient.SimpleBuffer.{SimpleBuffer, get_size, get_data, clear, consume, create}

-- Every `malloc` of the code succeeds, and returns a block of as many bytes as were asked for.
pub record IsAllocator (malloc : ℕ → Block) : Type 0 where
  pub enough : (n : ℕ) → length (malloc n) ≡ n
  pub bytes : (n : ℕ) → IsBytes (malloc n)

pub record IsValid (b : SimpleBuffer) : Type 0 where
  pub ordered : b.start_loc ≤ b.end_loc
  pub within : b.end_loc ≤ b.max_len
  pub stored : b.max_len ≤ length b.buffer
  pub bounded : b.max_len ≤ b.max_grow_size
  pub small : b.max_grow_size < 2 ^ 30
  pub bytes : IsBytes b.buffer

pub get_size_lem : {b : SimpleBuffer} → IsValid b → get_size b ≡ b.end_loc - b.start_loc
unfolding get_size
get_size_lem v = omega arith

pub get_size-le : {b : SimpleBuffer} → IsValid b → b.start_loc + get_size b ≤ length b.buffer
get_size-le v = omega (arith, get_size_lem v)

pub length-get_data : {b : SimpleBuffer} → IsValid b → length (get_data b) ≡ get_size b
unfolding get_data
length-get_data {b} v = length-slice b.start_loc (get_size b) b.buffer (get_size-le v)

pub get_data-IsBytes : {b : SimpleBuffer} → IsValid b → IsBytes (get_data b)
unfolding get_data
get_data-IsBytes {b} v = All-slice IsByte b.start_loc (get_size b) b.buffer v.bytes

-- With an allocator that succeeds, and sizes below 2 ^ 30, a new buffer is valid and empty.
pub create-IsValid :
    (malloc : ℕ → Block) (n m : ℕ)
    → IsAllocator malloc
    → n < 2 ^ 30
    → m < 2 ^ 30
    → IsValid (create malloc n m) × (get_data (create malloc n m) ≡ [])
unfolding create get_data get_size
create-IsValid malloc n m a hn hm = elim (Bool-cases (n == 0)) [
  | inl e ↦ rw e (
    record {
      ordered = omega arith;
      within = omega arith;
      stored = ground arith;
      bounded = ground arith;
      small = ground arith;
      bytes = tt;
    },
    refl,
  )
  | inr e ↦ rw e (
    record {
      ordered = omega arith;
      within = omega arith;
      stored = omega (arith, a.enough n);
      bounded = ground arith;
      small = ground arith;
      bytes = a.bytes n;
    },
    refl,
  )
]

pub clear-IsValid : {b : SimpleBuffer} → IsValid b → IsValid (clear b) × (get_data (clear b) ≡ [])
unfolding clear get_data get_size
clear-IsValid v = (
  record {
    ordered = omega arith;
    within = omega arith;
    stored = v.stored;
    bounded = v.bounded;
    small = v.small;
    bytes = v.bytes;
  },
  refl,
)

-- What `consume` leaves: the first `n` bytes are gone, the block is the same, and when nothing is
-- left its whole room is free again.
pub record Consumed (b : SimpleBuffer) (n : ℕ) (b' : SimpleBuffer) : Type 0 where
  pub valid : IsValid b'
  pub rest : get_data b' ≡ drop n (get_data b)
  pub limit : b'.max_len ≡ b.max_len
  pub reset : n ≡ get_size b → (b'.start_loc ≡ 0) × (b'.end_loc ≡ 0)

consume_all :
    {b : SimpleBuffer} (n : ℕ)
    → IsValid b
    → b.start_loc + n ≡ b.end_loc
    → consume b n ≡ some (clear b)
unfolding consume clear
consume_all n v h = ground arith

pub consume_part :
    {b : SimpleBuffer} (n : ℕ)
    → IsValid b
    → b.start_loc + n < b.end_loc
    → consume b n ≡ some (record b { start_loc = b.start_loc + n })
unfolding consume
consume_part n v h = ground arith

advance-Consumed :
    {b : SimpleBuffer} (n : ℕ)
    → IsValid b
    → b.start_loc + n < b.end_loc
    → Consumed b n (record b { start_loc = b.start_loc + n })
advance-Consumed {b} n v h =
    let b' : SimpleBuffer = record b { start_loc = b.start_loc + n } in
    let v' : IsValid b' = record {
      ordered = omega arith;
      within = v.within;
      stored = v.stored;
      bounded = v.bounded;
      small = v.small;
      bytes = v.bytes;
    } in
    record {
      valid = v';
      rest =
          unfold get_data in
          (ap (take (get_size b')) (sym (drop-drop n b.start_loc (b.start_loc + n) b.buffer refl))
            ∙ sym (
                drop-take n (get_size b) (get_size b') (drop b.start_loc b.buffer)
                  (omega (arith, get_size_lem v, get_size_lem v'))));
      limit = refl;
      reset = λ e. absurd (omega (arith, get_size_lem v));
    }

-- On a valid buffer, `consume` of at most the content is defined and leaves a valid buffer of the
-- same size whose content is the old one without its first `n` bytes; when that is all of it, both
-- positions are 0 again.
pub consume_lem :
    {b : SimpleBuffer} (n : ℕ)
    → IsValid b
    → n ≤ get_size b
    → (b' : SimpleBuffer) × (consume b n ≡ some b') × Consumed b n b'
consume_lem {b} n v h = elim (Bool-cases (b.start_loc + n == b.end_loc)) [
  | inl e ↦ (
    clear b,
    consume_all n v (ground arith),
    record {
      valid = (clear-IsValid v).0;
      rest =
          (clear-IsValid v).1
          ∙ sym (
              drop_all n (get_data b) (
                omega (
                  arith,
                  length-get_data v,
                  get_size_lem v,
                  (==_iff (b.start_loc + n) b.end_loc).0 e,
                )));
      limit = unfold clear in refl;
      reset = λ all. unfold clear in (refl, refl);
    },
  )
  | inr e ↦ (
    record b { start_loc = b.start_loc + n },
    consume_part n v (ground (arith, get_size_lem v)),
    advance-Consumed n v (ground (arith, get_size_lem v)),
  )
]

consume_rejects : (b : SimpleBuffer) (n : ℕ) → get_size b < n → consume b n ≡ none
unfolding consume get_size
consume_rejects b n h = ground arith
