-- ===== src/SimpleBuffer/Grow.antt =====
-- `growBuffer` and what its two callers make of it.
use wsclient.Base.{
  ℕ, ◌+◌, ◌-◌, ◌≤◌, ◌<◌, ◌^◌, ◌≡◌, refl, sym, ap, ◌∙◌, Bool, true, false, some, arith, Block,
  length, slice, write, ltb, leb, ◌||◌, lt-cases, ◌==◌, lt→ltb, le→ltb, length-write, All-write,
  slice-write_self, write_nil, memcpy_lem, memcpy_within_front, inl, inr, Bool-cases, ==_iff,
}
use wsclient.Base.Word.{sub32, IsByte, IsBytes}
use wsclient.SimpleBuffer.{
  SimpleBuffer, get_size, get_data, compact, new_max_len, expand, grow_buffer, make_room,
}
use wsclient.SimpleBuffer.Invariant.{
  IsAllocator, IsValid, get_size_lem, get_size-le, length-get_data, get_data-IsBytes,
}

-- The content moved to the front of a block of `len` bytes.
abbrev rebased : SimpleBuffer → Block → ℕ → SimpleBuffer
rebased b to len = record b {
  buffer = write to 0 (get_data b);
  start_loc = 0;
  end_loc = get_size b;
  max_len = len;
}

rebased-IsValid :
    {b : SimpleBuffer} (to : Block) (len : ℕ)
    → IsValid b
    → IsBytes to
    → get_size b ≤ len
    → len ≤ length to
    → len ≤ b.max_grow_size
    → IsValid (rebased b to len) × (get_data (rebased b to len) ≡ get_data b)
rebased-IsValid {b} to len v hb hs hl hg =
    let v' : IsValid (rebased b to len) = record {
      ordered = omega arith;
      within = hs;
      stored = omega (arith, length-write to 0 (get_data b));
      bounded = hg;
      small = v.small;
      bytes = All-write IsByte to 0 (get_data b) hb (get_data-IsBytes v);
    } in
    let e =
      slice-write_self to 0 (get_size b) (get_data b) (sym (length-get_data v)) (omega arith) in
    let n : get_size (rebased b to len) ≡ get_size b = omega (arith, get_size_lem v') in
    (v', unfold get_data in (ap (λ t. slice 0 t (rebased b to len).buffer) n ∙ e))

empty_copy :
    (b : SimpleBuffer) (to : Block) → (get_size b == 0) ≡ true → to ≡ write to 0 (get_data b)
unfolding get_data
empty_copy b to e = rw ((==_iff (get_size b) 0).0 e) (sym (write_nil to 0))

compact_lem :
    {b : SimpleBuffer}
    → IsValid b
    → get_size b ≤ b.start_loc
    → compact b ≡ some (true, rebased b b.buffer b.max_len)
unfolding compact
compact_lem {b} v h = elim (Bool-cases (get_size b == 0)) [
  | inl e ↦ rw e (
      ap (λ t. some (true, record b { buffer = t; start_loc = 0; end_loc = get_size b }))
        (empty_copy b b.buffer e))
  | inr e ↦
      rw (e, memcpy_within_front b.buffer b.start_loc (get_size b) (get_size-le v) h)
        (unfold get_data in refl)
]

expand_lem :
    (malloc : ℕ → Block) {b : SimpleBuffer} (n : ℕ)
    → IsAllocator malloc
    → IsValid b
    → new_max_len b n ≤ b.max_grow_size
    → get_size b ≤ new_max_len b n
    → expand malloc b n ≡ some (true, rebased b (malloc (new_max_len b n)) (new_max_len b n))
unfolding expand
expand_lem malloc {b} n a v h hs =
    let len = new_max_len b n in
    rw (le→ltb b.max_grow_size len h) (elim (Bool-cases (get_size b == 0)) [
      | inl e ↦ rw e (
          ap
            (λ t.
              some
                (true, record b { buffer = t; start_loc = 0; end_loc = get_size b; max_len = len }))
            (empty_copy b (malloc len) e))
      | inr e ↦
          rw
            (
              e,
              memcpy_lem (malloc len) b.buffer 0 b.start_loc (get_size b) (get_size-le v)
                  (omega (arith, a.enough len)),
            )
            (unfold get_data in refl)
    ])

expand_refused :
    (malloc : ℕ → Block) (b : SimpleBuffer) (n : ℕ)
    → b.max_grow_size < new_max_len b n
    → expand malloc b n ≡ some (false, b)
unfolding expand
expand_refused malloc b n h = rw (lt→ltb _ _ h)

new_max_len_lem :
    {b : SimpleBuffer} (n : ℕ)
    → IsValid b
    → n < 2 ^ 31
    → (b.max_len ≤ new_max_len b n) × (b.end_loc + n ≤ new_max_len b n)
unfolding new_max_len
new_max_len_lem n v h = ground arith

-- Whether the buffer can hold `n` more bytes: at its end, at its end after the content has moved
-- to the front, or in a block that it may still grow to.
abbrev pub can_fit : SimpleBuffer → ℕ → Bool
can_fit b n =
    leb n (b.max_len - b.end_loc) || (ltb n b.start_loc || leb (new_max_len b n) b.max_grow_size)

-- Where the content has to move to the front of its own block, the two ranges lie apart.
abbrev pub MovesApart : SimpleBuffer → ℕ → Type 0
MovesApart b n = b.max_len - b.end_loc < n → n < b.start_loc → get_size b ≤ b.start_loc

-- What growing leaves: the same content in a valid buffer, with room for `n` bytes if they fit.
pub record Grown (b : SimpleBuffer) (n : ℕ) (b' : SimpleBuffer) : Type 0 where
  pub valid : IsValid b'
  pub same : get_data b' ≡ get_data b
  pub limit : b'.max_grow_size ≡ b.max_grow_size
  pub room : can_fit b n ≡ true → b'.end_loc + n ≤ b'.max_len
  pub refused : can_fit b n ≡ false → b' ≡ b

rebased-Grown :
    {b : SimpleBuffer} (n : ℕ) (to : Block) (len : ℕ)
    → IsValid b
    → IsBytes to
    → get_size b + n ≤ len
    → len ≤ length to
    → len ≤ b.max_grow_size
    → can_fit b n ≡ true
    → Grown b n (rebased b to len)
rebased-Grown n to len v hb hs hl hg fit =
    let (v', e) = rebased-IsValid to len v hb (omega arith) hl hg in
    record { valid = v'; same = e; limit = refl; room = λ _. hs; refused = λ no. cc (no, fit) }

space : {b : SimpleBuffer} → IsValid b → sub32 b.max_len b.end_loc ≡ b.max_len - b.end_loc
space v = omega arith

-- The three ends of a request that does not fit behind the content.
module _ (malloc : ℕ → Block) {b : SimpleBuffer} (n : ℕ) (v : IsValid b) where
  pub make_room-free : n ≤ b.max_len - b.end_loc → make_room malloc b n ≡ some b
  unfolding make_room
  make_room-free h = rw (space v, le→ltb (b.max_len - b.end_loc) n h)

  make_room-compact :
      b.max_len - b.end_loc < n
      → n < b.start_loc
      → get_size b ≤ b.start_loc
      → make_room malloc b n ≡ some (rebased b b.buffer b.max_len)
  unfolding make_room grow_buffer
  make_room-compact h k apart =
      rw (space v, lt→ltb (b.max_len - b.end_loc) n h, lt→ltb n b.start_loc k, compact_lem v apart)

  make_room-expand :
      IsAllocator malloc
      → b.max_len - b.end_loc < n
      → b.start_loc ≤ n
      → new_max_len b n ≤ b.max_grow_size
      → get_size b ≤ new_max_len b n
      → make_room malloc b n ≡ some (rebased b (malloc (new_max_len b n)) (new_max_len b n))
  unfolding make_room grow_buffer
  make_room-expand a h k g s = rw (
    space v,
    lt→ltb (b.max_len - b.end_loc) n h,
    le→ltb n b.start_loc k,
    expand_lem malloc n a v g s,
  )

  make_room-refused :
      b.max_len - b.end_loc < n
      → b.start_loc ≤ n
      → b.max_grow_size < new_max_len b n
      → make_room malloc b n ≡ some b
  unfolding make_room grow_buffer
  make_room-refused h k g = rw (
    space v,
    lt→ltb (b.max_len - b.end_loc) n h,
    le→ltb n b.start_loc k,
    expand_refused malloc b n g,
  )

kept-Grown :
    {b : SimpleBuffer} (n : ℕ)
    → IsValid b
    → (can_fit b n ≡ true → b.end_loc + n ≤ b.max_len)
    → Grown b n b
kept-Grown n v h = record { valid = v; same = refl; limit = refl; room = h; refused = λ _. refl }

pub make_room_lem :
    (malloc : ℕ → Block) {b : SimpleBuffer} (n : ℕ)
    → IsAllocator malloc
    → IsValid b
    → n < 2 ^ 31
    → MovesApart b n
    → (b' : SimpleBuffer) × (make_room malloc b n ≡ some b') × Grown b n b'
make_room_lem malloc {b} n a v hn apart =
    let len = new_max_len b n in
    elim (lt-cases (b.max_len - b.end_loc) n) [
      | inr free ↦ (b, make_room-free malloc n v free, kept-Grown n v (λ _. omega arith))
      | inl full ↦ elim (lt-cases n b.start_loc) [
        | inl front ↦ (
          rebased b b.buffer b.max_len,
          make_room-compact malloc n v full front (apart full front),
          rebased-Grown n b.buffer b.max_len v v.bytes (omega (arith, get_size_lem v)) v.stored
              v.bounded (ground arith),
        )
        | inr back ↦ elim (lt-cases b.max_grow_size len) [
          | inl big ↦
              (b, make_room-refused malloc n v full back big, kept-Grown n v (λ f. ground arith))
          | inr fits ↦ (
            rebased b (malloc len) len,
            make_room-expand malloc n v a full back fits
                (omega (arith, get_size_lem v, new_max_len_lem n v hn)),
            rebased-Grown n (malloc len) len v (a.bytes len)
                (omega (arith, get_size_lem v, new_max_len_lem n v hn))
                (omega (arith, a.enough len)) fits (ground arith),
          )
        ]
      ]
    ]
