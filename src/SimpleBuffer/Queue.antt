-- ===== src/SimpleBuffer/Queue.antt =====
-- The buffer as a queue of bytes: what `addBuffer` and `confirmCapacity` do to its content, and
-- where `growBuffer` and `shrinkBuffer` go wrong.
use wsclient.Base.{
  ℕ, ◌+◌, ◌≤◌, ◌<◌, ◌^◌, ◌≡◌, refl, ap, ap₂, ◌∙◌, true, false, some, none, List, ◌++◌, arith, Block,
  length, take, drop, write, ltb, leb, ◌==◌, le→leb, lt→leb, lt→ltb, length-write, All-write,
  take_all, max, slice-write_self, slice-write_before, slice_split, drop-write, take-write,
  write_at_lem, memcpy_lem, memcpy_within_overlap, inl, inr, Bool-cases, if◌then◌else◌,
}
use wsclient.Base.Word.{sub32, IsByte, IsBytes}
use wsclient.SimpleBuffer.{
  SimpleBuffer, get_size, get_data, compact, grow_buffer, make_room, add_buffer, confirm_capacity,
  shrink_buffer, modify_data,
}
use wsclient.SimpleBuffer.Invariant.{IsAllocator, IsValid, get_size_lem, get_size-le}
use wsclient.SimpleBuffer.Grow.{can_fit, MovesApart, Grown, make_room_lem, make_room-free}

-- The bytes written behind the content.
abbrev pub extended : SimpleBuffer → List ℕ → ℕ → SimpleBuffer
extended b bytes n = record b { buffer = write b.buffer b.end_loc bytes; end_loc = b.end_loc + n }

pub extended_lem :
    {b : SimpleBuffer} (bytes : List ℕ) (n : ℕ)
    → IsValid b
    → IsBytes bytes
    → n ≡ length bytes
    → b.end_loc + n ≤ b.max_len
    → IsValid (extended b bytes n) × (get_data (extended b bytes n) ≡ get_data b ++ bytes)
extended_lem {b} bytes n v hb e h =
    let v' : IsValid (extended b bytes n) = record {
      ordered = omega arith;
      within = h;
      stored = omega (arith, length-write b.buffer b.end_loc bytes);
      bounded = v.bounded;
      small = v.small;
      bytes = All-write IsByte b.buffer b.end_loc bytes v.bytes hb;
    } in
    let size = get_size b in
    (
      v',
      unfold get_data in
          (slice_split b.start_loc b.end_loc size n (get_size (extended b bytes n))
              (write b.buffer b.end_loc bytes) (omega (arith, get_size_lem v, get_size_lem v'))
              (omega (arith, get_size_lem v))
            ∙ ap₂ ◌++◌
                (slice-write_before b.buffer b.end_loc b.start_loc size bytes
                  (omega (arith, get_size_lem v)))
                (slice-write_self b.buffer b.end_loc n bytes e (omega arith))),
    )

-- What a call of `addBuffer` with these bytes returns: it succeeds exactly if they fit, then
-- they stand behind the old content, and otherwise the content is what it was.
pub record Appended (b : SimpleBuffer) (bytes : List ℕ) (b' : SimpleBuffer) : Type 0 where
  pub valid : IsValid b'
  pub limit : b'.max_grow_size ≡ b.max_grow_size
  pub content : get_data b' ≡ (if can_fit b (length bytes) then get_data b ++ bytes else get_data b)

add_buffer_fits :
    (malloc : ℕ → Block) (b : SimpleBuffer) {b' : SimpleBuffer} (bytes : List ℕ)
    → make_room malloc b (length bytes) ≡ some b'
    → IsValid b'
    → b'.end_loc + length bytes ≤ b'.max_len
    → add_buffer malloc b (some bytes) (length bytes)
      ≡ some (true, extended b' bytes (length bytes))
unfolding add_buffer
add_buffer_fits malloc b {b'} bytes e v h =
    let n = length bytes in
    let fits : leb n (sub32 b'.max_len b'.end_loc) ≡ true = le→leb _ _ (omega arith) in
    rw (e, fits, memcpy_lem b'.buffer bytes b'.end_loc 0 n (omega arith) (omega arith))
      (ap₂ (λ t u. some (true, record b' { buffer = write b'.buffer b'.end_loc t; end_loc = u }))
        (take_all n bytes (omega arith)) (omega arith))

add_buffer_full :
    (malloc : ℕ → Block) (b : SimpleBuffer) {b' : SimpleBuffer} (bytes : List ℕ)
    → make_room malloc b (length bytes) ≡ some b'
    → IsValid b'
    → b'.max_len < b'.end_loc + length bytes
    → add_buffer malloc b (some bytes) (length bytes) ≡ some (false, b')
unfolding add_buffer
add_buffer_full malloc b {b'} bytes e v h =
    let full : leb (length bytes) (sub32 b'.max_len b'.end_loc) ≡ false =
      lt→leb _ _ (omega arith) in
    rw (e, full)

-- Bytes that fit behind the content are written there.
pub add_buffer-free :
    (malloc : ℕ → Block) {b : SimpleBuffer} (bytes : List ℕ)
    → IsValid b
    → b.end_loc + length bytes ≤ b.max_len
    → add_buffer malloc b (some bytes) (length bytes) ≡ some (true, extended b bytes (length bytes))
add_buffer-free malloc {b} bytes v h =
    add_buffer_fits malloc b bytes (make_room-free malloc (length bytes) v (omega arith)) v h

-- Bytes that were stored behind the content before the call are added by a null pointer.
pub add_buffer-stored :
    (malloc : ℕ → Block) {b : SimpleBuffer} (bytes : List ℕ)
    → IsValid b
    → IsBytes bytes
    → b.end_loc + length bytes ≤ b.max_len
    → add_buffer malloc (record b { buffer = write b.buffer b.end_loc bytes }) none (length bytes)
      ≡ some (true, extended b bytes (length bytes))
unfolding add_buffer
add_buffer-stored malloc {b} bytes v hb h =
    let n = length bytes in
    let stored : SimpleBuffer = record b { buffer = write b.buffer b.end_loc bytes } in
    let v' : IsValid stored = record {
      ordered = v.ordered;
      within = v.within;
      stored = omega (arith, length-write b.buffer b.end_loc bytes, v.stored);
      bounded = v.bounded;
      small = v.small;
      bytes = All-write IsByte b.buffer b.end_loc bytes v.bytes hb;
    } in
    let fits : leb n (sub32 b.max_len b.end_loc) ≡ true = le→leb _ _ (omega arith) in
    rw (make_room-free malloc n v' (omega arith), fits)
      (ap (λ t. some (true, record stored { end_loc = t })) (omega arith))

-- With an allocator that succeeds, on a valid buffer whose content lies apart from its new place
-- where it has to move, `addBuffer` of fewer than 2 ^ 31 bytes is defined, returns true exactly if
-- the bytes fit, and leaves a valid buffer with the same limit, whose content is the old one
-- followed by the bytes if they fit and the old one otherwise.
pub add_buffer_lem :
    (malloc : ℕ → Block) {b : SimpleBuffer} (bytes : List ℕ)
    → IsAllocator malloc
    → IsValid b
    → IsBytes bytes
    → length bytes < 2 ^ 31
    → MovesApart b (length bytes)
    → (b' : SimpleBuffer) × (add_buffer malloc b (some bytes) (length bytes)
        ≡ some (can_fit b (length bytes), b'))
      × Appended b bytes b'
add_buffer_lem malloc {b} bytes a v hb hn apart =
    let n = length bytes in
    let (b', e, g) = make_room_lem malloc n a v hn apart in
    elim (Bool-cases (can_fit b n)) [
      | inl fit ↦
          let (v', content) = extended_lem bytes n g.valid hb refl (g.room fit) in
          (
            extended b' bytes n,
            rw fit (add_buffer_fits malloc b bytes e g.valid (g.room fit)),
            record {
              valid = v';
              limit = g.limit;
              content = rw fit (content ∙ ap (λ t. t ++ bytes) g.same);
            },
          )
      | inr full ↦ (
        b',
        rw full (add_buffer_full malloc b bytes e g.valid (rw (g.refused full) (ground arith))),
        record { valid = g.valid; limit = g.limit; content = rw full g.same },
      )
    ]

-- Bytes that cannot fit are refused, and the buffer stays as it is.
pub add_buffer_refused :
    (malloc : ℕ → Block) {b : SimpleBuffer} (bytes : List ℕ)
    → IsAllocator malloc
    → IsValid b
    → length bytes < 2 ^ 31
    → can_fit b (length bytes) ≡ false
    → add_buffer malloc b (some bytes) (length bytes) ≡ some (false, b)
add_buffer_refused malloc {b} bytes a v hn full =
    let apart : MovesApart b (length bytes) =
      λ behind front. absurd (ground (arith, full, front)) in
    let (b', e, g) = make_room_lem malloc (length bytes) a v hn apart in
    add_buffer_full malloc b bytes e g.valid (rw (g.refused full) (ground arith))
    ∙ ap (λ t. some (false, t)) (g.refused full)

-- With an allocator that succeeds, on a valid buffer whose content lies apart from its new place
-- where it has to move, `confirmCapacity` of fewer than 2 ^ 31 bytes is defined, leaves a valid
-- buffer with the same content and limit, and returns the place behind the content, with room for
-- `n` bytes, if they fit, and otherwise null and the buffer as it was.
pub confirm_capacity_lem :
    (malloc : ℕ → Block) {b : SimpleBuffer} (n : ℕ)
    → IsAllocator malloc
    → IsValid b
    → n < 2 ^ 31
    → MovesApart b n
    → (b' : SimpleBuffer) × (confirm_capacity malloc b n
        ≡ some (if can_fit b n then some b'.end_loc else none, b'))
      × Grown b n b'
unfolding confirm_capacity
confirm_capacity_lem malloc {b} n a v hn apart =
    let (b', e, g) = make_room_lem malloc n a v hn apart in
    elim (Bool-cases (can_fit b n)) [
      | inl fit ↦
          let room : leb n (sub32 b'.max_len b'.end_loc) ≡ true =
            ground (arith, g.room fit, g.valid) in
          (b', rw (e, fit, room), g)
      | inr full ↦
          let tight : leb n (sub32 b'.max_len b'.end_loc) ≡ false =
            rw (g.refused full) (ground arith) in
          (b', rw (e, full, tight), g)
    ]

-- On a valid buffer, wherever `growBuffer` moves the content to the front although the content is
-- longer than the free space before it, the two ranges of its `memcpy` overlap: it is undefined.
grow_buffer_overlap :
    (malloc : ℕ → Block) {b : SimpleBuffer} (n : ℕ)
    → IsValid b
    → n < b.start_loc
    → b.start_loc < get_size b
    → grow_buffer malloc b n ≡ none
unfolding grow_buffer compact
grow_buffer_overlap malloc {b} n v h k =
    let some_bytes : (get_size b == 0) ≡ false = ground arith in
    rw (
      lt→ltb n b.start_loc h,
      some_bytes,
      memcpy_within_overlap b.buffer b.start_loc (get_size b) k,
    )

-- With an allocator that succeeds, `shrinkBuffer` of a valid buffer is defined, returns the larger
-- of the default size and the content's, and leaves as the content the first bytes of the old
-- block, as many as the content had, wherever the content stood.
pub shrink_buffer_lem :
    (malloc : ℕ → Block) {b : SimpleBuffer}
    → IsAllocator malloc
    → IsValid b
    → (b' : SimpleBuffer) × (shrink_buffer malloc b ≡ some (max b.default_size (get_size b), b'))
      × (get_data b' ≡ take (get_size b) b.buffer)
unfolding shrink_buffer
shrink_buffer_lem malloc {b} a v =
    let size = get_size b in
    let len = max b.default_size size in
    let new_size : (if ltb b.default_size size then size else b.default_size) ≡ len =
      ground arith in
    let b' : SimpleBuffer = record b { start_loc = 0; end_loc = size; max_len = len } in
    let kept : get_data b' ≡ take size b.buffer =
      unfold get_data get_size in ap (λ t. take t b.buffer) (omega (arith, get_size_lem v)) in
    elim (Bool-cases (size == 0)) [
      | inl e ↦ (b', rw (new_size, e), kept)
      | inr e ↦ (
        b',
        rw (
          new_size,
          e,
          memcpy_lem (malloc len) b.buffer 0 b.start_loc size (get_size-le v)
              (omega (arith, a.enough len)),
        ),
        kept,
      )
    ]

-- A write through the data pointer changes that part of the content and nothing else.
pub modify_data_lem :
    {b : SimpleBuffer} (off : ℕ) (bytes : List ℕ)
    → IsValid b
    → IsBytes bytes
    → off + length bytes ≤ get_size b
    → (b' : SimpleBuffer) × (modify_data b off bytes ≡ some b')
      × IsValid b'
      × (get_data b' ≡ write (get_data b) off bytes)
unfolding modify_data
modify_data_lem {b} off bytes v hb h =
    let at = b.start_loc + off in
    let b' : SimpleBuffer = record b { buffer = write b.buffer at bytes } in
    (
      b',
      rw (write_at_lem b.buffer at bytes (omega (arith, get_size-le v))),
      record {
        ordered = v.ordered;
        within = v.within;
        stored = omega (arith, length-write b.buffer at bytes);
        bounded = v.bounded;
        small = v.small;
        bytes = All-write IsByte b.buffer at bytes v.bytes hb;
      },
      unfold get_data get_size in
          (ap (take (get_size b)) (drop-write b.buffer b.start_loc off at bytes refl)
            ∙ take-write (drop b.start_loc b.buffer) (get_size b) off bytes h),
    )
