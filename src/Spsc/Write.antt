-- ===== src/Spsc/Write.antt =====
-- `SPSC::write`: how many bytes it takes, and that they stand behind the old content.
use wsclient.Base.{
  ℕ, ◌+◌, ◌-◌, ◌≤◌, ◌<◌, ◌≡◌, refl, sym, ap, ap₂, ◌∙◌, true, false, some, List, ◌++◌, arith, length,
  slice, take, write, leb, if◌then◌else◌, min, length-slice, length-write, length-take, le→leb,
  lt→leb, lt-cases, ltb, ◌==◌, Bool-cases, inl, inr, memcpy_guarded, memcpy_lem, append_assoc,
  append-nil, slice-write_self, slice-write_before, drop-write_after, slice_split, take_split,
}
use wsclient.Base.Word.{sub32}
use wsclient.Spsc
use wsclient.Spsc.{Shared, Endpoint, size, free_capacity, write_bytes}
use wsclient.Spsc.Invariant.{
  calc_size_straight, calc_size_wrapped, IsValid, contents, size_straight, size_wrapped,
  free_capacity_lem,
}

-- The two outcomes of the copies: behind the write index, and round the end of the ring.
abbrev straight : Shared → List ℕ → ℕ → Shared
straight s src len = record s {
  base = write s.base s.write_index (slice 0 len src);
  write_index = s.write_index + len;
}

abbrev wrapped : Endpoint → Shared → List ℕ → ℕ → Shared
wrapped e s src len =
    let top = e.capacity - s.write_index in
    record s {
      base = write (write s.base s.write_index (slice 0 top src)) 0 (slice top (len - top) src);
      write_index = len - top;
    }

module _ {e : Endpoint} {s : Shared} (src : List ℕ) (len : ℕ) (v : IsValid e s)
    (enough : len ≤ length src) (room : size e s + len ≤ e.capacity - 2) where
  write_bytes-straight :
      len ≤ e.capacity - s.write_index → write_bytes e s src len ≡ some (straight s src len)
  unfolding write_bytes
  write_bytes-straight h =
      let fits : leb len (sub32 e.capacity s.write_index) ≡ true = le→leb _ _ (omega arith) in
      rw (fits, memcpy_lem s.base src s.write_index 0 len (omega arith) (omega arith))
        (ap
          (λ t.
            some
              (record s { base = write s.base s.write_index (slice 0 len src); write_index = t }))
          (omega arith))

  write_bytes-wrapped :
      e.capacity - s.write_index < len → write_bytes e s src len ≡ some (wrapped e s src len)
  unfolding write_bytes
  write_bytes-wrapped h =
      let w = s.write_index in
      let top = e.capacity - w in
      let over : leb len (sub32 e.capacity w) ≡ false = lt→leb _ _ (omega arith) in
      let is_top : sub32 e.capacity w ≡ top = omega arith in
      let is_rest : sub32 len top ≡ len - top = omega arith in
      let first = write s.base w (slice 0 top src) in
      rw (
        over,
        is_top,
        is_rest,
        memcpy_guarded s.base src w 0 top (omega arith) (omega arith),
        memcpy_guarded first src 0 top (len - top) (omega arith)
            (omega (arith, length-write s.base w (slice 0 top src))),
      )

  size-room :
      s.read_index ≤ s.write_index
      → e.capacity - s.write_index < len
      → len - (e.capacity - s.write_index) + 2 ≤ s.read_index
  size-room h k = omega (arith, size_straight v h)

  -- A write that would go round the end starts behind the read index.
  not_behind : e.capacity - s.write_index < len → s.read_index ≤ s.write_index
  not_behind h = elim (lt-cases s.write_index s.read_index) [
    | inl wrap ↦ absurd (omega (arith, size_wrapped v wrap))
    | inr up ↦ up
  ]

  contents-straight :
      len ≤ e.capacity - s.write_index
      → contents e (straight s src len) ≡ contents e s ++ take len src
  contents-straight h =
      let r = s.read_index in
      let w = s.write_index in
      let bs = take len src in
      let base' = write s.base w bs in
      let n : len ≡ length bs = omega (arith, length-take len src) in
      let stored : slice w len base' ≡ bs = slice-write_self s.base w len bs n (omega arith) in
      elim (lt-cases w r) [
        | inl wrap ↦
            let behind : w + len < r = omega (arith, size_wrapped v wrap) in
            rw (lt→leb r (w + len) behind, lt→leb r w wrap)
              (ap₂ ◌++◌ (ap (take (e.capacity - r)) (drop-write_after s.base w r bs (omega arith)))
                  (slice_split 0 w w len (w + len) base' refl (omega arith)
                    ∙ ap₂ ◌++◌ (slice-write_before s.base w 0 w bs (omega arith)) stored)
                ∙ sym (append_assoc (slice r (e.capacity - r) s.base) (slice 0 w s.base) bs))
        | inr up ↦
            rw (le→leb r (w + len) (omega arith), le→leb r w up)
              (slice_split r w (w - r) len (w + len - r) base' (omega arith) (omega arith)
                ∙ ap₂ ◌++◌ (slice-write_before s.base w r (w - r) bs (omega arith)) stored)
      ]

  contents-wrapped :
      e.capacity - s.write_index < len
      → contents e (wrapped e s src len) ≡ contents e s ++ take len src
  contents-wrapped h =
      let r = s.read_index in
      let w = s.write_index in
      let top = e.capacity - w in
      let front = slice 0 top src in
      let back = slice top (len - top) src in
      let first = write s.base w front in
      let up = not_behind h in
      let below = size-room up h in
      let n : top ≡ length front = omega (arith, length-take top src) in
      let m : len - top ≡ length back = omega (arith, length-slice top (len - top) src) in
      rw (lt→leb r (len - top) (omega arith), le→leb r w up)
        (ap₂ ◌++◌
            (ap (take (e.capacity - r)) (drop-write_after first 0 r back (omega arith))
              ∙ slice_split r w (w - r) top (e.capacity - r) first (omega arith) (omega arith)
              ∙ ap₂ ◌++◌ (slice-write_before s.base w r (w - r) front (omega arith))
                  (slice-write_self s.base w top front n (omega arith)))
            (slice-write_self first 0 (len - top) back m
              (omega (arith, length-write s.base w front)))
          ∙ append_assoc (slice r (w - r) s.base) front back
          ∙ ap (λ t. slice r (w - r) s.base ++ t)
              (sym (take_split top (len - top) len src (omega arith))))

  straight-IsValid : len ≤ e.capacity - s.write_index → IsValid e (straight s src len)
  straight-IsValid h =
      let bs = take len src in
      record {
        bound = v.bound;
        small = v.small;
        stored = omega (arith, length-write s.base s.write_index bs);
        read_in = v.read_in;
        write_in = omega arith;
        free =
            unfold size in
            elim (lt-cases s.write_index s.read_index) [
              | inl wrap ↦ omega (
                arith,
                size_wrapped v wrap,
                calc_size_wrapped e s.read_index (s.write_index + len) v.small v.read_in
                    (omega (arith, size_wrapped v wrap)),
              )
              | inr up ↦ omega (
                arith,
                size_straight v up,
                calc_size_straight e s.read_index (s.write_index + len) (omega arith) (omega arith),
              )
            ];
      }

  wrapped-IsValid : e.capacity - s.write_index < len → IsValid e (wrapped e s src len)
  wrapped-IsValid h =
      let top = e.capacity - s.write_index in
      let first = write s.base s.write_index (slice 0 top src) in
      let up = not_behind h in
      record {
        bound = v.bound;
        small = v.small;
        stored = omega (
          arith,
          length-write s.base s.write_index (slice 0 top src),
          length-write first 0 (slice top (len - top) src),
        );
        read_in = v.read_in;
        write_in = omega (arith, size-room up h);
        free =
            unfold size in
            omega (
              arith,
              size_straight v up,
              calc_size_wrapped e s.read_index (len - top) v.small v.read_in
                  (omega (arith, size-room up h)),
            );
      }

-- What `write` leaves: its bytes stand behind the old content, and nothing was overwritten.
pub record Written (e : Endpoint) (s : Shared) (bytes : List ℕ) (s' : Shared) : Type 0 where
  pub valid : IsValid e s'
  pub content : contents e s' ≡ contents e s ++ bytes
  pub reader : s'.read_index ≡ s.read_index

write_bytes-Written :
    {e : Endpoint} {s : Shared} (src : List ℕ) (len : ℕ)
    → IsValid e s
    → len ≤ length src
    → size e s + len ≤ e.capacity - 2
    → (s' : Shared) × (write_bytes e s src len ≡ some s') × Written e s (take len src) s'
write_bytes-Written {e} {s} src len v h k = elim (lt-cases (e.capacity - s.write_index) len) [
  | inl over ↦ (
    wrapped e s src len,
    write_bytes-wrapped src len v h k over,
    record {
      valid = wrapped-IsValid src len v h k over;
      content = contents-wrapped src len v h k over;
      reader = refl;
    },
  )
  | inr fits ↦ (
    straight s src len,
    write_bytes-straight src len v h k fits,
    record {
      valid = straight-IsValid src len v h k fits;
      content = contents-straight src len v h k fits;
      reader = refl;
    },
  )
]

-- How many of `n` bytes `write` takes: all, or what leaves two bytes of the ring free.
abbrev pub accepted : Endpoint → Shared → ℕ → ℕ
accepted e s n = min n (e.capacity - size e s - 2)

-- On a valid ring, a writer's `write` is defined, takes as many bytes of the front of its input as
-- leave two bytes of the ring free, stores them in order behind the content, and keeps the ring
-- valid and the read index.
pub write_lem :
    {e : Endpoint} {s : Shared} (src : List ℕ)
    → IsValid e s
    → e.is_writer ≡ true
    → (s' : Shared) × (Spsc.write e s src (length src) ≡ some (accepted e s (length src), s'))
      × Written e s (take (accepted e s (length src)) src) s'
unfolding Spsc.write
write_lem {e} {s} src v writer =
    let n = accepted e s (length src) in
    let avail = free_capacity e s in
    let count : (if ltb (avail - 1) (length src) then avail - 1 else length src) ≡ n =
      ground (arith, free_capacity_lem v) in
    elim (Bool-cases (avail == 0)) [
      | inl full ↦
          let none_left : n ≡ 0 = ground (arith, free_capacity_lem v) in
          (
            s,
            simp (writer, v.bound, full) (ap (λ t. some (t, s)) (sym none_left)),
            record {
              valid = v;
              content =
                  sym (ap (λ t. contents e s ++ take t src) none_left ∙ append-nil (contents e s));
              reader = refl;
            },
          )
      | inr free ↦
          let (s', stored, w) =
            write_bytes-Written src n v (omega arith) (ground (arith, free_capacity_lem v)) in
          (s', simp (writer, count, v.bound, free, stored), w)
    ]
