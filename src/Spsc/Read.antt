-- ===== src/Spsc/Read.antt =====
-- `SPSC::read`: it takes bytes from the front of the content.
use wsclient.Base.{
  ℕ, zero, suc, ◌+◌, ◌-◌, ◌≤◌, ◌<◌, ◌≡◌, refl, sym, ap, ap₂, ◌∙◌, true, false, some, List, [], ◌++◌,
  arith, length, slice, take, leb, ltb, ◌==◌, if◌then◌else◌, min, length-slice, length-append,
  le→leb, lt→leb, lt-cases, Bool-cases, inl, inr, read_at, read_at_lem, append_assoc, slice_split,
  take-append_length, ==_iff,
}
use wsclient.Base.Word.{sub32}
use wsclient.Spsc
use wsclient.Spsc.{Shared, Endpoint, size, read_bytes}
use wsclient.Spsc.Invariant.{
  IsValid, contents, size_straight, size_wrapped, calc_size_straight, calc_size_wrapped,
}

-- The two outcomes of the copies.
abbrev advanced : Shared → ℕ → Shared
advanced s len = record s { read_index = s.read_index + len }

abbrev restarted : Endpoint → Shared → ℕ → Shared
restarted e s len = record s { read_index = len - (e.capacity - s.read_index) }

abbrev round : Endpoint → Shared → ℕ → List ℕ
round e s len =
    let top = e.capacity - s.read_index in
    slice s.read_index top s.base ++ slice 0 (len - top) s.base

-- What `read` leaves: its bytes are gone from the front of the content, and all else is kept.
pub record Taken (e : Endpoint) (s : Shared) (bytes : List ℕ) (s' : Shared) : Type 0 where
  pub valid : IsValid e s'
  pub content : contents e s ≡ bytes ++ contents e s'
  pub writer : s'.write_index ≡ s.write_index
  pub memory : s'.base ≡ s.base

read_guarded :
    (m : List ℕ) (off n : ℕ)
    → off + n ≤ length m
    → (if n == 0 then some [] else read_at m off n) ≡ some (slice off n m)
read_guarded m off zero h = refl
read_guarded m off (suc n) h =
    let ne : (suc n == 0) ≡ false = ground arith in rw ne (read_at_lem m off (suc n) h)

module _ {e : Endpoint} {s : Shared} (len : ℕ) (v : IsValid e s) (there : len ≤ size e s) where
  read_bytes-advanced :
      len ≤ e.capacity - s.read_index
      → read_bytes e s len ≡ some (slice s.read_index len s.base, advanced s len)
  unfolding read_bytes
  read_bytes-advanced h =
      let fits : leb len (sub32 e.capacity s.read_index) ≡ true = le→leb _ _ (omega arith) in
      rw (fits, read_at_lem s.base s.read_index len (omega arith))
        (ap (λ t. some (slice s.read_index len s.base, record s { read_index = t })) (omega arith))

  read_bytes-restarted :
      e.capacity - s.read_index < len → read_bytes e s len ≡ some (round e s len, restarted e s len)
  unfolding read_bytes
  read_bytes-restarted h =
      let top = e.capacity - s.read_index in
      let over : leb len (sub32 e.capacity s.read_index) ≡ false = lt→leb _ _ (omega arith) in
      let is_top : sub32 e.capacity s.read_index ≡ top = omega arith in
      let is_rest : sub32 len top ≡ len - top = omega arith in
      rw (
        over,
        is_top,
        is_rest,
        read_guarded s.base s.read_index top (omega arith),
        read_guarded s.base 0 (len - top) (omega arith),
      )

  -- A read past the end of the ring meets a write index that has gone round.
  gone_round : e.capacity - s.read_index < len → s.write_index < s.read_index
  gone_round h = elim (lt-cases s.write_index s.read_index) [
    | inl wrap ↦ wrap
    | inr up ↦ absurd (omega (arith, size_straight v up))
  ]

  advanced-Taken :
      len ≤ e.capacity - s.read_index → Taken e s (slice s.read_index len s.base) (advanced s len)
  advanced-Taken h = elim (lt-cases s.write_index s.read_index) [
    | inl wrap ↦ record {
      valid = record {
        bound = v.bound;
        small = v.small;
        stored = v.stored;
        read_in = omega arith;
        write_in = v.write_in;
        free =
            unfold size in
            omega (
              arith,
              size_wrapped v wrap,
              calc_size_wrapped e (s.read_index + len) s.write_index v.small (omega arith)
                  (omega arith),
            );
      };
      content =
          rw
            (
              lt→leb s.read_index s.write_index wrap,
              lt→leb (s.read_index + len) s.write_index (omega arith),
            )
            (ap (λ t. t ++ slice 0 s.write_index s.base)
                (slice_split s.read_index (s.read_index + len) len
                  (e.capacity - (s.read_index + len)) (e.capacity - s.read_index) s.base
                  (omega arith) refl)
              ∙ append_assoc (slice s.read_index len s.base) _ (slice 0 s.write_index s.base));
      writer = refl;
      memory = refl;
    }
    | inr up ↦ record {
      valid = record {
        bound = v.bound;
        small = v.small;
        stored = v.stored;
        read_in = omega arith;
        write_in = v.write_in;
        free =
            unfold size in
            omega (
              arith,
              size_straight v up,
              calc_size_straight e (s.read_index + len) s.write_index (omega arith)
                  (omega (arith, size_straight v up)),
            );
      };
      content =
          rw
            (
              le→leb s.read_index s.write_index up,
              le→leb (s.read_index + len) s.write_index (omega (arith, size_straight v up)),
            )
            (slice_split s.read_index (s.read_index + len) len
              (s.write_index - (s.read_index + len)) (s.write_index - s.read_index) s.base
              (omega (arith, size_straight v up)) refl);
      writer = refl;
      memory = refl;
    }
  ]

  restarted-Taken : e.capacity - s.read_index < len → Taken e s (round e s len) (restarted e s len)
  restarted-Taken h =
      let wrap = gone_round h in
      let top = e.capacity - s.read_index in
      let below : len - top ≤ s.write_index = omega (arith, size_wrapped v wrap) in
      record {
        valid = record {
          bound = v.bound;
          small = v.small;
          stored = v.stored;
          read_in = omega arith;
          write_in = v.write_in;
          free =
              unfold size in
              omega (
                arith,
                size_wrapped v wrap,
                calc_size_straight e (len - top) s.write_index (omega arith) below,
              );
        };
        content =
            rw (lt→leb s.read_index s.write_index wrap, le→leb (len - top) s.write_index below)
              (ap (λ t. slice s.read_index top s.base ++ t)
                  (slice_split 0 (len - top) (len - top) (s.write_index - (len - top)) s.write_index
                    s.base (omega arith) (omega arith))
                ∙ sym
                    (append_assoc (slice s.read_index top s.base) (slice 0 (len - top) s.base) _));
        writer = refl;
        memory = refl;
      }

read_bytes-Taken :
    {e : Endpoint} {s : Shared} (len : ℕ)
    → IsValid e s
    → len ≤ size e s
    → (bytes : List ℕ) × (s' : Shared) × (read_bytes e s len ≡ some (bytes, s'))
      × (length bytes ≡ len)
      × Taken e s bytes s'
read_bytes-Taken {e} {s} len v h = elim (lt-cases (e.capacity - s.read_index) len) [
  | inl over ↦
      let top = e.capacity - s.read_index in
      (
        round e s len,
        restarted e s len,
        read_bytes-restarted len v h over,
        omega (
          arith,
          length-append (slice s.read_index top s.base) (slice 0 (len - top) s.base),
          length-slice s.read_index top s.base,
          length-slice 0 (len - top) s.base,
        ),
        restarted-Taken len v h over,
      )
  | inr fits ↦ (
    slice s.read_index len s.base,
    advanced s len,
    read_bytes-advanced len v h fits,
    length-slice s.read_index len s.base (omega arith),
    advanced-Taken len v h fits,
  )
]

read_part :
    {e : Endpoint} {s s' : Shared} (max_len n : ℕ) (bytes : List ℕ)
    → IsValid e s
    → e.is_writer ≡ false
    → n ≡ min max_len (size e s)
    → (n == 0) ≡ false
    → read_bytes e s n ≡ some (bytes, s')
    → Spsc.read e s max_len ≡ some (n, bytes, s')
unfolding Spsc.read
read_part {e} {s} max_len n bytes v reader is_min something taken =
    let count : (if ltb max_len (size e s) then max_len else size e s) ≡ n = ground arith in
    simp (reader, count, v.bound, something, taken)

read_nothing :
    {e : Endpoint} {s : Shared} (max_len : ℕ)
    → IsValid e s
    → e.is_writer ≡ false
    → min max_len (size e s) ≡ 0
    → Spsc.read e s max_len ≡ some (0, [], s)
unfolding Spsc.read
read_nothing {e} {s} max_len v reader nothing =
    let count : (if ltb max_len (size e s) then max_len else size e s) ≡ 0 = ground arith in
    simp (reader, count, v.bound)

-- On a valid ring, a reader's `read` is defined, returns the first bytes of the content, at most
-- `max_len`, takes exactly those out, and keeps the ring valid, its bytes and the write index.
pub read_lem :
    {e : Endpoint} {s : Shared} (max_len : ℕ)
    → IsValid e s
    → e.is_writer ≡ false
    → let n = min max_len (size e s) in
      (s' : Shared) × (Spsc.read e s max_len ≡ some (n, take n (contents e s), s'))
      × Taken e s (take n (contents e s)) s'
read_lem {e} {s} max_len v reader =
    let n = min max_len (size e s) in
    elim (Bool-cases (n == 0)) [
      | inl nothing ↦
          let zero_n : n ≡ 0 = (==_iff n 0).0 nothing in
          let no_bytes : take n (contents e s) ≡ [] = ap (λ t. take t (contents e s)) zero_n in
          (
            s,
            read_nothing max_len v reader zero_n
                ∙ ap₂ (λ t u. some (t, u, s)) (sym zero_n) (sym no_bytes),
            record {
              valid = v;
              content = ap (λ t. t ++ contents e s) (sym no_bytes);
              writer = refl;
              memory = refl;
            },
          )
      | inr something ↦
          let (bytes, s', taken, size_bytes, t) = read_bytes-Taken n v (omega arith) in
          let front : take n (contents e s) ≡ bytes =
            ap (take n) t.content ∙ take-append_length bytes (contents e s') n (sym size_bytes) in
          (
            s',
            read_part max_len n bytes v reader refl something taken
                ∙ ap (λ u. some (n, u, s')) (sym front),
            record {
              valid = t.valid;
              content = t.content ∙ ap (λ u. u ++ contents e s') (sym front);
              writer = t.writer;
              memory = t.memory;
            },
          )
    ]
