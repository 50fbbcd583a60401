-- ===== src/Spsc/Invariant.antt =====
-- The ring's invariant, its content as a queue, and the sizes in plain arithmetic.
use wsclient.Base.{
  ℕ, ◌+◌, ◌-◌, ◌≤◌, ◌<◌, ◌^◌, ◌≡◌, refl, Bool, true, List, [], ◌++◌, arith, length, slice, leb,
  if◌then◌else◌, length-slice, length-append, le→leb, lt→leb, lt→ltb, lt-cases, inl, inr,
}
use wsclient.Spsc.{Shared, Endpoint, init, size, calc_size, free_capacity, header_size}

-- Two bytes stay free: `write` leaves them.
pub record IsValid (e : Endpoint) (s : Shared) : Type 0 where
  pub bound : e.attached ≡ true
  pub small : e.capacity < 2 ^ 31
  pub stored : e.capacity ≤ length s.base
  pub read_in : s.read_index ≤ e.capacity
  pub write_in : s.write_index ≤ e.capacity
  pub free : size e s ≤ e.capacity - 2

-- The bytes between the read and the write index, round the end of the ring.
abbrev pub contents : Endpoint → Shared → List ℕ
contents e s =
    if leb s.read_index s.write_index
    then slice s.read_index (s.write_index - s.read_index) s.base
    else slice s.read_index (e.capacity - s.read_index) s.base ++ slice 0 s.write_index s.base

pub calc_size_straight : (e : Endpoint) (r w : ℕ) → w < 2 ^ 31 → r ≤ w → calc_size e r w ≡ w - r
unfolding calc_size
calc_size_straight e r w b h = rw (le→leb r w h) (omega arith)

pub calc_size_wrapped :
    (e : Endpoint) (r w : ℕ)
    → e.capacity < 2 ^ 31
    → r ≤ e.capacity
    → w < r
    → calc_size e r w ≡ w + e.capacity - r
unfolding calc_size
calc_size_wrapped e r w b k h = rw (lt→leb r w h) (omega arith)

pub size_straight :
    {e : Endpoint} {s : Shared}
    → IsValid e s
    → s.read_index ≤ s.write_index
    → size e s ≡ s.write_index - s.read_index
unfolding size
size_straight {e} {s} v h = calc_size_straight e s.read_index s.write_index (omega arith) h

pub size_wrapped :
    {e : Endpoint} {s : Shared}
    → IsValid e s
    → s.write_index < s.read_index
    → size e s ≡ s.write_index + e.capacity - s.read_index
unfolding size
size_wrapped {e} {s} v h = calc_size_wrapped e s.read_index s.write_index v.small v.read_in h

pub length-contents : {e : Endpoint} {s : Shared} → IsValid e s → length (contents e s) ≡ size e s
length-contents {e} {s} v = elim (lt-cases s.write_index s.read_index) [
  | inl wrap ↦ rw (lt→leb s.read_index s.write_index wrap) (
      omega (
        arith,
        size_wrapped v wrap,
        length-append (slice s.read_index (e.capacity - s.read_index) s.base)
            (slice 0 s.write_index s.base),
        length-slice s.read_index (e.capacity - s.read_index) s.base,
        length-slice 0 s.write_index s.base,
      ))
  | inr up ↦ rw (le→leb s.read_index s.write_index up) (
      omega (
        arith,
        size_straight v up,
        length-slice s.read_index (s.write_index - s.read_index) s.base,
      ))
]

-- What `capacity()` returns leaves one byte of the ring free.
pub free_capacity_lem :
    {e : Endpoint} {s : Shared} → IsValid e s → free_capacity e s ≡ e.capacity - size e s - 1
unfolding free_capacity
free_capacity_lem v = ground arith

-- A server's `init` over a block of `max_len` bytes, more than the header's and fewer than 2 ^ 31,
-- succeeds and leaves an empty valid ring.
pub init-IsValid :
    (s : Shared) (max_len : ℕ) (is_writer : Bool)
    → header_size < max_len
    → max_len < 2 ^ 31
    → max_len ≤ length s.base + header_size
    → let (ok, e, s') = init s max_len is_writer true in
      (ok ≡ true) × IsValid e s' × (contents e s' ≡ []) × (e.is_writer ≡ is_writer)
unfolding init
init-IsValid s max_len is_writer h k m = rw (lt→ltb header_size max_len h) (
  refl,
  record {
    bound = refl;
    small = omega arith;
    stored = omega arith;
    read_in = omega arith;
    write_in = omega arith;
    free = unfold size calc_size in omega arith;
  },
  refl,
  refl,
)
