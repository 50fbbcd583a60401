-- ===== src/Spsc.antt =====
-- ext/easywsclient/SPSC.h: a byte ring in shared memory for one writer and one reader.
-- The shared memory is one record; an endpoint is an `SPSC` object, which looks at it.
pub mod Invariant
pub mod Write
pub mod Read
pub mod Stream
mod Tests
use wsclient.Base.{
  ℕ, ◌+◌, ◌-◌, Bool, true, false, Option, some, List, [], ◌++◌, ltb, leb, ◌==◌, ◌||◌, not,
  if◌then◌else◌, ◌>>=◌, ◌>>◌, require, Block, read_at, memcpy,
}
use wsclient.Base.Word.{add32, sub32}

-- `cSharedMemoryVersion` and `sizeof(SharedMemoryHeader)`, eight 32-bit words
abbrev pub shared_memory_version : ℕ
shared_memory_version = 100

abbrev pub header_size : ℕ
header_size = 32

-- `SharedMemoryHeader` with the bytes that stand behind it.
pub record Shared : Type 0 where
  pub version_number : ℕ
  pub buffer_size : ℕ
  pub read_index : ℕ
  pub write_index : ℕ
  pub sequence_number : ℕ
  pub base : Block

-- `SPSC`; `attached` says whether `mHeader` is not null.
pub record Endpoint : Type 0 where
  pub attached : Bool
  pub capacity : ℕ
  pub is_writer : Bool

-- An `SPSC` before its `init`.
abbrev pub detached : Endpoint
detached = record { attached = false; capacity = 0; is_writer = true }

unfoldable pub init : Shared → ℕ → Bool → Bool → Bool × Endpoint × Shared
init s max_len is_writer is_server =
    let e : Endpoint = record {
      attached = true;
      capacity = max_len - header_size;
      is_writer = is_writer;
    } in
    if ltb header_size max_len
    then (if is_server
        then (
          true,
          e,
          record s {
            version_number = shared_memory_version;
            buffer_size = max_len;
            write_index = 0;
            read_index = 0;
            sequence_number = 0;
          },
        )
        else (if not (s.version_number == shared_memory_version) || not (s.buffer_size == max_len)
            then (false, record e { attached = false }, s)
            else (true, e, s)))
    else (false, record detached { is_writer = is_writer }, s)

unfoldable pub calc_size : Endpoint → ℕ → ℕ → ℕ
calc_size e read_index write_index =
    if leb read_index write_index
    then sub32 write_index read_index
    else sub32 (add32 write_index e.capacity) read_index

unfoldable pub size : Endpoint → Shared → ℕ
size e s = calc_size e s.read_index s.write_index

-- `SPSC::capacity()`: the free bytes but for one.
unfoldable pub free_capacity : Endpoint → Shared → ℕ
free_capacity e s = let avail = sub32 e.capacity (size e s) in if leb avail 1 then 0 else avail - 1

-- The copies of `read` for a length above 0, in one or in two parts.
unfoldable pub read_bytes : Endpoint → Shared → ℕ → Option (List ℕ × Shared)
read_bytes e s len =
    let r = s.read_index in
    let avail_top = sub32 e.capacity r in
    let remainder = sub32 len avail_top in
    if leb len avail_top
    then (do bs ← read_at s.base r len; some (bs, record s { read_index = add32 r len }))
    else (do
      top ← if avail_top == 0 then some [] else read_at s.base r avail_top
      rest ← if remainder == 0 then some [] else read_at s.base 0 remainder
      some (top ++ rest, record s { read_index = remainder }))

-- `read` returns a count, the bytes that it stored at `dest`, and the new state.
unfoldable pub read : Endpoint → Shared → ℕ → Option (ℕ × List ℕ × Shared)
read e s max_len =
    if e.is_writer
    then some (0, [], s)
    else (let len = if ltb max_len (size e s) then max_len else size e s in
        do
          require e.attached
          (if len == 0
              then some (0, [], s)
              else (do (bs, s') ← read_bytes e s len; some (len, bs, s'))))

-- The copies of `write`, in one or in two parts.
unfoldable pub write_bytes : Endpoint → Shared → List ℕ → ℕ → Option Shared
write_bytes e s src len =
    let w = s.write_index in
    let avail_top = sub32 e.capacity w in
    let remainder = sub32 len avail_top in
    if leb len avail_top
    then (do
      base ← memcpy s.base w src 0 len
      some (record s { base = base; write_index = add32 w len }))
    else (do
      top ← if avail_top == 0 then some s.base else memcpy s.base w src 0 avail_top
      base ← if remainder == 0 then some top else memcpy top 0 src avail_top remainder
      some (record s { base = base; write_index = remainder }))

-- `write` returns how many of the bytes it took.
unfoldable pub write : Endpoint → Shared → List ℕ → ℕ → Option (ℕ × Shared)
write e s src data_len =
    if not e.is_writer
    then some (0, s)
    else (let avail = free_capacity e s in
        let len = if ltb (avail - 1) data_len then avail - 1 else data_len in
        do
          require e.attached
          (if avail == 0 then some (0, s) else (do s' ← write_bytes e s src len; some (len, s'))))

unfoldable pub increment_sequence_number : Endpoint → Shared → ℕ × Shared
increment_sequence_number e s =
    if e.attached
    then (s.sequence_number, record s { sequence_number = add32 s.sequence_number 1 })
    else (0, s)

unfoldable pub get_sequence_number : Endpoint → Shared → ℕ
get_sequence_number e s = if e.attached then s.sequence_number else 0
