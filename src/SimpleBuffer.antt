-- ===== src/SimpleBuffer.antt =====
-- ext/easywsclient/SimpleBuffer.cpp: a growing byte buffer with a read and a write position.
-- Each operation returns the new buffer beside its result, and `none` where it has undefined
-- behaviour. `malloc` is a parameter: the block that it returns for a size, which is empty where
-- it returns a null pointer.
pub mod Invariant
pub mod Grow
pub mod Queue
mod Tests
use wsclient.Base.{
  ℕ, ◌+◌, ◌-◌, Bool, true, false, Option, none, some, List, [], ltb, leb, ◌==◌, if◌then◌else◌,
  ◌>>=◌, ◌>>◌, require, Block, write_at, memcpy, memcpy_within, slice,
}
use wsclient.Base.Word.{add32, sub32, mul32}

-- `SimpleBufferImpl`; a null `mBuffer` is the block of no bytes.
pub record SimpleBuffer : Type 0 where
  pub buffer : Block
  pub start_loc : ℕ
  pub end_loc : ℕ
  pub max_len : ℕ
  pub max_grow_size : ℕ
  pub default_size : ℕ

unfoldable pub get_size : SimpleBuffer → ℕ
get_size b = sub32 b.end_loc b.start_loc

-- The `dataLen` bytes at the pointer that `getData` returns.
unfoldable pub get_data : SimpleBuffer → List ℕ
get_data b = slice b.start_loc (get_size b) b.buffer

-- A write through that pointer, at an offset.
unfoldable pub modify_data : SimpleBuffer → ℕ → List ℕ → Option SimpleBuffer
modify_data b off bytes = do
  buffer ← write_at b.buffer (b.start_loc + off) bytes
  some (record b { buffer = buffer })

unfoldable pub clear : SimpleBuffer → SimpleBuffer
clear b = record b { start_loc = 0; end_loc = 0 }

-- The assertion is on; what follows it also clamps the length.
unfoldable pub consume : SimpleBuffer → ℕ → Option SimpleBuffer
consume b remove_len =
    let active = sub32 b.end_loc b.start_loc in
    let removed = if ltb active remove_len then active else remove_len in
    let start = add32 b.start_loc removed in
    do
      require (leb remove_len active)
      some (
          if start == b.end_loc
          then record b { start_loc = 0; end_loc = 0 }
          else record b { start_loc = start })

unfoldable pub get_max_buffer_size : SimpleBuffer → ℕ
get_max_buffer_size b = b.max_len

unfoldable pub get_max_grow_size : SimpleBuffer → ℕ
get_max_grow_size b = b.max_grow_size

-- The first branch of `growBuffer`: move the content to the front of its block.
unfoldable pub compact : SimpleBuffer → Option (Bool × SimpleBuffer)
compact b =
    let keep_size = get_size b in
    do
      buffer ←
          if keep_size == 0 then some b.buffer else memcpy_within b.buffer 0 b.start_loc keep_size
      some (true, record b { buffer = buffer; start_loc = 0; end_loc = keep_size })

-- The size that the second branch asks for.
unfoldable pub new_max_len : SimpleBuffer → ℕ → ℕ
new_max_len b data_len =
    let doubled = mul32 b.max_len 2 in
    if ltb (sub32 doubled b.end_loc) data_len then add32 doubled data_len else doubled

module _ (malloc : ℕ → Block) where
  unfoldable pub reset : SimpleBuffer → ℕ → SimpleBuffer
  reset b size = record b {
    buffer = if size == 0 then [] else malloc size;
    start_loc = 0;
    end_loc = 0;
    max_len = size;
    default_size = size;
  }

  -- `SimpleBuffer::create` and the constructor.
  unfoldable pub create : ℕ → ℕ → SimpleBuffer
  unfolding reset
  create default_len max_grow =
      reset
        (record {
          buffer = [];
          start_loc = 0;
          end_loc = 0;
          max_len = 0;
          max_grow_size = if ltb max_grow default_len then default_len else max_grow;
          default_size = 1024;
        })
        default_len

  -- The second branch of `growBuffer`: copy the content to a larger block, or give up.
  unfoldable pub expand : SimpleBuffer → ℕ → Option (Bool × SimpleBuffer)
  expand b data_len =
      let new_len = new_max_len b data_len in
      let size = get_size b in
      if ltb b.max_grow_size new_len then some (false, b) else (do
        buffer ←
            if size == 0
            then some (malloc new_len)
            else memcpy (malloc new_len) 0 b.buffer b.start_loc size
        some (true, record b { buffer = buffer; start_loc = 0; end_loc = size; max_len = new_len }))

  unfoldable pub grow_buffer : SimpleBuffer → ℕ → Option (Bool × SimpleBuffer)
  grow_buffer b data_len = if ltb data_len b.start_loc then compact b else expand b data_len

  -- The growth that `addBuffer` and `confirmCapacity` start with.
  unfoldable pub make_room : SimpleBuffer → ℕ → Option SimpleBuffer
  make_room b data_len =
      if ltb (sub32 b.max_len b.end_loc) data_len
      then (do (grown, b') ← grow_buffer b data_len; some b')
      else some b

  -- `addBuffer`; its data is a null pointer or the bytes that are read from.
  unfoldable pub add_buffer : SimpleBuffer → Option (List ℕ) → ℕ → Option (Bool × SimpleBuffer)
  add_buffer b src data_len = do
    b' ← make_room b data_len
    let fits = leb data_len (sub32 b'.max_len b'.end_loc)
    buffer ← elim src [
      | none ↦ some b'.buffer
      | some bytes ↦ if fits then memcpy b'.buffer b'.end_loc bytes 0 data_len else some b'.buffer
    ]
    some (
        if fits
        then (true, record b' { buffer = buffer; end_loc = add32 b'.end_loc data_len })
        else (false, b'))

  -- `confirmCapacity`: the index of the returned pointer in the block, or `none` for null.
  unfoldable pub confirm_capacity : SimpleBuffer → ℕ → Option (Option ℕ × SimpleBuffer)
  confirm_capacity b capacity = do
    b' ← make_room b capacity
    some (if leb capacity (sub32 b'.max_len b'.end_loc) then some b'.end_loc else none, b')

  -- `shrinkBuffer` copies the content to a new block, which it then drops: `mBuffer` stays.
  unfoldable pub shrink_buffer : SimpleBuffer → Option (ℕ × SimpleBuffer)
  shrink_buffer b =
      let current = get_size b in
      let new_size = if ltb b.default_size current then current else b.default_size in
      do
        copy ←
            if current == 0
            then some (malloc new_size)
            else memcpy (malloc new_size) 0 b.buffer b.start_loc current
        some (new_size, record b { start_loc = 0; end_loc = current; max_len = new_size })
