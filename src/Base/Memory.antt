-- ===== src/Base/Memory.antt =====
-- Blocks of bytes, and the C library's copies into them with what they require: every byte that
-- is read or written lies in its block, and the two ranges of a `memcpy` do not overlap.
use Prim.Native.Nat.{ℕ, zero, suc, ◌+◌, ◌≤◌, ◌<◌}
use mathlib.Core.Path.{◌≡◌, ap, sym}
use mathlib.Core.Bool.{Bool, true, false, ◌||◌}
use mathlib.Core.Option.{Option, none, some}
use mathlib.Core.List.{List}
use native.Mathlib.Omega.{arith}
use wsclient.Base.Tests.{◌==◌, if◌then◌else◌, leb, ◌>>=◌, ◌>>◌, require, le→leb}
use wsclient.Base.Lists.{length}
use wsclient.Base.Slices.{slice, write, length-slice, write_nil}

abbrev pub Block : Type 0
Block = List ℕ

unfoldable pub read_at : Block → ℕ → ℕ → Option (List ℕ)
read_at m off n = do require (leb (off + n) (length m)); some (slice off n m)

unfoldable pub write_at : Block → ℕ → List ℕ → Option Block
write_at m off bs = do require (leb (off + length bs) (length m)); some (write m off bs)

-- `memcpy` between two blocks.
unfoldable pub memcpy : Block → ℕ → Block → ℕ → ℕ → Option Block
memcpy to dst from src n = do bs ← read_at from src n; write_at to dst bs

-- `memcpy(&m[dst], &m[src], n)` within one block.
abbrev pub disjoint : ℕ → ℕ → ℕ → Bool
disjoint dst src n = n == 0 || (leb (dst + n) src || leb (src + n) dst)

unfoldable pub memcpy_within : Block → ℕ → ℕ → ℕ → Option Block
memcpy_within m dst src n = do require (disjoint dst src n); bs ← read_at m src n; write_at m dst bs

pub read_at_lem :
    (m : Block) (off n : ℕ) → off + n ≤ length m → read_at m off n ≡ some (slice off n m)
unfolding read_at
read_at_lem m off n h = rw (le→leb (off + n) (length m) h)

pub write_at_lem :
    (m : Block) (off : ℕ) (bs : List ℕ)
    → off + length bs ≤ length m
    → write_at m off bs ≡ some (write m off bs)
unfolding write_at
write_at_lem m off bs h = rw (le→leb (off + length bs) (length m) h)

pub memcpy_lem :
    (to from : Block) (dst src n : ℕ)
    → src + n ≤ length from
    → dst + n ≤ length to
    → memcpy to dst from src n ≡ some (write to dst (slice src n from))
unfolding memcpy
memcpy_lem to from dst src n h k =
    let e = length-slice src n from h in
    rw (read_at_lem from src n h) (write_at_lem to dst (slice src n from) (rw e k))

-- A move to the front of the block is defined when the two ranges are apart, and only then.
pub memcpy_within_front :
    (m : Block) (src n : ℕ)
    → src + n ≤ length m
    → n ≤ src
    → memcpy_within m 0 src n ≡ some (write m 0 (slice src n m))
unfolding memcpy_within
memcpy_within_front m src n h k =
    let e = length-slice src n m h in
    let apart : disjoint 0 src n ≡ true = ground arith in
    rw (apart, read_at_lem m src n h) (write_at_lem m 0 (slice src n m) (rw e (omega arith)))

pub memcpy_within_overlap : (m : Block) (src n : ℕ) → src < n → memcpy_within m 0 src n ≡ none
unfolding memcpy_within
memcpy_within_overlap m src n h =
    let overlap : disjoint 0 src n ≡ false = ground arith in rw overlap

-- A copy that is skipped when there is nothing to copy.
pub memcpy_guarded :
    (to from : Block) (dst src n : ℕ)
    → src + n ≤ length from
    → dst + n ≤ length to
    → (if n == 0 then some to else memcpy to dst from src n)
      ≡ some (write to dst (slice src n from))
memcpy_guarded to from dst zero zero h k = ap some (sym (write_nil to dst))
memcpy_guarded to from dst (suc src) zero h k = ap some (sym (write_nil to dst))
memcpy_guarded to from dst src (suc n) h k =
    let ne : (suc n == 0) ≡ false = ground arith in rw ne (memcpy_lem to from dst src (suc n) h k)
