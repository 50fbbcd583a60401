-- ===== src/WebSocket/Samples.antt =====
-- A platform for tests: an allocator that fills its blocks, on a little-endian machine.
use wsclient.Base.{ℕ, zero, suc, ◌<◌, ◌^◌, false, arith, replicate, length-replicate}
use wsclient.Base.Word.{IsBytes}
use wsclient.SimpleBuffer.{create}
use wsclient.SimpleBuffer.Invariant.{IsAllocator, IsValid, create-IsValid}
use wsclient.WebSocket.{Platform, default_maximum_buffer_size}

abbrev pub platform : Platform
platform = record { malloc = λ n. replicate n 0xcd; big_endian = false; address = λ b. b.start_loc }

filled-IsBytes : (n : ℕ) → IsBytes (replicate n 0xcd)
filled-IsBytes zero = tt
filled-IsBytes (suc n) = (omega arith, filled-IsBytes n)

pub platform-IsAllocator : IsAllocator platform.malloc
platform-IsAllocator = record { enough = λ n. length-replicate n 0xcd; bytes = filled-IsBytes }

pub create_valid :
    (n : ℕ) → n < 2 ^ 30 → IsValid (create platform.malloc n default_maximum_buffer_size)
create_valid n h =
    (create-IsValid platform.malloc n default_maximum_buffer_size platform-IsAllocator h
      (omega arith)).0
