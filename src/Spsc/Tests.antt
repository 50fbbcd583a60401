-- ===== src/Spsc/Tests.antt =====
-- The theorems on SPSC.h at a concrete ring, and runs of its functions.
use wsclient.Base.{ℕ, ◌≡◌, refl, arith, true, false, some, List, [], ◌∷◌, read_at, memcpy, write_at}
use wsclient.Spsc
use wsclient.Spsc.{
  Shared, Endpoint, init, size, calc_size, free_capacity, read_bytes, write_bytes, header_size,
}
use wsclient.Spsc.Invariant.{IsValid}
use wsclient.Spsc.Stream.{Call, put, get, run, Piped, run-Piped}

abbrev blank : Shared
blank = record {
  version_number = 0;
  buffer_size = 0;
  read_index = 3;
  write_index = 5;
  sequence_number = 7;
  base = 0 ∷ 0 ∷ 0 ∷ 0 ∷ 0 ∷ 0 ∷ 0 ∷ 0 ∷ [];
}

abbrev writer : Endpoint
writer = record { attached = true; capacity = 8; is_writer = true }

abbrev reader : Endpoint
reader = record writer { is_writer = false }

-- Two bytes, close to the end of the ring.
abbrev ring : Shared
ring = record blank { read_index = 5; write_index = 7; base = 0 ∷ 0 ∷ 0 ∷ 0 ∷ 0 ∷ 10 ∷ 11 ∷ 0 ∷ [] }

-- A write round the end of the ring takes four of six bytes.
write_runs :
    Spsc.write writer ring (1 ∷ 2 ∷ 3 ∷ 4 ∷ 5 ∷ 6 ∷ []) 6
    ≡ some (4, record ring { write_index = 3; base = 2 ∷ 3 ∷ 4 ∷ 0 ∷ 0 ∷ 10 ∷ 11 ∷ 1 ∷ [] })
unfolding Spsc.write write_bytes free_capacity size calc_size memcpy read_at write_at
write_runs = refl

ring-IsValid : IsValid writer ring
unfolding size calc_size
ring-IsValid = record {
  bound = refl;
  small = omega arith;
  stored = omega arith;
  read_in = omega arith;
  write_in = omega arith;
  free = omega arith;
}

abbrev script : List Call
script = put (1 ∷ 2 ∷ 3 ∷ 4 ∷ 5 ∷ []) ∷ get 3 ∷ put (6 ∷ 7 ∷ []) ∷ get 9 ∷ []

run-Piped_example :
    (sent : List ℕ) × (got : List ℕ) × (t : Shared) × (run writer reader ring script
      ≡ some (sent, got, t))
    × Piped writer ring sent got t
run-Piped_example =
    run-Piped writer reader ring script
      (record { writes = refl; reads = refl; other = refl; same = refl }) ring-IsValid
