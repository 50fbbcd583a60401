-- ===== src/TestSharedMemory/Tests.antt =====
-- The theorem on TestSharedMemory.cpp at a ring with exactly the room that the guard asks for.
use wsclient.Base.{
  ℕ, ◌≡◌, refl, true, false, some, [], ◌∷◌, ◌++◌, arith, replicate, read_at, memcpy, write_at,
}
use wsclient.Base.Text.{codes}
use wsclient.Spsc
use wsclient.Spsc.{Shared, Endpoint, size, calc_size, free_capacity, read_bytes, write_bytes}
use wsclient.Spsc.Invariant.{IsValid, contents}
use wsclient.TestSharedMemory.{
  write_string, Position, testing, Test, create, writer_step, reader_step, Step, Steps,
}
use wsclient.TestSharedMemory.Lines.{Steps-lines}
use wsclient.TestSharedMemory.Writer.{Wrote}
use wsclient.TestSharedMemory.Cut.{written_part, write_string_lem}

abbrev writer : Endpoint
writer = record { attached = true; capacity = 8; is_writer = true }

abbrev ring : Shared
ring = record {
  version_number = 100;
  buffer_size = 40;
  read_index = 0;
  write_index = 2;
  sequence_number = 0;
  base = replicate 8 0;
}

ring-IsValid : IsValid writer ring
unfolding size calc_size
ring-IsValid = record {
  bound = refl;
  small = omega arith;
  stored = omega arith;
  read_in = omega arith;
  write_in = omega arith;
  free = omega arith;
}

write_string_lem_example :
    (r : ℕ × Shared) × (write_string writer ring 4 (111 ∷ 110 ∷ 101 ∷ []) ≡ some r)
    × IsValid writer (r.1)
    × (contents writer (r.1)
        ≡ contents writer ring ++ written_part writer ring (111 ∷ 110 ∷ 101 ∷ []))
write_string_lem_example = write_string_lem 4 (111 ∷ 110 ∷ 101 ∷ []) ring-IsValid refl (omega arith)

-- The two threads on a ring of eight bytes: `one` is chosen and written, its line end is written, and
-- four bytes are read.
abbrev mapped : Shared
mapped = record ring { base = replicate 8 0 }

abbrev started : Test
started = record {
  index = 0;
  memory = record mapped { read_index = 0; write_index = 0; sequence_number = 0 };
  reader = record writer { is_writer = false };
  writer = writer;
  exit = false;
  position = Position.testing;
  running = true;
  printed = [];
}

abbrev chosen : Test
chosen = record started { position = Position.text (codes "one") }

abbrev half_written : Test
half_written = record started {
  position = Position.ending;
  memory = record mapped {
    read_index = 0;
    write_index = 3;
    sequence_number = 0;
    base = 111 ∷ 110 ∷ 101 ∷ 0 ∷ 0 ∷ 0 ∷ 0 ∷ 0 ∷ [];
  };
}

abbrev in_full : Shared
in_full = record mapped {
  read_index = 0;
  write_index = 5;
  sequence_number = 0;
  base = 111 ∷ 110 ∷ 101 ∷ 13 ∷ 10 ∷ 0 ∷ 0 ∷ 0 ∷ [];
}

abbrev written : Test
written = record started { index = 1; memory = in_full }

abbrev printing : Test
printing = record written {
  memory = record in_full { read_index = 4 };
  printed = 111 ∷ 110 ∷ 101 ∷ 13 ∷ [];
}

chosen-Steps : Steps (create mapped 40) chosen
unfolding create Spsc.init writer_step free_capacity size calc_size
chosen-Steps =
    Steps.go_on
      (Steps.go_on (Steps.stay started) (
        Step.by_writer {t = started} {t' = record started { position = Position.choosing }} 0 refl))
      (Step.by_writer {t = record started { position = Position.choosing }} {t' = chosen} 0 refl)

written-Steps : Steps (create mapped 40) written
unfolding writer_step Spsc.write write_bytes free_capacity size calc_size memcpy read_at write_at
written-Steps =
    Steps.go_on (Steps.go_on chosen-Steps (Step.by_writer {t = chosen} {t' = half_written} 0 refl))
      (Step.by_writer {t = half_written} {t' = written} 0 refl)

printing-Steps : Steps (create mapped 40) printing
unfolding reader_step Spsc.read read_bytes size calc_size read_at
printing-Steps = Steps.go_on written-Steps (Step.by_reader {t = written} {t' = printing} 3 refl)

Steps-lines_example :
    IsValid writer printing.memory
    × Wrote writer printing.memory testing 1 (printing.printed ++ contents writer printing.memory)
Steps-lines_example =
    Steps-lines mapped 40 printing (omega arith) (omega arith) (omega arith) printing-Steps
