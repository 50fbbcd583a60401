-- ===== src/TestSharedMemory.antt =====
-- app/TestClient/TestSharedMemory.cpp: a thread writes strings into the ring of shared memory, and
-- the program's thread prints what it reads.
pub mod Cut
pub mod Writer
pub mod Lines
mod Tests
use wsclient.Base.{
  ◌≡◌, ◌%◌, ◌++◌, ltb, Bool, true, false, get_elem?, ℕ, ◌+◌, Option, some, none, List, [], ◌∷◌, leb,
  length, if◌then◌else◌, ◌>>=◌,
}
use wsclient.Base.Word.{u32, add32}
use wsclient.Base.Text.{codes}
use wsclient.Spsc
use wsclient.Spsc.{Shared, Endpoint, free_capacity}

abbrev pub line_end : List ℕ
line_end = 13 ∷ 10 ∷ []

-- The string is the one that `rand` chose; the results are `mIndex` and the memory. What the two
-- `write` return is not looked at.
unfoldable pub write_string : Endpoint → Shared → ℕ → List ℕ → Option (ℕ × Shared)
write_string e s index str =
    let write_both = do
      (count, s1) ← Spsc.write e s str (length str)
      (count', s2) ← Spsc.write e s1 line_end 2
      some (add32 index 1, s2)
    in if leb (add32 (length str) 2) (free_capacity e s) then write_both else some (index, s)

abbrev pub sample_strings : List (List ℕ)
sample_strings =
    codes "one"
    ∷ codes "two"
    ∷ codes "three"
    ∷ codes "four"
    ∷ codes "five"
    ∷ codes "six"
    ∷ codes "seven"
    ∷ codes "eight"
    ∷ codes "nine"
    ∷ codes "ten"
    ∷ []

-- Where the writer's thread stands: before the test of `mExit`, at the start of `writeString`, before
-- each of its two `write`, or behind the loop.
pub data Position : Type 0 where
  testing choosing finished : Position
  text : List ℕ → Position
  ending : Position

-- `running` says whether the loop of `run` goes on; `printed` is what it printed so far.
pub record Test : Type 0 where
  pub index : ℕ
  pub memory : Shared
  pub reader : Endpoint
  pub writer : Endpoint
  pub exit : Bool
  pub position : Position
  pub running : Bool
  pub printed : List ℕ

-- The constructor on a mapped file, whose size is cut to 32 bits. What the two `init` return is not looked at.
unfoldable pub create : Shared → ℕ → Test
create s file_size =
    let (ok, writer, s1) = Spsc.init s (u32 file_size) true true in
    let (ok', reader, s2) = Spsc.init s1 (u32 file_size) false true in
    record {
      index = 0;
      memory = s2;
      reader = reader;
      writer = writer;
      exit = false;
      position = Position.testing;
      running = true;
      printed = [];
    }

-- A step of the writer's thread, with what `rand` returns. `writeString` is cut at its calls, since
-- the other thread reads in between.
unfoldable pub writer_step : Test → ℕ → Option Test
writer_step t random = elim t.position [
  | testing ↦ some (record t { position = if t.exit then Position.finished else Position.choosing })
  | choosing ↦ (do
    str ← get_elem? sample_strings (random % 10)
    some (record t {
      position =
          if leb (add32 (length str) 2) (free_capacity t.writer t.memory)
          then Position.text str
          else Position.testing;
    }))
  | text str ↦ (do
    (count, s) ← Spsc.write t.writer t.memory str (length str)
    some (record t { memory = s; position = Position.ending }))
  | ending ↦ (do
    (count, s) ← Spsc.write t.writer t.memory line_end 2
    some (record t { memory = s; index = add32 t.index 1; position = Position.testing }))
  | finished ↦ none
]

-- A pass of the loop of `run`, with what `rand` returns.
unfoldable pub reader_step : Test → ℕ → Option Test
reader_step t random =
    let pass = do
      (count, bytes, s) ← Spsc.read t.reader t.memory (random % 60 + 1)
      some
          (record t { memory = s; printed = if ltb 0 count then t.printed ++ bytes else t.printed })
    in if t.running then pass else none

-- The end of the loop of `run`.
unfoldable pub leave : Test → Test
leave t = record t { running = false; exit = true }

-- The two threads take their steps in any order.
pub data Step : Test → Test → Type 0 where
  by_writer : {t t' : Test} (random : ℕ) → writer_step t random ≡ some t' → Step t t'
  by_reader : {t t' : Test} (random : ℕ) → reader_step t random ≡ some t' → Step t t'
  time_over : (t : Test) → Step t (leave t)

pub data Steps : Test → Test → Type 0 where
  stay : (t : Test) → Steps t t
  go_on : {t t' t'' : Test} → Steps t t' → Step t' t'' → Steps t t''
