-- ===== src/TestSharedMemory/Lines.antt =====
-- What the two threads of the test of the ring print together.
use wsclient.Base.{
  ℕ, ◌+◌, ◌%◌, ◌≤◌, ◌<◌, ◌^◌, ◌≡◌, refl, sym, ap, subst, ◌∙◌, true, some, none, List, [], ◌∷◌, ◌++◌,
  arith, length, take, ltb, if◌then◌else◌, Bool-cases, inl, inr, length-append, length-take,
  append_assoc, append-nil, min, ◌>>=◌, lt→ltb,
}
use wsclient.Base.Word.{u32}
use wsclient.Spsc
use wsclient.Spsc.{Shared, Endpoint, size, free_capacity, header_size}
use wsclient.Spsc.Invariant.{IsValid, contents, length-contents, free_capacity_lem, init-IsValid}
use wsclient.Spsc.Read.{read_lem}
use wsclient.Spsc.Stream.{turn, same_contents}
use wsclient.TestSharedMemory.{
  Test, create, reader_step, leave, Step, by_writer, by_reader, time_over, Steps, stay, go_on,
}
use wsclient.TestSharedMemory.Writer.{Lines, Wrote, Wrote-grow, Holds, HoldsAfter, writer_cases}

-- What is printed when `count` is not 0, and when it is.
printed_by :
    (before bytes : List ℕ) (count : ℕ)
    → length bytes ≡ count
    → (if ltb 0 count then before ++ bytes else before) ≡ before ++ bytes
printed_by before [] count e = rw (sym e) (sym (append-nil before))
printed_by before (x ∷ bytes) count e =
    let more : ltb 0 count ≡ true = lt→ltb 0 count (omega arith) in rw more refl

reader_step_run :
    (t : Test) (random : ℕ) {count : ℕ} {bytes : List ℕ} {s : Shared}
    → t.running ≡ true
    → Spsc.read t.reader t.memory (random % 60 + 1) ≡ some (count, bytes, s)
    → reader_step t random
      ≡ some
          (record t { memory = s; printed = if ltb 0 count then t.printed ++ bytes else t.printed })
unfolding reader_step
reader_step_run t random runs run =
    ap
      (λ b.
        if b
        then (do
          (count, bytes, s) ← Spsc.read t.reader t.memory (random % 60 + 1)
          some (record t {
            memory = s;
            printed = if ltb 0 count then t.printed ++ bytes else t.printed;
          }))
        else none)
      runs
    ∙ rw run

reader-Holds : (t : Test) (random : ℕ) → Holds t → HoldsAfter (reader_step t random)
unfolding reader_step
reader-Holds t random h =
    let v = turn h.pair.other h.pair.same h.valid in
    let (s, run, x) = read_lem (random % 60 + 1) v h.pair.reads in
    let count = min (random % 60 + 1) (size t.reader t.memory) in
    let bytes = take count (contents t.reader t.memory) in
    let valid : IsValid t.writer s = turn h.valid.bound (sym h.pair.same) x.valid in
    let split : contents t.writer t.memory ≡ bytes ++ contents t.writer s =
      same_contents t.writer t.reader t.memory h.pair.same
      ∙ x.content
      ∙ ap (λ u. bytes ++ u) (sym (same_contents t.writer t.reader s h.pair.same)) in
    let counted : length bytes ≡ count =
      omega (arith, length-take count (contents t.reader t.memory), length-contents v) in
    let grows : free_capacity t.writer t.memory ≤ free_capacity t.writer s = omega (
      arith,
      ap length split,
      length-append bytes (contents t.writer s),
      length-contents h.valid,
      length-contents valid,
      free_capacity_lem h.valid,
      free_capacity_lem valid,
    ) in
    let printed = if ltb 0 count then t.printed ++ bytes else t.printed in
    let all : t.printed ++ contents t.writer t.memory ≡ printed ++ contents t.writer s =
      ap (λ u. t.printed ++ u) split
      ∙ sym (append_assoc t.printed bytes (contents t.writer s))
      ∙ ap (λ u. u ++ contents t.writer s) (sym (printed_by t.printed bytes count counted)) in
    let after : Holds (record t { memory = s; printed = printed }) = record {
      pair = h.pair;
      valid = valid;
      wrote = subst (Wrote t.writer s t.position t.index) all (
          Wrote-grow t.writer t.memory s t.position t.index
            (t.printed ++ contents t.writer t.memory) grows h.wrote);
    } in
    elim (Bool-cases t.running) [
      | inl runs ↦ subst HoldsAfter (sym (reader_step_run t random runs run)) after
      | inr over ↦ rw over tt
    ]

Step-Holds : {t t' : Test} → Step t t' → Holds t → Holds t'
unfolding leave
Step-Holds {t} (by_writer random e) h = subst HoldsAfter e (writer_cases t.position t random h)
Step-Holds {t} (by_reader random e) h = subst HoldsAfter e (reader-Holds t random h)
Step-Holds (time_over t) h = record { pair = h.pair; valid = h.valid; wrote = h.wrote }

Steps-Holds : {t t' : Test} → Steps t t' → Holds t → Holds t'
Steps-Holds (stay t) h = h
Steps-Holds (go_on steps step) h = Step-Holds step (Steps-Holds steps h)

create-Holds :
    (s : Shared) (file_size : ℕ)
    → header_size < file_size
    → file_size < 2 ^ 31
    → file_size ≤ length s.base + header_size
    → Holds (create s file_size)
unfolding create Spsc.init
create-Holds s file_size h k m =
    let start = rw (lt→ltb header_size file_size h) at (init-IsValid s file_size true h k m) in
    let whole : u32 file_size ≡ file_size = omega arith in
    rw (whole, lt→ltb header_size file_size h)
      (record {
        pair = record { writes = refl; reads = refl; other = refl; same = refl };
        valid = start.1;
        wrote = subst (Lines 0) (sym start.2) Lines.nothing;
      })

-- However the steps of the two threads alternate, on a mapped file of more bytes than the header's
-- and fewer than 2 ^ 31: the ring stays valid, and what was printed, followed by what is in the ring,
-- is a sequence of the ten strings, each whole and followed by its line end or, where the line feed
-- was lost, by the carriage return, as many as `mIndex` counts in 32 bits; and behind them, while the
-- writer's thread stands between its two `write`, one whole string more.
pub Steps-lines :
    (s : Shared) (file_size : ℕ) (t : Test)
    → header_size < file_size
    → file_size < 2 ^ 31
    → file_size ≤ length s.base + header_size
    → Steps (create s file_size) t
    → IsValid t.writer t.memory
      × Wrote t.writer t.memory t.position t.index (t.printed ++ contents t.writer t.memory)
Steps-lines s file_size t h k m steps =
    let holds = Steps-Holds steps (create-Holds s file_size h k m) in (holds.valid, holds.wrote)
