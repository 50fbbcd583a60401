-- ===== src/TestSharedMemory/Writer.antt =====
-- What the writer's thread puts in the ring, step by step.
use wsclient.Base.{
  ℕ, zero, suc, ◌+◌, ◌%◌, ◌≤◌, ◌≡◌, sym, ap, subst, ◌∙◌, true, false, Option, some, none, List, [],
  ◌∷◌, ◌++◌, arith, length, take, take_all, leb, ◌==◌, if◌then◌else◌, Bool-cases, Option-cases, inl,
  inr, length-append, append_assoc, get_elem?, All,
}
use wsclient.Base.Word.{add32}
use wsclient.Spsc.{Shared, Endpoint, free_capacity}
use wsclient.Spsc.Invariant.{IsValid, contents, length-contents, free_capacity_lem}
use wsclient.Spsc.Write.{accepted, write_lem}
use wsclient.Spsc.Stream.{IsPair}
use wsclient.TestSharedMemory.{
  line_end, sample_strings, Position, testing, choosing, finished, text, ending, Test, writer_step,
}

-- One of the ten strings.
abbrev pub IsSample : List ℕ → Type 0
IsSample str = (r : ℕ) × (get_elem? sample_strings r ≡ some str)

-- Strings, each with its line end, or with the first byte of it; and their number in 32 bits.
pub data Lines : ℕ → List ℕ → Type 0 where
  nothing : Lines 0 []
  whole :
      {n : ℕ} {xs : List ℕ} (str : List ℕ)
      → Lines n xs
      → IsSample str
      → Lines (add32 n 1) (xs ++ (str ++ line_end))
  cut :
      {n : ℕ} {xs : List ℕ} (str : List ℕ)
      → Lines n xs
      → IsSample str
      → Lines (add32 n 1) (xs ++ (str ++ (13 ∷ [])))

-- What was written so far, by the place of the writer's thread: whole lines, or whole lines and a
-- string whose line end comes next. A string that was chosen still has its room.
abbrev pub Wrote : Endpoint → Shared → Position → ℕ → List ℕ → Type 0
Wrote e s testing n all = Lines n all
Wrote e s choosing n all = Lines n all
Wrote e s finished n all = Lines n all
Wrote e s (text str) n all = Lines n all × IsSample str × (length str + 2 ≤ free_capacity e s)
Wrote e s ending n all =
    (xs : List ℕ) × (str : List ℕ) × Lines n xs
    × IsSample str
    × (all ≡ xs ++ str)
    × (2 ≤ free_capacity e s)

pub record Holds (t : Test) : Type 0 where
  pub pair : IsPair t.writer t.reader
  pub valid : IsValid t.writer t.memory
  pub wrote : Wrote t.writer t.memory t.position t.index (t.printed ++ contents t.writer t.memory)

abbrev pub HoldsAfter : Option Test → Type 0
HoldsAfter none = Unit {0}
HoldsAfter (some t) = Holds t

get_elem?-All :
    (P : List ℕ → Type 0) (xs : List (List ℕ)) (r : ℕ) {x : List ℕ}
    → All P xs
    → get_elem? xs r ≡ some x
    → P x
get_elem?-All P [] r h e = absurd (cc e)
get_elem?-All P (y ∷ ys) zero {x} h e = subst P (cc e) h.0
get_elem?-All P (y ∷ ys) (suc r) h e = get_elem?-All P ys r h.1 e

sample_length : (str : List ℕ) → IsSample str → length str ≤ 5
sample_length str (r, e) =
    get_elem?-All (λ s. length s ≤ 5) sample_strings r
      (
        omega arith,
        (
          omega arith,
          (
            omega arith,
            (
              omega arith,
              (
                omega arith,
                (omega arith, (omega arith, (omega arith, (omega arith, (omega arith, tt))))),
              ),
            ),
          ),
        ),
      )
      e

-- More room is room enough.
pub Wrote-grow :
    (e : Endpoint) (s s' : Shared) (position : Position) (n : ℕ) (all : List ℕ)
    → free_capacity e s ≤ free_capacity e s'
    → Wrote e s position n all
    → Wrote e s' position n all
Wrote-grow e s s' testing n all h w = w
Wrote-grow e s s' choosing n all h w = w
Wrote-grow e s s' finished n all h w = w
Wrote-grow e s s' (text str) n all h (lines, sample, room) = (lines, sample, omega arith)
Wrote-grow e s s' ending n all h (xs, str, lines, sample, eq, room) =
    (xs, str, lines, sample, eq, omega arith)

-- The room behind bytes that were written.
room_left :
    (e : Endpoint) (s s' : Shared) (bytes : List ℕ)
    → IsValid e s
    → IsValid e s'
    → contents e s' ≡ contents e s ++ bytes
    → length bytes + 2 ≤ free_capacity e s
    → 2 ≤ free_capacity e s'
room_left e s s' bytes v v' content room = omega (
  arith,
  ap length content,
  length-append (contents e s) bytes,
  length-contents v,
  length-contents v',
  free_capacity_lem v,
  free_capacity_lem v',
)

-- The three steps of `writeString`.
module _ (t : Test) (pair : IsPair t.writer t.reader) (valid : IsValid t.writer t.memory)
    (random : ℕ) where
  choosing-Holds :
      Lines t.index (t.printed ++ contents t.writer t.memory)
      → HoldsAfter (writer_step (record t { position = choosing }) random)
  unfolding writer_step
  choosing-Holds lines = elim (Option-cases (get_elem? sample_strings (random % 10))) [
    | inl e ↦ rw e tt
    | inr (str, e) ↦
        let cut : add32 (length str) 2 ≡ length str + 2 =
          omega (arith, sample_length str (random % 10, e)) in
        elim (Bool-cases (leb (add32 (length str) 2) (free_capacity t.writer t.memory))) [
          | inl room ↦
              rw (e, room)
                (record {
                  pair = pair;
                  valid = valid;
                  wrote = (lines, (random % 10, e), ground (arith, cut, room));
                })
          | inr full ↦ rw (e, full) (record { pair = pair; valid = valid; wrote = lines })
        ]
  ]

  text-Holds :
      (str : List ℕ)
      → Wrote t.writer t.memory (text str) t.index (t.printed ++ contents t.writer t.memory)
      → HoldsAfter (writer_step (record t { position = text str }) random)
  unfolding writer_step
  text-Holds str (lines, sample, room) =
      let (s, run, w) = write_lem str valid pair.writes in
      let all : take (accepted t.writer t.memory (length str)) str ≡ str =
        take_all (accepted t.writer t.memory (length str)) str
          (omega (arith, free_capacity_lem valid)) in
      let content : contents t.writer s ≡ contents t.writer t.memory ++ str =
        w.content ∙ ap (λ u. contents t.writer t.memory ++ u) all in
      rw run (record {
        pair = pair;
        valid = w.valid;
        wrote = (
          t.printed ++ contents t.writer t.memory,
          str,
          lines,
          sample,
          ap (λ u. t.printed ++ u) content
              ∙ sym (append_assoc t.printed (contents t.writer t.memory) str),
          room_left t.writer t.memory s str valid w.valid content room,
        );
      })

  ending-Holds :
      Wrote t.writer t.memory ending t.index (t.printed ++ contents t.writer t.memory)
      → HoldsAfter (writer_step (record t { position = ending }) random)
  unfolding writer_step
  ending-Holds (xs, str, lines, sample, eq, room) =
      let (s, run, w) = write_lem line_end valid pair.writes in
      let n = accepted t.writer t.memory 2 in
      let all : t.printed ++ contents t.writer s ≡ xs ++ (str ++ take n line_end) =
        ap (λ u. t.printed ++ u) w.content
        ∙ sym (append_assoc t.printed (contents t.writer t.memory) (take n line_end))
        ∙ ap (λ u. u ++ take n line_end) eq
        ∙ append_assoc xs str (take n line_end) in
      rw run (record {
        pair = pair;
        valid = w.valid;
        wrote = subst (Lines (add32 t.index 1)) (sym all) (elim (Bool-cases (n == 2)) [
          | inl both ↦
              let two : n ≡ 2 = ground (arith, both) in
              subst (λ k. Lines (add32 t.index 1) (xs ++ (str ++ take k line_end))) (sym two)
                (Lines.whole str lines sample)
          | inr short ↦
              let one : n ≡ 1 = ground (arith, short, room, free_capacity_lem valid) in
              subst (λ k. Lines (add32 t.index 1) (xs ++ (str ++ take k line_end))) (sym one)
                (Lines.cut str lines sample)
        ]);
      })

pub writer_cases :
    (position : Position) (t : Test) (random : ℕ)
    → Holds (record t { position = position })
    → HoldsAfter (writer_step (record t { position = position }) random)
unfolding writer_step
writer_cases testing t random h = record {
  pair = h.pair;
  valid = h.valid;
  wrote =
      elim t.exit
        as (λ b.
          Wrote t.writer t.memory (if b then finished else choosing) t.index
            (t.printed ++ contents t.writer t.memory)) [ true ↦ h.wrote | false ↦ h.wrote ];
}
writer_cases choosing t random h = choosing-Holds t h.pair h.valid random h.wrote
writer_cases (text str) t random h = text-Holds t h.pair h.valid random str h.wrote
writer_cases ending t random h = ending-Holds t h.pair h.valid random h.wrote
writer_cases finished t random h = tt
