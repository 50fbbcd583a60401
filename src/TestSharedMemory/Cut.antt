-- ===== src/TestSharedMemory/Cut.antt =====
-- What `writeString` puts in the ring. Its guard asks for room of two bytes behind the string, and
-- `write` leaves one byte of that room free.
use wsclient.Base.{
  ℕ, ◌+◌, ◌≤◌, ◌<◌, ◌^◌, ◌≡◌, sym, ap, ◌∙◌, true, false, some, List, [], ◌∷◌, ◌++◌, arith, length,
  take, leb, ◌==◌, if◌then◌else◌, Bool-cases, inl, inr, take_all, length-append, append_assoc,
  append-nil,
}
use wsclient.Base.Word.{add32}
use wsclient.Spsc
use wsclient.Spsc.{Shared, Endpoint, size, free_capacity}
use wsclient.Spsc.Invariant.{IsValid, contents, length-contents, free_capacity_lem}
use wsclient.Spsc.Write.{accepted, write_lem}
use wsclient.TestSharedMemory.{line_end, write_string}

-- What of a string and its line end is written.
abbrev pub written_part : Endpoint → Shared → List ℕ → List ℕ
written_part e s str =
    if leb (length str + 2) (free_capacity e s)
    then str ++ (if free_capacity e s == length str + 2 then 13 ∷ [] else line_end)
    else []

write_string_both :
    (e : Endpoint) (s : Shared) (index : ℕ) (str : List ℕ) {n n' : ℕ} {s1 s2 : Shared}
    → leb (add32 (length str) 2) (free_capacity e s) ≡ true
    → Spsc.write e s str (length str) ≡ some (n, s1)
    → Spsc.write e s1 line_end 2 ≡ some (n', s2)
    → write_string e s index str ≡ some (add32 index 1, s2)
unfolding write_string
write_string_both e s index str g h k = rw (g, h, k)

write_string_neither :
    (e : Endpoint) (s : Shared) (index : ℕ) (str : List ℕ)
    → leb (add32 (length str) 2) (free_capacity e s) ≡ false
    → write_string e s index str ≡ some (index, s)
unfolding write_string
write_string_neither e s index str g = rw g

-- The line end is cut to its first byte exactly when the ring has the room that the guard asks for
-- and no more.
line_end_part :
    (e : Endpoint) (s s1 : Shared) (str : List ℕ)
    → IsValid e s
    → length str + 2 ≤ free_capacity e s
    → size e s1 ≡ size e s + length str
    → take (accepted e s1 2) line_end
      ≡ (if free_capacity e s == length str + 2 then 13 ∷ [] else line_end)
line_end_part e s s1 str v h same = elim (Bool-cases (free_capacity e s == length str + 2)) [
  | inl tight ↦
      let one : accepted e s1 2 ≡ 1 = ground (arith, free_capacity_lem v) in
      rw tight (ap (λ t. take t line_end) one)
  | inr loose ↦
      let two : accepted e s1 2 ≡ 2 = ground (arith, free_capacity_lem v) in
      rw loose (ap (λ t. take t line_end) two)
]

-- On a valid ring with a writer, for a string shorter than 2 ^ 31: `writeString` is defined and
-- keeps the ring valid. With less room than the string and two bytes it writes nothing; with more
-- room it writes the string and its line end; with exactly that room it writes the string and a
-- carriage return, and the line feed is lost.
pub write_string_lem :
    {e : Endpoint} {s : Shared} (index : ℕ) (str : List ℕ)
    → IsValid e s
    → e.is_writer ≡ true
    → length str < 2 ^ 31
    → (r : ℕ × Shared) × (write_string e s index str ≡ some r)
      × IsValid e (r.1)
      × (contents e (r.1) ≡ contents e s ++ written_part e s str)
write_string_lem {e} {s} index str v writer small =
    let cut : add32 (length str) 2 ≡ length str + 2 = omega arith in
    let test = ap (λ t. leb t (free_capacity e s)) cut in
    elim (Bool-cases (leb (length str + 2) (free_capacity e s))) [
      | inr tight ↦ (
        (index, s),
        write_string_neither e s index str (test ∙ tight),
        v,
        rw tight (sym (append-nil (contents e s))),
      )
      | inl room ↦
          let h : length str + 2 ≤ free_capacity e s = ground arith in
          let all : accepted e s (length str) ≡ length str =
            omega (arith, free_capacity_lem v, h) in
          let (s1, run1, w1) = write_lem str v writer in
          let (s2, run2, w2) = write_lem line_end w1.valid writer in
          let front : take (accepted e s (length str)) str ≡ str =
            take_all (accepted e s (length str)) str (omega arith) in
          let c1 : contents e s1 ≡ contents e s ++ str =
            w1.content ∙ ap (λ t. contents e s ++ t) front in
          let same : size e s1 ≡ size e s + length str =
            sym (length-contents w1.valid)
            ∙ ap length c1
            ∙ length-append (contents e s) str
            ∙ ap (λ t. t + length str) (length-contents v) in
          let tail = if free_capacity e s == length str + 2 then 13 ∷ [] else line_end in
          (
            (add32 index 1, s2),
            write_string_both e s index str (test ∙ room) run1 run2,
            w2.valid,
            rw room (
                w2.content
                ∙ ap (λ t. contents e s1 ++ t) (line_end_part e s s1 str v h same)
                ∙ ap (λ t. t ++ tail) c1
                ∙ append_assoc (contents e s) str tail),
          )
    ]
