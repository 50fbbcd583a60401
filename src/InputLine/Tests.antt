-- ===== src/InputLine/Tests.antt =====
-- The console at a concrete input.
use wsclient.Base.{ℕ, ◌≡◌, refl, true, Option, some, none, List, [], ◌∷◌, ◌++◌}
use wsclient.Base.Text.{c_string}
use wsclient.InputLine.{
  Reader, checking, Taker, copying, Console, create, reader_step, taker_step, by_reader, by_taker,
  Steps, stay, go_on,
}
use wsclient.InputLine.Progress.{Steps-all_taken}
use wsclient.InputLine.Order.{Together, pending, lines_of, Steps-order}

abbrev typed : List (Option (List ℕ))
typed = some (104 ∷ 105 ∷ 10 ∷ []) ∷ none ∷ some (111 ∷ 10 ∷ []) ∷ []

abbrev copying_first : Console
copying_first = record {
  reader = Reader.checking;
  have_new_data = true;
  taker = copying;
  input_buffer = 104 ∷ 105 ∷ 10 ∷ [];
  result_buffer = [];
  console = none ∷ some (111 ∷ 10 ∷ []) ∷ [];
  taken = [];
}

-- The first line is read, and its copy begins.
first_line : Steps (create typed) copying_first
unfolding create reader_step taker_step c_string
first_line =
    go_on
      (go_on (go_on (go_on (stay (create typed)) (by_reader refl)) (by_reader refl))
        (by_reader refl))
      (by_taker (record copying_first { taker = Taker.idle }))

Steps-order_example :
    Together checking true copying
    × ([]
          ++ (pending checking true (104 ∷ 105 ∷ 10 ∷ [])
              ++ lines_of (none ∷ some (111 ∷ 10 ∷ []) ∷ []))
        ≡ lines_of typed)
Steps-order_example = Steps-order typed copying_first first_line

Steps-all_taken_example :
    (c' : Console) × Steps copying_first c' × (c'.console ≡ []) × (c'.taken ≡ lines_of typed)
Steps-all_taken_example = Steps-all_taken typed copying_first first_line
