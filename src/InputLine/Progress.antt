-- ===== src/InputLine/Progress.antt =====
-- The threads can always bring all lines to the program.
use wsclient.Base.{
  ℕ, ◌≡◌, refl, sym, ap, ◌∙◌, Bool, true, false, Option, List, [], ◌∷◌, ◌++◌, if◌then◌else◌,
  append-nil, Bool-cases, inl, inr,
}
use wsclient.InputLine.{
  Reader, checking, reading, filled, Taker, idle, copying, copied, Console, create, text_of,
  is_some, is_line, reader_step, trim, taker_step, by_reader, by_taker, Steps, stay, go_on,
}
use wsclient.InputLine.Order.{Together, pending, one_line, lines_of, console_at, Steps-order}

Steps-append : {c c' c'' : Console} → Steps c c' → Steps c' c'' → Steps c c''
Steps-append a (stay c) = a
Steps-append a (go_on b step) = go_on (Steps-append a b) step

abbrev at_rest : List ℕ → List ℕ → List (Option (List ℕ)) → List (List ℕ) → Console
at_rest input result console taken = console_at checking false idle input result console taken

-- One line is read, and taken if it counts.
one_round :
    (line : Option (List ℕ)) (input result : List ℕ) (console : List (Option (List ℕ)))
    (taken : List (List ℕ))
    → (result' : List ℕ) × Steps
        (at_rest input result (line ∷ console) taken)
        (at_rest (text_of line) result' console (taken ++ one_line (is_some line) (text_of line)))
unfolding reader_step taker_step
one_round line input result console taken =
    let text = text_of line in
    let ret = is_some line in
    let read : Steps (at_rest input result (line ∷ console) taken)
        (console_at (filled ret) false idle text result console taken) =
      go_on (go_on (stay (at_rest input result (line ∷ console) taken)) (by_reader refl))
        (by_reader refl) in
    elim (Bool-cases (is_line ret text)) [
      | inl counts ↦
          let ready : Steps (at_rest input result (line ∷ console) taken)
              (console_at checking true idle text result console taken) =
            go_on read (by_reader (rw counts)) in
          (
            trim text,
            rw counts (
                go_on
                  (go_on
                    (go_on ready
                      (by_taker (console_at checking true idle text result console taken)))
                    (by_taker (console_at checking true copying text result console taken)))
                  (by_taker (console_at checking true copied text (trim text) console taken))),
          )
      | inr empty ↦ (result, rw (empty, append-nil taken) (go_on read (by_reader (rw empty))))
    ]

-- Nothing waits, and the console has nothing more.
record Finished (c : Console) : Type 0 where
  used_up : c.console ≡ []
  none_waits : pending c.reader c.have_new_data c.input_buffer ≡ []

abbrev Finishes : Console → Type 0
Finishes c = (c' : Console) × Steps c c' × Finished c'

Finishes-after : {c c' : Console} → Steps c c' → Finishes c' → Finishes c
Finishes-after steps (c', more, f) = (c', Steps-append steps more, f)

rest-Finishes :
    (console : List (Option (List ℕ))) (input result : List ℕ) (taken : List (List ℕ))
    → Finishes (at_rest input result console taken)
rest-Finishes [] input result taken = (
  at_rest input result [] taken,
  stay (at_rest input result [] taken),
  record { used_up = refl; none_waits = refl },
)
rest-Finishes (line ∷ console) input result taken =
    let (result', steps) = one_round line input result console taken in
    Finishes-after steps (
      rest-Finishes console (text_of line) result'
        (taken ++ one_line (is_some line) (text_of line)))

module _ (input result : List ℕ) (console : List (Option (List ℕ))) (taken : List (List ℕ)) where
  copied-Finishes : Finishes (console_at checking true copied input result console taken)
  unfolding taker_step
  copied-Finishes =
      let c = console_at checking true copied input result console taken in
      Finishes-after (go_on (stay c) (by_taker c))
        (rest-Finishes console input result (taken ++ (result ∷ [])))

copying-Finishes :
    (input result : List ℕ) (console : List (Option (List ℕ))) (taken : List (List ℕ))
    → Finishes (console_at checking true copying input result console taken)
unfolding taker_step
copying-Finishes input result console taken =
    let c = console_at checking true copying input result console taken in
    Finishes-after (go_on (stay c) (by_taker c)) (copied-Finishes input (trim input) console taken)

ready-Finishes :
    (flag : Bool) (input result : List ℕ) (console : List (Option (List ℕ))) (taken : List (List ℕ))
    → Finishes (console_at checking flag idle input result console taken)
unfolding taker_step
ready-Finishes false input result console taken = rest-Finishes console input result taken
ready-Finishes true input result console taken =
    let c = console_at checking true idle input result console taken in
    Finishes-after (go_on (stay c) (by_taker c)) (copying-Finishes input result console taken)

filled-Finishes :
    (ret : Bool) (input result : List ℕ) (console : List (Option (List ℕ))) (taken : List (List ℕ))
    → Finishes (console_at (filled ret) false idle input result console taken)
unfolding reader_step
filled-Finishes ret input result console taken =
    let c = console_at (filled ret) false idle input result console taken in
    Finishes-after (go_on (stay c) (by_reader refl))
      (ready-Finishes (if is_line ret input then true else false) input result console taken)

reading-Finishes :
    (input result : List ℕ) (console : List (Option (List ℕ))) (taken : List (List ℕ))
    → Finishes (console_at reading false idle input result console taken)
unfolding reader_step
reading-Finishes input result [] taken =
    let c = console_at reading false idle input result [] taken in
    (c, stay c, record { used_up = refl; none_waits = refl })
reading-Finishes input result (line ∷ console) taken =
    let c = console_at reading false idle input result (line ∷ console) taken in
    Finishes-after (go_on (stay c) (by_reader refl))
      (filled-Finishes (is_some line) (text_of line) result console taken)

Together-Finishes :
    (reader : Reader) (flag : Bool) (taker : Taker) (input result : List ℕ)
    (console : List (Option (List ℕ))) (taken : List (List ℕ))
    → Together reader flag taker
    → Finishes (console_at reader flag taker input result console taken)
Together-Finishes checking flag idle input result console taken h =
    ready-Finishes flag input result console taken
Together-Finishes checking true copying input result console taken h =
    copying-Finishes input result console taken
Together-Finishes checking false copying input result console taken h = absurd h
Together-Finishes checking true copied input result console taken h =
    copied-Finishes input result console taken
Together-Finishes checking false copied input result console taken h = absurd h
Together-Finishes reading false idle input result console taken h =
    reading-Finishes input result console taken
Together-Finishes reading true idle input result console taken h = absurd h
Together-Finishes reading flag copying input result console taken h = absurd h
Together-Finishes reading flag copied input result console taken h = absurd h
Together-Finishes (filled ret) false idle input result console taken h =
    filled-Finishes ret input result console taken
Together-Finishes (filled ret) true idle input result console taken h = absurd h
Together-Finishes (filled ret) flag copying input result console taken h = absurd h
Together-Finishes (filled ret) flag copied input result console taken h = absurd h

-- From wherever the two threads can come from a fresh object, there are steps after which the
-- console is used up and the program has taken all of its lines that have a byte before their
-- zero, in order, each without the line feed at its end: the threads never block each other.
pub Steps-all_taken :
    (console : List (Option (List ℕ))) (c : Console)
    → Steps (create console) c
    → (c' : Console) × Steps c c' × (c'.console ≡ []) × (c'.taken ≡ lines_of console)
Steps-all_taken console c steps =
    let (together, _) = Steps-order console c steps in
    let (c', more, f) =
      Together-Finishes c.reader c.have_new_data c.taker c.input_buffer c.result_buffer c.console
        c.taken together in
    let (_, order) = Steps-order console c' (Steps-append steps more) in
    (
      c',
      more,
      f.used_up,
      sym (append-nil c'.taken)
          ∙ sym (
              ap (λ r. c'.taken ++ (r ++ lines_of c'.console)) f.none_waits
              ∙ ap (λ r. c'.taken ++ lines_of r) f.used_up)
          ∙ order,
    )
