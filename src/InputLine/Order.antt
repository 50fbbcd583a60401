-- ===== src/InputLine/Order.antt =====
-- Every line is taken once, in order, whatever the order of the threads' steps.
use wsclient.Base.{
  ℕ, ◌≡◌, refl, ap, ◌∙◌, subst, Bool, true, false, Option, none, some, List, [], ◌∷◌, ◌++◌,
  if◌then◌else◌, append_assoc,
}
use wsclient.InputLine.{
  Reader, checking, reading, filled, Taker, idle, copying, copied, Console, create, text_of,
  is_some, is_line, reader_step, trim, taker_step, Step, by_reader, by_taker, Steps, stay, go_on,
}

-- The lines that count: what `fgets` returned with at least one byte before its zero.
abbrev pub one_line : Bool → List ℕ → List (List ℕ)
one_line ret text = if is_line ret text then trim text ∷ [] else []

abbrev pub lines_of : List (Option (List ℕ)) → List (List ℕ)
lines_of [] = []
lines_of (line ∷ lines) = one_line (is_some line) (text_of line) ++ lines_of lines

-- Which positions the threads can have together.
abbrev pub Together : Reader → Bool → Taker → Type 0
Together checking flag idle = Unit {0}
Together checking true copying = Unit {0}
Together checking false copying = ⊥
Together checking true copied = Unit {0}
Together checking false copied = ⊥
Together reading false idle = Unit {0}
Together reading true idle = ⊥
Together reading flag copying = ⊥
Together reading flag copied = ⊥
Together (filled ret) false idle = Unit {0}
Together (filled ret) true idle = ⊥
Together (filled ret) flag copying = ⊥
Together (filled ret) flag copied = ⊥

-- The line that was read and is not taken yet.
abbrev pub pending : Reader → Bool → List ℕ → List (List ℕ)
pending checking flag input = if flag then trim input ∷ [] else []
pending reading flag input = []
pending (filled ret) flag input = one_line ret input

abbrev pub Copied : Taker → List ℕ → List ℕ → Type 0
Copied idle input result = Unit {0}
Copied copying input result = Unit {0}
Copied copied input result = result ≡ trim input

pub record Holds (all : List (List ℕ)) (c : Console) : Type 0 where
  pub together : Together c.reader c.have_new_data c.taker
  pub same : Copied c.taker c.input_buffer c.result_buffer
  pub order :
      c.taken ++ (pending c.reader c.have_new_data c.input_buffer ++ lines_of c.console) ≡ all

abbrev HoldsAfter : List (List ℕ) → Option Console → Type 0
HoldsAfter all none = Unit {0}
HoldsAfter all (some c) = Holds all c

abbrev pub console_at :
    Reader → Bool → Taker → List ℕ → List ℕ → List (Option (List ℕ)) → List (List ℕ) → Console
console_at reader flag taker input result console taken = record {
  reader = reader;
  have_new_data = flag;
  taker = taker;
  input_buffer = input;
  result_buffer = result;
  console = console;
  taken = taken;
}

module _ {all : List (List ℕ)} where
  reader_cases :
      (reader : Reader) (flag : Bool) (taker : Taker) (input result : List ℕ)
      (console : List (Option (List ℕ))) (taken : List (List ℕ))
      → Holds all (console_at reader flag taker input result console taken)
      → HoldsAfter all (reader_step (console_at reader flag taker input result console taken))
  unfolding reader_step
  reader_cases checking true taker input result console taken h = h
  reader_cases checking false idle input result console taken h = record {
    together = tt;
    same = tt;
    order = h.order;
  }
  reader_cases checking false copying input result console taken h = absurd (h.together)
  reader_cases checking false copied input result console taken h = absurd (h.together)
  reader_cases reading flag taker input result [] taken h = tt
  reader_cases reading false idle input result (line ∷ lines) taken h = record {
    together = tt;
    same = tt;
    order = h.order;
  }
  reader_cases reading true idle input result (line ∷ lines) taken h = absurd (h.together)
  reader_cases reading flag copying input result (line ∷ lines) taken h = absurd (h.together)
  reader_cases reading flag copied input result (line ∷ lines) taken h = absurd (h.together)
  reader_cases (filled ret) false idle input result console taken h = record {
    together = tt;
    same = tt;
    order = ap (λ t. taken ++ (t ++ lines_of console)) (published (is_line ret input)) ∙ h.order;
  }
    where
      published :
          (b : Bool)
          → pending checking (if b then true else false) input ≡ (if b then trim input ∷ [] else [])
      published true = refl
      published false = refl
  reader_cases (filled ret) true idle input result console taken h = absurd (h.together)
  reader_cases (filled ret) flag copying input result console taken h = absurd (h.together)
  reader_cases (filled ret) flag copied input result console taken h = absurd (h.together)

  taker_cases :
      (reader : Reader) (flag : Bool) (taker : Taker) (input result : List ℕ)
      (console : List (Option (List ℕ))) (taken : List (List ℕ))
      → Holds all (console_at reader flag taker input result console taken)
      → Holds all (taker_step (console_at reader flag taker input result console taken))
  unfolding taker_step
  taker_cases reader false idle input result console taken h = h
  taker_cases checking true idle input result console taken h = record {
    together = tt;
    same = tt;
    order = h.order;
  }
  taker_cases reading true idle input result console taken h = absurd (h.together)
  taker_cases (filled ret) true idle input result console taken h = absurd (h.together)
  taker_cases checking true copying input result console taken h = record {
    together = tt;
    same = refl;
    order = h.order;
  }
  taker_cases checking false copying input result console taken h = absurd (h.together)
  taker_cases reading flag copying input result console taken h = absurd (h.together)
  taker_cases (filled ret) flag copying input result console taken h = absurd (h.together)
  taker_cases checking true copied input result console taken h = record {
    together = tt;
    same = tt;
    order =
        append_assoc taken (result ∷ []) (lines_of console)
        ∙ ap (λ t. taken ++ (t ∷ lines_of console)) h.same
        ∙ h.order;
  }
  taker_cases checking false copied input result console taken h = absurd (h.together)
  taker_cases reading flag copied input result console taken h = absurd (h.together)
  taker_cases (filled ret) flag copied input result console taken h = absurd (h.together)

  reader_step-Holds :
      {c' : Console} (c : Console) → Holds all c → reader_step c ≡ some c' → Holds all c'
  reader_step-Holds c h e = subst (HoldsAfter all) e (
      reader_cases c.reader c.have_new_data c.taker c.input_buffer c.result_buffer c.console c.taken
        h)

  Step-Holds : {c c' : Console} → Step c c' → Holds all c → Holds all c'
  Step-Holds {c} (by_reader e) h = reader_step-Holds c h e
  Step-Holds (by_taker c) h =
      taker_cases c.reader c.have_new_data c.taker c.input_buffer c.result_buffer c.console c.taken
        h

  Steps-Holds : {c c' : Console} → Steps c c' → Holds all c → Holds all c'
  Steps-Holds (stay c) h = h
  Steps-Holds (go_on steps step) h = Step-Holds step (Steps-Holds steps h)

-- However the steps of the two threads alternate, from a fresh object: `fgets` never writes the
-- buffer while `getInputLine` copies it, since the two are never in those places together; and the
-- lines that were taken, the line that waits to be taken, if any, and the lines to come are, in this
-- order, all lines of the console that have a byte before their zero, each without the line feed
-- at its end: none is lost, taken twice or out of order.
pub Steps-order :
    (console : List (Option (List ℕ))) (c : Console)
    → Steps (create console) c
    → Together c.reader c.have_new_data c.taker
      × (c.taken ++ (pending c.reader c.have_new_data c.input_buffer ++ lines_of c.console)
          ≡ lines_of console)
unfolding create
Steps-order console c steps =
    let h = Steps-Holds steps (record { together = tt; same = tt; order = refl }) in
    (h.together, h.order)
