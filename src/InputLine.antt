-- ===== src/InputLine.antt =====
-- src/InputLine.cpp: a thread reads lines of the console, and the program's thread takes them.
pub mod Order
pub mod Progress
mod Tests
use wsclient.Base.{
  ℕ, ◌≡◌, Bool, true, false, Option, none, some, List, [], ◌∷◌, ◌++◌, length, ◌==◌, if◌then◌else◌,
}
use wsclient.Base.Text.{c_string}

-- Where the reader stands in its loop: before the test of `mHaveNewData`, before `fgets`, or behind
-- it, where it knows whether `fgets` returned a string.
pub data Reader : Type 0 where
  checking reading : Reader
  filled : Bool → Reader

-- Where `getInputLine` stands: not called, behind its test, or behind the copy.
pub data Taker : Type 0 where
  idle copying copied : Taker

-- The console is what `fgets` returns, call by call; `taken` is what `getInputLine` returned so far,
-- apart from null. The two buffers hold the strings before their zeros.
pub record Console : Type 0 where
  pub reader : Reader
  pub have_new_data : Bool
  pub taker : Taker
  pub input_buffer : List ℕ
  pub result_buffer : List ℕ
  pub console : List (Option (List ℕ))
  pub taken : List (List ℕ)

unfoldable pub create : List (Option (List ℕ)) → Console
create console = record {
  reader = Reader.checking;
  have_new_data = false;
  taker = Taker.idle;
  input_buffer = [];
  result_buffer = [];
  console = console;
  taken = [];
}

-- What `fgets` leaves in the buffer, whose first byte was set to zero.
abbrev pub text_of : Option (List ℕ) → List ℕ
text_of none = []
text_of (some line) = c_string line

abbrev pub is_some : Option (List ℕ) → Bool
is_some none = false
is_some (some line) = true

-- `ret && strlen(mInputBuffer)`
abbrev pub is_line : Bool → List ℕ → Bool
is_line ret [] = false
is_line ret (x ∷ xs) = ret

-- A step of the reader; none while `fgets` waits.
unfoldable pub reader_step : Console → Option Console
reader_step c = elim c.reader [
  | checking ↦ some (if c.have_new_data then c else record c { reader = Reader.reading })
  | reading ↦ elim c.console [
    | [] ↦ none
    | line ∷ lines ↦ some (record c {
      reader = Reader.filled (is_some line);
      input_buffer = text_of line;
      console = lines;
    })
  ]
  | filled ret ↦ some (record c {
    reader = Reader.checking;
    have_new_data = if is_line ret c.input_buffer then true else c.have_new_data;
  })
]

-- A line feed at the end goes.
unfoldable pub trim : List ℕ → List ℕ
trim [] = []
trim (x ∷ []) = if x == 10 then [] else x ∷ []
trim (x ∷ y ∷ ys) = x ∷ trim (y ∷ ys)

-- A step of `getInputLine`; it returns null at once when there is no new line.
unfoldable pub taker_step : Console → Console
taker_step c = elim c.taker [
  | idle ↦ if c.have_new_data then record c { taker = Taker.copying } else c
  | copying ↦ record c { taker = Taker.copied; result_buffer = trim c.input_buffer }
  | copied ↦ record c {
    taker = Taker.idle;
    have_new_data = false;
    taken = c.taken ++ (c.result_buffer ∷ []);
  }
]

-- The two threads take their steps in any order.
pub data Step : Console → Console → Type 0 where
  by_reader : {c c' : Console} → reader_step c ≡ some c' → Step c c'
  by_taker : (c : Console) → Step c (taker_step c)

pub data Steps : Console → Console → Type 0 where
  stay : (c : Console) → Steps c c
  go_on : {c c' c'' : Console} → Steps c c' → Step c' c'' → Steps c c''
