-- ===== src/WebSocket/LogText.antt =====
-- The text of the log file: `logData`, `logSend` and `logReceive` of `WebSocketImpl`.
use wsclient.Base.{
  ℕ, ◌+◌, ◌-◌, ◌*◌, ◌/◌, ◌%◌, ◌^◌, ◌<◌, ◌≡◌, refl, ap, ◌∙◌, Bool, true, false, ◌&&◌, Option, some,
  none, List, [], ◌∷◌, ◌++◌, arith, length, take, leb, ltb, ◌==◌, if◌then◌else◌, All, Bool-cases,
  inl, inr,
}
use wsclient.Base.Text.{codes, line}
use wsclient.Base.Word.{u32, add32}
use wsclient.Base.Scan.{print_integer}
use wsclient.WebSocket.{WebSocket, LogEntry, received, sent}

-- A digit of "%02X".
abbrev pub hex_digit : ℕ → ℕ
hex_digit n = if ltb n 10 then 48 + n else 55 + n

abbrev pub is_printed : ℕ → Bool
is_printed c = leb 32 c && ltb c 128

unfoldable pub log_data : List ℕ → List ℕ
log_data [] = []
log_data (c ∷ bytes) =
    (if is_printed c then c ∷ [] else 36 ∷ hex_digit (c / 16) ∷ hex_digit (c % 16) ∷ [])
    ++ log_data bytes

-- "%d" of an unsigned word
abbrev pub print_word : ℕ → List ℕ
print_word n = print_integer (
    if ltb n (2 ^ 31)
    then (record { negative = false; magnitude = n })
    else record { negative = true; magnitude = 2 ^ 32 - n })

abbrev pub rule : List ℕ
rule = line "==================================================================="

unfoldable pub log_text : List ℕ → ℕ → List ℕ → List ℕ
log_text title count bytes =
    rule
    ++ ((title
          ++ (codes "["
              ++ (print_word count
                  ++ (codes "] : " ++ (print_word (u32 (length bytes)) ++ line " bytes")))))
        ++ (rule ++ (log_data bytes ++ (line "" ++ (rule ++ line "")))))

-- What `logReceive` and `logSend` print for an entry.
unfoldable pub entry_text : LogEntry → List ℕ
entry_text (received count bytes) = log_text (codes "RECEIVE") count bytes
entry_text (sent count bytes) = log_text (codes "SEND") count bytes

-- The text that a new file begins with.
abbrev pub log_title : ℕ → List ℕ
log_title count =
    line "======================================================================"
    ++ (codes "**** NEW EASYWSCLIENT INSTANCE["
        ++ (print_word count
            ++ (line "] ****"
                ++ line "======================================================================")))

-- The file's name, cut at 511 bytes.
unfoldable pub log_file_name : List ℕ → ℕ → List ℕ
log_file_name name count = take 511 (name ++ (print_word count ++ codes ".txt"))

-- `setLogFile`, which returns true where it returns; `opens` says whether `fopen` succeeds. A file
-- that does not open is written to before it is looked at.
unfoldable pub set_log_file : WebSocket → ℕ → Bool → Option (Bool × WebSocket × ℕ)
set_log_file w save_count opens = elim w.log_file [
  | some entries ↦ some (true, w, save_count)
  | none ↦ if opens then some (true, record w { log_file = some [] }, add32 save_count 1) else none
]

-- What a reader of the log makes of it: a dollar sign stands for two digits behind it.
abbrev pub hex_value : ℕ → ℕ
hex_value d = if ltb d 58 then d - 48 else d - 55

abbrev pub read_data : List ℕ → List ℕ
read_data [] = []
read_data (c ∷ []) = c ∷ []
read_data (c ∷ a ∷ []) = c ∷ read_data (a ∷ [])
read_data (c ∷ a ∷ b ∷ text) =
    let rest = read_data text in
    let others = read_data (a ∷ b ∷ text) in
    if c == 36 then (hex_value a * 16 + hex_value b) ∷ rest else c ∷ others

abbrev pub IsPlain : List ℕ → Type 0
IsPlain bytes = All (λ c. (c < 256) × ((c == 36) ≡ false)) bytes

read_data-escaped :
    (c : ℕ) (text : List ℕ)
    → c < 256
    → read_data (36 ∷ hex_digit (c / 16) ∷ hex_digit (c % 16) ∷ text) ≡ c ∷ read_data text
read_data-escaped c text h = ap (λ v. v ∷ read_data text) (ground arith)

read_data-printed :
    (c : ℕ) (text : List ℕ) → (c == 36) ≡ false → read_data (c ∷ text) ≡ c ∷ read_data text
read_data-printed c [] h = refl
read_data-printed c (a ∷ []) h = refl
read_data-printed c (a ∷ b ∷ text) h = rw h

-- Bytes without a dollar sign can be read back from the log: `logData` loses nothing of them.
pub read_data-log_data : (bytes : List ℕ) → IsPlain bytes → read_data (log_data bytes) ≡ bytes
unfolding log_data
read_data-log_data [] h = refl
read_data-log_data (c ∷ bytes) h = elim (Bool-cases (is_printed c)) [
  | inl printed ↦
      rw printed (
        read_data-printed c (log_data bytes) h.0.1 ∙ ap (λ t. c ∷ t) (read_data-log_data bytes h.1))
  | inr escaped ↦
      rw escaped (
        read_data-escaped c (log_data bytes) h.0.0 ∙ ap (λ t. c ∷ t) (read_data-log_data bytes h.1))
]

-- A byte that is not printed leaves the same text as a dollar sign and its two digits.
pub log_data-ambiguous :
    (c : ℕ) (bytes : List ℕ)
    → c < 256
    → is_printed c ≡ false
    → log_data (c ∷ bytes) ≡ log_data (36 ∷ hex_digit (c / 16) ∷ hex_digit (c % 16) ∷ bytes)
unfolding log_data
log_data-ambiguous c bytes h k =
    let first : is_printed (hex_digit (c / 16)) ≡ true = ground arith in
    let second : is_printed (hex_digit (c % 16)) ≡ true = ground arith in rw (k, first, second)
