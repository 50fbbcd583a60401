-- ===== src/Wsocket/Playback.antt =====
-- `WsocketPlayback` of ext/easywsclient/wsocket.cpp: a socket that reads from a file, on a little-endian machine.
use wsclient.Base.{
  ℕ, ◌-◌, ◌<◌, ◌≤◌, ◌^◌, ◌≡◌, refl, ap, Bool, true, ◌&&◌, Option, none, some, List, [], ◌∷◌, ◌++◌,
  arith, length, length-append, take, drop, map, All, leb, ltb, if◌then◌else◌, ◌>>=◌, ◌>>◌, require,
  take-append_length, drop-append_length, le→leb,
}
use wsclient.FastXor.{load, store}

-- `fread(&word, 4, 1, file)`: a word and the rest of the file, or the end of the file, where the
-- variable stays as it was, or fewer than four bytes before it, which leave the variable undefined.
pub data Word : Type 0 where
  whole : ℕ → List ℕ → Word
  ended torn : Word

unfoldable pub read_word : List ℕ → Word
read_word [] = ended
read_word (a ∷ []) = torn
read_word (a ∷ b ∷ []) = torn
read_word (a ∷ b ∷ c ∷ []) = torn
read_word (a ∷ b ∷ c ∷ d ∷ file) = whole (load (a ∷ b ∷ c ∷ d ∷ [])) file

-- An `int32_t` in two's complement.
abbrev pub minus_one : ℕ
minus_one = 2 ^ 32 - 1

abbrev pub is_positive : ℕ → Bool
is_positive word = ltb 0 word && ltb word (2 ^ 31)

-- `receive`: what it returns, the bytes at `dest`, and the rest of the file. The assertion is on.
unfoldable pub receive : List ℕ → ℕ → Option (ℕ × List ℕ × List ℕ)
receive file max_len = elim (read_word file) [
  | ended ↦ some (minus_one, [], [])
  | torn ↦ none
  | whole ret rest ↦ elim (read_word rest) [
    | ended ↦ some (ret, [], [])
    | torn ↦ some (ret, [], [])
    | whole length_then rest' ↦
        if is_positive ret
        then (do
          require (ltb max_len (2 ^ 31) && leb ret max_len)
          require (leb ret (length rest'))
          some (ret, take ret rest', drop ret rest'))
        else some (ret, [], rest')
  ]
]

-- `send` takes everything.
unfoldable pub send : ℕ → ℕ
send data_len = data_len

-- An entry of a file in the form that `receive` reads: the bytes that one call gives, and the word
-- that stands for how much was asked for; and how much that call asks for when it is played back.
pub record Entry : Type 0 where
  pub asked : ℕ
  pub bytes : List ℕ
  pub max_len : ℕ

pub record IsEntry (entry : Entry) : Type 0 where
  pub given : 0 < length entry.bytes
  pub fits : length entry.bytes ≤ entry.max_len
  pub small : entry.max_len < 2 ^ 31
  pub word : entry.asked < 2 ^ 32

-- The entries one after the other: the number of bytes, the word and the bytes.
abbrev pub playback_file : List Entry → List ℕ
playback_file [] = []
playback_file (entry ∷ entries) =
    store 4 (length entry.bytes) ++ (store 4 entry.asked ++ (entry.bytes ++ playback_file entries))

-- Calls of `receive` that ask for so much, one after the other.
unfoldable pub replay : List ℕ → List ℕ → Option (List (ℕ × List ℕ) × List ℕ)
replay file [] = some ([], file)
replay file (max_len ∷ max_lens) = do
  (ret, dest, rest) ← receive file max_len
  (results, left) ← replay rest max_lens
  some ((ret, dest) ∷ results, left)

read_word-store :
    (v : ℕ) (file : List ℕ) → v < 2 ^ 32 → read_word (store 4 v ++ file) ≡ whole v file
unfolding read_word store load
read_word-store v file h = ap (λ n. whole n file) (omega arith)

receive-entry :
    (entry : Entry) (file : List ℕ)
    → IsEntry entry
    → receive
        (store 4 (length entry.bytes) ++ (store 4 entry.asked ++ (entry.bytes ++ file)))
        entry.max_len
      ≡ some (length entry.bytes, entry.bytes, file)
unfolding receive
receive-entry entry file h =
    let n = length entry.bytes in
    let positive : is_positive n ≡ true = ground (arith, h.given, h.fits, h.small) in
    let accepted : (ltb entry.max_len (2 ^ 31) && leb n entry.max_len) ≡ true =
      ground (arith, h.fits, h.small) in
    let stored : leb n (length (entry.bytes ++ file)) ≡ true =
      le→leb _ _ (omega (arith, length-append entry.bytes file)) in
    let first =
      read_word-store n (store 4 entry.asked ++ (entry.bytes ++ file))
        (omega (arith, h.fits, h.small)) in
    let second = read_word-store entry.asked (entry.bytes ++ file) (omega (arith, h.word)) in
    rw (
      receive,
      first,
      second,
      positive,
      accepted,
      stored,
      take-append_length entry.bytes file n refl,
      drop-append_length entry.bytes file n refl,
    )

replay-entry :
    (file rest : List ℕ) (max_len : ℕ) (max_lens : List ℕ) {ret : ℕ} {dest left : List ℕ}
    {results : List (ℕ × List ℕ)}
    → receive file max_len ≡ some (ret, dest, rest)
    → replay rest max_lens ≡ some (results, left)
    → replay file (max_len ∷ max_lens) ≡ some ((ret, dest) ∷ results, left)
unfolding replay
replay-entry file rest max_len max_lens e f = rw (replay, e, f)

-- A file in the form that the playback reads (for each entry its number of bytes and another word,
-- of 32 bits each, before the bytes; what the recording in `WsocketImpl` writes is not of
-- this form, since its two `fwrite` of the words are commented out), with no entry that is empty:
-- calls of `receive` that each ask for at least as many bytes as their entry has, and for fewer than
-- 2 ^ 31, give the bytes of the entries, entry by entry, whatever the other words are, and use the
-- file up; every call after that returns -1.
pub replay-playback_file :
    (entries : List Entry) (max_len : ℕ)
    → All IsEntry entries
    → (replay (playback_file entries) (map (λ entry. entry.max_len) entries)
        ≡ some (map (λ entry. (length entry.bytes, entry.bytes)) entries, []))
      × (receive [] max_len ≡ some (minus_one, [], []))
replay-playback_file entries max_len h = (go entries h, unfold receive read_word in refl)
  where
    go :
        (entries : List Entry)
        → All IsEntry entries
        → replay (playback_file entries) (map (λ entry. entry.max_len) entries)
          ≡ some (map (λ entry. (length entry.bytes, entry.bytes)) entries, [])
    go [] h = unfold replay in refl
    go (entry ∷ entries) h =
        replay-entry (playback_file (entry ∷ entries)) (playback_file entries) entry.max_len
          (map (λ entry. entry.max_len) entries) (receive-entry entry (playback_file entries) h.0)
          (go entries h.1)
