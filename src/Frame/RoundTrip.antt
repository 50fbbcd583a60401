-- ===== src/Frame/RoundTrip.antt =====
-- A header that `sendData` writes is read back by `_dispatchBinary`, whatever follows it.
use wsclient.Base.{
  ℕ, suc, ◌+◌, ◌/◌, ◌%◌, ◌^◌, ◌<◌, ◌≤◌, ◌≡◌, refl, ap, ◌∙◌, bit_and, bit_or, Bool, true, false,
  some, List, [], ◌∷◌, ◌++◌, arith, ltb, ◌==◌, if◌then◌else◌, length, le→ltb, lt→ltb, lt-cases, inl,
  inr,
}
use wsclient.Base.Bits.{
  and_127, and_255, and_low_nibble, and_top_bit, top_bit_or, or_top_bit, or_no_bit,
}
use wsclient.FastXor.{Key}
use wsclient.Frame.{
  Header, size_of_header, extended_length, key_index, read_key, parse_header, key_bytes,
  expected_header_len, length_bytes, frame_header,
}
use wsclient.Frame.Digits.{join_two, join_eight, split_two, split_eight}

first_byte :
    (type : ℕ)
    → type < 16
    → ((bit_and (bit_or 0x80 type) 0x80 == 0x80) ≡ true) × (bit_and (bit_or 0x80 type) 0x0f ≡ type)
first_byte type h =
    rw
      (
        top_bit_or type (omega arith),
        and_top_bit (128 + type) (omega arith),
        and_low_nibble (128 + type),
      )
      (ground arith, omega arith)

second_byte :
    (v : ℕ) (m : Bool)
    → v < 128
    → let b = bit_or v (if m then 0x80 else 0) in
      (bit_and b 0x7f ≡ v) × ((bit_and b 0x80 == 0x80) ≡ m)
second_byte v true h =
    rw (or_top_bit v h, and_top_bit (128 + v) (omega arith), and_127 (128 + v))
      (omega arith, ground arith)
second_byte v false h =
    rw (or_no_bit v, and_top_bit v (omega arith), and_127 v) (omega arith, ground arith)

-- What a header with these first two bytes is read as.
abbrev read_as : ℕ → Bool → ℕ → List ℕ → Header
read_as type m v bytes = record {
  header_size = size_of_header v m;
  fin = true;
  mask = m;
  opcode = type;
  n0 = v;
  n = extended_length v bytes;
  masking_key = read_key m (key_index v) bytes;
}

parse_header-cons :
    (type v : ℕ) (m : Bool) (tail : List ℕ)
    → type < 16
    → v < 128
    → let bytes = bit_or 0x80 type ∷ bit_or v (if m then 0x80 else 0) ∷ tail in
      size_of_header v m ≤ length bytes → parse_header bytes ≡ some (read_as type m v bytes)
unfolding parse_header
parse_header-cons type v m tail ht hv enough =
    let (fin, op) = first_byte type ht in
    let (n0, mask) = second_byte v m hv in
    let two : ltb (suc (suc (length tail))) 2 ≡ false = le→ltb _ _ (omega arith) in
    let all : ltb (suc (suc (length tail))) (size_of_header v m) ≡ false = le→ltb _ _ enough in
    rw (fin, op, n0, mask, two, all)

-- The key that a header carries: the sender's, or zeros.
abbrev pub carried_key : Bool → Key → Key
carried_key m key = if m then key else record { k0 = 0; k1 = 0; k2 = 0; k3 = 0 }

-- The first seven-bit length of a frame.
abbrev pub short_length : ℕ → ℕ
short_length size = if ltb size 126 then size else if ltb size 65536 then 126 else 127

abbrev pub sent_header : ℕ → ℕ → Bool → Key → Header
sent_header type size m key = record {
  header_size = expected_header_len size m;
  fin = true;
  mask = m;
  opcode = type;
  n0 = short_length size;
  n = size;
  masking_key = carried_key m key;
}

abbrev pub key_part : Bool → Key → List ℕ
key_part m key = if m then key_bytes key else []

-- It is enough that the parts of the header agree.
parse-parts :
    (type size v : ℕ) (m : Bool) (key : Key) (tail : List ℕ)
    → type < 16
    → v < 128
    → short_length size ≡ v
    → size_of_header v m ≡ expected_header_len size m
    → expected_header_len size m ≤ suc (suc (length tail))
    → let bytes = bit_or 0x80 type ∷ bit_or v (if m then 0x80 else 0) ∷ tail in
      extended_length v bytes ≡ size
      → read_key m (key_index v) bytes ≡ carried_key m key
      → parse_header bytes ≡ some (sent_header type size m key)
parse-parts type size v m key tail ht hv short same enough ext k =
    parse_header-cons type v m tail ht hv (rw same enough) ∙ rw (same, ext, k, short)

short-header :
    (size : ℕ) (m : Bool) → size < 126 → size_of_header size m ≡ expected_header_len size m
unfolding size_of_header expected_header_len
short-header size true h = ground arith
short-header size false h = ground arith

medium-header :
    (size : ℕ) (m : Bool)
    → 126 ≤ size
    → size < 65536
    → size_of_header 126 m ≡ expected_header_len size m
unfolding size_of_header expected_header_len
medium-header size true h k = ground arith
medium-header size false h k = ground arith

long-header :
    (size : ℕ) (m : Bool) → 65536 ≤ size → size_of_header 127 m ≡ expected_header_len size m
unfolding size_of_header expected_header_len
long-header size true h = ground arith
long-header size false h = ground arith

parse-short :
    (type size : ℕ) (m : Bool) (key : Key) (rest : List ℕ)
    → type < 16
    → size < 126
    → parse_header
        (bit_or 0x80 type ∷ bit_or size (if m then 0x80 else 0) ∷ (key_part m key ++ rest))
      ≡ some (sent_header type size m key)
unfolding key_bytes read_key key_index extended_length
parse-short type size m key rest ht hs =
    parse-parts type size size m key (key_part m key ++ rest) ht (omega arith) (ground arith)
      (short-header size m hs) (enough m) (ground arith) (keys m)
  where
    is_short : ltb size 126 ≡ true
    is_short = lt→ltb size 126 hs

    enough : (m : Bool) → expected_header_len size m ≤ suc (suc (length (key_part m key ++ rest)))
    enough true = unfold expected_header_len in ground arith
    enough false = unfold expected_header_len in ground arith

    keys :
        (m : Bool)
        → read_key m
            (key_index size)
            (bit_or 0x80 type ∷ bit_or size (if m then 0x80 else 0) ∷ (key_part m key ++ rest))
          ≡ carried_key m key
    keys true = rw is_short
    keys false = refl

parse-medium :
    (type size : ℕ) (m : Bool) (key : Key) (rest : List ℕ)
    → type < 16
    → 126 ≤ size
    → size < 65536
    → parse_header (
        bit_or 0x80 type
        ∷ bit_or 126 (if m then 0x80 else 0)
        ∷ size / 2 ^ 8 % 256
        ∷ size / 2 ^ 0 % 256
        ∷ (key_part m key ++ rest))
      ≡ some (sent_header type size m key)
unfolding key_bytes read_key key_index extended_length
parse-medium type size m key rest ht lo hi =
    parse-parts type size 126 m key
      (size / 2 ^ 8 % 256 ∷ size / 2 ^ 0 % 256 ∷ (key_part m key ++ rest)) ht (omega arith)
      (ground arith) (medium-header size m lo hi) (omega (arith, enough m))
      (join_two (size / 2 ^ 8 % 256) (size / 2 ^ 0 % 256) (omega arith) (omega arith)
        ∙ split_two size hi)
      (keys m)
  where
    enough : (m : Bool) → expected_header_len size m ≤ 4 + length (key_part m key ++ rest)
    enough true = unfold expected_header_len in ground arith
    enough false = unfold expected_header_len in ground arith

    keys :
        (m : Bool)
        → read_key m 4 (
            bit_or 0x80 type
            ∷ bit_or 126 (if m then 0x80 else 0)
            ∷ size / 2 ^ 8 % 256
            ∷ size / 2 ^ 0 % 256
            ∷ (key_part m key ++ rest))
          ≡ carried_key m key
    keys true = refl
    keys false = refl

abbrev pub eight_bytes : ℕ → List ℕ
eight_bytes n =
    n / 2 ^ 56 % 256
    ∷ n / 2 ^ 48 % 256
    ∷ n / 2 ^ 40 % 256
    ∷ n / 2 ^ 32 % 256
    ∷ n / 2 ^ 24 % 256
    ∷ n / 2 ^ 16 % 256
    ∷ n / 2 ^ 8 % 256
    ∷ n / 2 ^ 0 % 256
    ∷ []

parse-long :
    (type size : ℕ) (m : Bool) (key : Key) (rest : List ℕ)
    → type < 16
    → 65536 ≤ size
    → size < 2 ^ 64
    → parse_header (
        bit_or 0x80 type
        ∷ bit_or 127 (if m then 0x80 else 0)
        ∷ (eight_bytes size ++ (key_part m key ++ rest)))
      ≡ some (sent_header type size m key)
unfolding key_bytes read_key key_index extended_length
parse-long type size m key rest ht lo hi =
    parse-parts type size 127 m key (eight_bytes size ++ (key_part m key ++ rest)) ht (omega arith)
      (ground arith) (long-header size m lo) (omega (arith, enough m))
      (join_eight (size / 2 ^ 56 % 256) (size / 2 ^ 48 % 256) (size / 2 ^ 40 % 256)
          (size / 2 ^ 32 % 256) (size / 2 ^ 24 % 256) (size / 2 ^ 16 % 256) (size / 2 ^ 8 % 256)
          (size / 2 ^ 0 % 256) (omega arith) (omega arith) (omega arith) (omega arith) (omega arith)
          (omega arith) (omega arith) (omega arith)
        ∙ split_eight size hi)
      (keys m)
  where
    enough : (m : Bool) → expected_header_len size m ≤ 10 + length (key_part m key ++ rest)
    enough true = unfold expected_header_len in ground arith
    enough false = unfold expected_header_len in ground arith

    keys :
        (m : Bool)
        → read_key m 10 (
            bit_or 0x80 type
            ∷ bit_or 127 (if m then 0x80 else 0)
            ∷ (eight_bytes size ++ (key_part m key ++ rest)))
          ≡ carried_key m key
    keys true = refl
    keys false = refl

-- The three shapes of a header.
module _ (type size : ℕ) (m : Bool) (key : Key) where
  pub short-shape :
      size < 126
      → frame_header type size m key
        ≡ bit_or 0x80 type ∷ bit_or size (if m then 0x80 else 0) ∷ key_part m key
  unfolding frame_header length_bytes
  short-shape h = let e : size % 256 ≡ size = omega arith in rw (lt→ltb size 126 h, and_255 size, e)

  pub medium-shape :
      126 ≤ size
      → size < 65536
      → frame_header type size m key
        ≡ bit_or 0x80 type
          ∷ bit_or 126 (if m then 0x80 else 0)
          ∷ size / 2 ^ 8 % 256
          ∷ size / 2 ^ 0 % 256
          ∷ key_part m key
  unfolding frame_header length_bytes
  medium-shape h k =
      rw (le→ltb size 126 h, lt→ltb size 65536 k, and_255 (size / 2 ^ 8), and_255 (size / 2 ^ 0))

  pub long-shape :
      65536 ≤ size
      → frame_header type size m key
        ≡ bit_or 0x80 type
          ∷ bit_or 127 (if m then 0x80 else 0)
          ∷ (eight_bytes size ++ key_part m key)
  unfolding frame_header length_bytes
  long-shape h =
      let not_short : ltb size 126 ≡ false = le→ltb size 126 (omega arith) in
      rw (
        not_short,
        le→ltb size 65536 h,
        and_255 (size / 2 ^ 56),
        and_255 (size / 2 ^ 48),
        and_255 (size / 2 ^ 40),
        and_255 (size / 2 ^ 32),
        and_255 (size / 2 ^ 24),
        and_255 (size / 2 ^ 16),
        and_255 (size / 2 ^ 8),
        and_255 (size / 2 ^ 0),
      )

-- For a four-bit opcode, a length below 2 ^ 64 and any key, the header that `sendData` writes,
-- whatever follows it, is read as a final frame of that opcode and length, with the key if one is
-- used.
pub parse_header-frame_header :
    (type size : ℕ) (m : Bool) (key : Key) (rest : List ℕ)
    → type < 16
    → size < 2 ^ 64
    → parse_header (frame_header type size m key ++ rest) ≡ some (sent_header type size m key)
parse_header-frame_header type size m key rest ht hs = elim (lt-cases size 126) [
  | inl small ↦
      ap (λ t. parse_header (t ++ rest)) (short-shape type size m key small)
      ∙ parse-short type size m key rest ht small
  | inr large ↦ elim (lt-cases size 65536) [
    | inl small ↦
        ap (λ t. parse_header (t ++ rest)) (medium-shape type size m key large small)
        ∙ parse-medium type size m key rest ht large small
    | inr huge ↦
        ap (λ t. parse_header (t ++ rest)) (long-shape type size m key huge)
        ∙ parse-long type size m key rest ht huge hs
  ]
]

-- The header has the length that `sendData` expects.
pub length-frame_header :
    (type size : ℕ) (m : Bool) (key : Key)
    → length (frame_header type size m key) ≡ expected_header_len size m
unfolding frame_header length_bytes expected_header_len key_bytes
length-frame_header type size true key = ground arith
length-frame_header type size false key = ground arith
