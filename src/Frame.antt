-- ===== src/Frame.antt =====
-- The frame headers of ext/easywsclient/easywsclient.cpp: `wsheader_type`, the part of
-- `_dispatchBinary` that reads a header, and the part of `sendData` that writes one.
pub mod Digits
pub mod RoundTrip
pub mod Wire
mod Tests
use wsclient.Base.{
  ℕ, ◌+◌, ◌*◌, ◌/◌, ◌^◌, bit_and, bit_or, Bool, true, false, Option, none, some, List, [], ◌∷◌,
  ◌++◌, ltb, leb, ◌==◌, if◌then◌else◌, length, get_or,
}
use wsclient.Base.Word.{u32, add32}
use wsclient.FastXor.{Key}

-- `opcode_type`: the values of the enumeration on the wire. A received opcode is any value of the
-- four bits.
abbrev pub continuation : ℕ
continuation = 0

abbrev pub text_frame : ℕ
text_frame = 1

abbrev pub binary_frame : ℕ
binary_frame = 2

abbrev pub close_frame : ℕ
close_frame = 8

abbrev pub ping : ℕ
ping = 9

abbrev pub pong : ℕ
pong = 10

-- `wsheader_type`
pub record Header : Type 0 where
  pub header_size : ℕ
  pub fin : Bool
  pub mask : Bool
  pub opcode : ℕ
  pub n0 : ℕ
  pub n : ℕ
  pub masking_key : Key

-- `ws.N`, or-ed together from the bytes that stand behind the first two. `n0` has seven bits, so
-- the last branch is that of 127.
unfoldable pub extended_length : ℕ → List ℕ → ℕ
extended_length n0 bytes =
    let d = get_or bytes in
    if ltb n0 126
    then n0
    else if n0 == 126
    then bit_or (bit_or 0 (d 2 0 * 2 ^ 8)) (d 3 0)
    else bit_or
        (bit_or
          (bit_or
            (bit_or
              (bit_or
                (bit_or (bit_or (bit_or 0 (d 2 0 * 2 ^ 56)) (d 3 0 * 2 ^ 48)) (d 4 0 * 2 ^ 40))
                (d 5 0 * 2 ^ 32))
              (d 6 0 * 2 ^ 24))
            (d 7 0 * 2 ^ 16))
          (d 8 0 * 2 ^ 8))
        (d 9 0)

-- `ws.header_size`
unfoldable pub size_of_header : ℕ → Bool → ℕ
size_of_header n0 mask =
    2 + (if n0 == 126 then 2 else 0) + (if n0 == 127 then 8 else 0) + (if mask then 4 else 0)

-- The index of the first byte behind the length.
unfoldable pub key_index : ℕ → ℕ
key_index n0 = if ltb n0 126 then 2 else if n0 == 126 then 4 else 10

unfoldable pub read_key : Bool → ℕ → List ℕ → Key
read_key mask i bytes =
    if mask
    then record {
      k0 = get_or bytes (i + 0) 0;
      k1 = get_or bytes (i + 1) 0;
      k2 = get_or bytes (i + 2) 0;
      k3 = get_or bytes (i + 3) 0;
    }
    else record { k0 = 0; k1 = 0; k2 = 0; k3 = 0 }

-- The header at the front of the received bytes, or `none` while it is not there as a whole.
unfoldable pub parse_header : List ℕ → Option Header
parse_header bytes =
    let b0 = get_or bytes 0 0 in
    let b1 = get_or bytes 1 0 in
    let n0 = bit_and b1 0x7f in
    let mask = bit_and b1 0x80 == 0x80 in
    let size = size_of_header n0 mask in
    if ltb (length bytes) 2
    then none
    else if ltb (length bytes) size
    then none
    else some (record {
      header_size = size;
      fin = bit_and b0 0x80 == 0x80;
      mask = mask;
      opcode = bit_and b0 0x0f;
      n0 = n0;
      n = extended_length n0 bytes;
      masking_key = read_key mask (key_index n0) bytes;
    })

-- `frameSize`: both the length and the sum are cut to 32 bits.
unfoldable pub frame_size : Header → ℕ
frame_size h = add32 h.header_size (u32 h.n)

unfoldable pub key_bytes : Key → List ℕ
key_bytes k = k.k0 ∷ k.k1 ∷ k.k2 ∷ k.k3 ∷ []

-- `expectedHeaderLen`
unfoldable pub expected_header_len : ℕ → Bool → ℕ
expected_header_len size use_mask =
    2
    + (if leb 126 size then 2 else 0)
    + (if leb 65536 size then 6 else 0)
    + (if use_mask then 4 else 0)

-- `(size >> k) & 0xff`
abbrev byte_of : ℕ → ℕ → ℕ
byte_of k size = bit_and (size / 2 ^ k) 0xff

-- The second byte and the extended length.
unfoldable pub length_bytes : ℕ → ℕ → List ℕ
length_bytes size mask_bit =
    if ltb size 126
    then bit_or (bit_and size 0xff) mask_bit ∷ []
    else if ltb size 65536
    then bit_or 126 mask_bit ∷ byte_of 8 size ∷ byte_of 0 size ∷ []
    else bit_or 127 mask_bit
      ∷ byte_of 56 size
      ∷ byte_of 48 size
      ∷ byte_of 40 size
      ∷ byte_of 32 size
      ∷ byte_of 24 size
      ∷ byte_of 16 size
      ∷ byte_of 8 size
      ∷ byte_of 0 size
      ∷ []

-- `header[0 .. headerLen)` of `sendData`.
unfoldable pub frame_header : ℕ → ℕ → Bool → Key → List ℕ
frame_header type size use_mask key =
    bit_or 0x80 type
    ∷ (length_bytes size (if use_mask then 0x80 else 0) ++ (if use_mask then key_bytes key else []))
