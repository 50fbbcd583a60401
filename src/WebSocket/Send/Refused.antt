-- ===== src/WebSocket/Send/Refused.antt =====
-- `sendData` of a message that the transmit buffer refuses, when its header went in.
use wsclient.Base.{
  ℕ, ◌+◌, ◌-◌, ◌<◌, ◌≤◌, ◌^◌, ◌≡◌, refl, ap, ◌∙◌, Bool, true, false, Option, none, some, List, ◌++◌,
  arith, length, slice, write, length-write, leb, lt→leb, le→leb, lt-cases, inl, inr, if◌then◌else◌,
  ◌==◌, ==_iff, read_at,
}
use wsclient.Base.Word.{sub32}
use wsclient.FastXor.{Key, xor_loop}
use wsclient.FastXor.Bytewise.{IsKey}
use wsclient.SimpleBuffer.{SimpleBuffer, get_data, get_size, add_buffer}
use wsclient.SimpleBuffer.Invariant.{IsAllocator, IsValid, length-get_data, get_size_lem}
use wsclient.SimpleBuffer.Grow.{can_fit}
use wsclient.SimpleBuffer.Queue.{extended, extended_lem, add_buffer-free, add_buffer_refused}
use wsclient.Frame.{frame_header, expected_header_len}
use wsclient.Frame.RoundTrip.{length-frame_header}
use wsclient.Frame.Wire.{frame_header-IsBytes}
use wsclient.WebSocket.{Platform}
use wsclient.WebSocket.Send.{xor_in_place, queue_frame}
use wsclient.WebSocket.Send.Mask.{xor_in_place_lem}
use wsclient.WebSocket.Send.Queue.{queue_frame_plain, queue_frame_masked}

-- What becomes of the queued bytes when `n` bytes of a message are missing behind them: without a
-- mask they stay; with one, their last `n` bytes are changed by the key; with fewer than `n` bytes
-- there is no such place.
abbrev pub garbled : Bool → Key → ℕ → List ℕ → Option (List ℕ)
garbled false key n queued = some queued
garbled true key n queued =
    let off = length queued - n in
    if leb n (length queued)
    then some (write queued off (xor_loop key 0 (slice off n queued)))
    else none

abbrev pub content_of : Option SimpleBuffer → Option (List ℕ)
content_of none = none
content_of (some b) = some (get_data b)

-- A place behind the block is not read.
xor_in_place-outside :
    (p : Platform) (b : SimpleBuffer) (off n : ℕ) (key : Key)
    → length b.buffer < b.start_loc + off + n
    → xor_in_place p b off n key ≡ none
unfolding xor_in_place read_at
xor_in_place-outside p b off n key h = rw (lt→leb _ _ h)

-- The buffer with the header alone.
abbrev pub headed : SimpleBuffer → ℕ → ℕ → Bool → Key → SimpleBuffer
headed b type n m key = let header = frame_header type n m key in extended b header (length header)

masked_end :
    (p : Platform) {b : SimpleBuffer} (n : ℕ) (key : Key)
    → IsKey key
    → IsValid b
    → length b.buffer < 2 ^ 31
    → n < 2 ^ 31
    → content_of (xor_in_place p b (sub32 (get_size b) n) n key) ≡ garbled true key n (get_data b)
masked_end p {b} n key k v block small = elim (lt-cases (get_size b) n) [
  | inr there ↦
      let off = length (get_data b) - n in
      let place : sub32 (get_size b) n ≡ off = omega (arith, length-get_data v, get_size_lem v) in
      let (b', run, masked) = xor_in_place_lem p off n key k v (omega (arith, length-get_data v)) in
      let fits : leb n (length (get_data b)) ≡ true =
        le→leb _ _ (omega (arith, length-get_data v)) in
      rw fits
        (ap content_of (ap (λ t. xor_in_place p b t n key) place ∙ run) ∙ ap some masked.content)
  | inl missing ↦
      let short : leb n (length (get_data b)) ≡ false =
        lt→leb _ _ (omega (arith, length-get_data v)) in
      rw short (
        ap content_of
          (xor_in_place-outside p b (sub32 (get_size b) n) n key (omega (arith, get_size_lem v))))
]

-- With an allocator that succeeds, for a four-bit opcode, a key of four bytes and a message of fewer
-- than 2 ^ 31 bytes, on a valid transmit buffer in a block of fewer than 2 ^ 31 bytes that has room
-- for the header of the message behind its content but cannot then take the message (not behind that,
-- not by moving the content to the front, not by growing up to its limit): what the buffer contains
-- afterwards is the old content, with the header of a whole frame behind it and no byte of the
-- message. With a mask, as many of these bytes as the message has, counted from their end, are masked
-- in its place; and when there are fewer than that, the masking begins outside of the buffer, and the
-- call is undefined.
pub queue_frame-refused :
    (p : Platform) (b : SimpleBuffer) (type : ℕ) (key : Key) (msg : List ℕ) (m : Bool)
    → IsAllocator p.malloc
    → type < 16
    → IsKey key
    → IsValid b
    → length b.buffer < 2 ^ 31
    → length msg < 2 ^ 31
    → b.end_loc + expected_header_len (length msg) m ≤ b.max_len
    → can_fit (headed b type (length msg) m key) (length msg) ≡ false
    → content_of (queue_frame p b type (some msg) (length msg) m key)
      ≡ garbled m key (length msg) (get_data b ++ frame_header type (length msg) m key)
queue_frame-refused p b type key msg m a ht k v block small room full =
    let n = length msg in
    let header = frame_header type n m key in
    let len = length-frame_header type n m key in
    let (v1, content) =
      extended_lem header (length header) v (frame_header-IsBytes type n m key ht k) refl
        (omega (arith, len)) in
    let e = add_buffer-free p.malloc header v (omega (arith, len)) in
    let f = add_buffer_refused p.malloc msg a v1 small full in
    by_mask m v1 e f ((==_iff _ _).1 len) ∙ ap (garbled m key n) content
  where
    by_mask :
        (m : Bool)
        → IsValid (headed b type (length msg) m key)
        → add_buffer p.malloc b
            (some (frame_header type (length msg) m key))
            (length (frame_header type (length msg) m key))
          ≡ some (true, headed b type (length msg) m key)
        → add_buffer p.malloc (headed b type (length msg) m key) (some msg) (length msg)
          ≡ some (false, headed b type (length msg) m key)
        → (length (frame_header type (length msg) m key) == expected_header_len (length msg) m)
          ≡ true
        → content_of (queue_frame p b type (some msg) (length msg) m key)
          ≡ garbled m key (length msg) (get_data (headed b type (length msg) m key))
    by_mask false v1 e f same =
        ap content_of (queue_frame_plain p b type msg key (omega arith) same e f)
    by_mask true v1 e f same =
        let header = frame_header type (length msg) true key in
        ap content_of (queue_frame_masked p b type msg key (omega arith) same e f)
        ∙ masked_end p (length msg) key k v1 (omega (arith, length-write b.buffer b.end_loc header))
            small
