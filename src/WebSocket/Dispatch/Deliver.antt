-- ===== src/WebSocket/Dispatch/Deliver.antt =====
-- A frame that a peer's `sendData` wrote, at the front of the receive buffer, becomes its message.
use wsclient.Base.{
  Option-cases, inl, inr, ℕ, ◌+◌, ◌≤◌, ◌<◌, ◌^◌, ◌≡◌, refl, sym, ap, ◌∙◌, Bool, true, false, some,
  List, [], ◌∷◌, ◌++◌, arith, length, slice, write, drop, ◌==◌, length-append, slice_middle,
  write-append, write_front, drop-append_length, append_assoc, le→ltb, read_at,
}
use wsclient.Base.Word.{IsBytes, u32}
use wsclient.FastXor.{Key, xor_loop}
use wsclient.FastXor.Bytewise.{IsKey, xor_loop_twice, length-xor_loop}
use wsclient.SimpleBuffer.{SimpleBuffer, get_data, get_size, consume}
use wsclient.SimpleBuffer.Invariant.{IsValid, length-get_data, get_size_lem, consume_lem}
use wsclient.Frame.{Header, frame_header, frame_size, expected_header_len, parse_header, text_frame}
use wsclient.Frame.RoundTrip.{sent_header, parse_header-frame_header, length-frame_header}
use wsclient.Frame.Wire.{on_wire, wire_frame, length-on_wire}
use wsclient.WebSocket.{WebSocket, Platform, receive_message}
use wsclient.WebSocket.Send.{xor_in_place}
use wsclient.WebSocket.Send.Mask.{read_content, xor_in_place_lem}
use wsclient.WebSocket.Dispatch.{
  again, log_receive, unmask, payload, deliver, consume_frame, data_frame, is_data, handle_frame,
  dispatch_round,
}

expected_header_len-le : (size : ℕ) (m : Bool) → expected_header_len size m ≤ 14
unfolding expected_header_len
expected_header_len-le size m = ground arith

pub small_frame :
    {b : SimpleBuffer} (header wire rest : List ℕ)
    → IsValid b
    → get_data b ≡ header ++ (wire ++ rest)
    → (length header + length wire ≤ get_size b) × (get_size b < 2 ^ 30)
small_frame header wire rest v e =
    let n = ap length e ∙ length-append header (wire ++ rest) in
    let k = length-append wire rest in
    (
      omega (arith, n, k, length-get_data v),
      omega (arith, get_size_lem v, v.within, v.bounded, v.small),
    )

unmask_run :
    (p : Platform) (w : WebSocket) (type n : ℕ) (key : Key) {b : SimpleBuffer}
    → u32 n ≡ n
    → xor_in_place p w.receive_buffer (expected_header_len n true) n key ≡ some b
    → unmask p w (sent_header type n true key) ≡ some (record w { receive_buffer = b })
unfolding unmask
unmask_run p w type n key cut run = rw (cut, run)

-- What a masked or plain frame is after `unmask`.
pub unmask_lem :
    (p : Platform) (w : WebSocket) (type : ℕ) (m : Bool) (key : Key) (msg rest : List ℕ)
    → IsKey key
    → IsBytes msg
    → IsValid w.receive_buffer
    → let header = frame_header type (length msg) m key in
      get_data w.receive_buffer ≡ header ++ (on_wire m key msg ++ rest)
      → (b : SimpleBuffer) × (unmask p w (sent_header type (length msg) m key)
          ≡ some (record w { receive_buffer = b }))
        × IsValid b
        × (get_data b ≡ header ++ (msg ++ rest))
unfolding unmask
unmask_lem p w type false key msg rest k h v e = (w.receive_buffer, refl, v, e)
unmask_lem p w type true key msg rest k h v e =
    let header = frame_header type (length msg) true key in
    let size = expected_header_len (length msg) true in
    let n = length msg in
    let wire = xor_loop key 0 msg in
    let wire_len : length wire ≡ n = length-xor_loop key 0 msg in
    let header_len : length header ≡ size = length-frame_header type n true key in
    let (fits, small) = small_frame header wire rest v e in
    let cut : u32 n ≡ n = omega arith in
    let (b, run, masked) = xor_in_place_lem p size n key k v (omega arith) in
    let part : slice size n (get_data w.receive_buffer) ≡ wire =
      ap (slice size n) e ∙ slice_middle header wire rest size n (sym header_len) (sym wire_len) in
    let clear_text : xor_loop key 0 (slice size n (get_data w.receive_buffer)) ≡ msg =
      ap (xor_loop key 0) part ∙ xor_loop_twice key 0 msg k h in
    (
      b,
      unmask_run p w type n key cut run,
      masked.valid,
      masked.content
          ∙ ap (write (get_data w.receive_buffer) size) clear_text
          ∙ ap (λ t. write t size msg) e
          ∙ write-append header (wire ++ rest) size msg (sym header_len)
          ∙ ap (λ t. header ++ t) (write_front wire rest msg (sym wire_len)),
    )

pub payload_lem :
    (w : WebSocket) (type : ℕ) (m : Bool) (key : Key) (msg rest : List ℕ)
    → IsValid w.receive_buffer
    → let header = frame_header type (length msg) m key in
      get_data w.receive_buffer ≡ header ++ (msg ++ rest)
      → payload w (sent_header type (length msg) m key) ≡ some msg
unfolding payload
payload_lem w type m key msg rest v e =
    let header = frame_header type (length msg) m key in
    let size = expected_header_len (length msg) m in
    let n = length msg in
    let header_len : length header ≡ size = length-frame_header type n m key in
    let (fits, small) = small_frame header msg rest v e in
    let cut : u32 n ≡ n = omega arith in
    ap (read_at w.receive_buffer.buffer (w.receive_buffer.start_loc + size)) cut
    ∙ read_content size n v (omega arith)
    ∙ ap some (ap (slice size n) e ∙ slice_middle header msg rest size n (sym header_len) refl)

deliver_lem :
    (p : Platform) (w : WebSocket) (type : ℕ) (m : Bool) (key : Key) (msg : List ℕ)
    → get_size w.received_data ≡ 0
    → deliver p w (sent_header type (length msg) m key) msg
      ≡ some (log_receive w msg, receive_message msg (type == text_frame) ∷ [])
unfolding deliver
deliver_lem p w type m key msg e = rw e

pub consume_run :
    (w : WebSocket) (type : ℕ) (m : Bool) (key : Key) (n : ℕ) {b : SimpleBuffer}
    → consume w.receive_buffer (frame_size (sent_header type n m key)) ≡ some b
    → consume_frame w (sent_header type n m key) ≡ some (record w { receive_buffer = b })
unfolding consume_frame
consume_run w type m key n run = rw run

pub frame_size_lem :
    (type n : ℕ) (m : Bool) (key : Key)
    → n < 2 ^ 30
    → frame_size (sent_header type n m key) ≡ expected_header_len n m + n
unfolding frame_size
frame_size_lem type n m key h = omega (arith, expected_header_len-le n m)

-- The log does not look at the receive buffer.
log_receive-keeps :
    (w : WebSocket) (b : SimpleBuffer) (msg : List ℕ)
    → (log_receive (record w { receive_buffer = b }) msg).receive_buffer ≡ b
unfolding log_receive
log_receive-keeps w b msg = elim (Option-cases w.log_file) [
  | inl e ↦ rw e
  | inr (entries, e) ↦ rw e
]

log_receive-swap :
    (w : WebSocket) (b b' : SimpleBuffer) (msg : List ℕ)
    → record (log_receive (record w { receive_buffer = b }) msg) { receive_buffer = b' }
      ≡ record (log_receive w msg) { receive_buffer = b' }
unfolding log_receive
log_receive-swap w b b' msg = elim (Option-cases w.log_file) [
  | inl e ↦ rw e
  | inr (entries, e) ↦ rw e
]

-- The state behind a delivered message.
abbrev pub delivered : WebSocket → List ℕ → SimpleBuffer → WebSocket
delivered w msg b = record (log_receive w msg) { receive_buffer = b }

consume_step :
    (w : WebSocket) (b : SimpleBuffer) (type : ℕ) (m : Bool) (key : Key) (msg rest : List ℕ)
    → IsValid b
    → let header = frame_header type (length msg) m key in
      get_data b ≡ header ++ (msg ++ rest)
      → (b' : SimpleBuffer) × (consume_frame
            (log_receive (record w { receive_buffer = b }) msg)
            (sent_header type (length msg) m key)
          ≡ some (delivered w msg b'))
        × IsValid b'
        × (get_data b' ≡ rest)
consume_step w b type m key msg rest v e =
    let n = length msg in
    let header = frame_header type n m key in
    let size = expected_header_len n m in
    let header_len : length header ≡ size = length-frame_header type n m key in
    let (fits, small) = small_frame header msg rest v e in
    let total = frame_size_lem type n m key (omega arith) in
    let (b', run, left) = consume_lem (size + n) v (omega arith) in
    let same = log_receive-keeps w b msg in
    let w1 = log_receive (record w { receive_buffer = b }) msg in
    (
      b',
      consume_run w1 type m key n (
            ap (λ t. consume t (frame_size (sent_header type n m key))) same
            ∙ ap (consume b) total
            ∙ run)
          ∙ ap some (log_receive-swap w b b' msg),
      left.valid,
      left.rest
          ∙ ap (drop (size + n)) (e ∙ sym (append_assoc header msg rest))
          ∙ drop-append_length (header ++ msg) rest (size + n)
              (omega (arith, length-append header msg)),
    )

data_frame_run :
    (p : Platform) (w : WebSocket) (type : ℕ) (m : Bool) (key : Key) (msg : List ℕ)
    {b : SimpleBuffer} {w' : WebSocket}
    → let header = sent_header type (length msg) m key in
      let w1 : WebSocket = record w { receive_buffer = b } in
      unmask p w header ≡ some w1
      → payload w1 header ≡ some msg
      → deliver p w1 header msg
        ≡ some (log_receive w1 msg, receive_message msg (type == text_frame) ∷ [])
      → consume_frame (log_receive w1 msg) header ≡ some w'
      → data_frame p w header ≡ some (again, w', receive_message msg (type == text_frame) ∷ [])
unfolding data_frame
data_frame_run p w type m key msg e f g h = rw (e, f, g, h)

handle_frame_data :
    (p : Platform) (w : WebSocket) (type n : ℕ) (m : Bool) (key : Key) (seed : ℕ)
    → is_data type ≡ true
    → handle_frame p w (sent_header type n m key) seed ≡ data_frame p w (sent_header type n m key)
unfolding handle_frame
handle_frame_data p w type n m key seed e = rw e

pub dispatch_round_whole :
    (p : Platform) (w : WebSocket) (header : Header) (seed : ℕ)
    → parse_header (get_data w.receive_buffer) ≡ some header
    → frame_size header ≤ length (get_data w.receive_buffer)
    → dispatch_round p w seed ≡ handle_frame p w header seed
unfolding dispatch_round
dispatch_round_whole p w header seed f h =
    rw (dispatch_round, f, le→ltb (length (get_data w.receive_buffer)) (frame_size header) h)

-- One round on a receive buffer that begins with a whole data frame, masked or not, when no part of
-- a message waits: the round is defined and the loop goes on, the callback gets the unmasked
-- message, as text exactly for a text frame, the message is logged, and the buffer stays valid and
-- holds what came after the frame.
pub dispatch_round-wire_frame :
    (p : Platform) (w : WebSocket) (type : ℕ) (m : Bool) (key : Key) (msg rest : List ℕ) (seed : ℕ)
    → type < 16
    → is_data type ≡ true
    → IsKey key
    → IsBytes msg
    → IsValid w.receive_buffer
    → get_size w.received_data ≡ 0
    → get_data w.receive_buffer ≡ wire_frame type m key msg ++ rest
    → (b : SimpleBuffer) × (dispatch_round p w seed
        ≡ some (again, delivered w msg b, receive_message msg (type == text_frame) ∷ []))
      × IsValid b
      × (get_data b ≡ rest)
dispatch_round-wire_frame p w type m key msg rest seed ht hd k h v idle e =
    let n = length msg in
    let header = frame_header type n m key in
    let wire = on_wire m key msg in
    let e' = e ∙ append_assoc header wire rest in
    let (fits, small) = small_frame header wire rest v e' in
    let wire_len = length-on_wire m key msg in
    let header_len = length-frame_header type n m key in
    let (b1, unmasked, v1, e1) = unmask_lem p w type m key msg rest k h v e' in
    let (b2, consumed, v2, e2) = consume_step w b1 type m key msg rest v1 e1 in
    let total = frame_size_lem type n m key (omega arith) in
    (
      b2,
      dispatch_round_whole p w (sent_header type n m key) seed
            (ap parse_header e'
              ∙ parse_header-frame_header type n m key (wire ++ rest) ht (omega arith))
            (omega (arith, length-get_data v))
          ∙ handle_frame_data p w type n m key seed hd
          ∙ data_frame_run p w type m key msg unmasked
              (payload_lem (record w { receive_buffer = b1 }) type m key msg rest v1 e1)
              (deliver_lem p (record w { receive_buffer = b1 }) type m key msg idle) consumed,
      v2,
      e2,
    )
