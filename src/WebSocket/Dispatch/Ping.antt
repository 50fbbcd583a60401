-- ===== src/WebSocket/Dispatch/Ping.antt =====
-- A PING that a peer sent is answered.
use wsclient.Base.{
  ℕ, ◌+◌, ◌<◌, ◌≡◌, refl, sym, ap, ◌∙◌, Bool, false, some, List, [], ◌++◌, arith, length, drop,
  ◌==◌, length-append, drop-append_length, append_assoc, Option-cases, inl, inr,
}
use wsclient.Base.Word.{IsBytes}
use wsclient.FastXor.{Key}
use wsclient.FastXor.Bytewise.{IsKey}
use wsclient.SimpleBuffer.{SimpleBuffer, get_data, consume}
use wsclient.SimpleBuffer.Invariant.{IsValid, length-get_data, consume_lem}
use wsclient.Frame.{frame_header, frame_size, expected_header_len, parse_header, ping, pong}
use wsclient.Frame.RoundTrip.{sent_header, parse_header-frame_header, length-frame_header}
use wsclient.Frame.Wire.{on_wire, wire_frame, length-on_wire}
use wsclient.WebSocket.{WebSocket, Platform}
use wsclient.WebSocket.Send.{is_closing, log_send, send_data}
use wsclient.WebSocket.Send.Queue.{HasRoom, Queued}
use wsclient.WebSocket.Send.Message.{queued, key_of, send_data_lem}
use wsclient.WebSocket.Dispatch.{
  again, is_data, unmask, payload, consume_frame, ping_frame, handle_frame, dispatch_round,
}
use wsclient.WebSocket.Dispatch.Deliver.{
  unmask_lem, payload_lem, small_frame, consume_run, frame_size_lem, dispatch_round_whole,
}

queued-receive_buffer :
    (w : WebSocket) (msg : List ℕ) (b : SimpleBuffer)
    → (queued w msg b).receive_buffer ≡ w.receive_buffer
unfolding log_send
queued-receive_buffer w msg b = elim (Option-cases w.log_file) [
  | inl e ↦ rw e
  | inr (entries, e) ↦ rw e
]

-- The frame at the front of the receive buffer goes.
consume_front :
    (w : WebSocket) {b : SimpleBuffer} (type : ℕ) (m : Bool) (key : Key) (msg rest : List ℕ)
    → w.receive_buffer ≡ b
    → IsValid b
    → let header = frame_header type (length msg) m key in
      get_data b ≡ header ++ (msg ++ rest)
      → (b' : SimpleBuffer) × (consume_frame w (sent_header type (length msg) m key)
          ≡ some (record w { receive_buffer = b' }))
        × IsValid b'
        × (get_data b' ≡ rest)
consume_front w {b} type m key msg rest same v e =
    let n = length msg in
    let header = frame_header type n m key in
    let size = expected_header_len n m in
    let header_len : length header ≡ size = length-frame_header type n m key in
    let (fits, small) = small_frame header msg rest v e in
    let total = frame_size_lem type n m key (omega arith) in
    let (b', run, left) = consume_lem (size + n) v (omega arith) in
    (
      b',
      consume_run w type m key n (
          ap (λ t. consume t (frame_size (sent_header type n m key))) same
          ∙ ap (consume b) total
          ∙ run),
      left.valid,
      left.rest
          ∙ ap (drop (size + n)) (e ∙ sym (append_assoc header msg rest))
          ∙ drop-append_length (header ++ msg) rest (size + n)
              (omega (arith, length-append header msg)),
    )

ping_frame_run :
    (p : Platform) (w : WebSocket) (n : ℕ) (m : Bool) (key : Key) (msg : List ℕ) (seed : ℕ)
    {w1 w2 w3 : WebSocket}
    → let header = sent_header ping n m key in
      (n == 0) ≡ false
      → unmask p w header ≡ some w1
      → payload w1 header ≡ some msg
      → send_data p w1 pong (some msg) n seed ≡ some w2
      → consume_frame w2 header ≡ some w3
      → ping_frame p w header seed ≡ some (again, w3, [])
unfolding ping_frame
ping_frame_run p w n m key msg seed some_bytes e f g h = rw (e, some_bytes, f, g, h)

handle_frame-ping :
    (p : Platform) (w : WebSocket) (n : ℕ) (m : Bool) (key : Key) (seed : ℕ)
    → handle_frame p w (sent_header ping n m key) seed
      ≡ ping_frame p w (sent_header ping n m key) seed
unfolding handle_frame is_data
handle_frame-ping p w n m key seed = refl

-- One round on a valid receive buffer that begins with a whole PING frame with a payload, masked or
-- not, of a socket that is not closing and whose valid transmit buffer has room for the answer
-- behind its content: the round is defined and the loop goes on without a message for the callback;
-- a PONG frame with the same payload stands behind the old content of the transmit buffer, masked
-- with the key of the time exactly if the socket masks; and the receive buffer stays valid and
-- holds what came after the frame.
pub dispatch_round-ping :
    (p : Platform) (w : WebSocket) (m : Bool) (key : Key) (msg rest : List ℕ) (seed : ℕ)
    → 0 < length msg
    → IsKey key
    → IsBytes msg
    → IsValid w.receive_buffer
    → IsValid w.transmit_buffer
    → is_closing w.ready_state ≡ false
    → HasRoom w.transmit_buffer (length msg) w.use_mask
    → get_data w.receive_buffer ≡ wire_frame ping m key msg ++ rest
    → (w' : WebSocket) × (dispatch_round p w seed ≡ some (again, w', []))
      × Queued w.transmit_buffer pong w.use_mask (key_of p seed) msg w'.transmit_buffer
      × IsValid w'.receive_buffer
      × (get_data w'.receive_buffer ≡ rest)
dispatch_round-ping p w m key msg rest seed some_bytes k h v vt alive room e =
    let n = length msg in
    let header = frame_header ping n m key in
    let wire = on_wire m key msg in
    let e' = e ∙ append_assoc header wire rest in
    let (fits, small) = small_frame header wire rest v e' in
    let wire_len = length-on_wire m key msg in
    let header_len = length-frame_header ping n m key in
    let (b1, unmasked, v1, e1) = unmask_lem p w ping m key msg rest k h v e' in
    let w1 : WebSocket = record w { receive_buffer = b1 } in
    let (bt, sent, q) = send_data_lem p w1 pong msg seed (omega arith) h alive vt room in
    let w2 = queued w1 msg bt in
    let (b2, consumed, v2, e2) =
      consume_front w2 ping m key msg rest (queued-receive_buffer w1 msg bt) v1 e1 in
    let total = frame_size_lem ping n m key (omega arith) in
    (
      record w2 { receive_buffer = b2 },
      dispatch_round_whole p w (sent_header ping n m key) seed
            (ap parse_header e'
              ∙ parse_header-frame_header ping n m key (wire ++ rest) (omega arith) (omega arith))
            (omega (arith, length-get_data v))
          ∙ handle_frame-ping p w n m key seed
          ∙ ping_frame_run p w n m key msg seed (ground arith) unmasked
              (payload_lem w1 ping m key msg rest v1 e1) sent consumed,
      q,
      v2,
      e2,
    )
