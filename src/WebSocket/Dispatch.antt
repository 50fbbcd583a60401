-- ===== src/WebSocket/Dispatch.antt =====
-- `_dispatchBinary` of `WebSocketImpl`: the frames in the receive buffer become messages.
pub mod Stall
pub mod Ping
pub mod Stream
pub mod Fragments
pub mod Place
pub mod Progress
pub mod Ends
pub mod Deliver
use wsclient.Base.{
  ℕ, zero, suc, ◌+◌, Bool, true, false, Option, none, some, List, [], ◌∷◌, ◌++◌, ltb, ◌==◌, ◌&&◌,
  ◌||◌, if◌then◌else◌, ◌>>=◌, ◌>>◌, read_at, length, not,
}
use wsclient.Base.Word.{u32, add32}
use wsclient.SimpleBuffer.{SimpleBuffer, get_size, get_data, add_buffer, consume, clear}
use wsclient.Frame.{
  Header, parse_header, frame_size, continuation, text_frame, binary_frame, close_frame, ping, pong,
}
use wsclient.WebSocket.{WebSocket, LogEntry, Platform, Event, receive_message}
use wsclient.WebSocket.Send.{xor_in_place, send_data, close}

-- Whether a loop goes on.
pub data Turn : Type 0 where
  again stop : Turn

unfoldable pub log_receive : WebSocket → List ℕ → WebSocket
log_receive w bytes = elim w.log_file [
  | none ↦ w
  | some entries ↦
      let count = add32 w.receive_count 1 in
      record w {
        receive_count = count;
        log_file = some (entries ++ (LogEntry.received count bytes ∷ []));
      }
]

unfoldable pub unmask : Platform → WebSocket → Header → Option WebSocket
unmask p w header =
    if header.mask
    then (do
      b ← xor_in_place p w.receive_buffer header.header_size (u32 header.n) header.masking_key
      some (record w { receive_buffer = b }))
    else some w

-- `data + ws.header_size`, for `uint32_t(ws.N)` bytes
unfoldable pub payload : WebSocket → Header → Option (List ℕ)
payload w header =
    read_at w.receive_buffer.buffer (w.receive_buffer.start_loc + header.header_size) (u32 header.n)

unfoldable pub consume_frame : WebSocket → Header → Option WebSocket
consume_frame w header = do
  b ← consume w.receive_buffer (frame_size header)
  some (record w { receive_buffer = b })

-- A whole message goes to the callback. One in parts is put together in `mReceivedData` first.
unfoldable pub deliver : Platform → WebSocket → Header → List ℕ → Option (WebSocket × List Event)
deliver p w header bytes =
    let is_text = header.opcode == text_frame in
    if header.fin && get_size w.received_data == 0
    then some (log_receive w bytes, receive_message bytes is_text ∷ [])
    else (do
      (added, b) ← add_buffer p.malloc w.received_data (some bytes) (u32 header.n)
      some (
          if header.fin
          then (if get_size b == 0 then (record w { received_data = clear b }, []) else (
            record (log_receive w (get_data b)) { received_data = clear b },
            receive_message (get_data b) is_text ∷ [],
          ))
          else (record w { received_data = b }, [])))

unfoldable pub data_frame : Platform → WebSocket → Header → Option (Turn × WebSocket × List Event)
data_frame p w header = do
  w1 ← unmask p w header
  bytes ← payload w1 header
  (w2, events) ← deliver p w1 header bytes
  w3 ← consume_frame w2 header
  some (again, w3, events)

unfoldable pub ping_frame :
    Platform → WebSocket → Header → ℕ → Option (Turn × WebSocket × List Event)
ping_frame p w header seed = do
  w1 ← unmask p w header
  message ← if header.n == 0 then some none else (do bytes ← payload w1 header; some (some bytes))
  w2 ← send_data p w1 pong message header.n seed
  w3 ← consume_frame w2 header
  some (again, w3, [])

unfoldable pub is_data : ℕ → Bool
is_data opcode = opcode == text_frame || (opcode == binary_frame || opcode == continuation)

-- One round of the loop on a header that was read.
unfoldable pub handle_frame :
    Platform → WebSocket → Header → ℕ → Option (Turn × WebSocket × List Event)
handle_frame p w header seed =
    if is_data header.opcode
    then data_frame p w header
    else if header.opcode == ping
    then ping_frame p w header seed
    else if header.opcode == pong
    then (do w' ← consume_frame w header; some (again, w', []))
    else (do w' ← close p w; some (stop, w', []))

unfoldable pub dispatch_round : Platform → WebSocket → ℕ → Option (Turn × WebSocket × List Event)
dispatch_round p w seed =
    let bytes = get_data w.receive_buffer in
    elim (parse_header bytes) [
      | none ↦ some (stop, w, [])
      | some header ↦
          if ltb (length bytes) (frame_size header)
          then some (stop, w, [])
          else handle_frame p w header seed
    ]

-- The loop, for at most as many rounds as the fuel says; a last turn `again` says that the fuel ran
-- out. The seeds are the times that `getRandomTime` returns.
unfoldable pub dispatch_binary :
    ℕ → Platform → WebSocket → (ℕ → ℕ) → Option (Turn × WebSocket × List Event)
dispatch_binary zero p w seeds = some (again, w, [])
dispatch_binary (suc fuel) p w seeds = do
  (turn, w', events) ← dispatch_round p w (seeds fuel)
  elim turn [
    | stop ↦ some (stop, w', events)
    | again ↦ (do
      (turn', w'', events') ← dispatch_binary fuel p w' seeds
      some (turn', w'', events ++ events'))
  ]
