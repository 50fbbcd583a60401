-- ===== src/WebSocket/Poll.antt =====
-- `poll` of `WebSocketImpl`: what the socket has is read, what is queued is sent, and the frames
-- are dispatched. The results of the socket's calls are given as lists, in order; where a list
-- ends, the socket would block.
pub mod Transmit
pub mod Receipt
pub mod Messages
pub mod Sending
mod Tests
use wsclient.Base.{
  ℕ, ◌+◌, Bool, true, false, Option, none, some, List, [], ◌∷◌, ◌++◌, ltb, leb, ◌==◌, if◌then◌else◌,
  ◌>>=◌, ◌>>◌, require, write_at, length, take, not,
}
use wsclient.SimpleBuffer.{SimpleBuffer, get_size, get_data, add_buffer, consume, confirm_capacity}
use wsclient.WebSocket.{
  WebSocket, ReadyState, closing, closed, connecting, opened, Platform, Event, socket_send,
  socket_close, null_select, default_max_read_size,
}
use wsclient.WebSocket.Dispatch.{Turn, again, stop, dispatch_binary}
use wsclient.WebSocket.Connection.{process_connection}

-- `receive` returned bytes, or it would block or is in progress, or it failed otherwise, or 0.
pub data Receive : Type 0 where
  got : List ℕ → Receive
  wait failed ended : Receive

-- The same of `send`, which took a number of bytes.
pub data Send : Type 0 where
  took : ℕ → Send
  wait failed ended : Send

-- `mSocket->close(); mReadyState = CLOSED;`
unfoldable pub close_socket : WebSocket → WebSocket
close_socket w = record w { ready_state = closed }

-- The socket wrote its bytes at the place that `confirmCapacity` returned.
unfoldable pub store_received : Platform → SimpleBuffer → ℕ → List ℕ → Option SimpleBuffer
store_received p b place bytes = do
  require (leb (length bytes) default_max_read_size)
  buffer ← write_at b.buffer place bytes
  (added, b') ← add_buffer p.malloc (record b { buffer = buffer }) none (length bytes)
  some b'

unfoldable pub receive_round :
    Platform → WebSocket → Receive → Option (Turn × WebSocket × List Event)
receive_round p w result = do
  (place, b) ← confirm_capacity p.malloc w.receive_buffer default_max_read_size
  let w' : WebSocket = record w { receive_buffer = b }
  elim place [
    | none ↦ some (stop, w', [])
    | some at ↦ elim result [
      | got bytes ↦ (do
        b' ← store_received p b at bytes
        some (again, record w' { receive_buffer = b' }, []))
      | wait ↦ some (stop, w', [])
      | failed ↦ some (stop, close_socket w', socket_close ∷ [])
      | ended ↦ some (stop, close_socket w', socket_close ∷ [])
    ]
  ]

unfoldable pub receive_loop : Platform → WebSocket → List Receive → Option (WebSocket × List Event)
receive_loop p w [] = do (turn, w', events) ← receive_round p w Receive.wait; some (w', events)
receive_loop p w (result ∷ results) = do
  (turn, w', events) ← receive_round p w result
  elim turn [
    | stop ↦ some (w', events)
    | again ↦ (do (w'', events') ← receive_loop p w' results; some (w'', events ++ events'))
  ]

unfoldable pub transmit_round : WebSocket → Send → Option (Turn × WebSocket × List Event)
transmit_round w result = elim result [
  | took n ↦ (do
    b ← consume w.transmit_buffer n
    some (
      again,
      record w { transmit_buffer = b },
      socket_send (take n (get_data w.transmit_buffer)) ∷ [],
    ))
  | wait ↦ some (stop, w, [])
  | failed ↦ some (stop, close_socket w, socket_close ∷ [])
  | ended ↦ some (stop, close_socket w, socket_close ∷ [])
]

unfoldable pub transmit_loop : WebSocket → List Send → Option (WebSocket × List Event)
transmit_loop w [] = some (w, [])
transmit_loop w (result ∷ results) =
    let round = do
      (turn, w', events) ← transmit_round w result
      elim turn [
        | stop ↦ some (w', events)
        | again ↦ (do (w'', events') ← transmit_loop w' results; some (w'', events ++ events'))
      ]
    in if get_size w.transmit_buffer == 0 then some (w, []) else round

unfoldable pub is_closed : ReadyState → Bool
is_closed closed = true
is_closed closing = false
is_closed connecting = false
is_closed opened = false

-- After the transmit loop: the close that was asked for happens once everything is sent.
unfoldable pub finish_close : WebSocket → WebSocket × List Event
finish_close w = elim w.ready_state [
  | closing ↦
      if get_size w.transmit_buffer == 0 then (close_socket w, socket_close ∷ []) else (w, [])
  | _ ↦ (w, [])
]

-- What the world does during one `poll`: the time, the byte of the handshake, the results of the
-- socket, the times that masking keys are made of, and the fuel of the dispatch loop.
pub record World : Type 0 where
  pub now : ℕ
  pub byte : Option ℕ
  pub receives : List Receive
  pub sends : List Send
  pub seeds : ℕ → ℕ
  pub fuel : ℕ

-- `poll` of a connection that is open or closing; `callback` says whether there is one.
unfoldable pub poll_open :
    Platform → WebSocket → Bool → World → Option (Turn × WebSocket × List Event)
poll_open p w callback world = do
  (w1, events1) ← receive_loop p w world.receives
  (if is_closed w1.ready_state then some (stop, w1, events1) else (do
    (w2, events2) ← transmit_loop w1 world.sends
    (if is_closed w2.ready_state
        then some (stop, w2, events1 ++ events2)
        else (let (w3, events3) = finish_close w2 in
            if callback
            then (do
              (turn, w4, events4) ← dispatch_binary world.fuel p w3 world.seeds
              some (turn, w4, events1 ++ (events2 ++ (events3 ++ events4))))
            else some (stop, w3, events1 ++ (events2 ++ events3))))))

unfoldable pub poll :
    Platform → WebSocket → Bool → ℕ → World → Option (Turn × WebSocket × List Event)
poll p w callback timeout world =
    let connection = do
      (w', events) ← process_connection w world.now world.byte
      some (stop, w', events)
    in let active = poll_open p w callback world in
      if not w.socket then some (stop, w, []) else elim w.ready_state [
        | connecting ↦ connection
        | closed ↦ some (stop, w, if timeout == 0 then [] else null_select timeout ∷ [])
        | closing ↦ active
        | opened ↦ active
      ]
