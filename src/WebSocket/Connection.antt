-- ===== src/WebSocket/Connection.antt =====
-- `processConnection` of `WebSocketImpl`: the handshake, a byte for each call.
pub mod Bounds
pub mod Opens
pub mod Feed
pub mod Line
pub mod Opening
use wsclient.Base.{
  ℕ, zero, suc, ◌+◌, ◌-◌, Bool, true, false, Option, none, some, List, [], ◌∷◌, ltb, leb, ◌==◌,
  if◌then◌else◌, ◌>>=◌, Block, write_at, length, get_elem?, not,
}
use wsclient.Base.Text.{codes, line, same_bytes, skip_literal, skip_space, scan_int}
use wsclient.Base.Word.{add32}
use wsclient.WebSocket.{
  WebSocket, ReadyState, closed, connecting, opened, ConnectionPhase, http_status,
  hconnection_upgrade, hsec_websocket_accept, hserver_websocket, hupgrade_websocket, h,
  server_client_strings, Event, socket_send, socket_release, disable_nagles_algorithm,
}

-- In seconds.
abbrev pub connection_time_out : ℕ
connection_time_out = 60

-- `sscanf(line, "HTTP/1.1 %d", &status) == 1 && status == 101`
unfoldable pub is_switching : List ℕ → Bool
is_switching text = elim (skip_literal (codes "HTTP/1.1") text) [
  | none ↦ false
  | some rest ↦ elim (scan_int (skip_space rest)) [
    | none ↦ false
    | some (negative, status) ↦ if negative then false else status == 101
  ]
]

-- The strings that a server answers to the request of a client.
abbrev pub responses : List Event
responses =
    socket_send (line "HTTP/1.1 101 Switching Protocols")
    ∷ socket_send (line "HConnection: upgrade")
    ∷ socket_send (line "HSec-WebSocket-Accept: HSmrc0sMlYUkAGmm5OPpG2HaGWk=")
    ∷ socket_send (line "HServer: WebSocket++/0.7.0")
    ∷ socket_send (line "HUpgrade: websocket")
    ∷ socket_send (line "")
    ∷ []

-- The `switch` on the phase: whether the line was accepted, the new state and phase, and what was
-- sent.
pub record Step : Type 0 where
  pub ok : Bool
  pub state : ReadyState
  pub phase : ConnectionPhase
  pub events : List Event

-- Only the phase goes on.
abbrev go_to : ReadyState → ConnectionPhase → Step
go_to state phase = record { ok = true; state = state; phase = phase; events = [] }

unfoldable pub on_line : Bool → ReadyState → ConnectionPhase → List ℕ → Step
on_line is_server state server_client_strings text =
    if length text == 0
    then record {
      ok = true;
      state = opened;
      phase = server_client_strings;
      events = disable_nagles_algorithm ∷ [];
    }
    else go_to state server_client_strings
on_line is_server state http_status text =
    let refused : Step = record { ok = false; state = state; phase = http_status; events = [] } in
    if is_server
    then (if same_bytes text (codes "GET / HTTP/1.1")
        then record { ok = true; state = state; phase = server_client_strings; events = responses }
        else refused)
    else if is_switching text
    then go_to state hconnection_upgrade
    else refused
on_line is_server state hconnection_upgrade text = go_to state hsec_websocket_accept
on_line is_server state hsec_websocket_accept text = go_to state hserver_websocket
on_line is_server state hserver_websocket text = go_to state hupgrade_websocket
on_line is_server state hupgrade_websocket text = go_to state h
on_line is_server state h text = record {
  ok = true;
  state = opened;
  phase = h;
  events = disable_nagles_algorithm ∷ [];
}

-- The socket is given up.
unfoldable pub drop_socket : WebSocket → WebSocket
drop_socket w = record w { socket = false; ready_state = closed }

-- `line[i - 1]`: before the front of the block, or behind its end, there is nothing to read.
unfoldable pub read_before : Block → ℕ → Option ℕ
read_before m zero = none
read_before m (suc i) = get_elem? m i

-- `line[i - 1] = b`
unfoldable pub write_before : Block → ℕ → ℕ → Option Block
write_before m zero b = none
write_before m (suc i) b = write_at m i (b ∷ [])

-- A line feed: the line ends before it, and before a carriage return in front of it.
unfoldable pub end_line : Block → ℕ → Option Block
end_line buffer i = do
  cut ← write_at buffer i (0 ∷ [])
  (if ltb 0 i
      then (do last ← read_before cut i; (if last == 13 then write_before cut i 0 else some cut))
      else some cut)

-- The string in a block, for `strlen`, `strcmp` and `sscanf`: the bytes before the first zero. Without
-- a zero they read behind the block. (`end_line` has stored a zero before.)
unfoldable pub string_in : Block → Option (List ℕ)
string_in [] = none
string_in (x ∷ xs) =
    let rest = do text ← string_in xs; some (x ∷ text)
    in if x == 0 then some [] else rest

unfoldable pub take_line : WebSocket → ℕ → Option (WebSocket × List Event)
take_line w now = do
  buffer ← end_line w.connection_buffer w.connection_index
  text ← string_in buffer
  let step = on_line w.is_server_client w.ready_state w.connection_phase text
  let w' : WebSocket = record w {
    connection_buffer = buffer;
    connection_index = 0;
    ready_state = step.state;
    connection_phase = step.phase;
    connection_timer = now;
  }
  some (if step.ok then (w', step.events) else (drop_socket w', socket_release ∷ []))

unfoldable pub take_byte : WebSocket → ℕ → ℕ → Option (WebSocket × List Event)
take_byte w byte now = do
  buffer ← write_at w.connection_buffer w.connection_index (byte ∷ [])
  let w' : WebSocket = record w { connection_buffer = buffer }
  let next = add32 w.connection_index 1
  let longer : WebSocket = record w' { connection_index = next }
  (if byte == 10
      then take_line w' now
      else if next == 255
      then some (drop_socket longer, socket_release ∷ [])
      else some (longer, []))

-- The time in whole seconds, and the byte that the socket has, if it has one.
unfoldable pub process_connection : WebSocket → ℕ → Option ℕ → Option (WebSocket × List Event)
process_connection w now byte =
    if not w.socket
    then some (w, [])
    else if leb connection_time_out (now - w.connection_timer)
    then some (drop_socket w, socket_release ∷ [])
    else elim byte [ none ↦ some (w, []) | some b ↦ take_byte w b now ]
