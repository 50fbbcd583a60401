-- ===== src/WebSocket/Connection/Bounds.antt =====
-- The handshake stays inside of its line buffer, whatever the peer sends.
use wsclient.Base.{
  ℕ, ◌+◌, ◌≤◌, ◌<◌, ◌≡◌, true, Option, some, List, [], ◌∷◌, length, ◌==◌, if◌then◌else◌, Block,
  write, write_at_lem,
}
use wsclient.Base.Word.{add32}
use wsclient.WebSocket.{WebSocket, Event, socket_release}
use wsclient.WebSocket.Connection.{
  on_line, drop_socket, end_line, string_in, take_line, take_byte, Step,
}

-- The line buffer has its 256 bytes, and while there is a socket its index leaves room for one more
-- byte and the zero.
pub record InBounds (w : WebSocket) : Type 0 where
  pub stored : length w.connection_buffer ≡ 256
  pub room : w.socket ≡ true → w.connection_index < 255

-- A call that is defined and stays in bounds.
abbrev pub Bounded : Option (WebSocket × List Event) → Type 0
Bounded result = (r : WebSocket × List Event) × (result ≡ some r) × InBounds (r.0)

-- A block that is as large as the line buffer, with a string in it.
record IsLine (to : Block) : Type 0 where
  size : length to ≡ 256
  text : List ℕ
  string : string_in to ≡ some text

-- The states behind a line.
abbrev pub after_line : WebSocket → ℕ → Block → Step → WebSocket
after_line w now buffer step = record w {
  connection_buffer = buffer;
  connection_index = 0;
  ready_state = step.state;
  connection_phase = step.phase;
  connection_timer = now;
}

pub take_line_run :
    (w : WebSocket) (now : ℕ) {buffer : Block} {text : List ℕ} (step : Step)
    → end_line w.connection_buffer w.connection_index ≡ some buffer
    → string_in buffer ≡ some text
    → on_line w.is_server_client w.ready_state w.connection_phase text ≡ step
    → take_line w now
      ≡ some (
          if step.ok
          then (after_line w now buffer step, step.events)
          else (drop_socket (after_line w now buffer step), socket_release ∷ []))
unfolding take_line
take_line_run w now step e s f = rw (e, s, f)

-- The byte is stored, whatever it is.
abbrev pub stored_byte : WebSocket → ℕ → WebSocket
stored_byte w byte = record w {
  connection_buffer = write w.connection_buffer w.connection_index (byte ∷ []);
}

pub take_byte_run :
    (w : WebSocket) (byte now : ℕ)
    → w.connection_index + 1 ≤ length w.connection_buffer
    → let w' = stored_byte w byte in
      let longer : WebSocket = record w' { connection_index = add32 w.connection_index 1 } in
      take_byte w byte now ≡ (
        if byte == 10
        then take_line w' now
        else if add32 w.connection_index 1 == 255
        then some (drop_socket longer, socket_release ∷ [])
        else some (longer, []))
unfolding take_byte
take_byte_run w byte now h = rw (write_at_lem w.connection_buffer w.connection_index (byte ∷ []) h)
