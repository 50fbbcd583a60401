-- ===== src/WebSocket.antt =====
-- The state of `WebSocketImpl` (ext/easywsclient/easywsclient.cpp), what the machine and the
-- network give it, and its two constructors' common part.
pub mod Send
pub mod Dispatch
pub mod Connection
pub mod Poll
pub mod EndToEnd
pub mod Client
pub mod Destroy
pub mod Handshake
pub mod LogText
pub mod Samples
mod Tests
use wsclient.Base.{ℕ, ◌*◌, ◌+◌, Bool, true, false, Option, none, some, List, [], Block, replicate}
use wsclient.SimpleBuffer.{SimpleBuffer, create, get_max_buffer_size, get_size}
use wsclient.Base.Word.{add32}

-- `ReadyStateValues`; `OPEN` is `opened`.
pub data ReadyState : Type 0 where
  closing closed connecting opened : ReadyState

pub data ConnectionPhase : Type 0 where
  http_status hconnection_upgrade hsec_websocket_accept : ConnectionPhase
  hserver_websocket hupgrade_websocket h server_client_strings : ConnectionPhase

-- One message in the log file, with its number.
pub data LogEntry : Type 0 where
  received sent : ℕ → List ℕ → LogEntry

pub record WebSocket : Type 0 where
  pub receive_buffer : SimpleBuffer
  pub transmit_buffer : SimpleBuffer
  pub received_data : SimpleBuffer
  pub socket : Bool
  pub ready_state : ReadyState
  pub use_mask : Bool
  pub is_server_client : Bool
  pub send_count : ℕ
  pub receive_count : ℕ
  pub log_file : Option (List LogEntry)
  pub connection_index : ℕ
  pub connection_buffer : Block
  pub connection_timer : ℕ
  pub connection_phase : ConnectionPhase

-- What a call does outside of the object: a call of the callback with a message and whether it is
-- text, bytes handed to the socket, and the other calls of the socket.
pub data Event : Type 0 where
  receive_message : List ℕ → Bool → Event
  socket_send : List ℕ → Event
  socket_close socket_release disable_nagles_algorithm : Event
  null_select : ℕ → Event

-- The allocator, the byte order, and the address at which a buffer's content stands.
pub record Platform : Type 0 where
  pub malloc : ℕ → Block
  pub big_endian : Bool
  pub address : SimpleBuffer → ℕ

abbrev pub default_transmit_buffer_size : ℕ
default_transmit_buffer_size = 1024 * 16

abbrev pub default_receive_buffer_size : ℕ
default_receive_buffer_size = 1024 * 16

abbrev pub default_max_read_size : ℕ
default_max_read_size = 1024 * 4

abbrev pub default_maximum_buffer_size : ℕ
default_maximum_buffer_size = 1024 * 1024 * 512

-- The object for a connection that a server has accepted, at time `now`.
unfoldable pub create_server_client : Platform → Bool → ℕ → WebSocket
create_server_client p use_mask now = record {
  receive_buffer = create p.malloc default_receive_buffer_size default_maximum_buffer_size;
  transmit_buffer = create p.malloc default_transmit_buffer_size default_maximum_buffer_size;
  received_data = create p.malloc default_receive_buffer_size default_maximum_buffer_size;
  socket = true;
  ready_state = ReadyState.connecting;
  use_mask = use_mask;
  is_server_client = true;
  send_count = 0;
  receive_count = 0;
  log_file = none;
  connection_index = 0;
  connection_buffer = replicate 256 0;
  connection_timer = now;
  connection_phase = ConnectionPhase.http_status;
}

unfoldable pub get_memory_usage : WebSocket → ℕ
get_memory_usage w =
    add32 (add32 (get_max_buffer_size w.transmit_buffer) (get_max_buffer_size w.receive_buffer))
      (get_max_buffer_size w.received_data)

unfoldable pub get_transmit_buffer_size : WebSocket → ℕ
get_transmit_buffer_size w = get_size w.transmit_buffer

unfoldable pub get_transmit_buffer_max_size : WebSocket → ℕ
get_transmit_buffer_max_size w = get_max_buffer_size w.transmit_buffer
