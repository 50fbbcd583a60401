-- ===== src/TestClient/Tests.antt =====
-- The theorems on TestClient.cpp at concrete inputs.
use wsclient.WebSocket.Samples.{platform, platform-IsAllocator, create_valid}
use wsclient.Base.{
  ℕ, ◌<◌, ◌≡◌, ◌++◌, refl, Bool, true, false, some, none, List, [], ◌∷◌, arith, not,
}
use wsclient.Base.Text.{codes, c_string, same_bytes}
use wsclient.SimpleBuffer.{create, get_data, get_size}
use wsclient.FastXor.{key_at, xor_loop}
use wsclient.Frame.{frame_header, length_bytes, key_bytes, expected_header_len}
use wsclient.WebSocket.{
  WebSocket, Event, opened, create_server_client, socket_close, socket_release,
  default_receive_buffer_size, default_transmit_buffer_size,
}
use wsclient.WebSocket.Send.{get_masking_key, close_bytes}
use wsclient.WebSocket.Dispatch.{stop}
use wsclient.WebSocket.Poll.{Receive, Send, World}
use wsclient.WebSocket.Poll.Transmit.{bytes_sent}
use wsclient.WebSocket.Poll.Sending.{pieces}
use wsclient.WebSocket.Destroy.{Pass}
use wsclient.TestServer.{ClientConnection, get_message}
use wsclient.TestClient.{Round, is_exit, client_round, run}
use wsclient.TestClient.Line.{IsIdle, IsTyped, line_frame, chat_line}
use wsclient.TestClient.Quit.{run_quit}

-- A connection that masks or not, and an object of the server that holds one.
abbrev connection : Bool → WebSocket
connection use_mask = record (create_server_client platform use_mask 0) { ready_state = opened }

abbrev friend : ClientConnection
friend = record { have_message = false; message = []; client = some (connection true); id = 1 }

connection-IsIdle : (size : ℕ) → size < 1000 → IsIdle (connection true) size
unfolding create_server_client create get_data get_size
connection-IsIdle size h = record {
  connected = refl;
  open_state = refl;
  readable = create_valid default_receive_buffer_size (omega arith);
  room = omega arith;
  nothing_received = refl;
  no_part = refl;
  queue = create_valid default_transmit_buffer_size (omega arith);
  nothing_queued = refl;
}

abbrev round_for : List ℕ → List Send → Round
round_for str sends = record {
  typed = some str;
  seed = 0x04030201;
  world = record { now = 0; byte = none; receives = []; sends = sends; seeds = λ n. n; fuel = 1 };
}

abbrev pass_for : List Send → Pass
pass_for sends = record { world = (round_for [] sends).world; elapsed = 5 }

-- `bye`, whose frame has nine bytes.
bye-IsTyped :
    IsTyped platform
      (connection true)
      (codes "bye")
      (4 ∷ 5 ∷ [])
      (round_for (codes "bye") (Send.took 4 ∷ Send.took 5 ∷ []))
unfolding create_server_client create expected_header_len frame_header length_bytes key_bytes
    xor_loop key_at get_masking_key
bye-IsTyped = record {
  typed = refl;
  bytes = omega arith;
  fits = omega arith;
  silent = refl;
  fuel = omega arith;
  some_bytes = (omega arith, (omega arith, tt));
  taken = refl;
  whole = refl;
}

run_quit_example :
    run platform
      (connection true)
      (round_for (codes "bye") (Send.took 4 ∷ Send.took 5 ∷ []) ∷ [])
      (pass_for (Send.took 6 ∷ []) ∷ [])
    ≡ some (
      stop,
      pieces (4 ∷ 5 ∷ []) (line_frame platform (connection true) 0x04030201 (codes "bye"))
          ++ (pieces (6 ∷ []) close_bytes ++ (socket_close ∷ socket_release ∷ [])),
    )
unfolding create_server_client is_exit same_bytes
run_quit_example =
    run_quit platform (connection true) (codes "bye") (4 ∷ 5 ∷ []) (6 ∷ [])
      (round_for (codes "bye") (Send.took 4 ∷ Send.took 5 ∷ [])) [] (pass_for (Send.took 6 ∷ [])) []
      platform-IsAllocator (connection-IsIdle 0 (omega arith)) refl bye-IsTyped refl refl refl
      (omega arith, tt) refl

-- The masked frame of `bye` in two reads.
abbrev first_read : List ℕ
first_read = 0x81 ∷ 0x83 ∷ 1 ∷ 2 ∷ []

abbrev second_read : List ℕ
second_read = 3 ∷ 4 ∷ 99 ∷ 123 ∷ 102 ∷ []

abbrev arriving : World
arriving = record {
  now = 0;
  byte = none;
  receives = Receive.got first_read ∷ Receive.got second_read ∷ [];
  sends = [];
  seeds = λ n. n;
  fuel = 2;
}

chat_line_example :
    (w1 : WebSocket) × (events : List Event) × (client_round platform
        (connection true)
        (round_for (codes "bye") (Send.took 4 ∷ Send.took 5 ∷ []))
      ≡ some (stop, not (is_exit (codes "bye")), w1, events))
    × (bytes_sent events ≡ first_read ++ (second_read ++ []))
    × (c' : ClientConnection) × (get_message platform friend arriving
        ≡ some (stop, some (codes "bye"), c'))
unfolding c_string frame_header length_bytes key_bytes xor_loop key_at get_masking_key
    create_server_client
chat_line_example =
    chat_line platform platform (connection true) (connection true) (codes "bye") (4 ∷ 5 ∷ [])
      (round_for (codes "bye") (Send.took 4 ∷ Send.took 5 ∷ [])) friend arriving
      (first_read ∷ second_read ∷ []) (connection-IsIdle 0 (omega arith)) bye-IsTyped (omega arith)
      refl refl (connection-IsIdle 9 (omega arith))
      ((omega arith, omega arith), ((omega arith, omega arith), tt)) refl refl (omega arith)
