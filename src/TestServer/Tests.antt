-- ===== src/TestServer/Tests.antt =====
-- The chat server at concrete inputs.
use wsclient.WebSocket.Samples.{platform, create_valid}
use wsclient.Base.{
  Bool-cases, ◌==◌, ◌+◌, if◌then◌else◌, Option, List, inl, ℕ, ◌<◌, ◌≡◌, refl, true, false, some,
  none, [], ◌∷◌, arith, inr,
}
use wsclient.Base.Text.{codes, c_string}
use wsclient.SimpleBuffer.Invariant.{IsValid}
use wsclient.SimpleBuffer.{SimpleBuffer, create, get_size, get_data}
use wsclient.FastXor.{key_at, xor_loop}
use wsclient.Frame.{expected_header_len, text_frame, frame_header, length_bytes, key_bytes}
use wsclient.WebSocket.{
  WebSocket, LogEntry, opened, closed, create_server_client, default_receive_buffer_size,
  default_transmit_buffer_size,
}
use wsclient.WebSocket.Send.{is_closing}
use wsclient.WebSocket.Dispatch.{stop, is_data}
use wsclient.WebSocket.Dispatch.Stream.{Message, IsMessage, heard}
use wsclient.WebSocket.Poll.{World, Receive, is_closed}
use wsclient.TestServer.{ClientConnection, is_connected, kill_lost, get_message}
use wsclient.TestServer.{on_input, echo_from}
use wsclient.TestServer.Silent.{Listens, IsSilent}
use wsclient.TestServer.Echo.{Speaks, Echoed, echo_from-Speaks}
use wsclient.TestServer.Input.{Handles, on_input_lem}
use wsclient.TestServer.Kill.{kill_lost_lem}
use wsclient.TestServer.Messages.{get_message_lem}
use wsclient.TestServer.Broadcast.{IsReady}

abbrev open_client : WebSocket
open_client = record (create_server_client platform false 0) { ready_state = opened }

abbrev live : ℕ → ClientConnection
live id = record {
  have_message = true;
  message = [];
  client = some (record (create_server_client platform false 0) { ready_state = opened });
  id = id;
}

abbrev dead : ℕ → ClientConnection
dead id = record (live id) {
  client =
      some
        (record (create_server_client platform false 0) { ready_state = closed; socket = false });
}

abbrev null : ClientConnection
null = record { have_message = false; message = []; client = none; id = 3 }

kill_lost_lem_example :
    kill_lost 3 platform (dead 1 ∷ live 2 ∷ null ∷ [])
    ≡ some (stop, dead 1 ∷ null ∷ [], [], live 2 ∷ [])
unfolding is_connected is_closed create_server_client
kill_lost_lem_example = kill_lost_lem 3 platform (dead 1 ∷ live 2 ∷ null ∷ []) (omega arith)

live-IsReady : (id : ℕ) → IsReady (codes "hi") (live id)
unfolding create_server_client is_closing create expected_header_len
live-IsReady id = inr (refl, create_valid default_transmit_buffer_size (omega arith), omega arith)

on_input_lem_example :
    Handles platform
      (codes "hi")
      (λ n. n)
      (live 1 ∷ null ∷ live 2 ∷ [])
      (on_input platform (live 1 ∷ null ∷ live 2 ∷ []) (some (codes "hi")) (λ n. n))
on_input_lem_example =
    on_input_lem platform (codes "hi") (live 1 ∷ null ∷ live 2 ∷ []) (λ n. n)
      (omega arith, (omega arith, tt)) (omega arith) (live-IsReady 1, (tt, (live-IsReady 2, tt)))

-- Two plain text frames, the second cut in two reads.
abbrev plain : ℕ → Message
plain byte = record {
  opcode = text_frame;
  masked = false;
  key = record { k0 = 0; k1 = 0; k2 = 0; k3 = 0 };
  bytes = byte ∷ [];
}

plain-IsMessage : (byte : ℕ) → byte < 256 → IsMessage (plain byte)
unfolding is_data
plain-IsMessage byte h = record {
  four_bits = omega arith;
  is_message = refl;
  key = omega arith;
  bytes = (omega arith, tt);
}

abbrev world : World
world = record {
  now = 0;
  byte = none;
  receives = Receive.got (0x81 ∷ 1 ∷ 65 ∷ 0x81 ∷ []) ∷ Receive.got (1 ∷ 66 ∷ []) ∷ [];
  sends = [];
  seeds = λ n. n;
  fuel = 3;
}

get_message_lem_example :
    (c' : ClientConnection) × (count : ℕ) × (entries : Option (List LogEntry)) × (b : SimpleBuffer)
    × (get_message platform (live 1) world ≡ some (stop, some (66 ∷ []), c'))
    × (c'.client ≡ some (heard open_client count entries b))
    × IsValid b
    × (get_data b ≡ [])
unfolding create_server_client create get_size get_data frame_header length_bytes key_bytes xor_loop
    key_at c_string
get_message_lem_example =
    get_message_lem platform (live 1) open_client world
      ((0x81 ∷ 1 ∷ 65 ∷ 0x81 ∷ []) ∷ (1 ∷ 66 ∷ []) ∷ []) (plain 65 ∷ plain 66 ∷ []) refl refl refl
      (inl refl) refl (create_valid default_receive_buffer_size (omega arith)) (omega arith)
      ((omega arith, omega arith), ((omega arith, omega arith), tt)) refl
      (plain-IsMessage 65 (omega arith), (plain-IsMessage 66 (omega arith), tt)) refl (omega arith)

-- The client between two others says `A` and `B`; the others say nothing.
abbrev quiet : World
quiet = record world { receives = [] }

abbrev worlds : ℕ → World
worlds j = if j == 1 then world else quiet

live-Listens : (id : ℕ) → Listens (live id)
unfolding create_server_client create get_size get_data
live-Listens id = (
  open_client,
  refl,
  record {
    connected = refl;
    open_state = refl;
    readable = create_valid default_receive_buffer_size (omega arith);
    room = omega arith;
    nothing_received = refl;
    no_part = refl;
  },
)

live-IsReady_text : (id : ℕ) → IsReady (66 ∷ []) (live id)
unfolding create_server_client create is_closing expected_header_len
live-IsReady_text id =
    inr (refl, create_valid default_transmit_buffer_size (omega arith), omega arith)

live-Speaks : Speaks (live 1) world (66 ∷ [])
unfolding create_server_client create get_size get_data frame_header length_bytes key_bytes xor_loop
    key_at c_string
live-Speaks = record {
  socket = open_client;
  client = refl;
  connected = refl;
  open_state = refl;
  readable = create_valid default_receive_buffer_size (omega arith);
  no_part = refl;
  chunks = (0x81 ∷ 1 ∷ 65 ∷ 0x81 ∷ []) ∷ (1 ∷ 66 ∷ []) ∷ [];
  messages = plain 65 ∷ plain 66 ∷ [];
  room = omega arith;
  cut = ((omega arith, omega arith), ((omega arith, omega arith), tt));
  reads = refl;
  no_send = refl;
  good = (plain-IsMessage 65 (omega arith), (plain-IsMessage 66 (omega arith), tt));
  whole = refl;
  fuel = omega arith;
  last = refl;
}

others-IsSilent : (j : ℕ) → (j ≡ 1 → ⊥) → IsSilent (worlds j)
others-IsSilent j h = elim (Bool-cases (j == 1)) [
  | inl e ↦ absurd (h (ground (arith, e)))
  | inr e ↦ rw e (record { no_read = refl; no_send = refl; fuel = omega arith })
]

echo_from-Speaks_example :
    (clients' : List ClientConnection) × (echo_from 3 0 platform worlds
        (λ i j. i + j)
        (live 2 ∷ live 1 ∷ live 3 ∷ [])
      ≡ some (stop, clients'))
    × Echoed platform (66 ∷ []) (λ j. 1 + j) (live 2 ∷ live 1 ∷ live 3 ∷ []) clients'
echo_from-Speaks_example =
    echo_from-Speaks platform (66 ∷ []) worlds (λ i j. i + j) (live 2 ∷ []) (live 3 ∷ []) (live 1)
      (omega arith) (omega arith) (live-Listens 2, tt) (live-Listens 3, tt)
      (live-IsReady_text 2, (live-IsReady_text 1, (live-IsReady_text 3, tt))) live-Speaks
      others-IsSilent
