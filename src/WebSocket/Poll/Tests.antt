-- ===== src/WebSocket/Poll/Tests.antt =====
-- A whole `poll`, the destructor, a message in several frames, and the log, at concrete inputs.
use wsclient.WebSocket.Samples.{platform, platform-IsAllocator, create_valid}
use wsclient.Base.{
  List, Option, inl, ℕ, ◌<◌, ◌≡◌, refl, Bool, true, false, some, none, [], ◌∷◌, arith,
}
use wsclient.FastXor.{Key, key_at, xor_loop}
use wsclient.SimpleBuffer.{SimpleBuffer, create, get_data, get_size}
use wsclient.SimpleBuffer.Invariant.{IsValid}
use wsclient.Frame.{text_frame, continuation, frame_header, length_bytes, key_bytes}
use wsclient.WebSocket.{
  WebSocket, LogEntry, opened, receive_message, create_server_client, default_receive_buffer_size,
  default_transmit_buffer_size, socket_send, socket_close, socket_release,
}
use wsclient.WebSocket.Dispatch.{stop, is_data}
use wsclient.WebSocket.Dispatch.Stream.{Message, IsMessage, heard}
use wsclient.WebSocket.Dispatch.Fragments.{Fragment, IsFragment, deliver_all, deliver-fragmented}
use wsclient.WebSocket.Send.{is_closing}
use wsclient.WebSocket.Destroy.{Pass, destroy}
use wsclient.WebSocket.Destroy.Graceful.{destroy_graceful}
use wsclient.WebSocket.Poll.{Receive, Send, World, poll}
use wsclient.WebSocket.LogText.{log_data, read_data, read_data-log_data}
use wsclient.WebSocket.Poll.Messages.{poll-stream}

abbrev no_key : Key
no_key = record { k0 = 0; k1 = 0; k2 = 0; k3 = 0 }

abbrev open_socket : WebSocket
open_socket = record (create_server_client platform false 0) { ready_state = opened }

-- Two plain text frames, the second cut in two reads.
abbrev plain : ℕ → Message
plain byte = record { opcode = text_frame; masked = false; key = no_key; bytes = byte ∷ [] }

plain-IsMessage : (byte : ℕ) → byte < 256 → IsMessage (plain byte)
unfolding is_data
plain-IsMessage byte h = record {
  four_bits = omega arith;
  is_message = refl;
  key = omega arith;
  bytes = (omega arith, tt);
}

abbrev world : World
world = record {
  now = 0;
  byte = none;
  receives = Receive.got (0x81 ∷ 1 ∷ 65 ∷ 0x81 ∷ []) ∷ Receive.got (1 ∷ 66 ∷ []) ∷ [];
  sends = [];
  seeds = λ n. n;
  fuel = 3;
}

poll-stream_example :
    (count : ℕ) × (entries : Option (List LogEntry)) × (b : SimpleBuffer) × (poll platform
        open_socket true 1 world
      ≡ some (
        stop,
        heard open_socket count entries b,
        receive_message (65 ∷ []) true ∷ receive_message (66 ∷ []) true ∷ [],
      ))
    × IsValid b
    × (get_data b ≡ [])
unfolding create_server_client create get_size get_data frame_header length_bytes key_bytes xor_loop
    key_at
poll-stream_example =
    poll-stream platform open_socket 1 world ((0x81 ∷ 1 ∷ 65 ∷ 0x81 ∷ []) ∷ (1 ∷ 66 ∷ []) ∷ [])
      (plain 65 ∷ plain 66 ∷ []) refl refl (inl refl) refl
      (create_valid default_receive_buffer_size (omega arith)) (omega arith)
      ((omega arith, omega arith), ((omega arith, omega arith), tt)) refl
      (plain-IsMessage 65 (omega arith), (plain-IsMessage 66 (omega arith), tt)) refl (omega arith)

abbrev fragment : Bool → ℕ → ℕ → Fragment
fragment fin opcode byte = record {
  header = record {
    header_size = 2;
    fin = fin;
    mask = false;
    opcode = opcode;
    n0 = 1;
    n = 1;
    masking_key = no_key;
  };
  bytes = byte ∷ [];
}

fragment-IsFragment :
    (fin : Bool) (opcode byte : ℕ) → byte < 256 → IsFragment fin (fragment fin opcode byte)
fragment-IsFragment fin opcode byte h = record {
  final = refl;
  size = refl;
  given = omega arith;
  is_bytes = (omega arith, tt);
}

-- `Hi!` as text in three frames.
deliver-fragmented_example :
    (w' : WebSocket) × (deliver_all platform open_socket (
        fragment false text_frame 72
        ∷ fragment false continuation 105
        ∷ fragment true continuation 33
        ∷ [])
      ≡ some (w', receive_message (72 ∷ 105 ∷ 33 ∷ []) false ∷ []))
    × (get_size w'.received_data ≡ 0)
unfolding create_server_client create get_size
deliver-fragmented_example =
    deliver-fragmented platform open_socket (fragment false text_frame 72)
      (fragment false continuation 105 ∷ []) (fragment true continuation 33)
      (create_valid default_receive_buffer_size (omega arith)) refl
      (fragment-IsFragment false text_frame 72 (omega arith))
      (fragment-IsFragment false continuation 105 (omega arith), tt)
      (fragment-IsFragment true continuation 33 (omega arith)) refl (omega arith)

-- `A`, a line feed and `Z`.
read_data-log_data_example : read_data (log_data (65 ∷ 10 ∷ 90 ∷ [])) ≡ 65 ∷ 10 ∷ 90 ∷ []
read_data-log_data_example =
    read_data-log_data (65 ∷ 10 ∷ 90 ∷ [])
      ((omega arith, refl), ((omega arith, refl), ((omega arith, refl), tt)))

-- A pass of the destructor in which the close frame is taken in two pieces.
abbrev closing_pass : Pass
closing_pass = record {
  world = record world { receives = []; sends = Send.took 4 ∷ Send.took 2 ∷ [] };
  elapsed = 0;
}

destroy_graceful_example :
    destroy platform open_socket (closing_pass ∷ [])
    ≡ some (
      stop,
      socket_send (0x88 ∷ 0x80 ∷ 0 ∷ 0 ∷ [])
          ∷ socket_send (0 ∷ 0 ∷ [])
          ∷ socket_close
          ∷ socket_release
          ∷ [],
    )
unfolding create_server_client create get_size get_data is_closing
destroy_graceful_example =
    destroy_graceful platform open_socket closing_pass [] (4 ∷ 2 ∷ []) platform-IsAllocator refl
      refl (create_valid default_receive_buffer_size (omega arith)) (omega arith)
      (create_valid default_transmit_buffer_size (omega arith)) (λ full front. absurd (omega arith))
      refl refl refl (omega arith, (omega arith, tt)) refl
