-- ===== src/WebSocket/Tests.antt =====
-- The theorems on easywsclient.cpp at concrete inputs.
use wsclient.WebSocket.Samples.{platform, platform-IsAllocator}
use wsclient.Base.{
  Option, ℕ, ◌≡◌, refl, true, false, some, List, [], ◌∷◌, ◌++◌, arith, length, replicate,
}
use wsclient.FastXor.{Key, key_at, xor_loop}
use wsclient.SimpleBuffer.{SimpleBuffer, get_data, get_size, new_max_len}
use wsclient.SimpleBuffer.Invariant.{IsValid}
use wsclient.Frame.{
  frame_header, length_bytes, key_bytes, expected_header_len, text_frame, binary_frame, pong,
}
use wsclient.WebSocket.{LogEntry, WebSocket, ReadyState, ConnectionPhase, Event, receive_message}
use wsclient.WebSocket.Send.{queue_frame, send_data, is_closing}
use wsclient.WebSocket.Send.Refused.{garbled, content_of, queue_frame-refused}
use wsclient.WebSocket.Send.Queue.{Queued}
use wsclient.WebSocket.Send.Message.{queued, key_of, send_data_lem}
use wsclient.WebSocket.Dispatch.{again, stop, is_data, dispatch_round, dispatch_binary}
use wsclient.WebSocket.Dispatch.Deliver.{delivered}
use wsclient.WebSocket.Dispatch.Stream.{Message, IsMessage, stream, heard, dispatch_binary-stream}
use wsclient.WebSocket.Dispatch.Ping.{dispatch_round-ping}
use wsclient.WebSocket.Dispatch.Stall.{wrapping_length, dispatch_binary-stalls}
use wsclient.WebSocket.Dispatch.Ends.{ComesToStall, dispatch_binary-ends}
use wsclient.WebSocket.EndToEnd.{send_data-dispatch_round}
use wsclient.WebSocket.Poll.{Send, transmit_loop}
use wsclient.WebSocket.Poll.Transmit.{Transmitted, transmit_loop-Transmits}

abbrev full : List ℕ → SimpleBuffer
full bytes = record {
  buffer = bytes;
  start_loc = 0;
  end_loc = length bytes;
  max_len = length bytes;
  max_grow_size = 1024;
  default_size = 16;
}

abbrev blank : SimpleBuffer
blank = record {
  buffer = replicate 32 0xcd;
  start_loc = 0;
  end_loc = 0;
  max_len = 32;
  max_grow_size = 1024;
  default_size = 32;
}

-- An open socket that masks, with these bytes received and these to be sent.
abbrev socket_with : SimpleBuffer → SimpleBuffer → WebSocket
socket_with received to_send = record {
  receive_buffer = received;
  transmit_buffer = to_send;
  received_data = blank;
  socket = true;
  ready_state = ReadyState.opened;
  use_mask = true;
  is_server_client = false;
  send_count = 0;
  receive_count = 0;
  log_file = some [];
  connection_index = 3;
  connection_buffer = replicate 256 0;
  connection_timer = 0;
  connection_phase = ConnectionPhase.http_status;
}

abbrev sample_key : Key
sample_key = record { k0 = 1; k1 = 2; k2 = 3; k3 = 4 }

-- `Hi` as a masked text frame, and a byte as a plain binary frame.
abbrev hi : Message
hi = record { opcode = text_frame; masked = true; key = sample_key; bytes = 72 ∷ 105 ∷ [] }

abbrev one : Message
one = record { opcode = binary_frame; masked = false; key = sample_key; bytes = 1 ∷ [] }

abbrev both_frames : List ℕ
both_frames = 0x81 ∷ 0x82 ∷ 1 ∷ 2 ∷ 3 ∷ 4 ∷ 73 ∷ 107 ∷ 0x82 ∷ 0x01 ∷ 1 ∷ []

abbrev receiver : WebSocket
receiver = socket_with (full both_frames) blank

receiver_stream : get_data receiver.receive_buffer ≡ stream (hi ∷ one ∷ [])
unfolding get_data get_size frame_header length_bytes key_bytes xor_loop key_at
receiver_stream = refl

hi-IsMessage : IsMessage hi
unfolding is_data
hi-IsMessage = record {
  four_bits = omega arith;
  is_message = refl;
  key = omega arith;
  bytes = omega arith;
}

one-IsMessage : IsMessage one
unfolding is_data
one-IsMessage = record {
  four_bits = omega arith;
  is_message = refl;
  key = omega arith;
  bytes = omega arith;
}

dispatch_binary-stream_example :
    (count : ℕ) × (entries : Option (List LogEntry)) × (b : SimpleBuffer) × (dispatch_binary 3
        platform receiver
        (λ n. n)
      ≡ some (
        stop,
        heard receiver count entries b,
        receive_message (72 ∷ 105 ∷ []) true ∷ receive_message (1 ∷ []) false ∷ [],
      ))
    × IsValid b
    × (get_data b ≡ [])
unfolding get_size
dispatch_binary-stream_example =
    dispatch_binary-stream 3 platform receiver (λ n. n) (hi ∷ one ∷ []) (omega arith)
      (hi-IsMessage, (one-IsMessage, tt)) (omega arith) refl receiver_stream

-- A PONG header of ten bytes whose length makes the sum wrap.
abbrev stalled : WebSocket
stalled = socket_with (full (0x8a ∷ 127 ∷ 0 ∷ 0 ∷ 0 ∷ 0 ∷ 0xff ∷ 0xff ∷ 0xff ∷ 0xf6 ∷ [])) blank

stalled_content :
    get_data stalled.receive_buffer ≡ frame_header pong wrapping_length false sample_key ++ []
unfolding get_data get_size frame_header length_bytes key_bytes
stalled_content = refl

dispatch_binary-stalls_example :
    dispatch_binary 5 platform stalled (λ n. n) ≡ some (again, stalled, [])
dispatch_binary-stalls_example =
    dispatch_binary-stalls 5 platform stalled (λ n. n) sample_key [] (omega arith) stalled_content

dispatch_binary-ends_example : ComesToStall platform stalled
unfolding get_size
dispatch_binary-ends_example =
    dispatch_binary-ends 11 platform stalled stalled (λ n. n) [] (omega arith) (omega arith)
      (dispatch_binary-stalls 11 platform stalled (λ n. n) sample_key [] (omega arith)
        stalled_content)

abbrev sender : WebSocket
sender = socket_with blank blank

blank-IsValid : IsValid blank
blank-IsValid = omega arith

send_data_lem_example :
    (b : SimpleBuffer) × (send_data platform sender text_frame (some (72 ∷ 105 ∷ [])) 2 0x04030201
      ≡ some (queued sender (72 ∷ 105 ∷ []) b))
    × Queued blank text_frame true (key_of platform 0x04030201) (72 ∷ 105 ∷ []) b
unfolding is_closing expected_header_len
send_data_lem_example =
    send_data_lem platform sender text_frame (72 ∷ 105 ∷ []) 0x04030201 (omega arith) (omega arith)
      refl blank-IsValid (omega arith)

-- A call at another time.
sample_send :
    (b : SimpleBuffer) × (send_data platform sender text_frame (some (72 ∷ 105 ∷ [])) 2 5
      ≡ some (queued sender (72 ∷ 105 ∷ []) b))
    × Queued blank text_frame true (key_of platform 5) (72 ∷ 105 ∷ []) b
unfolding is_closing expected_header_len
sample_send =
    send_data_lem platform sender text_frame (72 ∷ 105 ∷ []) 5 (omega arith) (omega arith) refl
      blank-IsValid (omega arith)

-- The transmit buffer behind that call, and a peer that received it.
abbrev passed_on : SimpleBuffer
passed_on = sample_send.0

abbrev peer : WebSocket
peer = socket_with passed_on blank

send_data-dispatch_round_example :
    (b : SimpleBuffer) × (dispatch_round platform peer 7
      ≡ some (again, delivered peer (72 ∷ 105 ∷ []) b, receive_message (72 ∷ 105 ∷ []) true ∷ []))
    × IsValid b
    × (get_data b ≡ [])
unfolding is_closing is_data get_data get_size expected_header_len
send_data-dispatch_round_example =
    send_data-dispatch_round platform platform sender (queued sender (72 ∷ 105 ∷ []) passed_on) peer
      text_frame (72 ∷ 105 ∷ []) 5 7 (omega arith) refl (omega arith) refl blank-IsValid
      (omega arith) refl sample_send.1 sample_send.2.valid refl refl

transmit_loop-Transmits_example :
    (w' : WebSocket) × (events : List Event) × (transmit_loop
        (socket_with blank (full both_frames))
        (Send.took 4 ∷ Send.took 2 ∷ Send.wait ∷ [])
      ≡ some (w', events))
    × Transmitted (socket_with blank (full both_frames)) w' events
unfolding get_size
transmit_loop-Transmits_example =
    transmit_loop-Transmits (socket_with blank (full both_frames))
      (Send.took 4 ∷ Send.took 2 ∷ Send.wait ∷ []) (omega arith) (omega arith, (omega arith, tt))

-- A masked PING with two bytes, at a socket with nothing to send.
abbrev pinged : WebSocket
pinged = socket_with (full (0x89 ∷ 0x82 ∷ 1 ∷ 2 ∷ 3 ∷ 4 ∷ 73 ∷ 107 ∷ 7 ∷ [])) blank

dispatch_round-ping_example :
    (w' : WebSocket) × (dispatch_round platform pinged 6 ≡ some (again, w', []))
    × Queued blank pong true (key_of platform 6) (72 ∷ 105 ∷ []) w'.transmit_buffer
    × IsValid w'.receive_buffer
    × (get_data w'.receive_buffer ≡ 7 ∷ [])
unfolding is_closing expected_header_len get_data get_size frame_header length_bytes key_bytes
    xor_loop key_at
dispatch_round-ping_example =
    dispatch_round-ping platform pinged true sample_key (72 ∷ 105 ∷ []) (7 ∷ []) 6 (omega arith)
      (omega arith) (omega arith) (omega arith) blank-IsValid refl (omega arith) refl

-- Ten bytes in a block of sixteen that may not grow: a masked header fits, three bytes more do not.
abbrev crowded : SimpleBuffer
crowded = record {
  buffer = replicate 16 7;
  start_loc = 0;
  end_loc = 10;
  max_len = 16;
  max_grow_size = 16;
  default_size = 16;
}

crowded-IsValid : IsValid crowded
crowded-IsValid = omega arith

queue_frame-refused_example :
    content_of
      (queue_frame platform crowded text_frame (some (72 ∷ 105 ∷ 33 ∷ [])) 3 true sample_key)
    ≡ garbled true sample_key 3 (replicate 10 7 ++ frame_header text_frame 3 true sample_key)
unfolding get_data get_size expected_header_len new_max_len frame_header length_bytes key_bytes
queue_frame-refused_example =
    queue_frame-refused platform crowded text_frame sample_key (72 ∷ 105 ∷ 33 ∷ []) true
      platform-IsAllocator (omega arith) (omega arith, omega arith, omega arith, omega arith)
      crowded-IsValid (omega arith) (omega arith) (omega arith) refl
