-- ===== src/WebSocket/Send.antt =====
-- `sendData`, `sendText`, `sendBinary`, `sendPing` and `close` of `WebSocketImpl`.
pub mod Mask
pub mod Queue
pub mod Message
pub mod Close
pub mod Refused
use wsclient.Base.{
  ℕ, ◌+◌, ◌/◌, ◌%◌, ◌^◌, Bool, true, false, Option, none, some, List, [], ◌∷◌, ◌++◌, ◌==◌,
  if◌then◌else◌, ◌>>=◌, ◌>>◌, require, read_at, length, take, ◌||◌,
}
use wsclient.Base.Word.{u32, add32, sub32}
use wsclient.FastXor.{Key, fast_xor}
use wsclient.SimpleBuffer.{SimpleBuffer, get_size, modify_data, add_buffer}
use wsclient.Frame.{frame_header, expected_header_len, text_frame, binary_frame, ping}
use wsclient.WebSocket.{
  WebSocket, ReadyState, closing, closed, connecting, opened, LogEntry, Platform,
}

-- The first four bytes in memory of the 64-bit time that `getRandomTime` returns.
unfoldable pub get_masking_key : Bool → ℕ → Key
get_masking_key big_endian seed =
    if big_endian
    then record {
      k0 = seed / 2 ^ 56 % 256;
      k1 = seed / 2 ^ 48 % 256;
      k2 = seed / 2 ^ 40 % 256;
      k3 = seed / 2 ^ 32 % 256;
    }
    else record {
      k0 = seed % 256;
      k1 = seed / 2 ^ 8 % 256;
      k2 = seed / 2 ^ 16 % 256;
      k3 = seed / 2 ^ 24 % 256;
    }

unfoldable pub log_send : WebSocket → List ℕ → WebSocket
log_send w bytes = elim w.log_file [
  | none ↦ w
  | some entries ↦
      let count = add32 w.send_count 1 in
      record w { send_count = count; log_file = some (entries ++ (LogEntry.sent count bytes ∷ [])) }
]

-- `mReadyState == CLOSING || mReadyState == CLOSED`
unfoldable pub is_closing : ReadyState → Bool
is_closing closing = true
is_closing closed = true
is_closing connecting = false
is_closing opened = false

-- `fastXOR` of `n` bytes from an offset into the content on, in place.
unfoldable pub xor_in_place : Platform → SimpleBuffer → ℕ → ℕ → Key → Option SimpleBuffer
xor_in_place p b off n key = do
  bytes ← read_at b.buffer (b.start_loc + off) n
  modify_data b off (fast_xor p.big_endian (p.address b + off) key bytes)

-- The header and the message go to the transmit buffer, and the message is masked there. The
-- results of the two `addBuffer` are not looked at.
unfoldable pub queue_frame :
    Platform → SimpleBuffer → ℕ → Option (List ℕ) → ℕ → Bool → Key → Option SimpleBuffer
queue_frame p buffer type message size use_mask key =
    let header = frame_header type size use_mask key in
    do
      require (length header == expected_header_len size use_mask)
      (added, b1) ← add_buffer p.malloc buffer (some header) (length header)
      b2 ← elim message [
        | none ↦ some b1
        | some bytes ↦ (do (added', b) ← add_buffer p.malloc b1 (some bytes) (u32 size); some b)
      ]
      (if use_mask
          then xor_in_place p b2 (sub32 (get_size b2) (u32 size)) (u32 size) key
          else some b2)

unfoldable pub send_data : Platform → WebSocket → ℕ → Option (List ℕ) → ℕ → ℕ → Option WebSocket
send_data p w type message size seed =
    let w' = log_send w (elim message [ none ↦ [] | some bytes ↦ take (u32 size) bytes ]) in
    let key = get_masking_key p.big_endian seed in
    if is_closing w'.ready_state then some w' else (do
      b ← queue_frame p w'.transmit_buffer type message size w'.use_mask key
      some (record w' { transmit_buffer = b }))

-- The text is a null pointer or the bytes before its zero.
unfoldable pub send_text : Platform → WebSocket → Option (List ℕ) → ℕ → Option WebSocket
send_text p w text seed =
    send_data p w text_frame text (elim text [ none ↦ 0 | some bytes ↦ length bytes ]) seed

unfoldable pub send_binary : Platform → WebSocket → Option (List ℕ) → ℕ → ℕ → Option WebSocket
send_binary p w bytes size seed = send_data p w binary_frame bytes size seed

unfoldable pub send_ping : Platform → WebSocket → ℕ → Option WebSocket
send_ping p w seed = send_data p w ping none 0 seed

abbrev pub close_bytes : List ℕ
close_bytes = 0x88 ∷ 0x80 ∷ 0x00 ∷ 0x00 ∷ 0x00 ∷ 0x00 ∷ []

unfoldable pub close : Platform → WebSocket → Option WebSocket
close p w = if is_closing w.ready_state then some w else (do
  (added, b) ← add_buffer p.malloc w.transmit_buffer (some close_bytes) 6
  some (record w { ready_state = closing; transmit_buffer = b }))
