-- ===== src/WebSocket/Send/Message.antt =====
-- `sendData` as a whole, and a message on its way from one end to the other.
use wsclient.Base.{
  ℕ, ◌<◌, ◌^◌, ◌≡◌, Bool, true, false, Option, none, some, List, [], ◌∷◌, ◌++◌, arith, length, take,
  Option-cases, inl, inr, take_all,
}
use wsclient.Base.Word.{IsBytes, u32, add32}
use wsclient.FastXor.{Key}
use wsclient.FastXor.Bytewise.{IsKey}
use wsclient.SimpleBuffer.{SimpleBuffer}
use wsclient.SimpleBuffer.Invariant.{IsValid}
use wsclient.WebSocket.{WebSocket, LogEntry, Platform}
use wsclient.WebSocket.Send.{get_masking_key, log_send, is_closing, queue_frame, send_data}
use wsclient.WebSocket.Send.Queue.{HasRoom, Queued, queue_frame_lem}

pub get_masking_key-IsKey : (big_endian : Bool) (seed : ℕ) → IsKey (get_masking_key big_endian seed)
unfolding get_masking_key
get_masking_key-IsKey true seed = (omega arith, omega arith, omega arith, omega arith)
get_masking_key-IsKey false seed = (omega arith, omega arith, omega arith, omega arith)

-- The key of a `sendData` at a time.
abbrev pub key_of : Platform → ℕ → Key
key_of p seed = get_masking_key p.big_endian seed

-- The state behind a sent message.
abbrev pub queued : WebSocket → List ℕ → SimpleBuffer → WebSocket
queued w msg b = record (log_send w msg) { transmit_buffer = b }

-- What is queued changes only the transmit buffer and the log.
pub queued_lem :
    (w : WebSocket) (msg : List ℕ) (b : SimpleBuffer)
    → (count : ℕ) × (entries : Option (List LogEntry)) × (queued w msg b
        ≡ record w { send_count = count; log_file = entries; transmit_buffer = b })
unfolding log_send
queued_lem w msg b = elim (Option-cases w.log_file) [
  | inl e ↦ (w.send_count, none, rw e)
  | inr (entries, e) ↦ (
    add32 w.send_count 1,
    some (entries ++ (LogEntry.sent (add32 w.send_count 1) msg ∷ [])),
    rw e,
  )
]

send_data_run :
    (p : Platform) (w : WebSocket) (type : ℕ) (msg : List ℕ) (seed : ℕ) {b : SimpleBuffer}
    → take (u32 (length msg)) msg ≡ msg
    → is_closing w.ready_state ≡ false
    → queue_frame p w.transmit_buffer type (some msg) (length msg) w.use_mask (key_of p seed)
      ≡ some b
    → send_data p w type (some msg) (length msg) seed ≡ some (queued w msg b)
unfolding send_data log_send
send_data_run p w type msg seed all alive run = elim (Option-cases w.log_file) [
  | inl e ↦ rw (all, e, alive, run)
  | inr (entries, e) ↦ rw (all, e, alive, run)
]

-- On a socket that is not closing or closed, with a valid transmit buffer that has room for the
-- frame behind its content, and for a four-bit opcode: `sendData` of bytes is defined, logs the
-- message, and puts one whole frame behind the content, masked with the key of the time exactly if
-- the socket masks; the buffer stays valid and nothing else changes.
pub send_data_lem :
    (p : Platform) (w : WebSocket) (type : ℕ) (msg : List ℕ) (seed : ℕ)
    → type < 16
    → IsBytes msg
    → is_closing w.ready_state ≡ false
    → IsValid w.transmit_buffer
    → HasRoom w.transmit_buffer (length msg) w.use_mask
    → (b : SimpleBuffer) × (send_data p w type (some msg) (length msg) seed ≡ some (queued w msg b))
      × Queued w.transmit_buffer type w.use_mask (key_of p seed) msg b
send_data_lem p w type msg seed ht h alive v room =
    let key = key_of p seed in
    let (b, run, q) =
      queue_frame_lem p type key msg ht (get_masking_key-IsKey p.big_endian seed) h v w.use_mask
        room in
    (
      b,
      send_data_run p w type msg seed
          (take_all (u32 (length msg)) msg (omega (arith, v.bounded, v.small))) alive run,
      q,
    )

-- On a socket that is closing or closed, `sendData` only logs.
pub send_data_closing :
    (p : Platform) (w : WebSocket) (type : ℕ) (msg : List ℕ) (seed : ℕ)
    → length msg < 2 ^ 32
    → is_closing w.ready_state ≡ true
    → send_data p w type (some msg) (length msg) seed ≡ some (log_send w msg)
unfolding send_data log_send
send_data_closing p w type msg seed small closing =
    let all : take (u32 (length msg)) msg ≡ msg = take_all (u32 (length msg)) msg (omega arith) in
    elim (Option-cases w.log_file) [
      | inl e ↦ rw (all, e, closing)
      | inr (entries, e) ↦ rw (all, e, closing)
    ]
