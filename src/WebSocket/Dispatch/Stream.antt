-- ===== src/WebSocket/Dispatch/Stream.antt =====
-- `_dispatchBinary` on a receive buffer that holds any number of whole frames.
use wsclient.Base.{
  ℕ, zero, suc, ◌<◌, ◌≡◌, refl, ap, ◌∙◌, Bool, true, Option, some, none, List, [], ◌∷◌, ◌++◌, arith,
  length, ◌==◌, map, All, Option-cases, inl, inr,
}
use wsclient.Base.Word.{IsBytes, add32}
use wsclient.FastXor.{Key}
use wsclient.FastXor.Bytewise.{IsKey}
use wsclient.SimpleBuffer.{SimpleBuffer, get_data, get_size}
use wsclient.SimpleBuffer.Invariant.{IsValid}
use wsclient.Frame.{parse_header, text_frame}
use wsclient.Frame.Wire.{wire_frame}
use wsclient.WebSocket.{WebSocket, LogEntry, Platform, Event, receive_message}
use wsclient.WebSocket.Dispatch.{
  Turn, again, stop, log_receive, is_data, dispatch_round, dispatch_binary,
}
use wsclient.WebSocket.Dispatch.Deliver.{delivered, dispatch_round-wire_frame}

-- A message and how it is sent.
pub record Message : Type 0 where
  pub opcode : ℕ
  pub masked : Bool
  pub key : Key
  pub bytes : List ℕ

pub record IsMessage (x : Message) : Type 0 where
  pub four_bits : x.opcode < 16
  pub is_message : is_data x.opcode ≡ true
  pub key : IsKey x.key
  pub bytes : IsBytes x.bytes

abbrev pub stream : List Message → List ℕ
stream [] = []
stream (x ∷ xs) = wire_frame x.opcode x.masked x.key x.bytes ++ stream xs

abbrev pub message_event : Message → Event
message_event x = receive_message x.bytes (x.opcode == text_frame)

-- A socket behind messages that it received: only the receive buffer and the log changed.
abbrev pub heard : WebSocket → ℕ → Option (List LogEntry) → SimpleBuffer → WebSocket
heard w count entries b = record w { receive_buffer = b; receive_count = count; log_file = entries }

delivered_lem :
    (w : WebSocket) (msg : List ℕ) (b : SimpleBuffer)
    → (count : ℕ) × (entries : Option (List LogEntry)) × (delivered w msg b
        ≡ heard w count entries b)
unfolding log_receive
delivered_lem w msg b = elim (Option-cases w.log_file) [
  | inl e ↦ (w.receive_count, none, rw e)
  | inr (entries, e) ↦
      let count = add32 w.receive_count 1 in
      (count, some (entries ++ (LogEntry.received count msg ∷ [])), rw e)
]

pub dispatch_round_empty :
    (p : Platform) (w : WebSocket) (seed : ℕ)
    → get_data w.receive_buffer ≡ []
    → dispatch_round p w seed ≡ some (stop, w, [])
unfolding dispatch_round
dispatch_round_empty p w seed e =
    let f : parse_header (get_data w.receive_buffer) ≡ none =
      ap parse_header e ∙ (unfold parse_header in refl) in
    rw (dispatch_round, f)

pub dispatch_binary_stop :
    (fuel : ℕ) (p : Platform) (w : WebSocket) (seeds : ℕ → ℕ) {w' : WebSocket} {events : List Event}
    → dispatch_round p w (seeds fuel) ≡ some (stop, w', events)
    → dispatch_binary (suc fuel) p w seeds ≡ some (stop, w', events)
unfolding dispatch_binary
dispatch_binary_stop fuel p w seeds e = rw e

pub dispatch_binary_again :
    (fuel : ℕ) (p : Platform) (w : WebSocket) (seeds : ℕ → ℕ) {turn : Turn} {w' w'' : WebSocket}
    {events events' : List Event}
    → dispatch_round p w (seeds fuel) ≡ some (again, w', events)
    → dispatch_binary fuel p w' seeds ≡ some (turn, w'', events')
    → dispatch_binary (suc fuel) p w seeds ≡ some (turn, w'', events ++ events')
unfolding dispatch_binary
dispatch_binary_again fuel p w seeds e f = rw (e, f)

-- On a valid receive buffer that holds exactly the frames of some data messages, masked or not,
-- when no part of a message waits: the loop stops for any fuel above their number, the callback
-- gets the messages and nothing else, unmasked and in order, as text exactly for a text frame, and
-- the buffer is valid and empty at the end; apart from it and the log, the socket is as before.
pub dispatch_binary-stream :
    (fuel : ℕ) (p : Platform) (w : WebSocket) (seeds : ℕ → ℕ) (xs : List Message)
    → length xs < fuel
    → All IsMessage xs
    → IsValid w.receive_buffer
    → get_size w.received_data ≡ 0
    → get_data w.receive_buffer ≡ stream xs
    → (count : ℕ) × (entries : Option (List LogEntry)) × (b : SimpleBuffer) × (dispatch_binary fuel
          p w seeds
        ≡ some (stop, heard w count entries b, map message_event xs))
      × IsValid b
      × (get_data b ≡ [])
dispatch_binary-stream zero p w seeds xs h ok v idle e = absurd (omega arith)
dispatch_binary-stream (suc fuel) p w seeds [] h ok v idle e = (
  w.receive_count,
  w.log_file,
  w.receive_buffer,
  dispatch_binary_stop fuel p w seeds (dispatch_round_empty p w (seeds fuel) e),
  v,
  e,
)
dispatch_binary-stream (suc fuel) p w seeds (x ∷ xs) h ok v idle e =
    let (b, run, v1, e1) =
      dispatch_round-wire_frame p w x.opcode x.masked x.key x.bytes (stream xs) (seeds fuel)
        (ok.0).four_bits (ok.0).is_message (ok.0).key (ok.0).bytes v idle e in
    let (count, entries, same) = delivered_lem w x.bytes b in
    let (count', entries', b', run', v', e') =
      dispatch_binary-stream fuel p (heard w count entries b) seeds xs (omega arith) ok.1 v1 idle
        e1 in
    (
      count',
      entries',
      b',
      dispatch_binary_again fuel p w seeds
          (run ∙ ap (λ t. some (again, t, message_event x ∷ [])) same) run',
      v',
      e',
    )
