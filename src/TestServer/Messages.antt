-- ===== src/TestServer/Messages.antt =====
-- What the server takes from one `poll` of a client.
use wsclient.Base.{
  ℕ, ◌<◌, ◌≡◌, refl, ap, ◌∙◌, true, false, ◌&&◌, Option, some, none, List, [], ◌∷◌, ◌++◌, length,
  map, All, ltb, ◌==◌, if◌then◌else◌, Bool-cases, inl, inr,
}
use wsclient.Base.Text.{c_string}
use wsclient.SimpleBuffer.{SimpleBuffer, get_data, get_size}
use wsclient.SimpleBuffer.Invariant.{IsValid}
use wsclient.Frame.{text_frame}
use wsclient.WebSocket.{WebSocket, LogEntry, opened, Platform}
use wsclient.WebSocket.Dispatch.{Turn, stop}
use wsclient.WebSocket.Dispatch.Stream.{Message, IsMessage, stream, heard, message_event}
use wsclient.WebSocket.Poll.{Receive, World, poll}
use wsclient.WebSocket.Poll.Messages.{concat, IsChunk, HasReadRoom, IsQuiet, poll-stream}
use wsclient.TestServer.{ClientConnection, receive, receive_all, get_message}

-- The texts that the server takes note of: text frames of fewer than 511 bytes, cut at a zero.
abbrev pub texts : List Message → List (List ℕ)
texts [] = []
texts (x ∷ xs) =
    if x.opcode == text_frame && ltb (length x.bytes) 511
    then c_string x.bytes ∷ texts xs
    else texts xs

abbrev pub last_or : Option (List ℕ) → List (List ℕ) → Option (List ℕ)
last_or found [] = found
last_or found (text ∷ rest) = last_or (some text) rest

-- What `getMessage` returns.
abbrev pub found : ClientConnection → Option (List ℕ)
found c = if c.have_message then some c.message else none

receive-found :
    (c : ClientConnection) (x : Message) (xs : List Message)
    → last_or (found (receive c x.bytes (x.opcode == text_frame))) (texts xs)
      ≡ last_or (found c) (texts (x ∷ xs))
unfolding receive
receive-found c x xs = elim (Bool-cases (x.opcode == text_frame && ltb (length x.bytes) 511)) [
  | inl taken ↦ simp taken
  | inr left ↦ simp left
]

receive_all-found :
    (c : ClientConnection) (xs : List Message)
    → found (receive_all c (map message_event xs)) ≡ last_or (found c) (texts xs)
unfolding receive_all
receive_all-found c [] = refl
receive_all-found c (x ∷ xs) =
    receive_all-found (receive c x.bytes (x.opcode == text_frame)) xs ∙ receive-found c x xs

receive_all-client :
    (c : ClientConnection) (xs : List Message)
    → (receive_all c (map message_event xs)).client ≡ c.client
unfolding receive_all receive
receive_all-client c [] = refl
receive_all-client c (x ∷ xs) =
    receive_all-client (receive c x.bytes (x.opcode == text_frame)) xs
    ∙ (elim (Bool-cases (x.opcode == text_frame && ltb (length x.bytes) 511)) [
      | inl taken ↦ simp taken
      | inr left ↦ simp left
    ])

get_message_run :
    (p : Platform) (c : ClientConnection) (w : WebSocket) (world : World) {turn : Turn}
    {w' : WebSocket} (xs : List Message)
    → c.client ≡ some w
    → poll p w true 1 world ≡ some (turn, w', map message_event xs)
    → get_message p c world
      ≡ some (
        turn,
        last_or none (texts xs),
        receive_all (record c { have_message = false; client = some w' }) (map message_event xs),
      )
unfolding get_message
get_message_run p c w world {turn} {w'} xs e f =
    let c1 : ClientConnection = record c { have_message = false; client = some w' } in
    rw (get_message, e, f)
      (ap (λ m. some (turn, m, receive_all c1 (map message_event xs))) (receive_all-found c1 xs))

-- A client whose connection is open and has nothing to send or takes nothing, whose receive buffer
-- is valid and has room for what is read and for one read more, when no part of a message waits; the
-- reads, behind what is already in the buffer, complete exactly the frames of some data messages.
-- Then, for any fuel above the number of messages, `getMessage` comes to its end, and returns the
-- last text message of fewer than 511 bytes, up to its first zero, or null if there is none: the
-- texts before it are dropped. The receive buffer is valid and empty at the end, and apart from it
-- and the log the connection is as before.
pub get_message_lem :
    (p : Platform) (c : ClientConnection) (w : WebSocket) (world : World) (chunks : List (List ℕ))
    (xs : List Message)
    → c.client ≡ some w
    → w.socket ≡ true
    → w.ready_state ≡ opened
    → IsQuiet w world
    → get_size w.received_data ≡ 0
    → IsValid w.receive_buffer
    → HasReadRoom w.receive_buffer (length (concat chunks))
    → All IsChunk chunks
    → world.receives ≡ map Receive.got chunks
    → All IsMessage xs
    → get_data w.receive_buffer ++ concat chunks ≡ stream xs
    → length xs < world.fuel
    → (c' : ClientConnection) × (count : ℕ) × (entries : Option (List LogEntry))
      × (b : SimpleBuffer) × (get_message p c world ≡ some (stop, last_or none (texts xs), c'))
      × (c'.client ≡ some (heard w count entries b))
      × IsValid b
      × (get_data b ≡ [])
get_message_lem p c w world chunks xs e connected state quiet idle v room h reads k whole fuel =
    let (count, entries, b, run, v', left) =
      poll-stream p w 1 world chunks xs connected state quiet idle v room h reads k whole fuel in
    let c1 : ClientConnection = record c {
      have_message = false;
      client = some (heard w count entries b);
    } in
    (
      receive_all c1 (map message_event xs),
      count,
      entries,
      b,
      get_message_run p c w world xs e run,
      receive_all-client c1 xs,
      v',
      left,
    )
