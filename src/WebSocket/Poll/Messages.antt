-- ===== src/WebSocket/Poll/Messages.antt =====
-- A whole `poll`: messages that come in several reads, up to the callback.
use wsclient.Base.{
  ℕ, ◌+◌, ◌<◌, ◌≤◌, ◌≡◌, refl, sym, ap, ◌∙◌, true, false, Option, some, List, [], ◌∷◌, ◌++◌, arith,
  length, length-append, append_assoc, append-nil, map, All, ◌==◌, ◌⊎◌, inl, inr, le→leb, leb,
  if◌then◌else◌,
}
use wsclient.Base.Word.{IsBytes, sub32}
use wsclient.SimpleBuffer.{SimpleBuffer, get_data, get_size, confirm_capacity}
use wsclient.SimpleBuffer.Invariant.{IsValid}
use wsclient.SimpleBuffer.Grow.{make_room-free}
use wsclient.SimpleBuffer.Queue.{extended, extended_lem}
use wsclient.WebSocket.{
  WebSocket, LogEntry, closing, opened, Platform, Event, socket_close, default_max_read_size,
}
use wsclient.WebSocket.Dispatch.{Turn, again, stop, dispatch_binary}
use wsclient.WebSocket.Dispatch.Stream.{
  Message, IsMessage, stream, message_event, heard, dispatch_binary-stream,
}
use wsclient.WebSocket.Poll.{
  Receive, World, transmit_loop, receive_round, receive_loop, close_socket, finish_close, is_closed,
  poll_open, poll,
}
use wsclient.WebSocket.Poll.Receipt.{store_received_run, receive_round_run}
use wsclient.WebSocket.Poll.Transmit.{transmit_loop_empty}

-- The bytes of all reads.
abbrev pub concat : List (List ℕ) → List ℕ
concat [] = []
concat (chunk ∷ chunks) = chunk ++ concat chunks

-- What the socket gives on each `receive`: at most the bytes that it was asked for.
abbrev pub IsChunk : List ℕ → Type 0
IsChunk chunk = IsBytes chunk × (length chunk ≤ default_max_read_size)

abbrev pub HasReadRoom : SimpleBuffer → ℕ → Type 0
HasReadRoom b size = b.end_loc + size + default_max_read_size ≤ b.max_len

confirm_capacity-free :
    (p : Platform) (b : SimpleBuffer)
    → IsValid b
    → HasReadRoom b 0
    → confirm_capacity p.malloc b default_max_read_size ≡ some (some b.end_loc, b)
unfolding confirm_capacity
confirm_capacity-free p b v room =
    let fits : leb default_max_read_size (sub32 b.max_len b.end_loc) ≡ true =
      le→leb _ _ (omega (arith, v.bounded, v.small)) in
    rw (make_room-free p.malloc default_max_read_size v (omega arith), fits)

pub receive_round-wait :
    (p : Platform) (w : WebSocket)
    → IsValid w.receive_buffer
    → HasReadRoom w.receive_buffer 0
    → receive_round p w Receive.wait ≡ some (stop, w, [])
unfolding receive_round
receive_round-wait p w v room = rw (confirm_capacity-free p w.receive_buffer v room)

receive_loop_again :
    (p : Platform) (w : WebSocket) (result : Receive) (results : List Receive) {w' w'' : WebSocket}
    {events events' : List Event}
    → receive_round p w result ≡ some (again, w', events)
    → receive_loop p w' results ≡ some (w'', events')
    → receive_loop p w (result ∷ results) ≡ some (w'', events ++ events')
unfolding receive_loop
receive_loop_again p w result results e f = rw (receive_loop, e, f)

pub receive_loop_wait :
    (p : Platform) (w : WebSocket)
    → receive_round p w Receive.wait ≡ some (stop, w, [])
    → receive_loop p w [] ≡ some (w, [])
unfolding receive_loop
receive_loop_wait p w e = rw (receive_loop, e)

-- Reads that fit behind the content are all stored, in order, until the socket would block.
receive_loop-got :
    (p : Platform) (w : WebSocket) (chunks : List (List ℕ))
    → IsValid w.receive_buffer
    → All IsChunk chunks
    → HasReadRoom w.receive_buffer (length (concat chunks))
    → (b : SimpleBuffer) × (receive_loop p w (map Receive.got chunks)
        ≡ some (record w { receive_buffer = b }, []))
      × IsValid b
      × (get_data b ≡ get_data w.receive_buffer ++ concat chunks)
receive_loop-got p w [] v h room = (
  w.receive_buffer,
  receive_loop_wait p w (receive_round-wait p w v room),
  v,
  sym (append-nil (get_data w.receive_buffer)),
)
receive_loop-got p w (chunk ∷ chunks) v h room =
    let b = w.receive_buffer in
    let sum = length-append chunk (concat chunks) in
    let b1 = extended b chunk (length chunk) in
    let (v1, content1) = extended_lem chunk (length chunk) v h.0.0 refl (omega arith) in
    let run =
      receive_round_run p w chunk (confirm_capacity-free p b v (omega arith))
        (store_received_run p b chunk v h.0.0 h.0.1 (omega arith)) in
    let (b2, run2, v2, content2) =
      receive_loop-got p (record w { receive_buffer = b1 }) chunks v1 h.1 (omega arith) in
    (
      b2,
      receive_loop_again p w (Receive.got chunk) (map Receive.got chunks) run run2,
      v2,
      content2
          ∙ ap (λ t. t ++ concat chunks) content1
          ∙ append_assoc (get_data b) chunk (concat chunks),
    )

pub opened_live : (w : WebSocket) → w.ready_state ≡ opened → is_closed w.ready_state ≡ false
unfolding is_closed
opened_live w e = rw e

pub finish_close-opened : (w : WebSocket) → w.ready_state ≡ opened → finish_close w ≡ (w, [])
unfolding finish_close
finish_close-opened w e =
    ap
      (λ s. elim s as (λ _. WebSocket × List Event) [
        | closing ↦
            if get_size w.transmit_buffer == 0 then (close_socket w, socket_close ∷ []) else (w, [])
        | _ ↦ (w, [])
      ])
      e

-- A socket that has nothing to send, or takes nothing.
abbrev pub IsQuiet : WebSocket → World → Type 0
IsQuiet w world = ((get_size w.transmit_buffer == 0) ≡ true) ⊎ (world.sends ≡ [])

transmit_loop-quiet :
    (w w1 : WebSocket) (world : World)
    → w1.transmit_buffer ≡ w.transmit_buffer
    → IsQuiet w world
    → transmit_loop w1 world.sends ≡ some (w1, [])
unfolding transmit_loop
transmit_loop-quiet w w1 world e (inl empty) =
    transmit_loop_empty w1 world.sends (ap (λ b. get_size b == 0) e ∙ empty)
transmit_loop-quiet w w1 world e (inr still) = ap (transmit_loop w1) still

poll_run :
    (p : Platform) (w w1 : WebSocket) (timeout : ℕ) (world : World) {turn : Turn} {w2 : WebSocket}
    {events : List Event}
    → w.socket ≡ true
    → w.ready_state ≡ opened
    → receive_loop p w world.receives ≡ some (w1, [])
    → w1.ready_state ≡ opened
    → transmit_loop w1 world.sends ≡ some (w1, [])
    → dispatch_binary world.fuel p w1 world.seeds ≡ some (turn, w2, events)
    → poll p w true timeout world ≡ some (turn, w2, events)
unfolding poll poll_open
poll_run p w w1 timeout world connected state e state1 sent f =
    simp (connected, state, e, opened_live w1 state1, sent, finish_close-opened w1 state1, f)

-- An open connection that has nothing to send or takes nothing, whose receive buffer is valid and
-- has room for what is read and for one read more, when no part of a message waits; the reads,
-- behind what is already in the buffer, complete exactly the frames of some data messages, however
-- they are cut. Then `poll` comes to its end for any fuel above the number of messages, and the
-- callback gets them and nothing else, in order; the receive buffer is valid and empty at the end,
-- and apart from it and the log the socket is as before.
pub poll-stream :
    (p : Platform) (w : WebSocket) (timeout : ℕ) (world : World) (chunks : List (List ℕ))
    (xs : List Message)
    → w.socket ≡ true
    → w.ready_state ≡ opened
    → IsQuiet w world
    → get_size w.received_data ≡ 0
    → IsValid w.receive_buffer
    → HasReadRoom w.receive_buffer (length (concat chunks))
    → All IsChunk chunks
    → world.receives ≡ map Receive.got chunks
    → All IsMessage xs
    → get_data w.receive_buffer ++ concat chunks ≡ stream xs
    → length xs < world.fuel
    → (count : ℕ) × (entries : Option (List LogEntry)) × (b : SimpleBuffer) × (poll p w true timeout
          world
        ≡ some (stop, heard w count entries b, map message_event xs))
      × IsValid b
      × (get_data b ≡ [])
poll-stream p w timeout world chunks xs connected state quiet idle v room h reads k whole fuel =
    let (b, run, v1, content) = receive_loop-got p w chunks v h room in
    let w1 : WebSocket = record w { receive_buffer = b } in
    let (count, entries, b', dispatched, v', left) =
      dispatch_binary-stream world.fuel p w1 world.seeds xs fuel k v1 idle (content ∙ whole) in
    (
      count,
      entries,
      b',
      poll_run p w w1 timeout world connected state (ap (λ r. receive_loop p w r) reads ∙ run) state
          (transmit_loop-quiet w w1 world refl quiet) dispatched,
      v',
      left,
    )
