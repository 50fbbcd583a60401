-- ===== src/WebSocket/Destroy/Graceful.antt =====
-- The destructor of a connected socket.
use wsclient.Base.{
  sum, ℕ, ◌+◌, ◌<◌, ◌≡◌, refl, ap, ◌∙◌, true, false, some, List, [], ◌∷◌, ◌++◌, arith, leb,
  append_assoc, append-nil, length, length-append, map, All, Bool-cases, inl, inr, if◌then◌else◌,
}
use wsclient.SimpleBuffer.{get_data, get_size}
use wsclient.SimpleBuffer.Invariant.{IsAllocator, IsValid, length-get_data}
use wsclient.SimpleBuffer.Grow.{can_fit, MovesApart}
use wsclient.WebSocket.{WebSocket, closing, Platform, Event, socket_close, socket_release}
use wsclient.WebSocket.Send.{is_closing, close, close_bytes}
use wsclient.WebSocket.Send.Close.{close_lem}
use wsclient.WebSocket.Dispatch.{stop}
use wsclient.WebSocket.Poll.{Send, is_closed, poll}
use wsclient.WebSocket.Poll.Messages.{HasReadRoom}
use wsclient.WebSocket.Poll.Sending.{pieces, Flows, poll_closing}
use wsclient.WebSocket.Destroy.{Pass, close_timeout, close_loop, destroy}

close_loop_done :
    (p : Platform) (w : WebSocket) (passes : List Pass)
    → is_closed w.ready_state ≡ true
    → close_loop p w passes ≡ some (stop, w, [])
unfolding close_loop
close_loop_done p w [] e = rw e
close_loop_done p w (pass ∷ passes) e = rw e

close_loop_once :
    (p : Platform) (w w' : WebSocket) (pass : Pass) (passes : List Pass) {events : List Event}
    → is_closed w.ready_state ≡ false
    → poll p w false 1 pass.world ≡ some (stop, w', events)
    → is_closed w'.ready_state ≡ true
    → close_loop p w (pass ∷ passes) ≡ some (stop, w', events)
unfolding close_loop
close_loop_once p w w' pass passes {events} live run done =
    elim (Bool-cases (leb close_timeout pass.elapsed)) [
      | inl late ↦ rw (live, run, late)
      | inr early ↦
          rw (live, run, early, close_loop_done p w' passes done)
            (ap (λ t. some (stop, w', t)) (append-nil events))
    ]

destroy_run :
    (p : Platform) (w w1 w2 : WebSocket) (passes : List Pass) {events : List Event}
    → close p w ≡ some w1
    → close_loop p w1 passes ≡ some (stop, w2, events)
    → w2.socket ≡ true
    → destroy p w passes ≡ some (stop, events ++ (socket_release ∷ []))
unfolding destroy
destroy_run p w w1 w2 passes e f g = rw (destroy, e, f, g)

-- A connected socket that is not closing, with an allocator that succeeds: its receive buffer is
-- valid and has room for a read; its transmit buffer is valid, a close frame fits, and the content
-- lies apart from its new place where it has to move. When nothing arrives during the first pass
-- and the socket takes all that is queued, in whatever pieces, the destructor comes to its end in
-- that pass, however long it lasted: it hands over what was queued, and a close frame behind it,
-- closes the socket and releases it.
pub destroy_graceful :
    (p : Platform) (w : WebSocket) (pass : Pass) (passes : List Pass) (ns : List ℕ)
    → IsAllocator p.malloc
    → w.socket ≡ true
    → is_closing w.ready_state ≡ false
    → IsValid w.receive_buffer
    → HasReadRoom w.receive_buffer 0
    → IsValid w.transmit_buffer
    → MovesApart w.transmit_buffer 6
    → can_fit w.transmit_buffer 6 ≡ true
    → pass.world.receives ≡ []
    → pass.world.sends ≡ map Send.took ns
    → All (λ n. 0 < n) ns
    → sum ns ≡ get_size w.transmit_buffer + 6
    → destroy p w (pass ∷ passes)
      ≡ some (
        stop,
        pieces ns (get_data w.transmit_buffer ++ close_bytes)
            ++ (socket_close ∷ socket_release ∷ []),
      )
unfolding is_closed
destroy_graceful p w pass passes ns a connected alive v room queue apart fit silent taken some_bytes
      whole =
    let (b, closes, q) = close_lem p w a queue apart in
    let w1 : WebSocket = record w { ready_state = closing; transmit_buffer = b } in
    let closed_now : close p w ≡ some w1 = closes ∙ ap (λ t. some (if t then w else w1)) alive in
    let content : get_data b ≡ get_data w.transmit_buffer ++ close_bytes =
      q.content
      ∙ ap
          (λ t. if t then get_data w.transmit_buffer ++ close_bytes else get_data w.transmit_buffer)
          fit in
    let size : sum ns ≡ get_size b = omega (
      arith,
      whole,
      ap length content,
      length-append (get_data w.transmit_buffer) close_bytes,
      length-get_data q.valid,
      length-get_data queue,
    ) in
    let flows : Flows w1 pass.world ns = record {
      connected = connected;
      readable = v;
      room = room;
      silent = silent;
      queue = q.valid;
      some_bytes = some_bytes;
      whole = size;
      taken = taken;
    } in
    let (w2, run, shut, kept) = poll_closing p w1 pass.world ns flows 1 refl in
    destroy_run p w w1 w2 (pass ∷ passes) closed_now
      (close_loop_once p w1 w2 pass passes refl run (ap is_closed shut)) kept
    ∙ ap (λ t. some (stop, t))
        (append_assoc (pieces ns (get_data b)) (socket_close ∷ []) (socket_release ∷ [])
          ∙ ap (λ t. pieces ns t ++ (socket_close ∷ socket_release ∷ [])) content)
