-- ===== src/WebSocket/Send/Close.antt =====
-- `close` of `WebSocketImpl`.
use wsclient.Base.{Bool-cases, inl, inr, ◌≡◌, Bool, some, arith, if◌then◌else◌}
use wsclient.SimpleBuffer.{SimpleBuffer, add_buffer}
use wsclient.SimpleBuffer.Invariant.{IsAllocator, IsValid}
use wsclient.SimpleBuffer.Grow.{MovesApart}
use wsclient.SimpleBuffer.Queue.{Appended, add_buffer_lem}
use wsclient.WebSocket.{WebSocket, Platform, closing}
use wsclient.WebSocket.Send.{is_closing, close_bytes, close}

close_run :
    (p : Platform) (w : WebSocket) {added : Bool} {b : SimpleBuffer}
    → add_buffer p.malloc w.transmit_buffer (some close_bytes) 6 ≡ some (added, b)
    → close p w
      ≡ some (
          if is_closing w.ready_state
          then w
          else record w { ready_state = closing; transmit_buffer = b })
unfolding close
close_run p w e = elim (Bool-cases (is_closing w.ready_state)) [
  | inl late ↦ rw late
  | inr alive ↦ rw (alive, e)
]

-- With an allocator that succeeds, on a valid transmit buffer whose content lies apart from its new
-- place where it has to move: `close` of a socket that is not closing or closed is defined, makes
-- it closing, and puts the six bytes of a close frame behind the content if they fit, and nothing
-- otherwise. On a socket that is closing or closed it does nothing.
pub close_lem :
    (p : Platform) (w : WebSocket)
    → IsAllocator p.malloc
    → IsValid w.transmit_buffer
    → MovesApart w.transmit_buffer 6
    → (b : SimpleBuffer) × (close p w
        ≡ some (
            if is_closing w.ready_state
            then w
            else record w { ready_state = closing; transmit_buffer = b }))
      × Appended w.transmit_buffer close_bytes b
close_lem p w a v apart =
    let (b, e, q) = add_buffer_lem p.malloc close_bytes a v (omega arith) (omega arith) apart in
    (b, close_run p w e, q)
