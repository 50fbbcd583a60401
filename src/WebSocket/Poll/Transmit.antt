-- ===== src/WebSocket/Poll/Transmit.antt =====
-- The transmit loop of `poll` against what the socket takes.
use wsclient.Base.{
  ℕ, ◌-◌, ◌≤◌, ◌≡◌, refl, sym, ap, ◌∙◌, true, false, Option, some, List, [], ◌∷◌, ◌++◌, length,
  take, ◌==◌, subst, append_assoc, take-append-drop, Bool-cases, inl, inr, length-drop,
}
use wsclient.SimpleBuffer.{SimpleBuffer, get_data, get_size, consume}
use wsclient.SimpleBuffer.Invariant.{IsValid, consume_lem, length-get_data}
use wsclient.WebSocket.{
  WebSocket, Event, receive_message, socket_send, socket_close, socket_release,
  disable_nagles_algorithm, null_select,
}
use wsclient.WebSocket.Dispatch.{again, stop}
use wsclient.WebSocket.Poll.{Send, close_socket, transmit_round, transmit_loop}

-- The socket takes at most what it is offered.
abbrev pub Takes : ℕ → List Send → Type 0
Takes size [] = Unit
Takes size (Send.took n ∷ results) = (n ≤ size) × Takes (size - n) results
Takes size (Send.wait ∷ results) = Unit
Takes size (Send.failed ∷ results) = Unit
Takes size (Send.ended ∷ results) = Unit

-- All that was handed over to the socket.
abbrev pub bytes_sent : List Event → List ℕ
bytes_sent [] = []
bytes_sent (socket_send bytes ∷ events) = bytes ++ bytes_sent events
bytes_sent (receive_message bytes is_text ∷ events) = bytes_sent events
bytes_sent (socket_close ∷ events) = bytes_sent events
bytes_sent (socket_release ∷ events) = bytes_sent events
bytes_sent (disable_nagles_algorithm ∷ events) = bytes_sent events
bytes_sent (null_select n ∷ events) = bytes_sent events

-- What the loop leaves: nothing of the content is lost, sent twice or out of order.
pub record Transmitted (w : WebSocket) (w' : WebSocket) (events : List Event) : Type 0 where
  pub valid : IsValid w'.transmit_buffer
  pub content : bytes_sent events ++ get_data w'.transmit_buffer ≡ get_data w.transmit_buffer

abbrev pub Transmits : WebSocket → Option (WebSocket × List Event) → Type 0
Transmits w result =
    (w' : WebSocket) × (events : List Event) × (result ≡ some (w', events))
    × Transmitted w w' events

pub transmit_loop_empty :
    (w : WebSocket) (results : List Send)
    → (get_size w.transmit_buffer == 0) ≡ true
    → transmit_loop w results ≡ some (w, [])
unfolding transmit_loop
transmit_loop_empty w [] e = refl
transmit_loop_empty w (result ∷ results) e = rw e

transmit_loop_stop :
    (w : WebSocket) (result : Send) (results : List Send) {w' : WebSocket} {events : List Event}
    → (get_size w.transmit_buffer == 0) ≡ false
    → transmit_round w result ≡ some (stop, w', events)
    → transmit_loop w (result ∷ results) ≡ some (w', events)
unfolding transmit_loop
transmit_loop_stop w result results e f = rw (e, f)

pub transmit_loop_again :
    (w : WebSocket) (result : Send) (results : List Send) {w' w'' : WebSocket}
    {events events' : List Event}
    → (get_size w.transmit_buffer == 0) ≡ false
    → transmit_round w result ≡ some (again, w', events)
    → transmit_loop w' results ≡ some (w'', events')
    → transmit_loop w (result ∷ results) ≡ some (w'', events ++ events')
unfolding transmit_loop
transmit_loop_again w result results e f g = rw (e, f, g)

pub transmit_round_took :
    (w : WebSocket) (n : ℕ) {b : SimpleBuffer}
    → consume w.transmit_buffer n ≡ some b
    → transmit_round w (Send.took n)
      ≡ some (
        again,
        record w { transmit_buffer = b },
        socket_send (take n (get_data w.transmit_buffer)) ∷ [],
      )
unfolding transmit_round
transmit_round_took w n e = simp e

-- A round in which nothing is sent is the last one.
stopped :
    (w : WebSocket) (result : Send) (results : List Send) {w' : WebSocket} {events : List Event}
    → IsValid w.transmit_buffer
    → transmit_round w result ≡ some (stop, w', events)
    → Transmitted w w' events
    → Transmits w (transmit_loop w (result ∷ results))
stopped w result results {w'} {events} v run sent =
    elim (Bool-cases (get_size w.transmit_buffer == 0)) [
      | inl empty ↦ (
        w,
        [],
        transmit_loop_empty w (result ∷ results) empty,
        record { valid = v; content = refl },
      )
      | inr full ↦ (w', events, transmit_loop_stop w result results full run, sent)
    ]

-- Whatever the results of the socket's calls, as long as it takes at most what it is offered: on a
-- valid transmit buffer the loop is defined and leaves a valid one, and the bytes handed over,
-- followed by what is still queued, are exactly what was queued before.
pub transmit_loop-Transmits :
    (w : WebSocket) (results : List Send)
    → IsValid w.transmit_buffer
    → Takes (get_size w.transmit_buffer) results
    → (w' : WebSocket) × (events : List Event) × (transmit_loop w results ≡ some (w', events))
      × Transmitted w w' events
unfolding transmit_loop transmit_round close_socket
transmit_loop-Transmits w [] v h = (w, [], refl, record { valid = v; content = refl })
transmit_loop-Transmits w (Send.wait ∷ results) v h =
    stopped w Send.wait results v refl (record { valid = v; content = refl })
transmit_loop-Transmits w (Send.failed ∷ results) v h =
    stopped w Send.failed results v refl (record { valid = v; content = refl })
transmit_loop-Transmits w (Send.ended ∷ results) v h =
    stopped w Send.ended results v refl (record { valid = v; content = refl })
transmit_loop-Transmits w (Send.took n ∷ results) v h =
    let (b, run, left) = consume_lem n v h.0 in
    let size : get_size b ≡ get_size w.transmit_buffer - n =
      sym (length-get_data left.valid)
      ∙ ap length left.rest
      ∙ length-drop n (get_data w.transmit_buffer)
      ∙ ap (λ t. t - n) (length-get_data v) in
    let (w', events, run', sent) =
      transmit_loop-Transmits (record w { transmit_buffer = b }) results left.valid
        (subst (λ t. Takes t results) (sym size) h.1) in
    let front = take n (get_data w.transmit_buffer) in
    elim (Bool-cases (get_size w.transmit_buffer == 0)) [
      | inl empty ↦ (
        w,
        [],
        transmit_loop_empty w (Send.took n ∷ results) empty,
        record { valid = v; content = refl },
      )
      | inr full ↦ (
        w',
        socket_send front ∷ events,
        transmit_loop_again w (Send.took n) results full (transmit_round_took w n run) run',
        record {
          valid = sent.valid;
          content =
              append_assoc front (bytes_sent events) (get_data w'.transmit_buffer)
              ∙ ap (λ t. front ++ t) (sent.content ∙ left.rest)
              ∙ take-append-drop n (get_data w.transmit_buffer);
        },
      )
    ]
