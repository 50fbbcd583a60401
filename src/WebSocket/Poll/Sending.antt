-- ===== src/WebSocket/Poll/Sending.antt =====
-- A `poll` in which the socket takes everything that is queued.
use wsclient.Base.{
  sum, ℕ, zero, suc, length-drop, ◌-◌, ◌<◌, ◌≡◌, refl, sym, ap, ◌∙◌, true, false, some, List, [],
  ◌∷◌, ◌++◌, arith, length, take, drop, append-nil, take-append-drop, map, All, ◌==◌, if◌then◌else◌,
  lt-cases, ◌⊎◌, inl, inr,
}
use wsclient.SimpleBuffer.{SimpleBuffer, get_data, get_size}
use wsclient.SimpleBuffer.Invariant.{IsValid, length-get_data, consume_lem}
use wsclient.WebSocket.{
  WebSocket, opened, closing, closed, Platform, Event, socket_send, socket_close,
}
use wsclient.WebSocket.Dispatch.{Turn, stop, dispatch_binary}
use wsclient.WebSocket.Dispatch.Stream.{dispatch_round_empty, dispatch_binary_stop}
use wsclient.WebSocket.Poll.{
  Send, World, transmit_loop, receive_loop, close_socket, finish_close, is_closed, poll_open, poll,
}
use wsclient.WebSocket.Poll.Messages.{
  HasReadRoom, receive_round-wait, receive_loop_wait, opened_live, finish_close-opened,
}
use wsclient.WebSocket.Poll.Transmit.{
  bytes_sent, transmit_loop_empty, transmit_loop_again, transmit_round_took,
}

-- The pieces that the socket takes, one after the other.
abbrev pub pieces : List ℕ → List ℕ → List Event
pieces [] bytes = []
pieces (n ∷ ns) bytes = socket_send (take n bytes) ∷ pieces ns (drop n bytes)

-- The whole room of a buffer is free.
abbrev pub IsReset : SimpleBuffer → Type 0
IsReset b = (b.start_loc ≡ 0) × (b.end_loc ≡ 0)

-- What is left of the transmit buffer.
pub record Emptied (w : WebSocket) (ns : List ℕ) (b : SimpleBuffer) (events : List Event)
    : Type 0 where
  pub valid : IsValid b
  pub limit : b.max_len ≡ w.transmit_buffer.max_len
  pub reset : (0 < get_size w.transmit_buffer) ⊎ IsReset w.transmit_buffer → IsReset b
  pub empty : (get_size b == 0) ≡ true
  pub all : events ≡ pieces ns (get_data w.transmit_buffer)

transmit_loop-took :
    (w : WebSocket) (ns : List ℕ)
    → IsValid w.transmit_buffer
    → All (λ n. 0 < n) ns
    → sum ns ≡ get_size w.transmit_buffer
    → (b : SimpleBuffer) × (events : List Event) × (transmit_loop w (map Send.took ns)
        ≡ some (record w { transmit_buffer = b }, events))
      × Emptied w ns b events
transmit_loop-took w [] v h e =
    let empty : (get_size w.transmit_buffer == 0) ≡ true = ground (arith, e) in
    let nothing_sent : (0 < get_size w.transmit_buffer) ⊎ IsReset w.transmit_buffer
        → IsReset w.transmit_buffer =
      λ h. elim h [ inl more ↦ absurd (omega arith) | inr done ↦ done ] in
    (
      w.transmit_buffer,
      [],
      transmit_loop_empty w [] empty,
      record { valid = v; limit = refl; reset = nothing_sent; empty = empty; all = refl },
    )
transmit_loop-took w (n ∷ ns) v h e =
    let (b, run, left) = consume_lem n v (omega arith) in
    let content = get_data w.transmit_buffer in
    let size : get_size b ≡ get_size w.transmit_buffer - n =
      sym (length-get_data left.valid)
      ∙ ap length left.rest
      ∙ length-drop n content
      ∙ ap (λ t. t - n) (length-get_data v) in
    let full : (get_size w.transmit_buffer == 0) ≡ false = ground (arith, h.0, e) in
    let (b', events, run', done) =
      transmit_loop-took (record w { transmit_buffer = b }) ns left.valid h.1 (omega arith) in
    (
      b',
      socket_send (take n content) ∷ events,
      transmit_loop_again w (Send.took n) (map Send.took ns) full (transmit_round_took w n run)
          run',
      record {
        valid = done.valid;
        limit = done.limit ∙ left.limit;
        reset = λ _. done.reset (last_or_more b left.reset size);
        empty = done.empty;
        all = ap (λ t. socket_send (take n content) ∷ t) (done.all ∙ ap (pieces ns) left.rest);
      },
    )
  where
    last_or_more :
        (b : SimpleBuffer)
        → (n ≡ get_size w.transmit_buffer → IsReset b)
        → get_size b ≡ get_size w.transmit_buffer - n
        → (0 < get_size b) ⊎ IsReset b
    last_or_more b reset size = elim (lt-cases 0 (get_size b)) [
      | inl more ↦ inl more
      | inr last ↦ inr (reset (omega arith))
    ]

pub bytes_sent-pieces :
    (ns bytes : List ℕ) → sum ns ≡ length bytes → bytes_sent (pieces ns bytes) ≡ bytes
bytes_sent-pieces [] [] e = refl
bytes_sent-pieces [] (x ∷ bytes) e = absurd (omega arith)
bytes_sent-pieces (n ∷ ns) bytes e =
    ap (λ t. take n bytes ++ t)
      (bytes_sent-pieces ns (drop n bytes) (omega (arith, length-drop n bytes)))
    ∙ take-append-drop n bytes

-- A socket that is connected, with a valid receive buffer that has room for a read, while nothing
-- arrives; and whose transmit buffer is valid and is taken as a whole, piece by piece.
pub record Flows (w : WebSocket) (world : World) (ns : List ℕ) : Type 0 where
  pub connected : w.socket ≡ true
  pub readable : IsValid w.receive_buffer
  pub room : HasReadRoom w.receive_buffer 0
  pub silent : world.receives ≡ []
  pub queue : IsValid w.transmit_buffer
  pub some_bytes : All (λ n. 0 < n) ns
  pub whole : sum ns ≡ get_size w.transmit_buffer
  pub taken : world.sends ≡ map Send.took ns

module _ (p : Platform) (w : WebSocket) (world : World) (ns : List ℕ) (f : Flows w world ns) where
  nothing_read : receive_loop p w world.receives ≡ some (w, [])
  nothing_read =
      ap (receive_loop p w) f.silent
      ∙ receive_loop_wait p w (receive_round-wait p w f.readable f.room)

  poll_open_run :
      (w2 : WebSocket) (timeout : ℕ) {turn : Turn} {w3 : WebSocket} {events events' : List Event}
      → w.ready_state ≡ opened
      → transmit_loop w world.sends ≡ some (w2, events)
      → w2.ready_state ≡ opened
      → dispatch_binary world.fuel p w2 world.seeds ≡ some (turn, w3, events')
      → poll p w true timeout world ≡ some (turn, w3, events ++ events')
  unfolding poll poll_open is_closed
  poll_open_run w2 timeout state e state2 g =
      simp (
        f.connected,
        state,
        nothing_read,
        e,
        opened_live w2 state2,
        finish_close-opened w2 state2,
        g,
      )

  -- An open socket whose receive buffer is empty: `poll` hands all of it over and dispatches nothing.
  pub poll-Flows :
      (timeout : ℕ)
      → w.ready_state ≡ opened
      → get_data w.receive_buffer ≡ []
      → 0 < world.fuel
      → (b : SimpleBuffer) × (poll p w true timeout world
          ≡ some (stop, record w { transmit_buffer = b }, pieces ns (get_data w.transmit_buffer)))
        × Emptied w ns b (pieces ns (get_data w.transmit_buffer))
  poll-Flows timeout state idle fuel =
      let (b, events, run, done) = transmit_loop-took w ns f.queue f.some_bytes f.whole in
      let w2 : WebSocket = record w { transmit_buffer = b } in
      let run' : transmit_loop w world.sends ≡ some (w2, events) =
        ap (transmit_loop w) f.taken ∙ run in
      (
        b,
        poll_open_run w2 timeout state run' state (dispatches world.fuel w2 idle fuel)
            ∙ ap (λ t. some (stop, w2, t)) (append-nil events ∙ done.all),
        record {
          valid = done.valid;
          limit = done.limit;
          reset = done.reset;
          empty = done.empty;
          all = refl;
        },
      )
    where
      dispatches :
          (fuel : ℕ) (w2 : WebSocket)
          → get_data w2.receive_buffer ≡ []
          → 0 < fuel
          → dispatch_binary fuel p w2 world.seeds ≡ some (stop, w2, [])
      dispatches zero w2 e h = absurd (omega arith)
      dispatches (suc fuel) w2 e h =
          dispatch_binary_stop fuel p w2 world.seeds
            (dispatch_round_empty p w2 (world.seeds fuel) e)

  finish_close-closing :
      (w1 : WebSocket)
      → w1.ready_state ≡ closing
      → (get_size w1.transmit_buffer == 0) ≡ true
      → finish_close w1 ≡ (close_socket w1, socket_close ∷ [])
  unfolding finish_close
  finish_close-closing w1 e empty =
      ap
        (λ s. elim s as (λ _. WebSocket × List Event) [
          | closing ↦
              if get_size w1.transmit_buffer == 0
              then (close_socket w1, socket_close ∷ [])
              else (w1, [])
          | _ ↦ (w1, [])
        ])
        e
      ∙ rw empty

  closing_live : (w1 : WebSocket) → w1.ready_state ≡ closing → is_closed w1.ready_state ≡ false
  unfolding is_closed
  closing_live w1 e = rw e

  poll_closing_run :
      (w2 : WebSocket) (timeout : ℕ) {events : List Event}
      → w.ready_state ≡ closing
      → transmit_loop w world.sends ≡ some (w2, events)
      → w2.ready_state ≡ closing
      → (get_size w2.transmit_buffer == 0) ≡ true
      → poll p w false timeout world ≡ some (stop, close_socket w2, events ++ (socket_close ∷ []))
  unfolding poll poll_open is_closed close_socket
  poll_closing_run w2 timeout state e state2 empty = simp (
    f.connected,
    state,
    nothing_read,
    e,
    closing_live w2 state2,
    finish_close-closing w2 state2 empty,
  )

  -- A closing socket: `poll` hands all of it over, and then closes the socket.
  pub poll_closing :
      (timeout : ℕ)
      → w.ready_state ≡ closing
      → (w' : WebSocket) × (poll p w false timeout world
          ≡ some (stop, w', pieces ns (get_data w.transmit_buffer) ++ (socket_close ∷ [])))
        × (w'.ready_state ≡ closed)
        × (w'.socket ≡ true)
  poll_closing timeout state =
      let (b, events, run, done) = transmit_loop-took w ns f.queue f.some_bytes f.whole in
      let w2 : WebSocket = record w { transmit_buffer = b } in
      let run' : transmit_loop w world.sends ≡ some (w2, events) =
        ap (transmit_loop w) f.taken ∙ run in
      (
        close_socket w2,
        poll_closing_run w2 timeout state run' state done.empty
            ∙ ap (λ t. some (stop, close_socket w2, t ++ (socket_close ∷ []))) done.all,
        unfold close_socket in refl,
        unfold close_socket in f.connected,
      )
