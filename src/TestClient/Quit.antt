-- ===== src/TestClient/Quit.antt =====
-- The word that ends the client: it is sent, and the connection is closed behind it.
use wsclient.Base.{
  sum, ℕ, ◌<◌, ◌≤◌, ◌≡◌, sym, ap, ◌∙◌, true, false, not, some, List, [], ◌∷◌, ◌++◌, arith, length,
  map, All, inl, eq_nil, length-append,
}
use wsclient.SimpleBuffer.{get_data, get_size}
use wsclient.SimpleBuffer.Invariant.{IsAllocator, length-get_data, get_size_lem}
use wsclient.SimpleBuffer.Grow.{can_fit, MovesApart}
use wsclient.Frame.{frame_header, text_frame, expected_header_len}
use wsclient.Frame.Wire.{on_wire}
use wsclient.Frame.RoundTrip.{length-frame_header}
use wsclient.WebSocket.Send.Message.{key_of}
use wsclient.WebSocket.{WebSocket, Platform, Event, socket_close, socket_release}
use wsclient.WebSocket.Send.{is_closing, close_bytes}
use wsclient.WebSocket.Dispatch.{stop}
use wsclient.WebSocket.Poll.{Send}
use wsclient.WebSocket.Poll.Sending.{pieces}
use wsclient.WebSocket.Destroy.{Pass, destroy}
use wsclient.WebSocket.Destroy.Graceful.{destroy_graceful}
use wsclient.TestClient.{Round, is_exit, client_round, run}
use wsclient.TestClient.Line.{IsIdle, IsTyped, line_frame, said, client_round-said}

masked_frame_length :
    (p : Platform) (w : WebSocket) (seed : ℕ) (str : List ℕ)
    → w.use_mask ≡ true
    → 6 ≤ length (line_frame p w seed str)
unfolding expected_header_len
masked_frame_length p w seed str masks =
    let key = key_of p seed in
    let header = frame_header text_frame (length str) w.use_mask key in
    ground (
      arith,
      length-append header (on_wire w.use_mask key str),
      length-frame_header text_frame (length str) w.use_mask key,
      masks,
    )

run_stop :
    (p : Platform) (w w' : WebSocket) (round : Round) (rounds : List Round) (passes : List Pass)
    (str : List ℕ) {events events' : List Event}
    → is_exit str ≡ true
    → client_round p w round ≡ some (stop, not (is_exit str), w', events)
    → destroy p w' passes ≡ some (stop, events')
    → run p w (round ∷ rounds) passes ≡ some (stop, events ++ events')
unfolding run
run_stop p w w' round rounds passes str {events} leave e f =
    let done : client_round p w round ≡ some (stop, false, w', events) =
      e ∙ ap (λ t. some (stop, not t, w', events)) leave in
    rw (run, done, f)

-- The word `bye`, `exit` or `quit` that is typed at an idle client that masks, in a round in which
-- nothing arrives and the socket takes the whole frame, in whatever pieces, and then, in the first
-- pass of the destructor, the close frame, in whatever pieces: the client comes to its end, whatever
-- would have been typed later. It hands over the word as a text frame and the close frame behind it,
-- and nothing else, closes the socket and releases it.
pub run_quit :
    (p : Platform) (w : WebSocket) (str ns ns' : List ℕ) (round : Round) (rounds : List Round)
    (pass : Pass) (passes : List Pass)
    → IsAllocator p.malloc
    → IsIdle w 0
    → w.use_mask ≡ true
    → IsTyped p w str ns round
    → is_exit str ≡ true
    → pass.world.receives ≡ []
    → pass.world.sends ≡ map Send.took ns'
    → All (λ n. 0 < n) ns'
    → sum ns' ≡ 6
    → run p w (round ∷ rounds) (pass ∷ passes)
      ≡ some (
        stop,
        pieces ns (line_frame p w round.seed str)
            ++ (pieces ns' close_bytes ++ (socket_close ∷ socket_release ∷ [])),
      )
unfolding is_closing
run_quit p w str ns ns' round rounds pass passes a idle masks line leave silent taken some_bytes
      whole =
    let (count, entries, b, b1, said_run, left, v, content) =
      client_round-said p w str ns round idle line in
    let w2 = said w count entries b in
    let nothing : get_size b ≡ 0 = ground (arith, left.empty) in
    let empty : get_data b ≡ [] = eq_nil (get_data b) (length-get_data left.valid ∙ nothing) in
    let frame = masked_frame_length p w round.seed str masks in
    let sent : length (line_frame p w round.seed str) ≡ get_size b1 =
      sym (ap length content) ∙ length-get_data v in
    let free : (b.start_loc ≡ 0) × (b.end_loc ≡ 0) =
      left.reset (inl (omega (arith, frame, sent))) in
    let size : 6 ≤ b.max_len = omega (arith, frame, sent, get_size_lem v, v.within, left.limit) in
    let apart : MovesApart b 6 = λ full front. absurd (omega (arith, free.1)) in
    let fit : can_fit b 6 ≡ true = ground (arith, free.1, size) in
    let ends =
      destroy_graceful p w2 pass passes ns' a idle.connected (ap is_closing idle.open_state)
        idle.readable idle.room left.valid apart fit silent taken some_bytes
        (omega (arith, nothing)) in
    run_stop p w w2 round rounds (pass ∷ passes) str leave said_run (
      ends
      ∙ ap (λ t. some (stop, pieces ns' (t ++ close_bytes) ++ (socket_close ∷ socket_release ∷ [])))
          empty)
