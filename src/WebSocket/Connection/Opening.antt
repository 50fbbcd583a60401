-- ===== src/WebSocket/Connection/Opening.antt =====
-- The lines by which the handshake comes to its end, on either side.
use wsclient.Base.{
  ℕ, ◌<◌, ◌≡◌, refl, ap, ◌∙◌, Bool, true, false, some, List, [], ◌∷◌, ◌++◌, arith, length, All,
  ◌==◌, Block,
}
use wsclient.Base.Text.{codes, same_bytes}
use wsclient.WebSocket.{
  WebSocket, ReadyState, connecting, opened, ConnectionPhase, http_status, hconnection_upgrade,
  hsec_websocket_accept, hserver_websocket, hupgrade_websocket, server_client_strings, Event,
  disable_nagles_algorithm,
}
use wsclient.WebSocket.Connection.{is_switching, on_line, responses, Step}
use wsclient.WebSocket.Connection.Bounds.{after_line}
use wsclient.WebSocket.Connection.Feed.{IsWaiting, IsText, is_text-IsText, feed, feed-append}
use wsclient.WebSocket.Connection.Line.{feed_line, taken}

-- A socket at the start of a line of the handshake.
pub record At (w : WebSocket) (is_server : Bool) (state : ReadyState) (phase : ConnectionPhase)
    (now : ℕ) : Type 0 where
  pub waiting : IsWaiting w now
  pub start : w.connection_index ≡ 0
  pub side : w.is_server_client ≡ is_server
  pub ready : w.ready_state ≡ state
  pub reached : w.connection_phase ≡ phase

-- A text that stands in one line.
abbrev pub IsLine : List ℕ → Type 0
IsLine text = IsText text × (length text < 253)

abbrev pub lines_text : List (List ℕ) → List ℕ
lines_text [] = []
lines_text (text ∷ texts) = (text ++ (13 ∷ 10 ∷ [])) ++ lines_text texts

after_line-At :
    {w : WebSocket} {is_server : Bool} {state : ReadyState} {phase : ConnectionPhase} {now : ℕ}
    (buffer : Block) (step : Step)
    → At w is_server state phase now
    → length buffer ≡ 256
    → At (after_line w now buffer step) is_server step.state step.phase now
after_line-At buffer step a size = record {
  waiting = record { connected = a.waiting.connected; in_time = omega arith; stored = size };
  start = refl;
  side = a.side;
  ready = refl;
  reached = refl;
}

-- A line that is accepted.
next_line :
    {w : WebSocket} {is_server : Bool} {state : ReadyState} {phase : ConnectionPhase} {now : ℕ}
    (text : List ℕ) (step : Step)
    → At w is_server state phase now
    → IsLine text
    → on_line is_server state phase text ≡ step
    → step.ok ≡ true
    → (w1 : WebSocket) × (feed w now (text ++ (13 ∷ 10 ∷ [])) ≡ some (w1, step.events))
      × At w1 is_server step.state step.phase now
next_line {w} {is_server} {state} {phase} {now} text step a line e good =
    let (buffer, run, size) = feed_line w now text a.waiting a.start line.0 line.1 in
    let same : on_line w.is_server_client w.ready_state w.connection_phase text ≡ step =
      ap (λ s. on_line s w.ready_state w.connection_phase text) a.side
      ∙ ap (λ s. on_line is_server s w.connection_phase text) a.ready
      ∙ ap (λ s. on_line is_server state s text) a.reached
      ∙ e in
    (
      after_line w now buffer step,
      run ∙ ap (λ s. some (taken w now buffer s)) same ∙ accept w now buffer step good,
      after_line-At buffer step a size,
    )
  where
    accept :
        (w : WebSocket) (now : ℕ) (buffer : Block) (step : Step)
        → step.ok ≡ true
        → some (taken w now buffer step) ≡ some (after_line w now buffer step, step.events)
    accept w now buffer step good = simp good

-- Lines that are accepted with no event, up to the ones that follow.
abbrev pub Opens : WebSocket → ℕ → List ℕ → Bool → ConnectionPhase → List Event → Type 0
Opens w now bytes is_server phase events =
    (w1 : WebSocket) × (feed w now bytes ≡ some (w1, events)) × At w1 is_server opened phase now

-- One line, then the others.
first_line :
    (w w1 : WebSocket) (now : ℕ) {is_server : Bool} {phase : ConnectionPhase}
    {events events' : List Event} (text bytes : List ℕ)
    → feed w now (text ++ (13 ∷ 10 ∷ [])) ≡ some (w1, events)
    → Opens w1 now bytes is_server phase events'
    → Opens w now ((text ++ (13 ∷ 10 ∷ [])) ++ bytes) is_server phase (events ++ events')
first_line w w1 now text bytes e (w2, f, a) =
    (w2, feed-append w now (text ++ (13 ∷ 10 ∷ [])) bytes e f, a)

abbrev pub ends : List (List ℕ) → List (List ℕ)
ends texts = texts ++ ([] ∷ [])

server_lines :
    (w : WebSocket) (now : ℕ) (texts : List (List ℕ))
    → At w true connecting server_client_strings now
    → All (λ text. IsLine text × (0 < length text)) texts
    → Opens w now
        (lines_text (ends texts))
        true
        server_client_strings
        (disable_nagles_algorithm ∷ [])
unfolding on_line
server_lines w now [] a h =
    let (w1, e, b) = next_line [] _ a (tt, omega arith) refl refl in
    first_line w w1 now [] [] e (w1, unfold feed in refl, b)
server_lines w now (text ∷ texts) a h =
    let given : (length text == 0) ≡ false = ground (arith, h.0.1) in
    let step : Step = record {
      ok = true;
      state = connecting;
      phase = server_client_strings;
      events = [];
    } in
    let (w1, e, b) = next_line text step a h.0.0 (rw given) refl in
    first_line w w1 now text (lines_text (ends texts)) e (server_lines w1 now texts b h.1)

abbrev pub get_line : List ℕ
get_line = codes "GET / HTTP/1.1"

-- A server's socket that waits for a request: the request line for `/`, any lines that are not
-- empty, and the empty line open the connection; the six lines of the answer are sent first.
pub server_opens :
    (w : WebSocket) (now : ℕ) (texts : List (List ℕ))
    → At w true connecting http_status now
    → All (λ text. IsLine text × (0 < length text)) texts
    → (w1 : WebSocket) × (feed w now (lines_text (get_line ∷ ends texts))
        ≡ some (w1, responses ++ (disable_nagles_algorithm ∷ [])))
      × At w1 true opened server_client_strings now
unfolding on_line same_bytes
server_opens w now texts a h =
    let step : Step = record {
      ok = true;
      state = connecting;
      phase = server_client_strings;
      events = responses;
    } in
    let (w1, e, b) =
      next_line get_line step a (is_text-IsText get_line refl, omega arith) refl refl in
    first_line w w1 now get_line (lines_text (ends texts)) e (server_lines w1 now texts b h)

-- A client's socket that waits for an answer: a status line with the status 101 and five more lines
-- of whatever text open the connection.
pub client_opens :
    (w : WebSocket) (now : ℕ) (status t1 t2 t3 t4 t5 : List ℕ)
    → At w false connecting http_status now
    → is_switching status ≡ true
    → All IsLine (status ∷ t1 ∷ t2 ∷ t3 ∷ t4 ∷ t5 ∷ [])
    → (w1 : WebSocket) × (feed w now (lines_text (status ∷ t1 ∷ t2 ∷ t3 ∷ t4 ∷ t5 ∷ []))
        ≡ some (w1, disable_nagles_algorithm ∷ []))
      × At w1 false opened ConnectionPhase.h now
unfolding on_line
client_opens w now status t1 t2 t3 t4 t5 a switching (h0, (h1, (h2, (h3, (h4, (h5, _)))))) =
    let go : ConnectionPhase → Step =
      λ phase. record { ok = true; state = connecting; phase = phase; events = [] } in
    let (w1, e1, a1) = next_line status (go hconnection_upgrade) a h0 (rw switching) refl in
    let (w2, e2, a2) = next_line t1 (go hsec_websocket_accept) a1 h1 refl refl in
    let (w3, e3, a3) = next_line t2 (go hserver_websocket) a2 h2 refl refl in
    let (w4, e4, a4) = next_line t3 (go hupgrade_websocket) a3 h3 refl refl in
    let (w5, e5, a5) = next_line t4 (go ConnectionPhase.h) a4 h4 refl refl in
    let (w6, e6, a6) = next_line t5 _ a5 h5 refl refl in
    first_line w w1 now status _ e1 (
      first_line w1 w2 now t1 _ e2 (
        first_line w2 w3 now t2 _ e3 (
          first_line w3 w4 now t3 _ e4 (
            first_line w4 w5 now t4 _ e5
              (first_line w5 w6 now {events' = []} t5 [] e6 (w6, unfold feed in refl, a6))))))
