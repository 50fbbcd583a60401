-- ===== src/WebSocket/Handshake.antt =====
-- The request of a client, the answer of a server, and both at work on one another.
pub mod Request
pub mod Refusal
mod Tests
use wsclient.Base.{
  ℕ, ◌+◌, ◌<◌, ◌≤◌, ◌^◌, ◌≡◌, refl, sym, ap, ap₂, ◌∙◌, Bool, true, false, not, ◌&&◌, some, List, [],
  ◌∷◌, ◌++◌, arith, length, length-append, map, All, All-append, append_assoc, ◌==◌, ltb,
  if◌then◌else◌, Bool-cases, inl, inr, length-replicate,
}
use wsclient.Base.Text.{codes, line, skip_literal, scan_int, skip_space}
use wsclient.Base.Scan.{Integer, print_integer}
use wsclient.Base.Scan.Print.{Passes, print_integer-Passes}
use wsclient.Base.Scan.Lengths.{length-print_integer}
use wsclient.WebSocket.{
  WebSocket, opened, connecting, ConnectionPhase, disable_nagles_algorithm, Platform, Event,
  socket_send, create_server_client,
}
use wsclient.WebSocket.Connection.{responses, is_switching}
use wsclient.WebSocket.Connection.Feed.{IsText, is_text, is_text-IsText, feed}
use wsclient.WebSocket.Connection.Opening.{
  At, IsLine, lines_text, ends, get_line, server_opens, client_opens,
}
use wsclient.WebSocket.Client.{
  Target, crlf, is_http_port, fits_int, request_texts, request, unconnected, target_of,
  create_client,
}
use wsclient.WebSocket.Client.Limits.{target_of-fits, target_of-fits_int, request-whole}
use wsclient.WebSocket.Poll.Transmit.{bytes_sent}
use wsclient.WebSocket.Handshake.Request.{
  create_client-request, headers, headers-IsHeader, request_texts-ended, bytes_sent-ended,
}

-- The lines of the answer.
abbrev status_line : List ℕ
status_line = codes "HTTP/1.1 101 Switching Protocols"

abbrev t1 : List ℕ
t1 = codes "HConnection: upgrade"

abbrev t2 : List ℕ
t2 = codes "HSec-WebSocket-Accept: HSmrc0sMlYUkAGmm5OPpG2HaGWk="

abbrev t3 : List ℕ
t3 = codes "HServer: WebSocket++/0.7.0"

abbrev t4 : List ℕ
t4 = codes "HUpgrade: websocket"

bytes_sent-responses :
    bytes_sent (responses ++ (disable_nagles_algorithm ∷ []))
    ≡ lines_text (status_line ∷ t1 ∷ t2 ∷ t3 ∷ t4 ∷ [] ∷ [])
bytes_sent-responses = refl

fixed-IsLine : (text : List ℕ) → is_text text ≡ true → ltb (length text) 253 ≡ true → IsLine text
fixed-IsLine text e f = (is_text-IsText text e, ground arith)

switching : is_switching status_line ≡ true
unfolding is_switching skip_literal scan_int skip_space
switching = refl

-- A URL and an origin that the constructor goes on with, with no path (the port is then one that an int holds);
-- a host and an origin with neither a line feed nor a zero; and a socket to a server: what the
-- client's constructor sends makes a server's fresh socket open the connection, and what that
-- server sends back makes the client's socket open it, when each side reads all of it within the
-- same second.
pub handshake_completes :
    (p p' : Platform) (connect : List ℕ → Integer → Bool) (url origin : List ℕ)
    (use_mask use_mask' : Bool) (now now' : ℕ) (t : Target)
    → target_of url origin ≡ some (some t)
    → connect t.host t.port ≡ true
    → t.path ≡ []
    → IsText t.host
    → IsText origin
    → (client : WebSocket) × (sent : List Event) × (create_client p connect url origin use_mask now
        ≡ some (client, sent))
      × (server : WebSocket) × (answer : List Event) × (feed
            (create_server_client p' use_mask' now')
            now'
            (bytes_sent sent)
          ≡ some (server, answer))
      × (server.ready_state ≡ opened)
      × (client' : WebSocket) × (feed client now (bytes_sent answer)
          ≡ some (client', disable_nagles_algorithm ∷ []))
      × (client'.ready_state ≡ opened)
unfolding create_server_client unconnected
handshake_completes p p' connect url origin use_mask use_mask' now now' t e reached root h k =
    let (hh, hp, ho) = target_of-fits url origin t e in
    let fits = target_of-fits_int url origin t e in
    let client : WebSocket = record (unconnected p use_mask now) {
      socket = true;
      ready_state = connecting;
    } in
    let server : WebSocket = create_server_client p' use_mask' now' in
    let client_at : At client false connecting ConnectionPhase.http_status now = record {
      waiting = record {
        connected = refl;
        in_time = omega arith;
        stored = length-replicate {A = ℕ} 256 0;
      };
      start = refl;
      side = refl;
      ready = refl;
      reached = refl;
    } in
    let server_at : At server true connecting ConnectionPhase.http_status now' = record {
      waiting = record {
        connected = refl;
        in_time = omega arith;
        stored = length-replicate {A = ℕ} 256 0;
      };
      start = refl;
      side = refl;
      ready = refl;
      reached = refl;
    } in
    let (server1, run, opens) =
      server_opens server now' (headers t origin) server_at
        (headers-IsHeader t origin h k hh ho fits) in
    let (client1, back, ready) =
      client_opens client now status_line t1 t2 t3 t4 [] client_at switching (
        fixed-IsLine status_line refl refl,
        (
          fixed-IsLine t1 refl refl,
          (
            fixed-IsLine t2 refl refl,
            (
              fixed-IsLine t3 refl refl,
              (fixed-IsLine t4 refl refl, (fixed-IsLine [] refl refl, tt)),
            ),
          ),
        ),
      ) in
    let texts : bytes_sent (request t origin) ≡ lines_text (get_line ∷ ends (headers t origin)) =
      ap bytes_sent (
        request-whole url origin t e
        ∙ ap (λ r. map socket_send r) (request_texts-ended t origin root))
      ∙ bytes_sent-ended (get_line ∷ ends (headers t origin)) in
    (
      client,
      request t origin,
      create_client-request p connect url origin use_mask now t e reached,
      server1,
      responses ++ (disable_nagles_algorithm ∷ []),
      ap (λ r. feed server now' r) texts ∙ run,
      opens.ready,
      client1,
      ap (λ r. feed client now r) bytes_sent-responses ∙ back,
      ready.ready,
    )
