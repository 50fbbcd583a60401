-- ===== src/WebSocket/Handshake/Refusal.antt =====
-- A client that asks for a path, and a server.
use wsclient.Base.{
  ℕ, ◌<◌, ◌≡◌, refl, sym, ap, ◌∙◌, Bool, true, false, some, List, [], ◌∷◌, ◌++◌, arith, length,
  length-append, append_assoc, All-append, ◌==◌, Bool-cases, inl, inr, length-replicate,
}
use wsclient.Base.Text.{codes, same_bytes}
use wsclient.Base.Strings.{same_bytes-equal}
use wsclient.Base.Scan.{Integer}
use wsclient.WebSocket.{
  WebSocket, connecting, closed, http_status, Platform, Event, socket_send, socket_release,
  create_server_client,
}
use wsclient.WebSocket.Connection.{on_line, drop_socket}
use wsclient.WebSocket.Connection.Bounds.{after_line}
use wsclient.WebSocket.Connection.Feed.{feed, IsText, is_text-IsText, IsWaiting}
use wsclient.WebSocket.Connection.Line.{feed_line, taken}
use wsclient.WebSocket.Connection.Opening.{get_line}
use wsclient.WebSocket.Handshake.Request.{create_client-request}
use wsclient.WebSocket.Client.{
  unconnected, Target, target_of, request, request_texts, create_client, crlf,
}
use wsclient.WebSocket.Client.Limits.{target_of-fits, request-whole}

-- The request line for a path.
abbrev path_line : List ℕ → List ℕ
path_line path = codes "GET /" ++ (path ++ codes " HTTP/1.1")

abbrev TextByte : ℕ → Type 0
TextByte x = ((x == 10) ≡ false) × ((x == 0) ≡ false)

path_line-same_bytes :
    (path : List ℕ) → 0 < length path → same_bytes (path_line path) get_line ≡ false
path_line-same_bytes path h = elim (Bool-cases (same_bytes (path_line path) get_line)) [
  | inr other ↦ other
  | inl equal ↦ absurd (
      omega (
        arith,
        ap length (same_bytes-equal (path_line path) get_line equal),
        length-append path (codes " HTTP/1.1"),
      ))
]

on_line-path :
    (path : List ℕ)
    → 0 < length path
    → on_line true connecting http_status (path_line path)
      ≡ record { ok = false; state = connecting; phase = http_status; events = [] }
unfolding on_line
on_line-path path h = rw (path_line-same_bytes path h)

server_refuses :
    (p : Platform) (use_mask : Bool) (now : ℕ) (path : List ℕ)
    → 0 < length path
    → length path < 128
    → IsText path
    → (server : WebSocket) × (feed
          (create_server_client p use_mask now)
          now
          (path_line path ++ crlf)
        ≡ some (server, socket_release ∷ []))
      × (server.ready_state ≡ closed)
      × (server.socket ≡ false)
unfolding create_server_client
server_refuses p use_mask now path some_path short h =
    let server = create_server_client p use_mask now in
    let waiting : IsWaiting server now = record {
      connected = refl;
      in_time = omega arith;
      stored = length-replicate {A = ℕ} 256 0;
    } in
    let text : IsText (path_line path) =
      All-append TextByte (codes "GET /") (path ++ codes " HTTP/1.1")
        (is_text-IsText (codes "GET /") refl)
        (All-append TextByte path (codes " HTTP/1.1") h
          (is_text-IsText (codes " HTTP/1.1") refl)) in
    let (buffer, run, _) =
      feed_line server now (path_line path) waiting refl text
        (omega (arith, length-append path (codes " HTTP/1.1"))) in
    (
      drop_socket (
          after_line server now buffer
            (record { ok = false; state = connecting; phase = http_status; events = [] })),
      run ∙ ap (λ step. some (taken server now buffer step)) (on_line-path path some_path),
      unfold drop_socket in refl,
      unfold drop_socket in refl,
    )

-- The first thing that the client hands over.
abbrev pub first_sent : List Event → List ℕ
first_sent (socket_send bytes ∷ events) = bytes
first_sent events = []

first_sent-request :
    (url origin : List ℕ) (t : Target)
    → target_of url origin ≡ some (some t)
    → first_sent (request t origin) ≡ path_line t.path ++ crlf
unfolding request_texts
first_sent-request url origin t e =
    ap first_sent (request-whole url origin t e)
    ∙ ap (λ r. codes "GET /" ++ r) (sym (append_assoc t.path (codes " HTTP/1.1") crlf))

-- A URL and an origin that the constructor goes on with, whose port is then one that an int holds, with
-- a path that has neither a line feed nor a zero; and a socket to a server: the constructor of the
-- client succeeds, but the first line that it sends, and so its request, is refused by a server's
-- fresh socket that reads it within the same second: that gives its socket up and is closed, without
-- an answer.
pub handshake_refused :
    (p p' : Platform) (connect : List ℕ → Integer → Bool) (url origin : List ℕ)
    (use_mask use_mask' : Bool) (now now' : ℕ) (t : Target)
    → target_of url origin ≡ some (some t)
    → connect t.host t.port ≡ true
    → 0 < length t.path
    → IsText t.path
    → (client : WebSocket) × (sent : List Event) × (create_client p connect url origin use_mask now
        ≡ some (client, sent))
      × (server : WebSocket) × (feed (create_server_client p' use_mask' now') now' (first_sent sent)
          ≡ some (server, socket_release ∷ []))
      × (server.ready_state ≡ closed)
      × (server.socket ≡ false)
handshake_refused p p' connect url origin use_mask use_mask' now now' t e reached some_path h =
    let (_, short, _) = target_of-fits url origin t e in
    let (server, run, shut, gone) =
      server_refuses p' use_mask' now' t.path some_path (omega arith) h in
    (
      record (unconnected p use_mask now) { socket = true; ready_state = connecting },
      request t origin,
      create_client-request p connect url origin use_mask now t e reached,
      server,
      ap (feed (create_server_client p' use_mask' now') now') (first_sent-request url origin t e)
          ∙ run,
      shut,
      gone,
    )
