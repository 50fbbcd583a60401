-- ===== src/WebSocket/Client.antt =====
-- The constructor of `WebSocketImpl` for a client: the URL, the connection and the request. And
-- `WebSocket::create`.
pub mod Url
pub mod Limits
use wsclient.Base.{
  ℕ, ◌+◌, ◌<◌, ◌^◌, Bool, true, false, Option, none, some, List, [], ◌∷◌, ◌++◌, ltb, leb, ◌==◌,
  ◌&&◌, ◌||◌, not, if◌then◌else◌, ◌>>=◌, ◌>>◌, require, length, take, map, replicate,
}
use wsclient.Base.Text.{codes, line, skip_literal}
use wsclient.Base.Scan.{Integer, scan_set, scan_word, scan_integer, print_integer}
use wsclient.SimpleBuffer.{create}
use wsclient.WebSocket.{
  WebSocket, ReadyState, connecting, opened, ConnectionPhase, http_status, Event, socket_send,
  Platform, default_receive_buffer_size, default_transmit_buffer_size, default_maximum_buffer_size,
}

-- What `sscanf` stored: `host`, `port` and `path`.
pub record Target : Type 0 where
  pub host : List ℕ
  pub port : Integer
  pub path : List ℕ

-- `%[^:/]`
abbrev pub is_host : ℕ → Bool
is_host c = if c == 58 then false else not (c == 47)

abbrev pub int_of : ℕ → Integer
int_of n = record { negative = false; magnitude = n }

abbrev pub http_port : Integer
http_port = int_of 80

-- Each of the four calls of `sscanf`: what it stored, or `none` if it did not match as a whole.
-- "ws://%[^:/]:%d/%s"
unfoldable pub scan_host_port_path : List ℕ → Option Target
scan_host_port_path url = do
  r0 ← skip_literal (codes "ws://") url
  (host, r1) ← scan_set is_host r0
  r2 ← skip_literal (codes ":") r1
  (port, r3) ← scan_integer r2
  r4 ← skip_literal (codes "/") r3
  (path, r5) ← scan_word r4
  some (record { host = host; port = port; path = path })

-- "ws://%[^:/]/%s"
unfoldable pub scan_host_path : List ℕ → Option Target
scan_host_path url = do
  r0 ← skip_literal (codes "ws://") url
  (host, r1) ← scan_set is_host r0
  r2 ← skip_literal (codes "/") r1
  (path, r3) ← scan_word r2
  some (record { host = host; port = http_port; path = path })

-- "ws://%[^:/]:%d"
unfoldable pub scan_host_port : List ℕ → Option Target
scan_host_port url = do
  r0 ← skip_literal (codes "ws://") url
  (host, r1) ← scan_set is_host r0
  r2 ← skip_literal (codes ":") r1
  (port, r3) ← scan_integer r2
  some (record { host = host; port = port; path = [] })

-- "ws://%[^:/]"
unfoldable pub scan_host : List ℕ → Option Target
scan_host url = do
  r0 ← skip_literal (codes "ws://") url
  (host, r1) ← scan_set is_host r0
  some (record { host = host; port = http_port; path = [] })

-- The first that matches.
abbrev or_else : Option Target → Option Target → Option Target
or_else none t = t
or_else (some t) t' = some t

unfoldable pub match_url : List ℕ → Option Target
match_url url =
    or_else (scan_host_port_path url)
      (or_else (scan_host_path url) (or_else (scan_host_port url) (scan_host url)))

-- A number that an `int` holds.
abbrev pub fits_int : Integer → Bool
fits_int i = if i.negative then leb i.magnitude (2 ^ 31) else ltb i.magnitude (2 ^ 31)

-- The chain of the four calls: what was stored, or nothing if none matched. `%d` of a number that no
-- `int` holds is undefined; a URL with such a number behind the host is matched by the first pattern
-- or by the third, so the number is the port that is found.
unfoldable pub parse_url : List ℕ → Option (Option Target)
parse_url url = elim (match_url url) [
  | none ↦ some none
  | some t ↦ (do require (fits_int t.port); some (some t))
]

-- `port == 80`
abbrev pub is_http_port : Integer → Bool
is_http_port i = not i.negative && i.magnitude == 80

-- `stringFormat(line, 256, …)`: `vsnprintf` keeps 255 bytes.
abbrev pub line_size : ℕ
line_size = 256

unfoldable pub format_line : List ℕ → List ℕ
format_line text = take 255 text

abbrev pub crlf : List ℕ
crlf = 13 ∷ 10 ∷ []

-- The texts that are formatted for the request.
unfoldable pub request_texts : Target → List ℕ → List (List ℕ)
request_texts t origin =
    (codes "GET /" ++ (t.path ++ line " HTTP/1.1"))
    ∷ (codes "Host: "
        ++ (t.host
            ++ (if is_http_port t.port then crlf else codes ":" ++ (print_integer t.port ++ crlf))))
    ∷ line "Upgrade: websocket"
    ∷ line "Connection: Upgrade"
    ∷ ((if length origin == 0 then [] else (codes "Origin: " ++ (origin ++ crlf)) ∷ [])
        ++ (line "Sec-WebSocket-Key: x3JJHMbDL1EzLkh9GBhXDw=="
            ∷ line "Sec-WebSocket-Version: 13"
            ∷ line ""
            ∷ []))

-- What `fprintf` and `send` of the constructor hand over: the lines, each sent on its own. What
-- `send` returns is not looked at.
unfoldable pub request : Target → List ℕ → List Event
request t origin = map (λ text. socket_send (format_line text)) (request_texts t origin)

-- The object before it connects: it has no socket, and is open.
unfoldable pub unconnected : Platform → Bool → ℕ → WebSocket
unconnected p use_mask now = record {
  receive_buffer = create p.malloc default_receive_buffer_size default_maximum_buffer_size;
  transmit_buffer = create p.malloc default_transmit_buffer_size default_maximum_buffer_size;
  received_data = create p.malloc default_receive_buffer_size default_maximum_buffer_size;
  socket = false;
  ready_state = opened;
  use_mask = use_mask;
  is_server_client = false;
  send_count = 0;
  receive_count = 0;
  log_file = none;
  connection_index = 0;
  connection_buffer = replicate 256 0;
  connection_timer = now;
  connection_phase = http_status;
}

-- The host and the port to connect to, if any: the URL and the origin are not too long, the URL
-- matches, and the port is not 0. Without a match `port` stays 0.
unfoldable pub target_of : List ℕ → List ℕ → Option (Option Target)
target_of url origin =
    let parse = do
      found ← parse_url url
      some (elim found [ none ↦ none | some t ↦ if t.port.magnitude == 0 then none else some t ])
    in if leb 128 (length url)
      then some none
      else if leb 200 (length origin)
      then some none
      else parse

-- The constructor. `connect` says whether `Wsocket::create` returns a socket for a host and a port.
unfoldable pub create_client :
    Platform
    → (List ℕ → Integer → Bool)
    → List ℕ
    → List ℕ
    → Bool
    → ℕ
    → Option (WebSocket × List Event)
create_client p connect url origin use_mask now = do
  target ← target_of url origin
  let w = unconnected p use_mask now
  elim target [
    | none ↦ some (w, [])
    | some t ↦
        if connect t.host t.port
        then some (record w { socket = true; ready_state = connecting }, request t origin)
        else some (w, [])
  ]

-- `isValid`
unfoldable pub is_valid : WebSocket → Bool
is_valid w = w.socket
