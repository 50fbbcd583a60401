-- ===== src/WebSocket/Handshake/Tests.antt =====
-- The opening of a connection and its closing at concrete inputs.
use wsclient.WebSocket.Samples.{platform, platform-IsAllocator}
use wsclient.Base.{false, ℕ, ◌≡◌, refl, true, some, none, List, [], ◌∷◌, arith, map, inl}
use wsclient.Base.Text.{codes, skip_literal}
use wsclient.Base.Scan.{
  scan_word, span, scan_set, scan_integer, scan_signed, scan_unsigned, value_of,
}
use wsclient.WebSocket.{
  WebSocket, opened, Event, socket_send, disable_nagles_algorithm, create_server_client,
}
use wsclient.WebSocket.Poll.Transmit.{bytes_sent}
use wsclient.WebSocket.Dispatch.{again}
use wsclient.WebSocket.Connection.Feed.{feed}
use wsclient.WebSocket.Client.{
  Target, int_of, parse_url, match_url, target_of, request, request_texts, create_client,
  scan_host_port_path, scan_host_path, scan_host_port, scan_host,
}
use wsclient.WebSocket.Client.Limits.{request-whole}
use wsclient.WebSocket.Destroy.{Pass, create_web_socket}
use wsclient.WebSocket.Destroy.Hang.{create_web_socket_hangs}
use wsclient.WebSocket.{closed, socket_release}
use wsclient.WebSocket.Handshake.Refusal.{first_sent, handshake_refused}
use wsclient.WebSocket.Handshake.{handshake_completes}

abbrev local_url : List ℕ
local_url = codes "ws://localhost:3009"

abbrev local : Target
local = record { host = codes "localhost"; port = int_of 3009; path = [] }

target_of-local_url : target_of local_url [] ≡ some (some local)
unfolding target_of parse_url match_url scan_host_port_path scan_host_path scan_host_port
    skip_literal scan_set span scan_integer scan_signed scan_unsigned value_of
target_of-local_url = refl

request-whole_example : request local [] ≡ map socket_send (request_texts local [])
request-whole_example = request-whole local_url [] local target_of-local_url

handshake_completes_example :
    (client : WebSocket) × (sent : List Event) × (create_client platform
        (λ host port. true)
        local_url
        []
        true
        5
      ≡ some (client, sent))
    × (server : WebSocket) × (answer : List Event) × (feed
          (create_server_client platform true 7)
          7
          (bytes_sent sent)
        ≡ some (server, answer))
    × (server.ready_state ≡ opened)
    × (client' : WebSocket) × (feed client 5 (bytes_sent answer)
        ≡ some (client', disable_nagles_algorithm ∷ []))
    × (client'.ready_state ≡ opened)
handshake_completes_example =
    handshake_completes platform platform (λ host port. true) local_url [] true true 5 7 local
      target_of-local_url refl refl
      (
        (refl, refl),
        (
          (refl, refl),
          (
            (refl, refl),
            (
              (refl, refl),
              ((refl, refl), ((refl, refl), ((refl, refl), ((refl, refl), ((refl, refl), tt))))),
            ),
          ),
        ),
      )
      tt

-- Two passes of the loop, for a URL that does not match.
abbrev bad_url : List ℕ
bad_url = codes "http://localhost"

target_of-bad_url : target_of bad_url [] ≡ some none
unfolding target_of parse_url match_url scan_host_port_path scan_host_path scan_host_port scan_host
    skip_literal
target_of-bad_url = refl

abbrev pass : Pass
pass = record {
  world = record { now = 0; byte = none; receives = []; sends = []; seeds = λ n. n; fuel = 0 };
  elapsed = 0;
}

create_web_socket_hangs_example :
    create_web_socket platform (λ host port. true) bad_url [] true 0 (pass ∷ pass ∷ [])
    ≡ some (again, none, [])
create_web_socket_hangs_example =
    create_web_socket_hangs platform (λ host port. true) bad_url [] true 0 (pass ∷ pass ∷ [])
      platform-IsAllocator (inl target_of-bad_url) (omega arith, (omega arith, tt))

abbrev chat_url : List ℕ
chat_url = codes "ws://localhost:3009/chat"

abbrev chat : Target
chat = record { host = codes "localhost"; port = int_of 3009; path = codes "chat" }

target_of-chat_url : target_of chat_url [] ≡ some (some chat)
unfolding target_of parse_url match_url scan_host_port_path scan_host_path scan_host_port
    skip_literal scan_set scan_word span scan_integer scan_signed scan_unsigned value_of
target_of-chat_url = refl

handshake_refused_example :
    (client : WebSocket) × (sent : List Event) × (create_client platform
        (λ host port. true)
        chat_url
        []
        true
        5
      ≡ some (client, sent))
    × (server : WebSocket) × (feed (create_server_client platform true 7) 7 (first_sent sent)
        ≡ some (server, socket_release ∷ []))
    × (server.ready_state ≡ closed)
    × (server.socket ≡ false)
handshake_refused_example =
    handshake_refused platform platform (λ host port. true) chat_url [] true true 5 7 chat
      target_of-chat_url refl (omega arith)
      ((refl, refl), ((refl, refl), ((refl, refl), ((refl, refl), tt))))
