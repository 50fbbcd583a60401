-- ===== src/TestClient.antt =====
-- app/TestClient/TestClient.cpp: a client that sends each line that is typed, and prints what comes.
pub mod Line
pub mod Quit
pub mod Address
mod Tests
use wsclient.Base.{
  ℕ, ◌-◌, ◌^◌, Bool, true, false, not, ◌||◌, Option, none, some, List, [], ◌∷◌, ◌++◌, length, ltb,
  take, if◌then◌else◌, ◌>>=◌,
}
use wsclient.Base.Text.{codes, line, same_bytes}
use wsclient.Base.Scan.{Integer, print_integer}
use wsclient.WebSocket.{WebSocket, Platform, Event, receive_message}
use wsclient.WebSocket.Send.{send_text}
use wsclient.WebSocket.Dispatch.{Turn, again, stop}
use wsclient.WebSocket.Poll.{World, poll}
use wsclient.WebSocket.Destroy.{Pass, destroy, create_web_socket}

-- A 32-bit length as the `int` that `%d` prints.
abbrev pub int_of_u32 : ℕ → Integer
int_of_u32 n =
    if ltb n (2 ^ 31)
    then record { negative = false; magnitude = n }
    else record { negative = true; magnitude = 2 ^ 32 - n }

-- What `receiveMessage` prints.
unfoldable pub print_message : List ℕ → Bool → List ℕ
print_message bytes is_ascii =
    if is_ascii
    then codes "Got message:" ++ (bytes ++ line "")
    else codes "Got binary data "
      ++ (print_integer (int_of_u32 (length bytes)) ++ line " bytes long.")

-- What is printed during one `poll`, whose callback this is.
unfoldable pub print_events : List Event → List ℕ
print_events [] = []
print_events (receive_message bytes is_text ∷ events) =
    print_message bytes is_text ++ print_events events
print_events (Event.socket_send bytes ∷ events) = print_events events
print_events (Event.socket_close ∷ events) = print_events events
print_events (Event.socket_release ∷ events) = print_events events
print_events (Event.disable_nagles_algorithm ∷ events) = print_events events
print_events (Event.null_select n ∷ events) = print_events events

-- The arguments behind the program's name.
unfoldable pub host_of : List (List ℕ) → List ℕ
host_of [] = codes "localhost"
host_of (host ∷ []) = host
host_of (host ∷ host' ∷ hosts) = codes "localhost"

-- `stringFormat(connectString, 512, "ws://%s:3009", host)`
unfoldable pub connect_string : List ℕ → List ℕ
connect_string host = take 511 (codes "ws://" ++ (host ++ codes ":3009"))

-- The words that end the client.
unfoldable pub is_exit : List ℕ → Bool
is_exit str =
    same_bytes str (codes "bye") || same_bytes str (codes "exit") || same_bytes str (codes "quit")

-- What happens during one round of the loop: the line that `getInputLine` returned, if any, the
-- time at which its key is made, and the world of the `poll`.
pub record Round : Type 0 where
  pub typed : Option (List ℕ)
  pub seed : ℕ
  pub world : World

-- The line that was typed: whether to go on, and the socket. A word that ends the client is sent
-- like any other line.
unfoldable pub on_input : Platform → WebSocket → Round → Option (Bool × WebSocket)
on_input p w round = elim round.typed [
  | none ↦ some (true, w)
  | some str ↦ (do w' ← send_text p w (some str) round.seed; some (not (is_exit str), w'))
]

-- One round: whether `poll` came to its end, whether to go on, the socket, and what happened.
unfoldable pub client_round :
    Platform → WebSocket → Round → Option (Turn × Bool × WebSocket × List Event)
client_round p w round = do
  (keep_running, w1) ← on_input p w round
  (turn, w2, events) ← poll p w1 true 1 round.world
  some (turn, keep_running, w2, events)

-- The loop, and `delete ws` behind it. A last turn `again` says that the rounds are used up, or that
-- a call did not come back.
unfoldable pub run : Platform → WebSocket → List Round → List Pass → Option (Turn × List Event)
run p w [] passes = some (again, [])
run p w (round ∷ rounds) passes = do
  (turn, keep_running, w', events) ← client_round p w round
  (elim turn [
    | again ↦ some (again, events)
    | stop ↦ (do
      (turn', events') ← elim keep_running [
        | true ↦ run p w' rounds passes
        | false ↦ destroy p w' passes
      ]
      some (turn', events ++ events'))
  ])

-- `main` between `socketStartup` and `socketShutdown`, on the arguments behind the program's name.
-- `connect` says whether `Wsocket::create` returns a socket for a host and a port.
unfoldable pub main :
    Platform
    → (List ℕ → Integer → Bool)
    → List (List ℕ)
    → ℕ
    → List Pass
    → List Round
    → List Pass
    → Option (Turn × List Event)
main p connect arguments now early rounds passes = do
  (turn, created, events) ←
      create_web_socket p connect (connect_string (host_of arguments)) [] true now early
  (elim turn [
    | again ↦ some (again, events)
    | stop ↦ elim created [
      | none ↦ some (stop, events)
      | some w ↦ (do (turn', events') ← run p w rounds passes; some (turn', events ++ events'))
    ]
  ])
