-- ===== src/TestServer.antt =====
-- app/TestServer/TestServer.cpp: the clients of the chat server and its loop.
pub mod Kill
pub mod Main
pub mod Silent
pub mod Echo
pub mod Messages
pub mod Broadcast
pub mod Ids
pub mod Input
mod Tests
use wsclient.Base.{
  ℕ, suc, zero, ◌+◌, Bool, true, false, not, ◌&&◌, ◌||◌, Option, none, some, List, [], ◌∷◌, ◌++◌,
  length, ltb, get_elem?, set, if◌then◌else◌, ◌>>=◌,
}
use wsclient.Base.Word.{u32}
use wsclient.Base.Text.{codes, c_string, same_bytes}
use wsclient.WebSocket.{
  WebSocket, ReadyState, Platform, Event, receive_message, create_server_client,
}
use wsclient.WebSocket.Send.{send_text}
use wsclient.WebSocket.Dispatch.{Turn, again, stop}
use wsclient.WebSocket.Poll.{World, is_closed, poll}
use wsclient.WebSocket.Client.{is_valid}
use wsclient.WebSocket.Destroy.{Pass, destroy}

-- `client` is none for a null pointer.
pub record ClientConnection : Type 0 where
  pub have_message : Bool
  pub message : List ℕ
  pub client : Option WebSocket
  pub id : ℕ

-- The constructor, on a socket that was accepted; `WebSocket::create` for it finds it valid.
unfoldable pub client_connection : Platform → ℕ → ℕ → ClientConnection
client_connection p now id =
    let w = create_server_client p true now in
    record {
      have_message = false;
      message = [];
      client = if is_valid w then some w else none;
      id = id;
    }

-- The destructor.
unfoldable pub delete_client : Platform → ClientConnection → List Pass → Option (Turn × List Event)
delete_client p c passes = elim c.client [ none ↦ some (stop, []) | some w ↦ destroy p w passes ]

-- `receiveMessage`
unfoldable pub receive : ClientConnection → List ℕ → Bool → ClientConnection
receive c bytes is_ascii =
    if is_ascii && ltb (length bytes) 511
    then record c { have_message = true; message = c_string bytes }
    else c

-- What `poll` called back, in order.
unfoldable pub receive_all : ClientConnection → List Event → ClientConnection
receive_all c [] = c
receive_all c (receive_message bytes is_text ∷ events) =
    receive_all (receive c bytes is_text) events
receive_all c (Event.socket_send bytes ∷ events) = receive_all c events
receive_all c (Event.socket_close ∷ events) = receive_all c events
receive_all c (Event.socket_release ∷ events) = receive_all c events
receive_all c (Event.disable_nagles_algorithm ∷ events) = receive_all c events
receive_all c (Event.null_select n ∷ events) = receive_all c events

-- `getMessage`; a turn `again` says that the `poll` in it did not come to its end.
unfoldable pub get_message :
    Platform → ClientConnection → World → Option (Turn × Option (List ℕ) × ClientConnection)
get_message p c world =
    let c1 = record c { have_message = false } in
    elim c.client [
      | none ↦ some (stop, none, c1)
      | some w ↦ (do
        (turn, w1, events) ← poll p w true 1 world
        let c2 = receive_all (record c1 { client = some w1 }) events
        some (turn, (if c2.have_message then some c2.message else none), c2))
    ]

-- `sendText` of a connection.
unfoldable pub send_text_to : Platform → List ℕ → ClientConnection → ℕ → Option ClientConnection
send_text_to p text c seed = elim c.client [
  | none ↦ some c
  | some w ↦ (do w1 ← send_text p w (some text) seed; some (record c { client = some w1 }))
]

unfoldable pub is_connected : ClientConnection → Bool
is_connected c = elim c.client [ none ↦ false | some w ↦ not (is_closed w.ready_state) ]

-- `run`: the text goes to every client. The seeds are the times at which the keys are made.
unfoldable pub send_to_all :
    Platform → List ℕ → List ClientConnection → (ℕ → ℕ) → Option (List ClientConnection)
send_to_all p text [] seeds = some []
send_to_all p text (c ∷ clients) seeds = do
  c1 ← send_text_to p text c (seeds 0)
  clients1 ← send_to_all p text clients (λ n. seeds (n + 1))
  some (c1 ∷ clients1)

-- A new connection gets the number of clients, and one, for its id.
unfoldable pub accept : Platform → List ClientConnection → Option ℕ → List ClientConnection
accept p clients none = clients
accept p clients (some now) = clients ++ (client_connection p now (u32 (length clients + 1)) ∷ [])

-- The words that end the server.
unfoldable pub is_exit : List ℕ → Bool
is_exit str =
    same_bytes str (codes "bye") || same_bytes str (codes "quit") || same_bytes str (codes "exit")

-- The line that was typed, if any: whether to leave, and the clients.
unfoldable pub on_input :
    Platform
    → List ClientConnection
    → Option (List ℕ)
    → (ℕ → ℕ)
    → Option (Bool × List ClientConnection)
on_input p clients none seeds = some (false, clients)
on_input p clients (some str) seeds =
    if is_exit str
    then some (true, clients)
    else (do clients1 ← send_to_all p str clients seeds; some (false, clients1))

-- The first client that is not connected, and the others.
unfoldable pub first_lost :
    List ClientConnection → Option (ClientConnection × List ClientConnection)
first_lost [] = none
first_lost (c ∷ clients) =
    if is_connected c
    then (do (lost, others) ← first_lost clients; some (lost, c ∷ others))
    else some (c, clients)

-- One pass of `while (killed)` for each unit of fuel: the clients that were deleted, what their
-- destructors did, and the clients that are left. A destructor is given no pass to wait in.
unfoldable pub kill_lost :
    ℕ
    → Platform
    → List ClientConnection
    → Option (Turn × List ClientConnection × List Event × List ClientConnection)
kill_lost zero p clients =
    some ((elim (first_lost clients) [ none ↦ stop | some found ↦ again ]), [], [], clients)
kill_lost (suc n) p clients = elim (first_lost clients) [
  | none ↦ some (stop, [], [], clients)
  | some (lost, others) ↦ (do
    (turn, events) ← delete_client p lost []
    (elim turn [
      | again ↦ some (again, lost ∷ [], events, others)
      | stop ↦ (do
        (turn', killed, events', left) ← kill_lost n p others
        some (turn', lost ∷ killed, events ++ events', left))
    ]))
]

-- The loop over the clients: what each of them said goes to all of them. The worlds are those of
-- the clients' `poll`, by their index.
unfoldable pub echo_from :
    ℕ
    → ℕ
    → Platform
    → (ℕ → World)
    → (ℕ → ℕ → ℕ)
    → List ClientConnection
    → Option (Turn × List ClientConnection)
echo_from zero i p worlds seeds clients = some (stop, clients)
echo_from (suc n) i p worlds seeds clients = elim (get_elem? clients i) [
  | none ↦ some (stop, clients)
  | some c ↦ (do
    (turn, found, c1) ← get_message p c (worlds i)
    let clients1 = set clients i c1
    (elim turn [
      | again ↦ some (again, clients1)
      | stop ↦ (do
        clients2 ← elim found [
          | none ↦ some clients1
          | some text ↦ send_to_all p text clients1 (seeds i)
        ]
        echo_from n (i + 1) p worlds seeds clients2)
    ]))
]

-- What happens during one round of the loop of `run`: a connection that was accepted, and when; the
-- line that was typed; the times at which keys are made, and the worlds of the clients' `poll`.
pub record Round : Type 0 where
  pub accepted : Option ℕ
  pub line : Option (List ℕ)
  pub line_seeds : ℕ → ℕ
  pub worlds : ℕ → World
  pub echo_seeds : ℕ → ℕ → ℕ

-- One round: whether to leave, and the clients.
unfoldable pub server_round :
    Platform → List ClientConnection → Round → Option (Turn × Bool × List ClientConnection)
server_round p clients round = do
  (exit, clients1) ← on_input p (accept p clients round.accepted) round.line round.line_seeds
  (turn, killed, events, left) ← kill_lost (length clients1) p clients1
  (elim turn [
    | again ↦ some (again, exit, left)
    | stop ↦ (do
      (turn', clients') ← echo_from (length left) 0 p round.worlds round.echo_seeds left
      some (turn', exit, clients'))
  ])

-- `run`: a last turn `again` says that the rounds are used up, or that a call did not come back.
unfoldable pub run :
    Platform → List ClientConnection → List Round → Option (Turn × List ClientConnection)
run p clients [] = some (again, clients)
run p clients (round ∷ rounds) = do
  (turn, exit, clients') ← server_round p clients round
  (elim turn [
    | again ↦ some (again, clients')
    | stop ↦ elim exit [ true ↦ some (stop, clients') | false ↦ run p clients' rounds ]
  ])
