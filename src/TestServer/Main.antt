-- ===== src/TestServer/Main.antt =====
-- The server as a whole: its socket, its loop, and its destructor.
use wsclient.Base.{ℕ, ◌+◌, Option, none, some, List, [], ◌∷◌, ◌++◌, ◌>>=◌}
use wsclient.Wsocket
use wsclient.Wsocket.{Socket, Call, System, server_name, release}
use wsclient.WebSocket.{Platform, Event}
use wsclient.WebSocket.Dispatch.{Turn, again, stop}
use wsclient.WebSocket.Destroy.{Pass}
use wsclient.TestServer
use wsclient.TestServer.{ClientConnection, Round, delete_client}

-- The destructor's loop over the clients that are left; the passes are those of each client's
-- destructor.
unfoldable pub delete_all :
    Platform → List ClientConnection → (ℕ → List Pass) → Option (Turn × List Event)
delete_all p [] passes = some (stop, [])
delete_all p (c ∷ clients) passes = do
  (turn, events) ← delete_client p c (passes 0)
  (elim turn [
    | again ↦ some (again, events)
    | stop ↦ (do
      (turn', events') ← delete_all p clients (λ n. passes (n + 1))
      some (turn', events ++ events'))
  ])

-- What the server's socket does in its constructor and its destructor.
unfoldable pub server_socket_calls : System → List Call
server_socket_calls system =
    let (socket, calls) = Wsocket.create server_name system in
    elim socket [ none ↦ calls | some s ↦ calls ++ release s ]

-- `main` between `socketStartup` and `socketShutdown`: the loop, the clients that are deleted
-- behind it, and the calls on the server's socket.
unfoldable pub server_main :
    Platform → System → List Round → (ℕ → List Pass) → Option (Turn × List Event × List Call)
server_main p system rounds passes = do
  (turn, clients) ← TestServer.run p [] rounds
  (elim turn [
    | again ↦ some (again, [], (Wsocket.create server_name system).1)
    | stop ↦ (do
      (turn', events) ← delete_all p clients passes
      some (turn', events, server_socket_calls system))
  ])
