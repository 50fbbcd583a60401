-- ===== src/WebSocket/Destroy.antt =====
-- The destructor of `WebSocketImpl`, and `WebSocket::create` for a client, which runs it on an
-- object that did not connect.
pub mod Hang
pub mod Graceful
use wsclient.Base.{
  ℕ, Bool, true, false, Option, none, some, List, [], ◌∷◌, ◌++◌, leb, if◌then◌else◌, ◌>>=◌, ◌>>◌,
}
use wsclient.Base.Scan.{Integer}
use wsclient.WebSocket.{WebSocket, ReadyState, Platform, Event, socket_release}
use wsclient.WebSocket.Send.{close}
use wsclient.WebSocket.Dispatch.{Turn, again, stop}
use wsclient.WebSocket.Poll.{World, is_closed, poll}
use wsclient.WebSocket.Client.{create_client, is_valid}

-- `CLOSE_TIMEOUT`, in seconds
abbrev pub close_timeout : ℕ
close_timeout = 1

-- One pass of the loop: what the world does during its `poll`, and the whole seconds since the
-- reading of the timer before, as `getElapsedSeconds` starts the timer anew.
pub record Pass : Type 0 where
  pub world : World
  pub elapsed : ℕ

-- The loop on a list of passes; a last turn `again` says that they are used up and the loop wants
-- another one.
unfoldable pub close_loop :
    Platform → WebSocket → List Pass → Option (Turn × WebSocket × List Event)
close_loop p w [] = some (if is_closed w.ready_state then stop else again, w, [])
close_loop p w (pass ∷ passes) =
    let round = do
      (turn, w1, events) ← poll p w false 1 pass.world
      (if leb close_timeout pass.elapsed then some (stop, w1, events) else (do
        (turn', w2, events') ← close_loop p w1 passes
        some (turn', w2, events ++ events')))
    in if is_closed w.ready_state then some (stop, w, []) else round

-- The destructor up to the release of the buffers.
unfoldable pub destroy : Platform → WebSocket → List Pass → Option (Turn × List Event)
destroy p w passes = do
  w1 ← close p w
  (turn, w2, events) ← close_loop p w1 passes
  some (
    turn,
    (elim turn [
      | again ↦ events
      | stop ↦ events ++ (if w2.socket then socket_release ∷ [] else [])
    ]),
  )

-- `WebSocket::create` for a client: the object, or null once the object is destroyed; a last turn
-- `again` says that it is not destroyed yet.
unfoldable pub create_web_socket :
    Platform
    → (List ℕ → Integer → Bool)
    → List ℕ
    → List ℕ
    → Bool
    → ℕ
    → List Pass
    → Option (Turn × Option WebSocket × List Event)
create_web_socket p connect url origin use_mask now passes = do
  (w, events) ← create_client p connect url origin use_mask now
  (if is_valid w
      then some (stop, some w, events)
      else (do (turn, events') ← destroy p w passes; some (turn, none, events ++ events')))
