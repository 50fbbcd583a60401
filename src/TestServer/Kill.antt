-- ===== src/TestServer/Kill.antt =====
-- The loop that deletes the clients whose connection is gone.
use wsclient.Base.{
  ℕ, suc, zero, ◌≤◌, ◌≡◌, refl, sym, Bool, true, false, not, Option, none, some, List, [], ◌∷◌,
  ◌++◌, arith, length, if◌then◌else◌, ◌⊎◌, Bool-cases, inl, inr,
}
use wsclient.WebSocket.{
  WebSocket, ReadyState, closed, closing, opened, connecting, Platform, Event, socket_release,
}
use wsclient.WebSocket.Send.{close, is_closing}
use wsclient.WebSocket.Dispatch.{Turn, stop}
use wsclient.WebSocket.Poll.{is_closed}
use wsclient.WebSocket.Destroy.{destroy, close_loop}
use wsclient.TestServer.{ClientConnection, is_connected, delete_client, first_lost, kill_lost}

-- The clients that pass a test.
abbrev pub filter : (ClientConnection → Bool) → List ClientConnection → List ClientConnection
filter p [] = []
filter p (c ∷ clients) = if p c then c ∷ filter p clients else filter p clients

abbrev pub is_lost : ClientConnection → Bool
is_lost c = not (is_connected c)

-- What the destructor of a lost client does: the socket is released, if there is one.
abbrev pub release_of : ClientConnection → List Event
release_of c = elim c.client [ none ↦ [] | some w ↦ if w.socket then socket_release ∷ [] else [] ]

abbrev pub releases : List ClientConnection → List Event
releases [] = []
releases (c ∷ clients) = release_of c ++ releases clients

is_closed-is_closing : (s : ReadyState) → is_closed s ≡ true → is_closing s ≡ true
unfolding is_closed is_closing
is_closed-is_closing closed e = refl
is_closed-is_closing closing e = refl
is_closed-is_closing connecting e = ground (arith, e)
is_closed-is_closing opened e = ground (arith, e)

destroy-closed :
    (p : Platform) (w : WebSocket)
    → is_closed w.ready_state ≡ true
    → destroy p w [] ≡ some (stop, if w.socket then socket_release ∷ [] else [])
unfolding destroy close close_loop
destroy-closed p w e = let late = is_closed-is_closing w.ready_state e in rw (late, e)

still_closed : (b : Bool) → not b ≡ false → b ≡ true
still_closed true e = refl
still_closed false e = sym e

-- The destructor of a lost client need not wait.
delete_client-lost :
    (p : Platform) (c : ClientConnection)
    → is_connected c ≡ false
    → delete_client p c [] ≡ some (stop, release_of c)
unfolding delete_client is_connected
delete_client-lost p c e = go c.client e
  where
    go :
        (client : Option WebSocket)
        → (elim client [ none ↦ false | some w ↦ not (is_closed w.ready_state) ]) ≡ false
        → ◌≡◌ {A = Option (Turn × List Event)}
            (elim client [ none ↦ some (stop, []) | some w ↦ destroy p w [] ])
            (some (
              stop,
              elim client [ none ↦ [] | some w ↦ if w.socket then socket_release ∷ [] else [] ],
            ))
    go none e = refl
    go (some w) e = destroy-closed p w (still_closed (is_closed w.ready_state) e)

-- Either no client is lost, or the first lost one is the first that the test keeps, and the others
-- lose nothing else.
record None (clients : List ClientConnection) : Type 0 where
  search : first_lost clients ≡ none
  all_lost : filter is_lost clients ≡ []
  kept : filter is_connected clients ≡ clients

record Found (clients : List ClientConnection) (lost : ClientConnection)
    (others : List ClientConnection) : Type 0 where
  search : first_lost clients ≡ some (lost, others)
  dead : is_connected lost ≡ false
  all_lost : filter is_lost clients ≡ lost ∷ filter is_lost others
  kept : filter is_connected clients ≡ filter is_connected others
  fewer : length clients ≡ suc (length others)

first_lost-cases :
    (clients : List ClientConnection)
    → None clients
      ⊎ ((lost : ClientConnection) × (others : List ClientConnection) × Found clients lost others)
unfolding first_lost
first_lost-cases [] = inl (record { search = refl; all_lost = refl; kept = refl })
first_lost-cases (c ∷ clients) = elim (Bool-cases (is_connected c)) [
  | inr dead ↦ inr (
    c,
    clients,
    record { search = rw dead; dead = dead; all_lost = rw dead; kept = rw dead; fewer = refl },
  )
  | inl live ↦ elim (first_lost-cases clients) [
    | inl r ↦ inl (record {
      search = rw (live, r.search);
      all_lost = rw (live, r.all_lost);
      kept = rw (live, r.kept);
    })
    | inr (lost, others, r) ↦ inr (
      lost,
      c ∷ others,
      record {
        search = rw (live, r.search);
        dead = r.dead;
        all_lost = rw (live, r.all_lost);
        kept = rw (live, r.kept);
        fewer = omega (arith, r.fewer);
      },
    )
  ]
]

-- What the loop comes to: the lost clients are deleted, in order, and the others are left.
abbrev pub Killed :
    List ClientConnection
    → Option (Turn × List ClientConnection × List Event × List ClientConnection)
    → Type 0
Killed clients result =
    result
    ≡ some (
      stop,
      filter is_lost clients,
      releases (filter is_lost clients),
      filter is_connected clients,
    )

module _ (p : Platform) (clients : List ClientConnection) where
  kill-None : None clients → (n : ℕ) → Killed clients (kill_lost n p clients)
  unfolding kill_lost
  kill-None r zero = rw (kill_lost, r.search, r.all_lost, r.kept)
  kill-None r (suc n) = rw (kill_lost, r.search, r.all_lost, r.kept)

  kill-Found :
      {lost : ClientConnection} {others : List ClientConnection} (n : ℕ)
      → Found clients lost others
      → Killed others (kill_lost n p others)
      → Killed clients (kill_lost (suc n) p clients)
  unfolding kill_lost
  kill-Found {lost} n r ih =
      rw (kill_lost, r.search, delete_client-lost p lost r.dead, ih, r.all_lost, r.kept)

-- With a pass for every client, the loop comes to its end: it deletes the clients that are not
-- connected, each once and in their order, and no others; none of their destructors waits, and each
-- releases its socket if it has one. The clients that are left are the connected ones, in their order.
pub kill_lost_lem :
    (n : ℕ) (p : Platform) (clients : List ClientConnection)
    → length clients ≤ n
    → Killed clients (kill_lost n p clients)
kill_lost_lem zero p clients h = elim (first_lost-cases clients) [
  | inl r ↦ kill-None p clients r zero
  | inr (lost, others, r) ↦ absurd (omega (arith, r.fewer))
]
kill_lost_lem (suc n) p clients h = elim (first_lost-cases clients) [
  | inl r ↦ kill-None p clients r (suc n)
  | inr (lost, others, r) ↦
      kill-Found p clients n r (kill_lost_lem n p others (omega (arith, r.fewer)))
]
