-- ===== src/TestServer/Ids.antt =====
-- The numbers of the clients.
use wsclient.Base.{
  ℕ, ◌+◌, ◌<◌, ◌≤◌, ◌^◌, ◌≡◌, refl, ap, ◌∙◌, true, false, some, List, [], ◌∷◌, ◌++◌, arith, length,
  length-append, All,
}
use wsclient.WebSocket.{Platform}
use wsclient.WebSocket.Dispatch.{stop}
use wsclient.TestServer.{ClientConnection, client_connection, is_connected, accept, kill_lost}
use wsclient.TestServer.Kill.{filter, is_lost, releases, kill_lost_lem}

-- The clients have the numbers from one on.
abbrev pub Numbered : ℕ → List ClientConnection → Type 0
Numbered k [] = Unit {0}
Numbered k (c ∷ clients) = (c.id ≡ k) × Numbered (k + 1) clients

abbrev pub IsConnected : ClientConnection → Type 0
IsConnected c = is_connected c ≡ true

filter-connected :
    (clients : List ClientConnection)
    → All IsConnected clients
    → filter is_connected clients ≡ clients
filter-connected [] h = refl
filter-connected (c ∷ clients) h = rw (h.0, filter-connected clients h.1)

Numbered-last :
    (k : ℕ) (front : List ClientConnection) (c : ClientConnection)
    → Numbered k (front ++ (c ∷ []))
    → c.id ≡ k + length front
Numbered-last k [] c h = omega (arith, h.0)
Numbered-last k (d ∷ front) c h = omega (arith, Numbered-last (k + 1) front c h.1)

-- Clients numbered from one on, fewer than 2 ^ 32; the first is lost, and the others, at least one,
-- are connected: the round that deletes it leaves the others, and the connection that is accepted
-- next gets the number of the last of them.
pub accept-repeats :
    (p : Platform) (lost : ClientConnection) (front : List ClientConnection) (c : ClientConnection)
    (n now : ℕ)
    → Numbered 1 (lost ∷ (front ++ (c ∷ [])))
    → is_connected lost ≡ false
    → All IsConnected (front ++ (c ∷ []))
    → length front + 2 < 2 ^ 32
    → length front + 2 ≤ n
    → let left = front ++ (c ∷ []) in
      (kill_lost n p (lost ∷ left) ≡ some (stop, lost ∷ [], releases (lost ∷ []), left))
      × (accept p left (some now) ≡ left ++ (client_connection p now c.id ∷ []))
unfolding accept
accept-repeats p lost front c n now numbered dead live small enough =
    let left = front ++ (c ∷ []) in
    let size = length-append front (c ∷ []) in
    let kept : filter is_connected (lost ∷ left) ≡ left = rw (dead, filter-connected left live) in
    let gone : filter is_lost (lost ∷ left) ≡ lost ∷ [] = rw (dead, filter-lost left live) in
    (
      kill_lost_lem n p (lost ∷ left) (omega (arith, size))
          ∙ ap (λ k. some (stop, k, releases k, filter is_connected (lost ∷ left))) gone
          ∙ ap (λ k. some (stop, lost ∷ [], releases (lost ∷ []), k)) kept,
      ap (λ k. left ++ (client_connection p now k ∷ []))
          (omega (arith, size, Numbered-last 2 front c numbered.1)),
    )
  where
    filter-lost :
        (clients : List ClientConnection) → All IsConnected clients → filter is_lost clients ≡ []
    filter-lost [] h = refl
    filter-lost (c ∷ clients) h = rw (h.0, filter-lost clients h.1)
