-- ===== src/TestServer/Input.antt =====
-- A line that was typed at the server.
use wsclient.Base.{
  ℕ, ◌<◌, ◌^◌, ◌≡◌, ap, Bool, true, false, Option, some, List, arith, length, All, ◌⊎◌, inl, inr,
  Bool-cases,
}
use wsclient.Base.Text.{codes, same_bytes}
use wsclient.Base.Strings.{same_bytes-equal}
use wsclient.Base.Word.{IsBytes}
use wsclient.WebSocket.{Platform}
use wsclient.TestServer.{ClientConnection, send_to_all, is_exit, on_input}
use wsclient.TestServer.Broadcast.{IsReady, SentAll, send_to_all_lem}

abbrev pub IsExit : List ℕ → Type 0
IsExit str = (str ≡ codes "bye") ⊎ ((str ≡ codes "quit") ⊎ (str ≡ codes "exit"))

is_exit-IsExit : (str : List ℕ) → is_exit str ≡ true → IsExit str
unfolding is_exit
is_exit-IsExit str e = elim (Bool-cases (same_bytes str (codes "bye"))) [
  | inl bye ↦ inl (same_bytes-equal str (codes "bye") bye)
  | inr not_bye ↦ elim (Bool-cases (same_bytes str (codes "quit"))) [
    | inl quit ↦ inr (inl (same_bytes-equal str (codes "quit") quit))
    | inr not_quit ↦ inr (inr (same_bytes-equal str (codes "exit") (rw (not_bye, not_quit) at e)))
  ]
]

IsExit-is_exit : (str : List ℕ) → IsExit str → is_exit str ≡ true
unfolding is_exit same_bytes
IsExit-is_exit str (inl e) = ap is_exit e
IsExit-is_exit str (inr (inl e)) = ap is_exit e
IsExit-is_exit str (inr (inr e)) = ap is_exit e

-- What becomes of a line: to leave, and nothing is sent; or to stay, and every client gets it.
abbrev pub Handles :
    Platform
    → List ℕ
    → (ℕ → ℕ)
    → List ClientConnection
    → Option (Bool × List ClientConnection)
    → Type 0
Handles p str seeds clients result =
    (IsExit str × (result ≡ some (true, clients)))
    ⊎ ((IsExit str → ⊥)
        × (clients' : List ClientConnection) × (result ≡ some (false, clients'))
        × SentAll p str seeds clients clients')

on_input_exit :
    (p : Platform) (str : List ℕ) (clients : List ClientConnection) (seeds : ℕ → ℕ)
    → is_exit str ≡ true
    → on_input p clients (some str) seeds ≡ some (true, clients)
unfolding on_input
on_input_exit p str clients seeds e = rw e

on_input_text :
    (p : Platform) (str : List ℕ) (clients : List ClientConnection) (seeds : ℕ → ℕ)
    {clients' : List ClientConnection}
    → is_exit str ≡ false
    → send_to_all p str clients seeds ≡ some clients'
    → on_input p clients (some str) seeds ≡ some (false, clients')
unfolding on_input
on_input_text p str clients seeds e f = rw (e, f)

-- A line of bytes, fewer than 2 ^ 32, that was typed at a server each of whose clients has no
-- socket, or one that is closing or closed, or one with a valid transmit buffer that has room for
-- the frame: if the line is `bye`, `quit` or `exit` the server is to leave and nothing is sent;
-- otherwise, and only then, it stays, and every client gets the line once, in its place, by the rule
-- of `Sent`: without a socket it stays as it is, on a closing or closed one the line is only logged,
-- and any other has one whole text frame behind what it had to send.
pub on_input_lem :
    (p : Platform) (str : List ℕ) (clients : List ClientConnection) (seeds : ℕ → ℕ)
    → IsBytes str
    → length str < 2 ^ 32
    → All (IsReady str) clients
    → Handles p str seeds clients (on_input p clients (some str) seeds)
on_input_lem p str clients seeds h small ready = elim (Bool-cases (is_exit str)) [
  | inl leave ↦ inl (is_exit-IsExit str leave, on_input_exit p str clients seeds leave)
  | inr remain ↦
      let (clients', run, sent) = send_to_all_lem p str h small clients seeds ready in
      inr (
        (λ exit. absurd (ground (arith, IsExit-is_exit str exit, remain))),
        clients',
        on_input_text p str clients seeds remain run,
        sent,
      )
]
