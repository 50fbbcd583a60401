-- ===== src/TestServer/Broadcast.antt =====
-- A text that goes to every client.
use wsclient.Base.{
  ℕ, ◌+◌, ◌<◌, ◌^◌, ◌≡◌, refl, ap, true, false, Option, some, none, List, [], ◌∷◌, arith, length,
  All, ◌⊎◌, inl, inr, ◌>>=◌,
}
use wsclient.Base.Word.{IsBytes}
use wsclient.SimpleBuffer.{SimpleBuffer}
use wsclient.SimpleBuffer.Invariant.{IsValid}
use wsclient.Frame.{text_frame}
use wsclient.WebSocket.{WebSocket, Platform}
use wsclient.WebSocket.Send.{is_closing, log_send, send_text}
use wsclient.WebSocket.Send.Queue.{HasRoom, Queued}
use wsclient.WebSocket.Send.Message.{queued, key_of, send_data_lem, send_data_closing}
use wsclient.TestServer.{ClientConnection, send_text_to, send_to_all}

-- A client that is closing or closed, or has room for the text; or no socket at all.
abbrev pub IsReadyFor : List ℕ → Option WebSocket → Type 0
IsReadyFor text none = Unit {0}
IsReadyFor text (some w) =
    (is_closing w.ready_state ≡ true)
    ⊎ ((is_closing w.ready_state ≡ false)
        × IsValid w.transmit_buffer
        × HasRoom w.transmit_buffer (length text) w.use_mask)

abbrev pub IsReady : List ℕ → ClientConnection → Type 0
IsReady text c = IsReadyFor text c.client

-- What becomes of a client: without a socket it stays as it is; a socket that is closing or closed
-- only logs the text; any other queues one whole text frame behind what it had to send.
pub data Sent (p : Platform) (text : List ℕ) (seed : ℕ) (c : ClientConnection)
    : ClientConnection → Type 0 where
  absent : c.client ≡ none → Sent p text seed c c
  refused :
      (w : WebSocket)
      → c.client ≡ some w
      → is_closing w.ready_state ≡ true
      → Sent p text seed c (record c { client = some (log_send w text) })
  framed :
      (w : WebSocket) (b : SimpleBuffer)
      → c.client ≡ some w
      → is_closing w.ready_state ≡ false
      → Queued w.transmit_buffer text_frame w.use_mask (key_of p seed) text b
      → Sent p text seed c (record c { client = some (queued w text b) })

pub data SentAll (p : Platform) (text : List ℕ)
    : (ℕ → ℕ) → List ClientConnection → List ClientConnection → Type 0 where
  nobody : {seeds : ℕ → ℕ} → SentAll p text seeds [] []
  also :
      {seeds : ℕ → ℕ} {c c' : ClientConnection} {clients clients' : List ClientConnection}
      → Sent p text (seeds 0) c c'
      → SentAll p text (λ n. seeds (n + 1)) clients clients'
      → SentAll p text seeds (c ∷ clients) (c' ∷ clients')

module _ (p : Platform) (text : List ℕ) (h : IsBytes text) (small : length text < 2 ^ 32) where
  send_run :
      (c : ClientConnection) (w : WebSocket) (seed : ℕ) {w' : WebSocket}
      → c.client ≡ some w
      → send_text p w (some text) seed ≡ some w'
      → send_text_to p text c seed ≡ some (record c { client = some w' })
  unfolding send_text_to
  send_run c w seed e f = rw (send_text_to, e, f)

  send_nowhere :
      (c : ClientConnection) (seed : ℕ) → c.client ≡ none → send_text_to p text c seed ≡ some c
  unfolding send_text_to
  send_nowhere c seed e =
      ap
        (λ client. elim client as (λ _. Option ClientConnection) [
          | none ↦ some c
          | some w ↦ (do w1 ← send_text p w (some text) seed; some (record c { client = some w1 }))
        ])
        e

  send_text_to-Sent :
      (c : ClientConnection) (seed : ℕ)
      → IsReady text c
      → (c' : ClientConnection) × (send_text_to p text c seed ≡ some c') × Sent p text seed c c'
  unfolding send_text_to send_text
  send_text_to-Sent c seed ready = go c.client refl ready
    where
      go :
          (client : Option WebSocket)
          → c.client ≡ client
          → IsReadyFor text client
          → (c' : ClientConnection) × (send_text_to p text c seed ≡ some c') × Sent p text seed c c'
      go none e ready = (c, send_nowhere c seed e, Sent.absent e)
      go (some w) e (inl late) = (
        record c { client = some (log_send w text) },
        send_run c w seed e (send_data_closing p w text_frame text seed small late),
        Sent.refused w e late,
      )
      go (some w) e (inr (alive, v, room)) =
          let (b, run, q) = send_data_lem p w text_frame text seed (omega arith) h alive v room in
          (
            record c { client = some (queued w text b) },
            send_run c w seed e run,
            Sent.framed w b e alive q,
          )

  send_all_run :
      (c : ClientConnection) (clients : List ClientConnection) (seeds : ℕ → ℕ)
      {c' : ClientConnection} {clients' : List ClientConnection}
      → send_text_to p text c (seeds 0) ≡ some c'
      → send_to_all p text clients (λ n. seeds (n + 1)) ≡ some clients'
      → send_to_all p text (c ∷ clients) seeds ≡ some (c' ∷ clients')
  unfolding send_to_all
  send_all_run c clients seeds e f = rw (e, f)

  -- A text of bytes, fewer than 2 ^ 32, to clients each of which has no socket, or one that is
  -- closing or closed, or one with a valid transmit buffer that has room for the frame: sending it
  -- to all is defined, and every client gets it once, in its place, by the rule of `Sent`.
  pub send_to_all_lem :
      (clients : List ClientConnection) (seeds : ℕ → ℕ)
      → All (IsReady text) clients
      → (clients' : List ClientConnection) × (send_to_all p text clients seeds ≡ some clients')
        × SentAll p text seeds clients clients'
  unfolding send_to_all
  send_to_all_lem [] seeds ready = ([], refl, SentAll.nobody)
  send_to_all_lem (c ∷ clients) seeds ready =
      let (c', run, sent) = send_text_to-Sent c (seeds 0) ready.0 in
      let (clients', run', sent') = send_to_all_lem clients (λ n. seeds (n + 1)) ready.1 in
      (c' ∷ clients', send_all_run c clients seeds run run', SentAll.also sent sent')
