-- ===== src/TestServer/Silent.antt =====
-- The loop of the server over clients that say nothing.
use wsclient.Base.{
  ℕ, suc, ◌+◌, ◌<◌, ◌≤◌, ◌≡◌, refl, sym, ap, ap₂, ◌∙◌, true, Option, some, none, List, [], ◌∷◌,
  ◌++◌, arith, length, length-append, get_elem?, set, All, append_assoc, append-nil, inr,
}
use wsclient.SimpleBuffer.{SimpleBuffer, get_data, get_size}
use wsclient.SimpleBuffer.Invariant.{IsValid}
use wsclient.WebSocket.{WebSocket, LogEntry, Platform, opened}
use wsclient.WebSocket.Dispatch.{stop}
use wsclient.WebSocket.Dispatch.Stream.{heard}
use wsclient.WebSocket.Poll.{World}
use wsclient.WebSocket.Poll.Messages.{HasReadRoom}
use wsclient.TestServer.{ClientConnection, get_message, send_to_all, echo_from}
use wsclient.TestServer.Messages.{get_message_lem}

-- Two lists whose members belong together, one by one.
pub data Each (R : ClientConnection → ClientConnection → Type 0)
    : List ClientConnection → List ClientConnection → Type 0 where
  no_client : Each R [] []
  next_client :
      {c c' : ClientConnection} {clients clients' : List ClientConnection}
      → R c c'
      → Each R clients clients'
      → Each R (c ∷ clients) (c' ∷ clients')

-- A client before and after a `getMessage`: at most its log, its receive buffer and its last message
-- changed.
pub data Polled (c : ClientConnection) : ClientConnection → Type 0 where
  untouched : Polled c c
  polled :
      {c' : ClientConnection} (w : WebSocket) (count : ℕ) (entries : Option (List LogEntry))
      (b : SimpleBuffer)
      → c.client ≡ some w
      → c'.client ≡ some (heard w count entries b)
      → Polled c c'

-- An open socket with nothing received, and room for a read.
pub record IsListening (w : WebSocket) : Type 0 where
  pub connected : w.socket ≡ true
  pub open_state : w.ready_state ≡ opened
  pub readable : IsValid w.receive_buffer
  pub room : HasReadRoom w.receive_buffer 0
  pub nothing_received : get_data w.receive_buffer ≡ []
  pub no_part : get_size w.received_data ≡ 0

abbrev pub Listens : ClientConnection → Type 0
Listens c = (w : WebSocket) × (c.client ≡ some w) × IsListening w

-- A world in which nothing arrives and the socket takes nothing.
pub record IsSilent (world : World) : Type 0 where
  pub no_read : world.receives ≡ []
  pub no_send : world.sends ≡ []
  pub fuel : 0 < world.fuel

get_message-silent :
    (p : Platform) (c : ClientConnection) (world : World)
    → Listens c
    → IsSilent world
    → (c' : ClientConnection) × (get_message p c world ≡ some (stop, none, c')) × Polled c c'
get_message-silent p c world (w, client, l) s =
    let (c', count, entries, b, run, client', _, _) =
      get_message_lem p c w world [] [] client l.connected l.open_state (inr s.no_send) l.no_part
        l.readable l.room tt s.no_read tt
        (append-nil (get_data w.receive_buffer) ∙ l.nothing_received) s.fuel in
    (c', run, Polled.polled w count entries b client client')

-- A client in its place.
module _ (after : List ClientConnection) (c : ClientConnection) where
  get_elem?-middle :
      (before : List ClientConnection) → get_elem? (before ++ (c ∷ after)) (length before) ≡ some c
  get_elem?-middle [] = refl
  get_elem?-middle (x ∷ before) = get_elem?-middle before

  set-middle :
      (before : List ClientConnection) (c' : ClientConnection)
      → set (before ++ (c ∷ after)) (length before) c' ≡ before ++ (c' ∷ after)
  set-middle [] c' = refl
  set-middle (x ∷ before) c' = ap (λ t. x ∷ t) (set-middle before c')

module _ (p : Platform) (worlds : ℕ → World) (seeds : ℕ → ℕ → ℕ) where
  echo_step-silent :
      (n i : ℕ) (before after : List ClientConnection) (c : ClientConnection)
      {c' : ClientConnection}
      → length before ≡ i
      → get_message p c (worlds i) ≡ some (stop, none, c')
      → echo_from (suc n) i p worlds seeds (before ++ (c ∷ after))
        ≡ echo_from n (i + 1) p worlds seeds (before ++ (c' ∷ after))
  unfolding echo_from
  echo_step-silent n i before after c {c'} e run =
      let found : get_elem? (before ++ (c ∷ after)) i ≡ some c =
        ap (get_elem? (before ++ (c ∷ after))) (sym e) ∙ get_elem?-middle after c before in
      let put : set (before ++ (c ∷ after)) i c' ≡ before ++ (c' ∷ after) =
        ap (λ t. set (before ++ (c ∷ after)) t c') (sym e) ∙ set-middle after c before c' in
      rw (echo_from, found, run, put) refl

  pub echo_step-text :
      (n i : ℕ) (before after : List ClientConnection) (c : ClientConnection)
      {c' : ClientConnection} (text : List ℕ) {clients : List ClientConnection}
      → length before ≡ i
      → get_message p c (worlds i) ≡ some (stop, some text, c')
      → send_to_all p text (before ++ (c' ∷ after)) (seeds i) ≡ some clients
      → echo_from (suc n) i p worlds seeds (before ++ (c ∷ after))
        ≡ echo_from n (i + 1) p worlds seeds clients
  unfolding echo_from
  echo_step-text n i before after c {c'} text e run sent =
      let found : get_elem? (before ++ (c ∷ after)) i ≡ some c =
        ap (get_elem? (before ++ (c ∷ after))) (sym e) ∙ get_elem?-middle after c before in
      let put : set (before ++ (c ∷ after)) i c' ≡ before ++ (c' ∷ after) =
        ap (λ t. set (before ++ (c ∷ after)) t c') (sym e) ∙ set-middle after c before c' in
      rw (echo_from, found, run, put, sent) refl

  -- Clients that are silent one after the other.
  pub echo_from-silent :
      (n i : ℕ) (before silent after : List ClientConnection)
      → length before ≡ i
      → All Listens silent
      → ((j : ℕ) → i ≤ j → j < i + length silent → IsSilent (worlds j))
      → (silent' : List ClientConnection) × (echo_from
            (length silent + n)
            i
            p
            worlds
            seeds
            (before ++ (silent ++ after))
          ≡ echo_from n (i + length silent) p worlds seeds (before ++ (silent' ++ after)))
        × Each Polled silent silent'
  echo_from-silent n i before [] after e l s = (
    [],
    ap₂ (λ m j. echo_from m j p worlds seeds (before ++ after)) (omega arith) (omega arith),
    Each.no_client,
  )
  echo_from-silent n i before (c ∷ silent) after e l s =
      let (c', run, poll) =
        get_message-silent p c (worlds i) l.0 (s i (omega arith) (omega arith)) in
      let (silent', rest, each) =
        echo_from-silent n (i + 1) (before ++ (c' ∷ [])) silent after
          (omega (arith, e, length-append before (c' ∷ []))) l.1
          (λ j above below. s j (omega arith) (omega arith)) in
      (
        c' ∷ silent',
        ap (λ m. echo_from m i p worlds seeds (before ++ (c ∷ (silent ++ after)))) (omega arith)
            ∙ echo_step-silent (length silent + n) i before (silent ++ after) c e run
            ∙ ap (echo_from (length silent + n) (i + 1) p worlds seeds)
                (sym (append_assoc before (c' ∷ []) (silent ++ after)))
            ∙ rest
            ∙ ap₂ (λ j t. echo_from n j p worlds seeds t) (omega arith)
                (append_assoc before (c' ∷ []) (silent' ++ after)),
        Each.next_client poll each,
      )
