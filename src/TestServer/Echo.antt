-- ===== src/TestServer/Echo.antt =====
-- One round of the server's loop over its clients in which one of them speaks.
use wsclient.Base.{
  ℕ, suc, ◌+◌, ◌<◌, ◌≤◌, ◌^◌, ◌≡◌, refl, sym, ap, ap₂, subst, ◌∙◌, true, false, some, none, List,
  [], ◌∷◌, ◌++◌, arith, length, length-append, map, All, append_assoc, append-nil, inr,
}
use wsclient.Base.Word.{IsBytes}
use wsclient.SimpleBuffer.{get_data, get_size}
use wsclient.SimpleBuffer.Invariant.{IsValid}
use wsclient.WebSocket.{WebSocket, Platform, opened}
use wsclient.WebSocket.Dispatch.{stop}
use wsclient.WebSocket.Poll.{World}
use wsclient.WebSocket.Poll.Messages.{HasReadRoom}
use wsclient.WebSocket.Send.{is_closing}
use wsclient.WebSocket.Send.Message.{queued_lem}
use wsclient.TestServer.{ClientConnection, get_message, echo_from}
use wsclient.TestServer.Messages.{get_message_lem}
use wsclient.TestServer.Broadcast.{
  IsReady, IsReadyFor, Sent, absent, refused, framed, SentAll, nobody, also, send_to_all_lem,
}
use wsclient.TestServer.Silent.{
  Each, no_client, next_client, Polled, untouched, polled, IsListening, Listens, IsSilent,
  echo_step-text, echo_from-silent,
}
use wsclient.TestServer.Messages.{texts, last_or}
use wsclient.WebSocket.Poll.{Receive}
use wsclient.WebSocket.Poll.Messages.{concat, IsChunk}
use wsclient.WebSocket.Dispatch.Stream.{Message, IsMessage, stream}

-- Lists that are put together, and lists that are taken apart.
module _ (R : ClientConnection → ClientConnection → Type 0) where
  Each-append :
      {xs xs' ys ys' : List ClientConnection}
      → Each R xs xs'
      → Each R ys ys'
      → Each R (xs ++ ys) (xs' ++ ys')
  Each-append no_client h = h
  Each-append (next_client r e) h = Each.next_client r (Each-append e h)

  length-Each : {xs xs' : List ClientConnection} → Each R xs xs' → length xs' ≡ length xs
  length-Each no_client = refl
  length-Each (next_client r e) = ap suc (length-Each e)

Each-Polled : (clients : List ClientConnection) → Each Polled clients clients
Each-Polled [] = Each.no_client
Each-Polled (c ∷ clients) = Each.next_client Polled.untouched (Each-Polled clients)

-- A client that is polled can be sent to as before.
Polled-IsReady :
    (text : List ℕ) {c c' : ClientConnection} → Polled c c' → IsReady text c → IsReady text c'
Polled-IsReady text untouched ready = ready
Polled-IsReady text (polled w count entries b e f) ready =
    let before : IsReadyFor text (some w) = subst (IsReadyFor text) e ready in
    subst (IsReadyFor text) (sym f) before

Each-IsReady :
    (text : List ℕ) {clients clients' : List ClientConnection}
    → Each Polled clients clients'
    → All (IsReady text) clients
    → All (IsReady text) clients'
Each-IsReady text no_client ready = tt
Each-IsReady text (next_client poll each) ready =
    (Polled-IsReady text poll ready.0, Each-IsReady text each ready.1)

module _ {p : Platform} {text : List ℕ} where
  SentAll-append :
      (xs ys zs : List ClientConnection) {seeds : ℕ → ℕ}
      → SentAll p text seeds (xs ++ ys) zs
      → (xs' : List ClientConnection) × (ys' : List ClientConnection) × (seeds' : ℕ → ℕ) × (zs
          ≡ xs' ++ ys')
        × SentAll p text seeds' ys ys'
        × (length xs' ≡ length xs)
  SentAll-append [] ys zs {seeds} sent = ([], zs, seeds, refl, sent, refl)
  SentAll-append (x ∷ xs) ys _ (also {c' = c'} {clients' = zs} one sent) =
      let (xs', ys', seeds', e, rest, len) = SentAll-append xs ys zs sent in
      (c' ∷ xs', ys', seeds', ap (λ t. c' ∷ t) e, rest, ap suc len)

  SentAll-next :
      {seeds : ℕ → ℕ} {c : ClientConnection} {clients zs : List ClientConnection}
      → SentAll p text seeds (c ∷ clients) zs
      → (c' : ClientConnection) × (clients' : List ClientConnection) × (seeds' : ℕ → ℕ) × (zs
          ≡ c' ∷ clients')
        × SentAll p text seeds' clients clients'
  SentAll-next {seeds} (also {c' = c'} {clients' = clients'} one sent) =
      (c', clients', (λ n. seeds (n + 1)), refl, sent)

  length-SentAll :
      {seeds : ℕ → ℕ} {clients clients' : List ClientConnection}
      → SentAll p text seeds clients clients'
      → length clients' ≡ length clients
  length-SentAll nobody = refl
  length-SentAll (also one sent) = ap suc (length-SentAll sent)

  -- A client that was sent a text still listens.
  Sent-Listens :
      {seed : ℕ} {c c' : ClientConnection} → Listens c → Sent p text seed c c' → Listens c'
  unfolding is_closing
  Sent-Listens l (absent e) = l
  Sent-Listens (w', client, l) (refused w e late) =
      let same : w' ≡ w = cc (client, e) in
      let open_now : is_closing w'.ready_state ≡ false = ap is_closing l.open_state in
      absurd (ground (arith, ap (λ t. is_closing t.ready_state) same, open_now, late))
  Sent-Listens (w', client, l) (framed w b e alive q) =
      let same : w' ≡ w = cc (client, e) in
      let x : IsListening w = subst IsListening same l in
      let (count, entries, shape) = queued_lem w text b in
      (
        record w { send_count = count; log_file = entries; transmit_buffer = b },
        ap some shape,
        record {
          connected = x.connected;
          open_state = x.open_state;
          readable = x.readable;
          room = x.room;
          nothing_received = x.nothing_received;
          no_part = x.no_part;
        },
      )

  SentAll-Listens :
      {seeds : ℕ → ℕ} {clients clients' : List ClientConnection}
      → All Listens clients
      → SentAll p text seeds clients clients'
      → All Listens clients'
  SentAll-Listens l nobody = tt
  SentAll-Listens l (also one sent) = (Sent-Listens l.0 one, SentAll-Listens l.1 sent)

-- A client that speaks: an open socket that takes nothing, and whose reads complete some messages, the
-- last text of which is this one.
pub record Speaks (c : ClientConnection) (world : World) (text : List ℕ) : Type 0 where
  pub socket : WebSocket
  pub client : c.client ≡ some socket
  pub connected : socket.socket ≡ true
  pub open_state : socket.ready_state ≡ opened
  pub readable : IsValid socket.receive_buffer
  pub no_part : get_size socket.received_data ≡ 0
  pub chunks : List (List ℕ)
  pub messages : List Message
  pub room : HasReadRoom socket.receive_buffer (length (concat chunks))
  pub cut : All IsChunk chunks
  pub reads : world.receives ≡ map Receive.got chunks
  pub no_send : world.sends ≡ []
  pub good : All IsMessage messages
  pub whole : get_data socket.receive_buffer ++ concat chunks ≡ stream messages
  pub fuel : length messages < world.fuel
  pub last : last_or none (texts messages) ≡ some text

get_message-Speaks :
    (p : Platform) (c : ClientConnection) (world : World) (text : List ℕ)
    → Speaks c world text
    → (c' : ClientConnection) × (get_message p c world ≡ some (stop, some text, c')) × Polled c c'
get_message-Speaks p c world text s =
    let (c', count, entries, b, run, client, _, _) =
      get_message_lem p c s.socket world s.chunks s.messages s.client s.connected s.open_state
        (inr s.no_send) s.no_part s.readable s.room s.cut s.reads s.good s.whole s.fuel in
    (
      c',
      run ∙ ap (λ t. some (stop, t, c')) s.last,
      Polled.polled s.socket count entries b s.client client,
    )

-- What a round of the loop in which one client speaks leaves: the clients were polled up to that one,
-- the text was sent to all of them, and the others were polled.
pub record Echoed (p : Platform) (text : List ℕ) (seeds : ℕ → ℕ)
    (clients clients' : List ClientConnection) : Type 0 where
  pub heard_from : List ClientConnection
  pub sent_to : List ClientConnection
  pub first : Each Polled clients heard_from
  pub text_sent : SentAll p text seeds heard_from sent_to
  pub others : Each Polled sent_to clients'

echo_end :
    (p : Platform) (worlds : ℕ → World) (seeds : ℕ → ℕ → ℕ) (i : ℕ)
    (clients : List ClientConnection)
    → echo_from 0 i p worlds seeds clients ≡ some (stop, clients)
unfolding echo_from
echo_end p worlds seeds i clients = refl

-- From the client behind the one that spoke.
echo_rest :
    (p : Platform) (text : List ℕ) (worlds : ℕ → World) (seeds : ℕ → ℕ → ℕ) (i : ℕ)
    (before after : List ClientConnection) (c : ClientConnection) {seeds' : ℕ → ℕ}
    (sent : List ClientConnection)
    → length before ≡ i
    → All Listens after
    → ((j : ℕ) → i + 1 ≤ j → j < i + 1 + length after → IsSilent (worlds j))
    → SentAll p text seeds' (before ++ (c ∷ after)) sent
    → (clients' : List ClientConnection) × (echo_from (length after) (i + 1) p worlds seeds sent
        ≡ some (stop, clients'))
      × Each Polled sent clients'
echo_rest p text worlds seeds i before after c sent e l s all =
    let (s1, s2, seeds2, eq, rest, len) = SentAll-append before (c ∷ after) sent all in
    let (c2, after2, seeds3, eq2, tail) = SentAll-next rest in
    let front = s1 ++ (c2 ∷ []) in
    let count = length-SentAll tail in
    let (after3, run, each) =
      echo_from-silent p worlds seeds 0 (i + 1) front after2 []
        (omega (arith, e, len, length-append s1 (c2 ∷ []))) (SentAll-Listens l tail)
        (λ j above below. s j above (omega (arith, count))) in
    let same : sent ≡ front ++ (after2 ++ []) =
      eq
      ∙ ap (λ t. s1 ++ t) (eq2 ∙ ap (λ t. c2 ∷ t) (sym (append-nil after2)))
      ∙ sym (append_assoc s1 (c2 ∷ []) (after2 ++ [])) in
    let clients' = front ++ (after3 ++ []) in
    (
      clients',
      ap₂ (λ n t. echo_from n (i + 1) p worlds seeds t) (omega (arith, count)) same
          ∙ run
          ∙ echo_end p worlds seeds (i + 1 + length after2) clients',
      subst (λ t. Each Polled t clients') (sym same)
          (Each-append Polled (Each-Polled front) (Each-append Polled each Each.no_client)),
    )

-- One pass of the server's loop over its clients in which one of them speaks and nothing is sent on:
-- every other client is open and has nothing received, and nothing arrives from it; the text has fewer
-- than 2 ^ 32 bytes, and every client has no socket, or is closing or closed, or has room for its
-- frame. The pass comes to its end, whatever the place of the client that speaks: the text is sent
-- to all clients, the one that spoke too, once and in their order, by the rule of `Sent`; and apart
-- from that the clients are only polled.
pub echo_from-Speaks :
    (p : Platform) (text : List ℕ) (worlds : ℕ → World) (seeds : ℕ → ℕ → ℕ)
    (before after : List ClientConnection) (c : ClientConnection)
    → IsBytes text
    → length text < 2 ^ 32
    → All Listens before
    → All Listens after
    → All (IsReady text) (before ++ (c ∷ after))
    → Speaks c (worlds (length before)) text
    → ((j : ℕ) → (j ≡ length before → ⊥) → IsSilent (worlds j))
    → (clients' : List ClientConnection) × (echo_from
          (length (before ++ (c ∷ after)))
          0
          p
          worlds
          seeds
          (before ++ (c ∷ after))
        ≡ some (stop, clients'))
      × Echoed p text (seeds (length before)) (before ++ (c ∷ after)) clients'
echo_from-Speaks p text worlds seeds before after c h small l l' ready speaks silent =
    let i = length before in
    let (before1, run1, each1) =
      echo_from-silent p worlds seeds (suc (length after)) 0 [] before (c ∷ after) refl l
        (λ j above below. silent j (λ e. absurd (omega arith))) in
    let (c1, run2, poll) = get_message-Speaks p c (worlds i) text speaks in
    let len = length-Each Polled each1 in
    let first : Each Polled (before ++ (c ∷ after)) (before1 ++ (c1 ∷ after)) =
      Each-append Polled each1 (Each.next_client poll (Each-Polled after)) in
    let (sent, run3, all) =
      send_to_all_lem p text h small (before1 ++ (c1 ∷ after)) (seeds i)
        (Each-IsReady text first ready) in
    let (clients', run4, others) =
      echo_rest p text worlds seeds i before1 after c1 sent len l'
        (λ j above below. silent j (λ e. absurd (omega arith))) all in
    (
      clients',
      ap (λ n. echo_from n 0 p worlds seeds (before ++ (c ∷ after)))
            (length-append before (c ∷ after))
          ∙ run1
          ∙ ap (λ j. echo_from (suc (length after)) j p worlds seeds (before1 ++ (c ∷ after)))
              (omega arith)
          ∙ echo_step-text p worlds seeds (length after) i before1 after c text len run2 run3
          ∙ run4,
      record {
        heard_from = before1 ++ (c1 ∷ after);
        sent_to = sent;
        first = first;
        text_sent = all;
        others = others;
      },
    )
