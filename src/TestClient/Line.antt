-- ===== src/TestClient/Line.antt =====
-- A line that is typed at an idle client, and what the server takes from its bytes.
use wsclient.Base.{
  inl, sum, ℕ, ◌<◌, ◌≡◌, refl, sym, ap, subst, ◌∙◌, true, not, Option, some, none, List, [], ◌∷◌,
  ◌++◌, arith, length, map, All, append-nil, lt→ltb,
}
use wsclient.Base.Word.{IsBytes}
use wsclient.Base.Text.{c_string}
use wsclient.SimpleBuffer.{SimpleBuffer, get_data, get_size}
use wsclient.SimpleBuffer.Invariant.{IsValid, length-get_data}
use wsclient.Frame.{text_frame}
use wsclient.Frame.Wire.{wire_frame}
use wsclient.WebSocket.{WebSocket, LogEntry, Platform, Event, opened}
use wsclient.WebSocket.Send.{is_closing, send_text}
use wsclient.WebSocket.Send.Queue.{HasRoom}
use wsclient.WebSocket.Send.Message.{key_of, queued_lem, get_masking_key-IsKey, send_data_lem}
use wsclient.WebSocket.Dispatch.{Turn, stop, is_data}
use wsclient.WebSocket.Dispatch.Stream.{Message, IsMessage, stream}
use wsclient.WebSocket.Poll.{Receive, Send, World, poll}
use wsclient.WebSocket.Poll.Messages.{concat, IsChunk, HasReadRoom}
use wsclient.WebSocket.Poll.Transmit.{bytes_sent}
use wsclient.WebSocket.Poll.Sending.{pieces, bytes_sent-pieces, Flows, Emptied, poll-Flows}
use wsclient.TestServer.{ClientConnection, get_message}
use wsclient.TestServer.Messages.{texts, last_or, get_message_lem}
use wsclient.TestClient.{Round, is_exit, on_input, client_round}

-- An open connection with nothing received and nothing to send, whose buffers are valid; a read of
-- `size` bytes, and one read more, fit in the receive buffer.
pub record IsIdle (w : WebSocket) (size : ℕ) : Type 0 where
  pub connected : w.socket ≡ true
  pub open_state : w.ready_state ≡ opened
  pub readable : IsValid w.receive_buffer
  pub room : HasReadRoom w.receive_buffer size
  pub nothing_received : get_data w.receive_buffer ≡ []
  pub no_part : get_size w.received_data ≡ 0
  pub queue : IsValid w.transmit_buffer
  pub nothing_queued : get_data w.transmit_buffer ≡ []

-- The frame of a line.
abbrev pub line_frame : Platform → WebSocket → ℕ → List ℕ → List ℕ
line_frame p w seed str = wire_frame text_frame w.use_mask (key_of p seed) str

-- A round in which a line is typed and nothing arrives, while the socket takes all of its frame, in
-- pieces.
pub record IsTyped (p : Platform) (w : WebSocket) (str : List ℕ) (ns : List ℕ) (round : Round)
    : Type 0 where
  pub typed : round.typed ≡ some str
  pub bytes : IsBytes str
  pub fits : HasRoom w.transmit_buffer (length str) w.use_mask
  pub silent : round.world.receives ≡ []
  pub fuel : 0 < round.world.fuel
  pub some_bytes : All (λ n. 0 < n) ns
  pub taken : round.world.sends ≡ map Send.took ns
  pub whole : sum ns ≡ length (line_frame p w round.seed str)

-- The socket behind such a round.
abbrev pub said : WebSocket → ℕ → Option (List LogEntry) → SimpleBuffer → WebSocket
said w count entries b = record w { send_count = count; log_file = entries; transmit_buffer = b }

client_round_run :
    (p : Platform) (w w1 : WebSocket) (round : Round) (str : List ℕ) {turn : Turn} {w2 : WebSocket}
    {events : List Event}
    → round.typed ≡ some str
    → send_text p w (some str) round.seed ≡ some w1
    → poll p w1 true 1 round.world ≡ some (turn, w2, events)
    → client_round p w round ≡ some (turn, not (is_exit str), w2, events)
unfolding client_round on_input
client_round_run p w w1 round str e f g = rw (client_round, e, f, g)

module _ (p : Platform) (w : WebSocket) (str ns : List ℕ) (round : Round) (idle : IsIdle w 0)
    (line : IsTyped p w str ns round) where
  frame_queued :
      (count : ℕ) × (entries : Option (List LogEntry)) × (b : SimpleBuffer) × (send_text p w
          (some str)
          round.seed
        ≡ some (said w count entries b))
      × IsValid b
      × (get_data b ≡ line_frame p w round.seed str)
  unfolding is_closing send_text
  frame_queued =
      let (b, run, q) =
        send_data_lem p w text_frame str round.seed (omega arith) line.bytes
          (ap is_closing idle.open_state) idle.queue line.fits in
      let (count, entries, shape) = queued_lem w str b in
      (
        count,
        entries,
        b,
        run ∙ ap some shape,
        q.valid,
        q.content ∙ ap (λ t. t ++ line_frame p w round.seed str) idle.nothing_queued,
      )

  -- The round hands over the frame, whole, and leaves the connection idle.
  pub client_round-said :
      (count : ℕ) × (entries : Option (List LogEntry)) × (b b1 : SimpleBuffer) × (client_round p w
          round
        ≡ some (
          stop,
          not (is_exit str),
          said w count entries b,
          pieces ns (line_frame p w round.seed str),
        ))
      × Emptied (said w count entries b1) ns b (pieces ns (line_frame p w round.seed str))
      × IsValid b1
      × (get_data b1 ≡ line_frame p w round.seed str)
  client_round-said =
      let (count, entries, b1, sends, v, content) = frame_queued in
      let w1 = said w count entries b1 in
      let flows : Flows w1 round.world ns = record {
        connected = idle.connected;
        readable = idle.readable;
        room = idle.room;
        silent = line.silent;
        queue = v;
        some_bytes = line.some_bytes;
        whole = line.whole ∙ sym (ap length content) ∙ length-get_data v;
        taken = line.taken;
      } in
      let (b, run, left) =
        poll-Flows p w1 round.world ns flows 1 idle.open_state idle.nothing_received line.fuel in
      (
        count,
        entries,
        b,
        b1,
        client_round_run p w w1 round str line.typed sends run
            ∙ ap (λ t. some (stop, not (is_exit str), said w count entries b, pieces ns t)) content,
        subst (λ t. Emptied w1 ns b (pieces ns t)) content left,
        v,
        content,
      )

-- The line as a message.
abbrev line_message : Platform → WebSocket → ℕ → List ℕ → Message
line_message p w seed str = record {
  opcode = text_frame;
  masked = w.use_mask;
  key = key_of p seed;
  bytes = str;
}

line_message-IsMessage :
    (p : Platform) (w : WebSocket) (seed : ℕ) (str : List ℕ)
    → IsBytes str
    → IsMessage (line_message p w seed str)
unfolding is_data
line_message-IsMessage p w seed str h = record {
  four_bits = omega arith;
  is_message = refl;
  key = get_masking_key-IsKey p.big_endian seed;
  bytes = h;
}

-- A line of fewer than 511 bytes, none of them zero, that is typed at an idle client, in a round in
-- which nothing arrives and the socket takes its whole frame, in whatever pieces: the round comes to
-- its end, and the client goes on unless the line is a word that ends it. When the bytes that it
-- handed over reach an idle client object of the server, cut in whatever reads, `getMessage` there
-- comes to its end and returns the very line.
pub chat_line :
    (p p' : Platform) (w w' : WebSocket) (str ns : List ℕ) (round : Round) (c : ClientConnection)
    (world : World) (chunks : List (List ℕ))
    → IsIdle w 0
    → IsTyped p w str ns round
    → length str < 511
    → c_string str ≡ str
    → c.client ≡ some w'
    → IsIdle w' (length (concat chunks))
    → All IsChunk chunks
    → world.receives ≡ map Receive.got chunks
    → concat chunks ≡ line_frame p w round.seed str
    → 1 < world.fuel
    → (w1 : WebSocket) × (events : List Event) × (client_round p w round
        ≡ some (stop, not (is_exit str), w1, events))
      × (bytes_sent events ≡ concat chunks)
      × (c' : ClientConnection) × (get_message p' c world ≡ some (stop, some str, c'))
chat_line p p' w w' str ns round c world chunks idle line small no_zero client idle' h reads arrives
      fuel =
    let (count, entries, b, b1, run, left, v, content) =
      client_round-said p w str ns round idle line in
    let x = line_message p w round.seed str in
    let arrived : get_data w'.receive_buffer ++ concat chunks ≡ stream (x ∷ []) =
      ap (λ t. t ++ concat chunks) idle'.nothing_received
      ∙ arrives
      ∙ sym (append-nil (line_frame p w round.seed str)) in
    let nothing_sent : get_size w'.transmit_buffer ≡ 0 =
      sym (length-get_data idle'.queue) ∙ ap length idle'.nothing_queued in
    let (c', _, _, _, taken, _, _, _) =
      get_message_lem p' c w' world chunks (x ∷ []) client idle'.connected idle'.open_state
        (inl (ground (arith, nothing_sent))) idle'.no_part idle'.readable idle'.room h reads
        (line_message-IsMessage p w round.seed str line.bytes, tt) arrived fuel in
    (
      said w count entries b,
      pieces ns (line_frame p w round.seed str),
      run,
      bytes_sent-pieces ns (line_frame p w round.seed str) line.whole ∙ sym arrives,
      c',
      taken ∙ ap (λ t. some (stop, t, c')) (one_text x refl small no_zero),
    )
  where
    one_text :
        (x : Message)
        → x.opcode ≡ text_frame
        → length x.bytes < 511
        → c_string x.bytes ≡ x.bytes
        → last_or none (texts (x ∷ [])) ≡ some x.bytes
    one_text x text short e = simp (text, e, lt→ltb (length x.bytes) 511 short)
