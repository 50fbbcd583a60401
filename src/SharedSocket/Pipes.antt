-- ===== src/SharedSocket/Pipes.antt =====
-- A server and a client over the two files: what one sends is what the other receives.
use wsclient.Base.{
  ℕ, ◌≡◌, refl, sym, ap, ◌∙◌, true, false, Option, none, some, List, [], ◌∷◌, ◌++◌, arith, length,
  take, min, ltb, Bool-cases, inl, inr, append_assoc, append-nil, ◌>>=◌,
}
use wsclient.Spsc.{Shared, Endpoint, size}
use wsclient.Spsc.Invariant.{IsValid, contents}
use wsclient.Spsc.Write.{accepted, write_lem}
use wsclient.Spsc.Read.{read_lem}
use wsclient.Spsc.Stream.{IsPair, turn, same_contents}
use wsclient.SharedSocket.{SharedSocket, Files, send, receive}

pub data Call : Type 0 where
  server_send client_send : List ℕ → Call
  server_receive client_receive : ℕ → Call

-- The bytes that went either way: what `send` took and what `receive` returned.
pub record Traffic : Type 0 where
  pub server_sent : List ℕ
  pub client_got : List ℕ
  pub client_sent : List ℕ
  pub server_got : List ℕ

abbrev pub count_of : Option ℕ → ℕ
count_of none = 0
count_of (some n) = n

abbrev pub bytes_of : Option (List ℕ) → List ℕ
bytes_of none = []
bytes_of (some bytes) = bytes

abbrev pub no_traffic : Traffic
no_traffic = record { server_sent = []; client_got = []; client_sent = []; server_got = [] }

-- The calls of a server and a client, one after the other.
unfoldable pub run : SharedSocket → SharedSocket → Files → List Call → Option (Traffic × Files)
run k c f [] = some (no_traffic, f)
run k c f (server_send bytes ∷ calls) = do
  (n, s) ← send k f.server_file bytes (length bytes)
  (t, g) ← run k c (record f { server_file = s }) calls
  some (record t { server_sent = take (count_of n) bytes ++ t.server_sent }, g)
run k c f (client_send bytes ∷ calls) = do
  (n, s) ← send c f.client_file bytes (length bytes)
  (t, g) ← run k c (record f { client_file = s }) calls
  some (record t { client_sent = take (count_of n) bytes ++ t.client_sent }, g)
run k c f (server_receive n ∷ calls) = do
  (got, s) ← receive k f.client_file n
  (t, g) ← run k c (record f { client_file = s }) calls
  some (record t { server_got = bytes_of got ++ t.server_got }, g)
run k c f (client_receive n ∷ calls) = do
  (got, s) ← receive c f.server_file n
  (t, g) ← run k c (record f { server_file = s }) calls
  some (record t { client_got = bytes_of got ++ t.client_got }, g)

-- One call of `send`, on a ring that its end writes.
send_lem :
    (k : SharedSocket) (s : Shared) (bytes : List ℕ)
    → IsValid k.writer s
    → k.writer.is_writer ≡ true
    → (n : Option ℕ) × (s' : Shared) × (send k s bytes (length bytes) ≡ some (n, s'))
      × IsValid k.writer s'
      × (contents k.writer s' ≡ contents k.writer s ++ take (count_of n) bytes)
unfolding send
send_lem k s bytes v writes =
    let (s', run, w) = write_lem bytes v writes in
    let count = accepted k.writer s (length bytes) in
    elim (Bool-cases (ltb 0 count)) [
      | inl more ↦ (some count, s', rw (run, more) refl, w.valid, w.content)
      | inr nothing ↦
          let zero_count : count ≡ 0 = ground (arith, nothing) in
          (
            none,
            s',
            rw (run, nothing) refl,
            w.valid,
            w.content ∙ ap (λ t. contents k.writer s ++ take t bytes) zero_count,
          )
    ]

receive_lem :
    (k : SharedSocket) (s : Shared) (n : ℕ)
    → IsValid k.reader s
    → k.reader.is_writer ≡ false
    → (got : Option (List ℕ)) × (s' : Shared) × (receive k s n ≡ some (got, s'))
      × IsValid k.reader s'
      × (contents k.reader s ≡ bytes_of got ++ contents k.reader s')
unfolding receive
receive_lem k s n v reads =
    let (s', run, x) = read_lem n v reads in
    let count = min n (size k.reader s) in
    let bytes = take count (contents k.reader s) in
    elim (Bool-cases (ltb 0 count)) [
      | inl more ↦ (some bytes, s', rw (run, more) refl, x.valid, x.content)
      | inr nothing ↦
          let zero_count : count ≡ 0 = ground (arith, nothing) in
          (
            none,
            s',
            rw (run, nothing) refl,
            x.valid,
            x.content ∙ ap (λ t. take t (contents k.reader s) ++ contents k.reader s') zero_count,
          )
    ]

-- A server and a client whose ends of each file belong together.
pub record IsConnected (k c : SharedSocket) : Type 0 where
  pub to_client : IsPair k.writer c.reader
  pub to_server : IsPair c.writer k.reader

-- What the calls leave: the files are valid, and what was in a file, followed by what was sent, is
-- what was received, followed by what is left.
pub record Carried (k c : SharedSocket) (f : Files) (t : Traffic) (g : Files) : Type 0 where
  pub server_valid : IsValid k.writer g.server_file
  pub client_valid : IsValid c.writer g.client_file
  pub to_client :
      contents k.writer f.server_file ++ t.server_sent
      ≡ t.client_got ++ contents k.writer g.server_file
  pub to_server :
      contents c.writer f.client_file ++ t.client_sent
      ≡ t.server_got ++ contents c.writer g.client_file

push :
    (before front sent : List ℕ) {after all : List ℕ}
    → after ≡ before ++ front
    → after ++ sent ≡ all
    → before ++ (front ++ sent) ≡ all
push before front sent e h = sym (append_assoc before front sent) ∙ ap (λ t. t ++ sent) (sym e) ∙ h

pull :
    {before : List ℕ} (after bytes sent got left : List ℕ)
    → before ≡ bytes ++ after
    → after ++ sent ≡ got ++ left
    → before ++ sent ≡ (bytes ++ got) ++ left
pull after bytes sent got left e h =
    ap (λ t. t ++ sent) e
    ∙ append_assoc bytes after sent
    ∙ ap (λ t. bytes ++ t) h
    ∙ sym (append_assoc bytes got left)

-- `receive_lem` as the other end sees it.
received :
    (k : SharedSocket) (w : Endpoint) (s : Shared) (n : ℕ)
    → IsPair w k.reader
    → IsValid w s
    → (got : Option (List ℕ)) × (s' : Shared) × (receive k s n ≡ some (got, s'))
      × IsValid w s'
      × (contents w s ≡ bytes_of got ++ contents w s')
received k w s n p v =
    let (got, s', run, v', split) = receive_lem k s n (turn p.other p.same v) p.reads in
    (
      got,
      s',
      run,
      turn v.bound (sym p.same) v',
      same_contents w k.reader s p.same
          ∙ split
          ∙ ap (λ t. bytes_of got ++ t) (sym (same_contents w k.reader s' p.same)),
    )

pub run-Carried :
    (k c : SharedSocket) (f : Files) (calls : List Call)
    → IsConnected k c
    → IsValid k.writer f.server_file
    → IsValid c.writer f.client_file
    → (t : Traffic) × (g : Files) × (run k c f calls ≡ some (t, g)) × Carried k c f t g
unfolding run
run-Carried k c f [] p v u = (
  no_traffic,
  f,
  refl,
  record {
    server_valid = v;
    client_valid = u;
    to_client = append-nil (contents k.writer f.server_file);
    to_server = append-nil (contents c.writer f.client_file);
  },
)
run-Carried k c f (server_send bytes ∷ calls) p v u =
    let (n, s, e, v', content) = send_lem k f.server_file bytes v p.to_client.writes in
    let (t, g, h, x) = run-Carried k c (record f { server_file = s }) calls p v' u in
    (
      record t { server_sent = take (count_of n) bytes ++ t.server_sent },
      g,
      rw (e, h) refl,
      record {
        server_valid = x.server_valid;
        client_valid = x.client_valid;
        to_client =
            push (contents k.writer f.server_file) (take (count_of n) bytes) t.server_sent content
              x.to_client;
        to_server = x.to_server;
      },
    )
run-Carried k c f (client_send bytes ∷ calls) p v u =
    let (n, s, e, u', content) = send_lem c f.client_file bytes u p.to_server.writes in
    let (t, g, h, x) = run-Carried k c (record f { client_file = s }) calls p v u' in
    (
      record t { client_sent = take (count_of n) bytes ++ t.client_sent },
      g,
      rw (e, h) refl,
      record {
        server_valid = x.server_valid;
        client_valid = x.client_valid;
        to_client = x.to_client;
        to_server =
            push (contents c.writer f.client_file) (take (count_of n) bytes) t.client_sent content
              x.to_server;
      },
    )
run-Carried k c f (server_receive n ∷ calls) p v u =
    let (got, s, e, u', split) = received k c.writer f.client_file n p.to_server u in
    let (t, g, h, x) = run-Carried k c (record f { client_file = s }) calls p v u' in
    (
      record t { server_got = bytes_of got ++ t.server_got },
      g,
      rw (e, h) refl,
      record {
        server_valid = x.server_valid;
        client_valid = x.client_valid;
        to_client = x.to_client;
        to_server =
            pull (contents c.writer s) (bytes_of got) t.client_sent t.server_got
              (contents c.writer g.client_file) split x.to_server;
      },
    )
run-Carried k c f (client_receive n ∷ calls) p v u =
    let (got, s, e, v', split) = received c k.writer f.server_file n p.to_client v in
    let (t, g, h, x) = run-Carried k c (record f { server_file = s }) calls p v' u in
    (
      record t { client_got = bytes_of got ++ t.client_got },
      g,
      rw (e, h) refl,
      record {
        server_valid = x.server_valid;
        client_valid = x.client_valid;
        to_client =
            pull (contents k.writer s) (bytes_of got) t.server_sent t.client_got
              (contents k.writer g.server_file) split x.to_client;
        to_server = x.to_server;
      },
    )
