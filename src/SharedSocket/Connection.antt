-- ===== src/SharedSocket/Connection.antt =====
-- A server and a client on the files that they opened.
mod Tests
use wsclient.Base.{
  ℕ, ◌+◌, ◌-◌, ◌<◌, ◌≤◌, ◌^◌, ◌≡◌, refl, sym, ap, ◌∙◌, Bool, true, false, not, ◌||◌, Option, none,
  some, List, [], ◌∷◌, ◌++◌, arith, length, length-take, take, min, ltb, lt→ltb, ◌==◌,
  if◌then◌else◌, Bool-cases, inl, inr, append_assoc, append-nil, ◌>>=◌,
}
use wsclient.Base.Word.{u32}
use wsclient.Spsc
use wsclient.Spsc.{
  Shared, Endpoint, size, calc_size, header_size, shared_memory_version, increment_sequence_number,
}
use wsclient.Spsc.Invariant.{IsValid, contents, length-contents}
use wsclient.Spsc.Write.{accepted, write_lem}
use wsclient.Spsc.Read.{read_lem}
use wsclient.Spsc.Stream.{IsPair, turn, same_contents}
use wsclient.SharedSocket.{SharedSocket, Files, open_files, send, receive}
use wsclient.SharedSocket.Pipes.{Call, Traffic, run, IsConnected, Carried, run-Carried}

-- The server's object, the client's, and the files, when the client opens them behind the server.
abbrev pub server_of : Files → SharedSocket
server_of f = (open_files true f).0

abbrev pub client_of : Files → SharedSocket
client_of f = (open_files false (open_files true f).1).0

abbrev pub files_of : Files → Files
files_of f = (open_files false (open_files true f).1).1

-- A file that can hold a ring.
pub record IsFile (s : Shared) (len : ℕ) : Type 0 where
  pub large : header_size < len
  pub small : len < 2 ^ 31
  pub stored : len ≤ length s.base + header_size

-- A ring that is empty from the front on.
fresh-IsValid :
    (s : Shared) (len number : ℕ)
    → IsFile s len
    → IsValid
        (record { attached = true; capacity = len - header_size; is_writer = true })
        (record s {
          version_number = shared_memory_version;
          buffer_size = len;
          write_index = 0;
          read_index = 0;
          sequence_number = number;
        })
unfolding size calc_size
fresh-IsValid s len number h = record {
  bound = refl;
  small = omega arith;
  stored = omega arith;
  read_in = omega arith;
  write_in = omega arith;
  free = omega arith;
}

-- Two ends that belong together, on two empty rings.
record Opened (k c : SharedSocket) (f : Files) : Type 0 where
  connected : IsConnected k c
  server_valid : IsValid k.writer f.server_file
  client_valid : IsValid c.writer f.client_file
  server_empty : contents k.writer f.server_file ≡ []
  client_empty : contents c.writer f.client_file ≡ []

u32_small : (n : ℕ) → n < 2 ^ 31 → u32 n ≡ n
u32_small n h = omega arith

open_files-Opened :
    (f : Files)
    → IsFile f.server_file f.server_size
    → IsFile f.client_file f.client_size
    → Opened (server_of f) (client_of f) (files_of f)
unfolding open_files Spsc.init increment_sequence_number
open_files-Opened f s c =
    let hs = lt→ltb header_size f.server_size s.large in
    let hc = lt→ltb header_size f.client_size c.large in
    let same_server : (f.server_size == f.server_size) ≡ true = ground arith in
    let same_client : (f.client_size == f.client_size) ≡ true = ground arith in
    rw
      (
        u32_small f.server_size s.small,
        u32_small f.client_size c.small,
        hs,
        hc,
        same_server,
        same_client,
      )
      (record {
        connected = record {
          to_client = record { writes = refl; reads = refl; other = refl; same = refl };
          to_server = record { writes = refl; reads = refl; other = refl; same = refl };
        };
        server_valid = fresh-IsValid f.server_file f.server_size 0 s;
        client_valid = fresh-IsValid f.client_file f.client_size 1 c;
        server_empty = refl;
        client_empty = refl;
      })

-- When both files are larger than the header of a ring, smaller than 2 ^ 31 and stored as a whole: a
-- server and a client that open them, whatever the files held before, are the ends of two pipes. Every
-- sequence of their whole calls is defined; what the server's `send` took is, in order, what the
-- client's `receive` returned, followed by what is left in the server's file; and likewise from the
-- client to the server.
pub shared_connection :
    (f : Files) (calls : List Call)
    → IsFile f.server_file f.server_size
    → IsFile f.client_file f.client_size
    → (t : Traffic) × (g : Files) × (run (server_of f) (client_of f) (files_of f) calls
        ≡ some (t, g))
      × (t.server_sent ≡ t.client_got ++ contents (server_of f).writer g.server_file)
      × (t.client_sent ≡ t.server_got ++ contents (client_of f).writer g.client_file)
shared_connection f calls s c =
    let start = open_files-Opened f s c in
    let (t, g, e, x) =
      run-Carried (server_of f) (client_of f) (files_of f) calls start.connected start.server_valid
        start.client_valid in
    (
      t,
      g,
      e,
      ap (λ u. u ++ t.server_sent) (sym start.server_empty) ∙ x.to_client,
      ap (λ u. u ++ t.client_sent) (sym start.client_empty) ∙ x.to_server,
    )
