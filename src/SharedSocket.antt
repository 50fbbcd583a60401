-- ===== src/SharedSocket.antt =====
-- ext/easywsclient/socketsharedmemory.cpp: a connection over two rings in shared files, one for
-- what the server writes and one for what the client writes.
pub mod Accept
pub mod Pipes
pub mod Connection
pub mod Create
pub mod Named
mod Tests
use wsclient.Base.{
  ℕ, ◌≡◌, Bool, true, false, Option, none, some, List, ltb, ◌==◌, if◌then◌else◌, ◌>>=◌, not, ◌&&◌,
}
use wsclient.Base.Word.{u32}
use wsclient.Spsc.{
  Shared, Endpoint, init, read, write, increment_sequence_number, get_sequence_number,
}

-- `WsocketSharedMemory`; the files are passed beside it.
pub record SharedSocket : Type 0 where
  pub first : Bool
  pub sequence_number : ℕ
  pub is_server : Bool
  pub reader : Endpoint
  pub writer : Endpoint

-- Two open files, the server's and the client's, and the sizes that they report.
pub record Files : Type 0 where
  pub server_file : Shared
  pub client_file : Shared
  pub server_size : ℕ
  pub client_size : ℕ

-- The constructor on two open files, whose sizes are cut to 32 bits. What the two `init` return is not looked at.
unfoldable pub open_files : Bool → Files → SharedSocket × Files
open_files true f =
    let (ok, writer, s) = init f.server_file (u32 f.server_size) true true in
    let (ok', reader, c) = init f.client_file (u32 f.client_size) false true in
    (
      record {
        first = true;
        sequence_number = 0;
        is_server = true;
        reader = reader;
        writer = writer;
      },
      record f { server_file = s; client_file = c },
    )
open_files false f =
    let (ok, writer, c) = init f.client_file (u32 f.client_size) true false in
    let (ok', reader, s) = init f.server_file (u32 f.server_size) false false in
    let (number, c') = increment_sequence_number writer c in
    (
      record {
        first = true;
        sequence_number = 0;
        is_server = false;
        reader = reader;
        writer = writer;
      },
      record f { server_file = s; client_file = c' },
    )

-- `createSocketSharedMemory`: null when a file could not be opened.
unfoldable pub create_socket_shared_memory : Bool → Option Files → Option (SharedSocket × Files)
create_socket_shared_memory is_server none = none
create_socket_shared_memory is_server (some f) = some (open_files is_server f)

-- `pollServer`: whether the socket itself is returned. The reader's file is the client's.
unfoldable pub poll_server : SharedSocket → Files → Bool × SharedSocket
poll_server k f =
    let number = get_sequence_number k.reader f.client_file in
    if k.is_server && (not (number == k.sequence_number) && k.first)
    then (true, record k { sequence_number = number; first = false })
    else (false, k)

-- `receive`: the bytes, or `none` for -1, and the file that was read.
unfoldable pub receive : SharedSocket → Shared → ℕ → Option (Option (List ℕ) × Shared)
receive k s max_len = do
  (count, bytes, s') ← read k.reader s max_len
  some (if ltb 0 count then some bytes else none, s')

-- `send`: how many bytes were taken, or `none` for -1, and the file that was written.
unfoldable pub send : SharedSocket → Shared → List ℕ → ℕ → Option (Option ℕ × Shared)
send k s bytes data_len = do
  (count, s') ← write k.writer s bytes data_len
  some (if ltb 0 count then some count else none, s')
