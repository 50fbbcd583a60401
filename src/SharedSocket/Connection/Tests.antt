-- ===== src/SharedSocket/Connection/Tests.antt =====
-- A server and a client over two files at concrete calls.
use wsclient.Base.{◌≡◌, some, List, [], ◌∷◌, ◌++◌, arith, replicate}
use wsclient.Spsc.{Shared}
use wsclient.Spsc.Invariant.{contents}
use wsclient.SharedSocket.{Files}
use wsclient.SharedSocket.Pipes.{
  Call, server_send, client_send, server_receive, client_receive, Traffic, run,
}
use wsclient.SharedSocket.Connection.{server_of, client_of, files_of, IsFile, shared_connection}

abbrev used_file : Shared
used_file = record {
  version_number = 3;
  buffer_size = 9;
  read_index = 5;
  write_index = 2;
  sequence_number = 8;
  base = replicate 16 0xee;
}

abbrev files : Files
files = record {
  server_file = used_file;
  client_file = used_file;
  server_size = 48;
  client_size = 48;
}

used_file-IsFile : IsFile used_file 48
used_file-IsFile = record { large = omega arith; small = omega arith; stored = omega arith }

-- A question of the client, more than its ring takes, and two answers.
abbrev calls : List Call
calls =
    client_send (replicate 20 63)
    ∷ server_receive 4
    ∷ server_send (1 ∷ 2 ∷ [])
    ∷ server_send (3 ∷ [])
    ∷ client_receive 2
    ∷ []

shared_connection_example :
    (t : Traffic) × (g : Files) × (run (server_of files) (client_of files) (files_of files) calls
      ≡ some (t, g))
    × (t.server_sent ≡ t.client_got ++ contents (server_of files).writer g.server_file)
    × (t.client_sent ≡ t.server_got ++ contents (client_of files).writer g.client_file)
shared_connection_example = shared_connection files calls used_file-IsFile used_file-IsFile
