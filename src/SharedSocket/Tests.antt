-- ===== src/SharedSocket/Tests.antt =====
-- The theorem on socketsharedmemory.cpp at concrete files.
use wsclient.Base.{◌≡◌, true, false, [], ◌∷◌, ◌++◌, arith, replicate}
use wsclient.Spsc.{Shared}
use wsclient.SharedSocket.{Files, open_files}
use wsclient.SharedSocket.Accept.{server_of, opened_by_both, polls, poll_server-accepts}

-- Memory with an old count of connections in it.
abbrev used : Shared
used = record {
  version_number = 7;
  buffer_size = 9;
  read_index = 1;
  write_index = 2;
  sequence_number = 5;
  base = replicate 16 0;
}

abbrev files : Files
files = record { server_file = used; client_file = used; server_size = 48; client_size = 48 }

poll_server-accepts_example :
    polls
      (server_of files)
      (replicate 2 ((open_files true files).1) ++ (opened_by_both files ∷ files ∷ files ∷ []))
    ≡ false ∷ false ∷ true ∷ false ∷ false ∷ []
poll_server-accepts_example =
    poll_server-accepts files 2 (files ∷ files ∷ []) (omega arith) (omega arith)
