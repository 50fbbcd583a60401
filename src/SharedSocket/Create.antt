-- ===== src/SharedSocket/Create.antt =====
-- How a socket is made by its name: `Wsocket::create` of ext/easywsclient/wsocket.cpp, and what it
-- takes of socketsharedmemory.cpp.
use wsclient.Base.{ℕ, Bool, ◌||◌, Option, none, some, List, ◌++◌, take, if◌then◌else◌}
use wsclient.Base.Text.{codes, same_bytes}
use wsclient.Base.Scan.{Integer, print_integer}
use wsclient.Spsc.{Shared}
use wsclient.Wsocket
use wsclient.Wsocket.{Socket, System, Call}
use wsclient.SharedSocket.{SharedSocket, Files, create_socket_shared_memory}

abbrev pub shared_server : List ℕ
shared_server = codes "sharedserver"

abbrev pub shared_client : List ℕ
shared_client = codes "sharedclient"

abbrev pub shared_buffer_size : ℕ
shared_buffer_size = 16384

-- `stringFormat(scratch, 512, …)`
unfoldable pub server_file_name : Integer → List ℕ
server_file_name port =
    take 511 (codes "f:\\@sharedserver." ++ (print_integer port ++ codes ".cache"))

unfoldable pub client_file_name : Integer → List ℕ
client_file_name port =
    take 511 (codes "f:\\@sharedclient." ++ (print_integer port ++ codes ".cache"))

-- What `createMemoryMap` returns for a name, `createOk`, and a size: the memory and its length.
abbrev pub Maps : Type 0
Maps = List ℕ → Bool → ℕ → Option (Shared × ℕ)

-- The two files of the constructor; none when one of them is null.
unfoldable pub shared_files : Maps → Bool → Integer → Option Files
shared_files maps is_server port =
    let server = maps (server_file_name port) is_server shared_buffer_size in
    let client = maps (client_file_name port) is_server shared_buffer_size in
    elim server [
      | none ↦ none
      | some s ↦ elim client [
        | none ↦ none
        | some c ↦
            some (record {
              server_file = s.0;
              client_file = c.0;
              server_size = s.1;
              client_size = c.1;
            })
      ]
    ]

-- A socket of the system, or one over shared memory.
pub data AnySocket : Type 0 where
  of_system : Socket → List Call → AnySocket
  of_memory : SharedSocket → Files → AnySocket

-- `Wsocket::create`; null when there is no socket.
unfoldable pub create_by_name : Maps → List ℕ → Integer → System → Option AnySocket
create_by_name maps host_name port system =
    let is_server = same_bytes host_name shared_server in
    if is_server || same_bytes host_name shared_client
    then (elim (create_socket_shared_memory is_server (shared_files maps is_server port)) [
      | none ↦ none
      | some made ↦ some (AnySocket.of_memory made.0 made.1)
    ])
    else (elim (Wsocket.create host_name system).0 [
      | none ↦ none
      | some s ↦ some (AnySocket.of_system s (Wsocket.create host_name system).1)
    ])
