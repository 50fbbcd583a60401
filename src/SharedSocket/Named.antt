-- ===== src/SharedSocket/Named.antt =====
-- A server and a client that are made by their names.
use wsclient.Base.{true, false, some, ◌≡◌, refl}
use wsclient.Base.Text.{same_bytes}
use wsclient.Base.Scan.{Integer}
use wsclient.Wsocket.{System}
use wsclient.SharedSocket.{Files, open_files, create_socket_shared_memory}
use wsclient.SharedSocket.Create.{
  shared_server, shared_client, Maps, shared_files, AnySocket, create_by_name,
}
use wsclient.SharedSocket.Connection.{server_of, client_of, files_of}

-- Where both files can be mapped, and the client maps them as the server left them: the name of the
-- server makes the server's end, the name of the client makes the client's, and no socket of the
-- system is asked for.
named_ends :
    (maps maps' : Maps) (port : Integer) (system : System) (f : Files)
    → shared_files maps true port ≡ some f
    → shared_files maps' false port ≡ some ((open_files true f).1)
    → (create_by_name maps shared_server port system
        ≡ some (AnySocket.of_memory (server_of f) ((open_files true f).1)))
      × (create_by_name maps' shared_client port system
          ≡ some (AnySocket.of_memory (client_of f) (files_of f)))
unfolding create_by_name create_socket_shared_memory same_bytes
named_ends maps maps' port system f e g = (rw e refl, rw g refl)
