-- ===== src/Wsocket/Tests.antt =====
-- The sockets of the system at concrete inputs.
use wsclient.Base.{ℕ, ◌≡◌, refl, true, false, Option, some, none, List, [], ◌∷◌, arith}
use wsclient.Base.Text.{codes, same_bytes}
use wsclient.Wsocket.{
  Call, Socket, Address, System, create, connect_socket, hostname_connect, connect_first, is_valid,
}
use wsclient.Wsocket.Playback.{
  Entry, playback_file, receive, replay, minus_one, replay-playback_file,
}
use wsclient.Wsocket.Table.{table_after, left_open, create_and_release, create_lem}

-- Two addresses: the first does not answer.
abbrev two_addresses : List Address
two_addresses =
    record { socket = some 5; connects = false } ∷ record { socket = some 6; connects = true } ∷ []

abbrev system : Option (List Address) → System
system resolved = record {
  listening = record { socket = none; binds = false; listens = false };
  resolved = resolved;
}

abbrev local_host : List ℕ
local_host = codes "localhost"

abbrev result : Option Socket × List Call
result = create local_host (system (some two_addresses))

create_lem_example :
    (table_after (result.1) (1 ∷ []) ≡ left_open (result.0) (1 ∷ []))
    × (table_after (create_and_release result) (1 ∷ []) ≡ 1 ∷ [])
unfolding create connect_socket hostname_connect connect_first is_valid same_bytes
create_lem_example =
    create_lem local_host (system (some two_addresses)) (1 ∷ []) (two_addresses, refl) (omega arith)

abbrev entry : List ℕ → Entry
entry bytes = record { asked = 12; max_len = 4096; bytes = bytes }

replay-playback_file_example :
    (replay (playback_file (entry (7 ∷ 8 ∷ []) ∷ entry (9 ∷ []) ∷ [])) (4096 ∷ 4096 ∷ [])
      ≡ some ((2, 7 ∷ 8 ∷ []) ∷ (1, 9 ∷ []) ∷ [], []))
    × (receive [] 4096 ≡ some (minus_one, [], []))
replay-playback_file_example =
    replay-playback_file (entry (7 ∷ 8 ∷ []) ∷ entry (9 ∷ []) ∷ []) 4096 (
      record { given = omega arith; fits = omega arith; small = omega arith; word = omega arith },
      (
        record { given = omega arith; fits = omega arith; small = omega arith; word = omega arith },
        tt,
      ),
    )
