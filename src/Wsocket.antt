-- ===== src/Wsocket.antt =====
-- ext/easywsclient/wsocket.cpp: the sockets of the system. A descriptor is none for
-- `INVALID_SOCKET`; what the calls of the system return is given, and what they do to the
-- descriptors is a list of calls.
pub mod Table
pub mod Playback
pub mod Waiting
mod Tests
use wsclient.Base.{
  ℕ, zero, suc, Bool, true, false, not, ◌&&◌, ◌==◌, ◌||◌, Option, none, some, List, [], ◌∷◌, ◌++◌,
  if◌then◌else◌,
}
use wsclient.Base.Text.{codes, same_bytes}

pub data Call : Type 0 where
  opened closed : ℕ → Call
  non_blocking : ℕ → Call

pub record Socket : Type 0 where
  pub is_server : Bool
  pub descriptor : Option ℕ

-- One address that `getaddrinfo` returned: what `socket` returns for it, and whether `connect`
-- then succeeds.
pub record Address : Type 0 where
  pub socket : Option ℕ
  pub connects : Bool

-- The loop of `hostname_connect` over the addresses.
unfoldable pub connect_first : List Address → Option ℕ × List Call
connect_first [] = (none, [])
connect_first (address ∷ addresses) =
    let rest = connect_first addresses in
    elim address.socket [
      | none ↦ rest
      | some d ↦
          if address.connects
          then (some d, opened d ∷ [])
          else (rest.0, opened d ∷ closed d ∷ rest.1)
    ]

-- `hostname_connect`: no list of addresses when `getaddrinfo` fails.
unfoldable pub hostname_connect : Option (List Address) → Option ℕ × List Call
hostname_connect none = (some 1, [])
hostname_connect (some addresses) = connect_first addresses

-- What `socket`, `bind` and `listen` return for a server.
pub record Listening : Type 0 where
  pub socket : Option ℕ
  pub binds : Bool
  pub listens : Bool

unfoldable pub server_connect : Listening → Option ℕ × List Call
server_connect l = elim l.socket [
  | none ↦ (none, [])
  | some d ↦
      if l.binds && l.listens
      then (some d, opened d ∷ non_blocking d ∷ [])
      else (none, opened d ∷ closed d ∷ [])
]

-- What the system does for the constructor.
pub record System : Type 0 where
  pub listening : Listening
  pub resolved : Option (List Address)

abbrev pub server_name : List ℕ
server_name = codes "server"

-- The constructor for a host.
unfoldable pub connect_socket : List ℕ → System → Socket × List Call
connect_socket host_name system =
    if same_bytes host_name server_name
    then (let (d, calls) = server_connect system.listening in
        (record { is_server = true; descriptor = d }, calls))
    else (let (d, calls) = hostname_connect system.resolved in
        (record { is_server = false; descriptor = d }, calls))

-- The constructor for a descriptor.
unfoldable pub accepted_socket : ℕ → Socket
accepted_socket d = record { is_server = false; descriptor = some d }

unfoldable pub is_valid : Socket → Bool
is_valid s = elim s.descriptor [ none ↦ false | some d ↦ true ]

-- `if (mSocket)` holds for `INVALID_SOCKET`, and `closesocket` of it does nothing.
unfoldable pub close : Socket → Socket × List Call
close s = (
  record s { descriptor = some 0 },
  elim s.descriptor [ none ↦ [] | some d ↦ if d == 0 then [] else closed d ∷ [] ],
)

-- `release`: the destructor closes.
unfoldable pub release : Socket → List Call
release s = (close s).1

-- `pollServer`: the socket of a connection that `accept` returned.
unfoldable pub poll_server : Socket → Option ℕ → Option Socket × List Call
poll_server s accepted =
    if s.is_server && is_valid s
    then (elim accepted [ none ↦ (none, []) | some d ↦ (some (accepted_socket d), opened d ∷ []) ])
    else (none, [])

-- `receive`: what the system returned, or -1 without asking it (`none`).
unfoldable pub receive : {A : Type 0} → Socket → A → Option A
receive s result = elim s.descriptor [
  | none ↦ some result
  | some d ↦ if d == 0 then none else some result
]

-- `Wsocket::create` for a host that is not one of the two names of shared memory: null when the
-- constructor found no socket.
unfoldable pub create : List ℕ → System → Option Socket × List Call
create host_name system =
    let (s, calls) = connect_socket host_name system in
    if is_valid s then (some s, calls) else (none, calls ++ release s)
