-- ===== src/Wsocket/Table.antt =====
-- The descriptors that are open.
use wsclient.Base.{
  ℕ, ◌<◌, ◌≡◌, refl, ap, ◌∙◌, true, false, ◌&&◌, ◌==◌, Option, none, some, List, [], ◌∷◌, ◌++◌,
  arith, if◌then◌else◌, Bool-cases, inl, inr,
}
use wsclient.Base.Text.{same_bytes}
use wsclient.Wsocket.{
  Call, opened, closed, non_blocking, Socket, Address, connect_first, hostname_connect, Listening,
  server_connect, System, connect_socket, server_name, is_valid, close, release, create,
}

-- `closed` takes the descriptor off the table once.
abbrev pub remove : ℕ → List ℕ → List ℕ
remove d [] = []
remove d (x ∷ table) = if x == d then table else x ∷ remove d table

-- The table after some calls.
abbrev pub table_after : List Call → List ℕ → List ℕ
table_after [] table = table
table_after (opened d ∷ calls) table = table_after calls (d ∷ table)
table_after (closed d ∷ calls) table = table_after calls (remove d table)
table_after (non_blocking d ∷ calls) table = table_after calls table

abbrev pub with_descriptor : Option ℕ → List ℕ → List ℕ
with_descriptor none table = table
with_descriptor (some d) table = d ∷ table

pub remove-same : (d : ℕ) (table : List ℕ) → remove d (d ∷ table) ≡ table
remove-same d table = let same : (d == d) ≡ true = ground arith in rw same

pub table_after-append :
    (calls calls' : List Call) (table : List ℕ)
    → table_after (calls ++ calls') table ≡ table_after calls' (table_after calls table)
table_after-append [] calls' table = refl
table_after-append (opened d ∷ calls) calls' table = table_after-append calls calls' (d ∷ table)
table_after-append (closed d ∷ calls) calls' table =
    table_after-append calls calls' (remove d table)
table_after-append (non_blocking d ∷ calls) calls' table = table_after-append calls calls' table

-- Of the sockets that the loop opens, the one that connects stays open, and no other does.
pub connect_first_lem :
    (addresses : List Address) (table : List ℕ)
    → let (d, calls) = connect_first addresses in table_after calls table ≡ with_descriptor d table
unfolding connect_first
connect_first_lem [] table = refl
connect_first_lem (address ∷ addresses) table =
    go address.socket (connect_first_lem addresses table)
  where
    go :
        (socket : Option ℕ)
        → table_after (connect_first addresses).1 table
          ≡ with_descriptor (connect_first addresses).0 table
        → let (d, calls) = connect_first (record address { socket = socket } ∷ addresses) in
          table_after calls table ≡ with_descriptor d table
    go none ih = ih
    go (some d) ih = elim (Bool-cases address.connects) [
      | inl made ↦ rw made
      | inr missed ↦
          rw missed (ap (λ t. table_after (connect_first addresses).1 t) (remove-same d table) ∙ ih)
    ]

server_connect_lem :
    (l : Listening) (table : List ℕ)
    → let (d, calls) = server_connect l in table_after calls table ≡ with_descriptor d table
unfolding server_connect
server_connect_lem l table = go l.socket
  where
    go :
        (socket : Option ℕ)
        → let (d, calls) = server_connect (record l { socket = socket }) in
          table_after calls table ≡ with_descriptor d table
    go none = refl
    go (some d) = elim (Bool-cases (l.binds && l.listens)) [
      | inl made ↦ rw made
      | inr missed ↦ let same : (d == d) ≡ true = ground arith in rw (missed, same)
    ]

-- The descriptors that the system gives out are not 0, which standard input has.
abbrev pub IsGiven : Option ℕ → Type 0
IsGiven none = Unit {0}
IsGiven (some d) = 0 < d

abbrev pub Resolves : System → Type 0
Resolves system = (addresses : List Address) × (system.resolved ≡ some addresses)

connect_socket_lem :
    (host_name : List ℕ) (system : System) (table : List ℕ)
    → Resolves system
    → let (s, calls) = connect_socket host_name system in
      table_after calls table ≡ with_descriptor s.descriptor table
unfolding connect_socket hostname_connect
connect_socket_lem host_name system table (addresses, e) =
    elim (Bool-cases (same_bytes host_name server_name)) [
      | inl server ↦ rw server (server_connect_lem system.listening table)
      | inr client ↦ rw (client, e) (connect_first_lem addresses table)
    ]

release_lem :
    (s : Socket) (table : List ℕ)
    → IsGiven s.descriptor
    → table_after (release s) (with_descriptor s.descriptor table) ≡ table
unfolding release close
release_lem s table h = go s.descriptor h
  where
    go :
        (descriptor : Option ℕ)
        → IsGiven descriptor
        → table_after
            (release (record s { descriptor = descriptor }))
            (with_descriptor descriptor table)
          ≡ table
    go none h = refl
    go (some d) h =
        let other : (d == 0) ≡ false = ground arith in
        let same : (d == d) ≡ true = ground arith in rw (other, same)

-- What `create` leaves open: the descriptor of the socket that it returns, and nothing when it
-- returns null.
abbrev pub left_open : Option Socket → List ℕ → List ℕ
left_open none table = table
left_open (some s) table = with_descriptor s.descriptor table

abbrev pub Given : Option Socket → Type 0
Given none = Unit {0}
Given (some s) = IsGiven s.descriptor

-- `create`, and `release` of what it returned.
abbrev pub create_and_release : Option Socket × List Call → List Call
create_and_release (none, calls) = calls
create_and_release (some s, calls) = calls ++ release s

release-invalid :
    (s : Socket)
    → is_valid s ≡ false
    → (release s ≡ []) × ((table : List ℕ) → with_descriptor s.descriptor table ≡ table)
unfolding is_valid release close
release-invalid s e = go s.descriptor e
  where
    go :
        (descriptor : Option ℕ)
        → is_valid (record s { descriptor = descriptor }) ≡ false
        → (release (record s { descriptor = descriptor }) ≡ [])
          × ((table : List ℕ) → with_descriptor descriptor table ≡ table)
    go none e = (refl, λ table. refl)
    go (some d) e = absurd (ground (arith, e))

abbrev created : Socket → List Call → Option Socket × List Call
created s calls = if is_valid s then (some s, calls) else (none, calls ++ release s)

created_lem :
    (s : Socket) (calls : List Call) (table : List ℕ)
    → table_after calls table ≡ with_descriptor s.descriptor table
    → Given ((created s calls).0)
    → let result = created s calls in
      (table_after result.1 table ≡ left_open result.0 table)
      × (table_after (create_and_release result) table ≡ table)
created_lem s calls table e given = elim (Bool-cases (is_valid s)) [
  | inl valid ↦ rw valid (
    e,
    table_after-append calls (release s) table
        ∙ ap (table_after (release s)) e
        ∙ release_lem s table (rw valid at given),
  )
  | inr invalid ↦
      let (nothing, same) = release-invalid s invalid in
      let all : table_after (calls ++ release s) table ≡ table =
        table_after-append calls (release s) table
        ∙ ap (λ r. table_after r (table_after calls table)) nothing
        ∙ e
        ∙ same table in
      rw invalid (all, all)
]

-- When the host resolves, and the socket that is returned, if any, has not the descriptor 0:
-- whatever else the calls of the system return, `create` leaves open the descriptor of the socket
-- that it returns, and no other, and `release` of that socket leaves the table as it was before.
pub create_lem :
    (host_name : List ℕ) (system : System) (table : List ℕ)
    → Resolves system
    → Given ((create host_name system).0)
    → let result = create host_name system in
      (table_after result.1 table ≡ left_open result.0 table)
      × (table_after (create_and_release result) table ≡ table)
unfolding create
create_lem host_name system table resolves given =
    let (s, calls) = connect_socket host_name system in
    created_lem s calls table (connect_socket_lem host_name system table resolves) given

-- For a host that does not resolve, `create` returns a valid socket without having opened any: the
-- socket has the descriptor 1, and its `release` takes whatever has that descriptor, as standard
-- output does, off the table.
create-unresolved :
    (host_name : List ℕ) (system : System) (table : List ℕ)
    → same_bytes host_name server_name ≡ false
    → system.resolved ≡ none
    → (create host_name system ≡ (some (record { is_server = false; descriptor = some 1 }), []))
      × (table_after (create_and_release (create host_name system)) table ≡ remove 1 table)
unfolding create connect_socket hostname_connect is_valid release close
create-unresolved host_name system table client e = rw (client, e) (refl, refl)
