-- ===== src/SharedSocket/Accept.antt =====
-- How a server finds its client, in ext/easywsclient/socketsharedmemory.cpp.
use wsclient.Base.{
  ℕ, zero, suc, ◌<◌, ◌≡◌, refl, ap, ◌∙◌, Bool, true, false, List, [], ◌∷◌, ◌++◌, map, replicate,
  arith, lt→ltb,
}
use wsclient.Base.Word.{u32}
use wsclient.Spsc.{init, header_size, increment_sequence_number, get_sequence_number}
use wsclient.SharedSocket.{SharedSocket, Files, open_files, poll_server}

-- The server as it is before any client, and the files behind both constructors.
abbrev pub server_of : Files → SharedSocket
server_of f = (open_files true f).0

abbrev pub opened_by_both : Files → Files
opened_by_both f = (open_files false (open_files true f).1).1

-- What `pollServer` says, call after call, when the files are as given at each.
abbrev pub polls : SharedSocket → List Files → List Bool
polls k [] = []
polls k (f ∷ files) = let (found, k') = poll_server k f in found ∷ polls k' files

-- No client, and nothing changes.
polls_waiting :
    (k : SharedSocket) (f : Files) (n : ℕ) (files : List Files)
    → poll_server k f ≡ (false, k)
    → polls k (replicate n f ++ files) ≡ replicate n false ++ polls k files
polls_waiting k f zero files e = refl
polls_waiting k f (suc n) files e = rw e (ap (λ t. false ∷ t) (polls_waiting k f n files e))

-- A server that has found its client.
polls_settled :
    (k : SharedSocket) (files : List Files)
    → k.first ≡ false
    → polls k files ≡ map (λ f. false) files
unfolding poll_server
polls_settled k [] e = refl
polls_settled k (f ∷ files) e =
    let settled : poll_server k f ≡ (false, k) = ground (arith, e) in
    rw settled (ap (λ t. false ∷ t) (polls_settled k files e))

server_of-waits :
    (f : Files)
    → header_size < u32 f.server_size
    → header_size < u32 f.client_size
    → poll_server (server_of f) ((open_files true f).1) ≡ (false, server_of f)
unfolding poll_server open_files init get_sequence_number
server_of-waits f hs hc =
    let s = lt→ltb header_size (u32 f.server_size) hs in
    let c = lt→ltb header_size (u32 f.client_size) hc in ground arith

server_of-finds :
    (f : Files)
    → header_size < u32 f.server_size
    → header_size < u32 f.client_size
    → (k : SharedSocket) × (poll_server (server_of f) (opened_by_both f) ≡ (true, k))
      × (k.first ≡ false)
unfolding poll_server open_files init increment_sequence_number get_sequence_number
server_of-finds f hs hc =
    let s = lt→ltb header_size (u32 f.server_size) hs in
    let c = lt→ltb header_size (u32 f.client_size) hc in
    ((poll_server (server_of f) (opened_by_both f)).1, ground arith, ground arith)

-- When the sizes of both files, cut to 32 bits, are larger than the header of a ring: a server that
-- starts on any two files finds no client, however often it polls before there is one; once a
-- client has opened the files, the next `pollServer` returns the socket; and of all that follow,
-- none does, whatever the files hold at each.
pub poll_server-accepts :
    (f : Files) (waits : ℕ) (later : List Files)
    → header_size < u32 f.server_size
    → header_size < u32 f.client_size
    → polls (server_of f) (replicate waits ((open_files true f).1) ++ (opened_by_both f ∷ later))
      ≡ replicate waits false ++ (true ∷ map (λ g. false) later)
poll_server-accepts f waits later hs hc =
    let (k, found, settled) = server_of-finds f hs hc in
    polls_waiting (server_of f) ((open_files true f).1) waits (opened_by_both f ∷ later)
      (server_of-waits f hs hc)
    ∙ ap (λ t. replicate waits false ++ t)
        (ap (λ r. r.0 ∷ polls (r.1) later) found
          ∙ ap (λ t. true ∷ t) (polls_settled k later settled))
