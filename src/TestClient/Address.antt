-- ===== src/TestClient/Address.antt =====
-- The address that the client connects to.
use wsclient.Base.{
  ℕ, ◌<◌, ◌≤◌, ◌≡◌, refl, ap, ◌∙◌, true, false, some, none, List, [], ◌++◌, arith, length,
  length-append, length-take, take, take_all, inl, inr, leb, ltb, lt-cases, if◌then◌else◌, le→leb,
  lt→ltb,
}
use wsclient.Base.Text.{codes}
use wsclient.Base.Scan.{print_integer, decimal, decimal_loop}
use wsclient.Base.Scan.Print.{Passes}
use wsclient.WebSocket.Client.{int_of, is_host, parse_url, target_of}
use wsclient.WebSocket.Client.Url.{parse_url-url_text}
use wsclient.TestClient.{connect_string}

connect_string_whole :
    (host : List ℕ)
    → length host ≤ 501
    → connect_string host ≡ codes "ws://" ++ (host ++ codes ":3009")
unfolding connect_string
connect_string_whole host h =
    take_all 511 (codes "ws://" ++ (host ++ codes ":3009"))
      (omega (arith, length-append host (codes ":3009")))

connect_string_long :
    (host : List ℕ) → 118 ≤ length host → leb 128 (length (connect_string host)) ≡ true
unfolding connect_string
connect_string_long host h =
    let text = codes "ws://" ++ (host ++ codes ":3009") in
    le→leb 128 (length (take 511 text))
      (omega (arith, length-take 511 text, length-append host (codes ":3009")))

parse_connect_string :
    (host : List ℕ)
    → 0 < length host
    → Passes is_host host
    → length host < 118
    → parse_url (connect_string host)
      ≡ some (some (record { host = host; port = int_of 3009; path = [] }))
unfolding print_integer decimal decimal_loop
parse_connect_string host some_host h small =
    ap parse_url (connect_string_whole host (omega arith))
    ∙ parse_url-url_text host (some (int_of 3009)) [] some_host h refl tt

-- For a host that has a byte, and no colon and no slash: what the client asks `WebSocket::create`
-- for is that host at port 3009 without a path, when the host has fewer than 118 bytes; for a
-- longer one there is nothing to connect to.
target_of-connect_string :
    (host : List ℕ)
    → 0 < length host
    → Passes is_host host
    → target_of (connect_string host) [] ≡ (
        if ltb (length host) 118
        then some (some (record { host = host; port = int_of 3009; path = [] }))
        else some none)
unfolding target_of
target_of-connect_string host some_host h = elim (lt-cases (length host) 118) [
  | inl small ↦
      let short : leb 128 (length (connect_string host)) ≡ false = ground (
        arith,
        ap length (connect_string_whole host (omega arith)),
        length-append host (codes ":3009"),
      ) in
      rw (lt→ltb (length host) 118 small, short, parse_connect_string host some_host h small)
  | inr long ↦
      let late : ltb (length host) 118 ≡ false = ground arith in
      rw (late, connect_string_long host long)
]
