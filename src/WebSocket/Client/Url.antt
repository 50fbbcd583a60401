-- ===== src/WebSocket/Client/Url.antt =====
-- The URLs that a client takes apart.
use wsclient.Base.{
  ℕ, ◌<◌, ◌≡◌, refl, sym, ap, ◌∙◌, true, Option, some, none, List, [], ◌∷◌, ◌++◌, arith, length,
  append-nil,
}
use wsclient.Base.Text.{codes, skip_literal}
use wsclient.Base.Scan.{Integer, scan_set, scan_word, print_integer, is_graph}
use wsclient.Base.Scan.Print.{
  Passes, Stops, scan_set-append, scan_word-append, scan_integer-print_integer,
}
use wsclient.WebSocket.Client.{
  Target, is_host, http_port, scan_host_port_path, scan_host_path, scan_host_port, scan_host,
  match_url, parse_url, fits_int,
}

-- The text of a URL: a port and a path may be there or not.
abbrev pub port_text : Option Integer → List ℕ
port_text none = []
port_text (some port) = 58 ∷ print_integer port

abbrev pub path_text : List ℕ → List ℕ
path_text [] = []
path_text (x ∷ path) = 47 ∷ x ∷ path

abbrev pub url_text : List ℕ → Option Integer → List ℕ → List ℕ
url_text host port path = codes "ws://" ++ (host ++ (port_text port ++ path_text path))

abbrev pub port_or_80 : Option Integer → Integer
port_or_80 none = http_port
port_or_80 (some port) = port

module _ (host : List ℕ) (some_host : 0 < length host) (h : Passes is_host host) where
  host_part :
      (tail : List ℕ) → Stops is_host tail → scan_set is_host (host ++ tail) ≡ some (host, tail)
  host_part tail stops = scan_set-append is_host host tail some_host h stops

  -- The path behind a slash, and the port behind a colon.
  module _ (x : ℕ) (path : List ℕ) (k : Passes is_graph (x ∷ path)) where
    word_part : scan_word (x ∷ path) ≡ some (x ∷ path, [])
    word_part =
        ap scan_word (sym (append-nil (x ∷ path)))
        ∙ scan_word-append (x ∷ path) [] (omega arith) k tt

    parse_path :
        match_url (url_text host none (x ∷ path))
        ≡ some (record { host = host; port = http_port; path = x ∷ path })
    unfolding match_url scan_host_port_path scan_host_path skip_literal
    parse_path = rw (host_part (47 ∷ x ∷ path) refl, word_part)

    parse_port_path :
        (port : Integer)
        → match_url (url_text host (some port) (x ∷ path))
          ≡ some (record { host = host; port = port; path = x ∷ path })
    unfolding match_url scan_host_port_path skip_literal
    parse_port_path port = rw (
      host_part (58 ∷ (print_integer port ++ (47 ∷ x ∷ path))) refl,
      scan_integer-print_integer port (47 ∷ x ∷ path) refl,
      word_part,
    )

  parse_host :
      match_url (url_text host none []) ≡ some (record { host = host; port = http_port; path = [] })
  unfolding match_url scan_host_port_path scan_host_path scan_host_port scan_host skip_literal
  parse_host = rw (host_part [] tt)

  parse_port :
      (port : Integer)
      → match_url (url_text host (some port) [])
        ≡ some (record { host = host; port = port; path = [] })
  unfolding match_url scan_host_port_path scan_host_path scan_host_port skip_literal
  parse_port port =
      rw (host_part (58 ∷ (print_integer port ++ [])) refl, scan_integer-print_integer port [] tt)

parse_url-match :
    (url : List ℕ) (t : Target)
    → match_url url ≡ some t
    → fits_int t.port ≡ true
    → parse_url url ≡ some (some t)
unfolding parse_url
parse_url-match url t e fits = rw (parse_url, e, fits)

match_url-url_text :
    (host : List ℕ) (port : Option Integer) (path : List ℕ)
    → 0 < length host
    → Passes is_host host
    → Passes is_graph path
    → match_url (url_text host port path)
      ≡ some (record { host = host; port = port_or_80 port; path = path })
match_url-url_text host none [] some_host h k = parse_host host some_host h
match_url-url_text host none (x ∷ path) some_host h k = parse_path host some_host h x path k
match_url-url_text host (some port) [] some_host h k = parse_port host some_host h port
match_url-url_text host (some port) (x ∷ path) some_host h k =
    parse_port_path host some_host h x path k port

pub parse_url-url_text :
    (host : List ℕ) (port : Option Integer) (path : List ℕ)
    → 0 < length host
    → Passes is_host host
    → fits_int (port_or_80 port) ≡ true
    → Passes is_graph path
    → parse_url (url_text host port path)
      ≡ some (some (record { host = host; port = port_or_80 port; path = path }))
parse_url-url_text host port path some_host h fits k =
    parse_url-match (url_text host port path) _ (match_url-url_text host port path some_host h k)
      fits
