-- ===== src/WebSocket/Client/Limits.antt =====
-- The sizes of the constructor's buffers: `host[128]`, `path[128]` and `line[256]`.
use wsclient.Base.{
  bind_rule, ℕ, ◌+◌, ◌<◌, ◌≤◌, ◌^◌, ◌≡◌, refl, subst, ap₂, Bool, true, Option, some, none, List, [],
  ◌∷◌, ◌++◌, arith, length, length-append, take_all, ◌>>=◌, map, All, ◌==◌, if◌then◌else◌,
  Option-cases, Bool-cases, inl, inr,
}
use wsclient.Base.Text.{codes, line, skip_literal}
use wsclient.Base.Scan.{Integer, scan_set, scan_word, scan_integer, print_integer}
use wsclient.Base.Scan.Lengths.{
  Within, Leaves, scan_set-Within, scan_word-Within, scan_integer-Leaves, length-skip_literal,
  length-print_integer,
}
use wsclient.WebSocket.{socket_send}
use wsclient.WebSocket.Client.{
  Target, is_host, scan_host_port_path, scan_host_path, scan_host_port, scan_host, match_url,
  parse_url, target_of, fits_int, format_line, request_texts, request, is_http_port, crlf,
}

-- What is stored is no longer than the URL.
abbrev Short : ℕ → Option Target → Type 0
Short n none = Unit {0}
Short n (some t) = (length t.host ≤ n) × (length t.path ≤ n)

-- One rule for each kind of conversion.
module _ (n m : ℕ) where
  literal_rule :
      (text xs : List ℕ) (g : List ℕ → Option Target)
      → length xs ≤ m
      → ((rest : List ℕ) → length rest ≤ m → Short n (g rest))
      → Short n (skip_literal text xs >>= g)
  literal_rule text xs g h step =
      bind_rule (Short n) (skip_literal text xs) g tt
        λ r e. step r (omega (arith, length-skip_literal text xs r e))

  set_rule :
      (p : ℕ → Bool) (xs : List ℕ) (g : List ℕ × List ℕ → Option Target)
      → length xs ≤ m
      → ((front rest : List ℕ) → length front ≤ m → length rest ≤ m → Short n (g (front, rest)))
      → Short n (scan_set p xs >>= g)
  set_rule p xs g h step = bind_rule (Short n) (scan_set p xs) g tt λ r e.
      let within : length (r.0) + length (r.1) ≤ length xs =
        subst (Within (length xs)) e (scan_set-Within p xs) in
      step (r.0) (r.1) (omega arith) (omega arith)

  word_rule :
      (xs : List ℕ) (g : List ℕ × List ℕ → Option Target)
      → length xs ≤ m
      → ((front rest : List ℕ) → length front ≤ m → length rest ≤ m → Short n (g (front, rest)))
      → Short n (scan_word xs >>= g)
  word_rule xs g h step = bind_rule (Short n) (scan_word xs) g tt λ r e.
      let within : length (r.0) + length (r.1) ≤ length xs =
        subst (Within (length xs)) e (scan_word-Within xs) in
      step (r.0) (r.1) (omega arith) (omega arith)

  integer_rule :
      (xs : List ℕ) (g : Integer × List ℕ → Option Target)
      → length xs ≤ m
      → ((i : Integer) (rest : List ℕ) → length rest ≤ m → Short n (g (i, rest)))
      → Short n (scan_integer xs >>= g)
  integer_rule xs g h step = bind_rule (Short n) (scan_integer xs) g tt λ r e.
      let leaves : length (r.1) ≤ length xs =
        subst (Leaves (length xs)) e (scan_integer-Leaves xs) in
      step (r.0) (r.1) (omega arith)

module _ (url : List ℕ) where
  scan_host_port_path-Short : Short (length url) (scan_host_port_path url)
  unfolding scan_host_port_path
  scan_host_port_path-Short =
      let n = length url in
      literal_rule n n (codes "ws://") url _ (omega arith) λ r0 h0.
        set_rule n n is_host r0 _ h0 λ host r1 hh h1. literal_rule n n (codes ":") r1 _ h1 λ r2 h2.
          integer_rule n n r2 _ h2 λ port r3 h3.
            literal_rule n n (codes "/") r3 _ h3
              λ r4 h4. word_rule n n r4 _ h4 λ path r5 hp h5. (hh, hp)

  scan_host_path-Short : Short (length url) (scan_host_path url)
  unfolding scan_host_path
  scan_host_path-Short =
      let n = length url in
      literal_rule n n (codes "ws://") url _ (omega arith) λ r0 h0.
        set_rule n n is_host r0 _ h0 λ host r1 hh h1.
          literal_rule n n (codes "/") r1 _ h1
            λ r2 h2. word_rule n n r2 _ h2 λ path r3 hp h3. (hh, hp)

  scan_host_port-Short : Short (length url) (scan_host_port url)
  unfolding scan_host_port
  scan_host_port-Short =
      let n = length url in
      literal_rule n n (codes "ws://") url _ (omega arith) λ r0 h0.
        set_rule n n is_host r0 _ h0 λ host r1 hh h1.
          literal_rule n n (codes ":") r1 _ h1
            λ r2 h2. integer_rule n n r2 _ h2 λ port r3 h3. (hh, omega arith)

  scan_host-Short : Short (length url) (scan_host url)
  unfolding scan_host
  scan_host-Short =
      let n = length url in
      literal_rule n n (codes "ws://") url _ (omega arith)
        λ r0 h0. set_rule n n is_host r0 _ h0 λ host r1 hh h1. (hh, omega arith)

  match_url-Short : Short (length url) (match_url url)
  unfolding match_url
  match_url-Short = elim (Option-cases (scan_host_port_path url)) [
    | inr (t, e) ↦ rw e (subst (Short (length url)) e scan_host_port_path-Short)
    | inl e ↦ rw e (elim (Option-cases (scan_host_path url)) [
      | inr (t, e) ↦ rw e (subst (Short (length url)) e scan_host_path-Short)
      | inl e ↦ rw e (elim (Option-cases (scan_host_port url)) [
        | inr (t, e) ↦ rw e (subst (Short (length url)) e scan_host_port-Short)
        | inl e ↦ rw e scan_host-Short
      ])
    ])
  ]

-- What the chain of patterns stored was matched, and the port is one that an `int` holds.
parse_url_inverse :
    (url : List ℕ) (t : Target)
    → parse_url url ≡ some (some t)
    → (match_url url ≡ some t) × (fits_int t.port ≡ true)
unfolding parse_url
parse_url_inverse url t e = ground arith

target_of_inverse :
    (url origin : List ℕ) (t : Target)
    → target_of url origin ≡ some (some t)
    → (length url < 128) × (length origin < 200) × (parse_url url ≡ some (some t))
unfolding target_of
target_of_inverse url origin t e = ground arith

-- Whatever the URL and the origin: a host and a path that the constructor goes on with leave room
-- for their zeros in the 128 bytes of `host` and of `path`.
pub target_of-fits :
    (url origin : List ℕ) (t : Target)
    → target_of url origin ≡ some (some t)
    → (length t.host + 1 ≤ 128) × (length t.path + 1 ≤ 128) × (length origin < 200)
target_of-fits url origin t e =
    let (short, small, parsed) = target_of_inverse url origin t e in
    let (matched, _) = parse_url_inverse url t parsed in
    let within : Short (length url) (some t) =
      subst (Short (length url)) matched (match_url-Short url) in
    (omega (arith, within.0), omega (arith, within.1), small)

pub target_of-fits_int :
    (url origin : List ℕ) (t : Target)
    → target_of url origin ≡ some (some t)
    → fits_int t.port ≡ true
target_of-fits_int url origin t e =
    let (_, _, parsed) = target_of_inverse url origin t e in (parse_url_inverse url t parsed).1

abbrev FitsLine : List ℕ → Type 0
FitsLine text = length text ≤ 255

host_line-FitsLine :
    (t : Target)
    → length t.host + 1 ≤ 128
    → fits_int t.port ≡ true
    → FitsLine (
        codes "Host: "
        ++ (t.host
            ++ (if is_http_port t.port then crlf else codes ":" ++ (print_integer t.port ++ crlf))))
host_line-FitsLine t h fits =
    let tail = if is_http_port t.port then crlf else codes ":" ++ (print_integer t.port ++ crlf) in
    let magnitude : t.port.magnitude < 10 ^ 10 = ground arith in
    let digits = length-print_integer t.port magnitude in
    let short : length tail ≤ 14 = elim (Bool-cases (is_http_port t.port)) [
      | inl web ↦ rw web (omega arith)
      | inr other ↦ rw other (omega (arith, length-append (print_integer t.port) crlf))
    ] in
    omega (arith, length-append t.host tail)

request_texts-FitsLine :
    (t : Target) (origin : List ℕ)
    → length t.host + 1 ≤ 128
    → length t.path + 1 ≤ 128
    → length origin < 200
    → fits_int t.port ≡ true
    → All FitsLine (request_texts t origin)
unfolding request_texts
request_texts-FitsLine t origin hh hp ho fits = (
  omega (arith, length-append t.path (line " HTTP/1.1")),
  (
    host_line-FitsLine t hh fits,
    (
      omega arith,
      (
        omega arith,
        elim (Bool-cases (length origin == 0)) [
          | inl empty ↦ rw empty (omega arith)
          | inr given ↦ rw given (omega (arith, length-append origin crlf), omega arith)
        ],
      ),
    ),
  ),
)

format_lines :
    (texts : List (List ℕ))
    → All FitsLine texts
    → map (λ text. socket_send (format_line text)) texts ≡ map socket_send texts
unfolding format_line
format_lines [] h = refl
format_lines (text ∷ texts) h =
    ap₂ (λ a b. socket_send a ∷ b) (take_all 255 text h.0) (format_lines texts h.1)

-- Whatever the URL and the origin that the constructor goes on with (the port is then one that an
-- `int` holds): no line of the request is cut by the 256 bytes of `line`.
pub request-whole :
    (url origin : List ℕ) (t : Target)
    → target_of url origin ≡ some (some t)
    → request t origin ≡ map socket_send (request_texts t origin)
unfolding request
request-whole url origin t e =
    let (hh, hp, ho) = target_of-fits url origin t e in
    format_lines (request_texts t origin)
      (request_texts-FitsLine t origin hh hp ho (target_of-fits_int url origin t e))
