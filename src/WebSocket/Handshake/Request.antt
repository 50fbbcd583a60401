-- ===== src/WebSocket/Handshake/Request.antt =====
-- The request of the client's constructor, line by line.
use wsclient.Base.{
  some, ℕ, ◌+◌, ◌<◌, ◌≤◌, ◌^◌, ◌≡◌, refl, sym, ap, ap₂, ◌∙◌, Bool, true, false, not, ◌&&◌, List, [],
  ◌∷◌, ◌++◌, arith, length, length-append, map, All, All-append, append_assoc, ◌==◌, ltb,
  if◌then◌else◌, Bool-cases, inl, inr,
}
use wsclient.Base.Text.{codes, line}
use wsclient.Base.Scan.{Integer, print_integer}
use wsclient.Base.Scan.Print.{Passes, print_integer-Passes}
use wsclient.Base.Scan.Lengths.{length-print_integer}
use wsclient.WebSocket.{socket_send}
use wsclient.WebSocket.Connection.Feed.{IsText, is_text, is_text-IsText}
use wsclient.WebSocket.Connection.Opening.{IsLine, lines_text, ends, get_line}
use wsclient.WebSocket.{connecting, Platform}
use wsclient.WebSocket.Client.{
  unconnected, target_of, create_client, request, Target, crlf, is_http_port, fits_int,
  request_texts,
}
use wsclient.WebSocket.Poll.Transmit.{bytes_sent}

-- The request without its line ends.
abbrev pub port_suffix : Integer → List ℕ
port_suffix port = if is_http_port port then [] else codes ":" ++ print_integer port

abbrev pub host_header : Target → List ℕ
host_header t = codes "Host: " ++ (t.host ++ port_suffix t.port)

abbrev pub origin_header : List ℕ → List (List ℕ)
origin_header origin = if length origin == 0 then [] else (codes "Origin: " ++ origin) ∷ []

abbrev pub last_headers : List (List ℕ)
last_headers =
    codes "Sec-WebSocket-Key: x3JJHMbDL1EzLkh9GBhXDw==" ∷ codes "Sec-WebSocket-Version: 13" ∷ []

abbrev pub headers : Target → List ℕ → List (List ℕ)
headers t origin =
    host_header t
    ∷ codes "Upgrade: websocket"
    ∷ codes "Connection: Upgrade"
    ∷ (origin_header origin ++ last_headers)

abbrev pub ended : List ℕ → List ℕ
ended text = text ++ crlf

pub bytes_sent-ended :
    (texts : List (List ℕ)) → bytes_sent (map socket_send (map ended texts)) ≡ lines_text texts
bytes_sent-ended [] = refl
bytes_sent-ended (text ∷ texts) = ap (λ t. ended text ++ t) (bytes_sent-ended texts)

host_line-ended :
    (t : Target)
    → codes "Host: "
        ++ (t.host
            ++ (if is_http_port t.port then crlf else codes ":" ++ (print_integer t.port ++ crlf)))
      ≡ ended (host_header t)
host_line-ended t = elim (Bool-cases (is_http_port t.port)) [
  | inl web ↦ rw web (
      ap (λ r. codes "Host: " ++ r)
        (ap (λ r. t.host ++ r) refl ∙ sym (append_assoc t.host [] crlf)))
  | inr other ↦ rw other (
      ap (λ r. codes "Host: " ++ r)
        (sym (append_assoc t.host (codes ":" ++ print_integer t.port) crlf)))
]

-- The lines before the origin, and the lines after it.
first_lines :
    (t : Target) (tail : List (List ℕ))
    → t.path ≡ []
    → (codes "GET /" ++ (t.path ++ line " HTTP/1.1"))
        ∷ (codes "Host: "
            ++ (t.host
                ++ (if is_http_port t.port
                    then crlf
                    else codes ":" ++ (print_integer t.port ++ crlf))))
        ∷ tail
      ≡ ended get_line ∷ ended (host_header t) ∷ tail
first_lines t tail root =
    ap₂ (λ a b. (codes "GET /" ++ (a ++ line " HTTP/1.1")) ∷ b ∷ tail) root (host_line-ended t)

-- The request for `/`, line by line.
pub request_texts-ended :
    (t : Target) (origin : List ℕ)
    → t.path ≡ []
    → request_texts t origin ≡ map ended (get_line ∷ ends (headers t origin))
unfolding request_texts
request_texts-ended t origin root = elim (Bool-cases (length origin == 0)) [
  | inl empty ↦ rw empty (
      first_lines t
        (map ended (codes "Upgrade: websocket" ∷ codes "Connection: Upgrade" ∷ ends last_headers))
        root)
  | inr given ↦ rw given (
      first_lines t
        (map ended (
          codes "Upgrade: websocket"
          ∷ codes "Connection: Upgrade"
          ∷ (codes "Origin: " ++ origin)
          ∷ ends last_headers))
        root)
]

text_test : ℕ → Bool
text_test x = not (x == 10) && not (x == 0)

Passes-IsText : (xs : List ℕ) → Passes text_test xs → IsText xs
unfolding text_test
Passes-IsText [] h = tt
Passes-IsText (x ∷ xs) h = (ground (arith, h.0), Passes-IsText xs h.1)

abbrev TextByte : ℕ → Type 0
TextByte x = ((x == 10) ≡ false) × ((x == 0) ≡ false)

print_integer-IsText : (i : Integer) → IsText (print_integer i)
unfolding text_test
print_integer-IsText i =
    Passes-IsText (print_integer i) (print_integer-Passes text_test i refl λ x h. ground (arith, h))

port_suffix-IsLine :
    (i : Integer) → fits_int i ≡ true → IsText (port_suffix i) × (length (port_suffix i) ≤ 12)
port_suffix-IsLine i fits =
    let magnitude : i.magnitude < 10 ^ 10 = ground arith in
    elim (Bool-cases (is_http_port i)) [
      | inl web ↦ rw web (tt, omega arith)
      | inr other ↦
          rw other (
            ((refl, refl), print_integer-IsText i),
            omega (arith, length-print_integer i magnitude),
          )
    ]

abbrev pub IsHeader : List ℕ → Type 0
IsHeader text = IsLine text × (0 < length text)

fixed-IsHeader :
    (text : List ℕ)
    → is_text text ≡ true
    → ltb (length text) 253 ≡ true
    → ltb 0 (length text) ≡ true
    → IsHeader text
fixed-IsHeader text e f g = ((is_text-IsText text e, ground arith), ground arith)

host_header-IsHeader :
    (t : Target)
    → IsText t.host
    → length t.host + 1 ≤ 128
    → fits_int t.port ≡ true
    → IsHeader (host_header t)
host_header-IsHeader t h small fits =
    let (suffix, short) = port_suffix-IsLine t.port fits in
    (
      (
        All-append TextByte (codes "Host: ") (t.host ++ port_suffix t.port)
            (is_text-IsText (codes "Host: ") refl)
            (All-append TextByte t.host (port_suffix t.port) h suffix),
        omega (arith, length-append t.host (port_suffix t.port)),
      ),
      omega arith,
    )

pub headers-IsHeader :
    (t : Target) (origin : List ℕ)
    → IsText t.host
    → IsText origin
    → length t.host + 1 ≤ 128
    → length origin < 200
    → fits_int t.port ≡ true
    → All IsHeader (headers t origin)
headers-IsHeader t origin h k hh ho fits =
    let last : All IsHeader last_headers = (
      fixed-IsHeader (codes "Sec-WebSocket-Key: x3JJHMbDL1EzLkh9GBhXDw==") refl refl refl,
      (fixed-IsHeader (codes "Sec-WebSocket-Version: 13") refl refl refl, tt),
    ) in
    (
      host_header-IsHeader t h hh fits,
      (
        fixed-IsHeader (codes "Upgrade: websocket") refl refl refl,
        (
          fixed-IsHeader (codes "Connection: Upgrade") refl refl refl,
          elim (Bool-cases (length origin == 0)) [
            | inl empty ↦ rw empty last
            | inr given ↦ rw given (
              (
                (
                  All-append TextByte (codes "Origin: ") origin
                      (is_text-IsText (codes "Origin: ") refl) k,
                  omega arith,
                ),
                omega arith,
              ),
              last,
            )
          ],
        ),
      ),
    )

-- The constructor, once it is connected.
pub create_client-request :
    (p : Platform) (connect : List ℕ → Integer → Bool) (url origin : List ℕ) (use_mask : Bool)
    (now : ℕ) (t : Target)
    → target_of url origin ≡ some (some t)
    → connect t.host t.port ≡ true
    → create_client p connect url origin use_mask now
      ≡ some (
        record (unconnected p use_mask now) { socket = true; ready_state = connecting },
        request t origin,
      )
unfolding create_client
create_client-request p connect url origin use_mask now t e reached = rw (create_client, e, reached)
