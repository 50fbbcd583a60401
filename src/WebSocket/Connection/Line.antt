-- ===== src/WebSocket/Connection/Line.antt =====
-- A whole line of the handshake, byte by byte.
use wsclient.Base.{
  ℕ, zero, suc, ◌+◌, ◌-◌, ◌≤◌, ◌<◌, ◌≡◌, refl, sym, ap, ap₂, ◌∙◌, true, false, some, List, [], ◌∷◌,
  ◌++◌, arith, length, length-append, drop, get_elem?, ltb, leb, ◌==◌, if◌then◌else◌, Block, write,
  write_at, write_at_lem, length-write, write-append, write_nil, append_assoc, append-nil,
  length-drop, All, lt→leb,
}
use wsclient.Base.Word.{add32}
use wsclient.WebSocket.{WebSocket, Event, socket_release}
use wsclient.WebSocket.Connection.{
  connection_time_out, on_line, Step, drop_socket, read_before, write_before, string_in, end_line,
  take_line, take_byte, process_connection,
}
use wsclient.WebSocket.Connection.Bounds.{after_line, take_line_run, stored_byte, take_byte_run}
use wsclient.WebSocket.Connection.Feed.{feed, IsWaiting, IsText, feed-append}

string_in-text : (xs ys : List ℕ) → IsText xs → string_in (xs ++ (0 ∷ ys)) ≡ some xs
unfolding string_in
string_in-text [] ys h = refl
string_in-text (x ∷ xs) ys h = rw (h.0.1, string_in-text xs ys h.1) refl

get_elem?-append : (xs ys : List ℕ) (y : ℕ) → get_elem? (xs ++ (y ∷ ys)) (length xs) ≡ some y
get_elem?-append [] ys y = refl
get_elem?-append (x ∷ xs) ys y = get_elem?-append xs ys y

write-write :
    (m : Block) (i j : ℕ) (x : ℕ) (xs : List ℕ)
    → j ≡ i + 1
    → write (write m i (x ∷ [])) j xs ≡ write m i (x ∷ xs)
write-write [] i j x xs e = refl
write-write (y ∷ m) zero zero x xs e = absurd (omega arith)
write-write (y ∷ m) zero (suc zero) x xs e = ap (λ t. x ∷ write t 0 xs) (write_nil m 0)
write-write (y ∷ m) zero (suc (suc j)) x xs e = absurd (omega arith)
write-write (y ∷ m) (suc i) zero x xs e = absurd (omega arith)
write-write (y ∷ m) (suc i) (suc j) x xs e = ap (λ t. y ∷ t) (write-write m i j x xs (omega arith))

write_front_drop :
    (m : Block) (xs : List ℕ) → length xs ≤ length m → write m 0 xs ≡ xs ++ drop (length xs) m
write_front_drop m [] h = write_nil m 0
write_front_drop [] (x ∷ xs) h = absurd (omega arith)
write_front_drop (y ∷ m) (x ∷ xs) h = ap (λ t. x ∷ t) (write_front_drop m xs (omega arith))

process_connection-waiting :
    (w : WebSocket) (now b : ℕ)
    → IsWaiting w now
    → process_connection w now (some b) ≡ take_byte w b now
unfolding process_connection
process_connection-waiting w now b v =
    let soon : leb connection_time_out (now - w.connection_timer) ≡ false = lt→leb _ _ v.in_time in
    simp (v.connected, soon)

-- Text that was stored in the line buffer.
abbrev stored : WebSocket → Block → ℕ → WebSocket
stored w buffer i = record w { connection_buffer = buffer; connection_index = i }

process_connection-char :
    (w : WebSocket) (now b : ℕ)
    → IsWaiting w now
    → w.connection_index + 1 < 255
    → (b == 10) ≡ false
    → process_connection w now (some b)
      ≡ some (
        stored w (write w.connection_buffer w.connection_index (b ∷ [])) (w.connection_index + 1),
        [],
      )
process_connection-char w now b v h char =
    let next : add32 w.connection_index 1 ≡ w.connection_index + 1 = omega arith in
    let more : (w.connection_index + 1 == 255) ≡ false = ground arith in
    process_connection-waiting w now b v
    ∙ take_byte_run w b now (omega (arith, v.stored))
    ∙ rw (char, next, more)

feed_text :
    (w : WebSocket) (now : ℕ) (xs : List ℕ)
    → IsWaiting w now
    → All (λ x. (x == 10) ≡ false) xs
    → w.connection_index + length xs < 255
    → feed w now xs
      ≡ some (
        stored w (write w.connection_buffer w.connection_index xs) (w.connection_index + length xs),
        [],
      )
unfolding feed
feed_text w now [] v h k =
    ap₂ (λ m i. some (stored w m i, [])) (sym (write_nil w.connection_buffer w.connection_index))
      (omega arith)
feed_text w now (x ∷ xs) v h k =
    let i = w.connection_index in
    let w1 = stored w (write w.connection_buffer i (x ∷ [])) (i + 1) in
    let v1 : IsWaiting w1 now = record {
      connected = v.connected;
      in_time = v.in_time;
      stored = length-write w.connection_buffer i (x ∷ []) ∙ v.stored;
    } in
    rw
      (
        process_connection-char w now x v (omega arith) h.0,
        feed_text w1 now xs v1 h.1 (omega arith),
      )
      (ap₂ (λ m j. some (stored w m j, [])) (write-write w.connection_buffer i (i + 1) x xs refl)
        (omega arith))

-- The end of a line, with a carriage return in front of the line feed.
end_line_text :
    (text rest : List ℕ) (i : ℕ)
    → i ≡ suc (length text)
    → 0 < length rest
    → end_line ((text ++ (13 ∷ [])) ++ rest) i ≡ some (text ++ (0 ∷ write rest 0 (0 ∷ [])))
unfolding end_line read_before write_before
end_line_text text rest i e some_rest =
    let n = length text in
    let cut_rest = write rest 0 (0 ∷ []) in
    let size : length (text ++ (13 ∷ [])) ≡ suc n = omega (arith, length-append text (13 ∷ [])) in
    let cut : write_at ((text ++ (13 ∷ [])) ++ rest) (suc n) (0 ∷ [])
        ≡ some (text ++ (13 ∷ cut_rest)) =
      write_at_lem ((text ++ (13 ∷ [])) ++ rest) (suc n) (0 ∷ [])
        (omega (arith, length-append (text ++ (13 ∷ [])) rest))
      ∙ ap some (
          write-append (text ++ (13 ∷ [])) rest (suc n) (0 ∷ []) (sym size)
          ∙ append_assoc text (13 ∷ []) cut_rest) in
    let later : ltb 0 (suc n) ≡ true = ground arith in
    rw (e, cut, later, get_elem?-append text cut_rest 13)
      (write_at_lem (text ++ (13 ∷ cut_rest)) n (0 ∷ [])
          (omega (arith, length-append text (13 ∷ cut_rest)))
        ∙ ap some (
            write-append text (13 ∷ cut_rest) n (0 ∷ []) refl
            ∙ ap (λ t. text ++ (0 ∷ t)) (write_nil cut_rest 0)))

-- What a line leads to.
abbrev pub taken : WebSocket → ℕ → Block → Step → WebSocket × List Event
taken w now buffer step =
    if step.ok
    then (after_line w now buffer step, step.events)
    else (drop_socket (after_line w now buffer step), socket_release ∷ [])

take_line_text :
    (w : WebSocket) (now : ℕ) (text rest : List ℕ)
    → IsText text
    → 0 < length rest
    → w.connection_buffer ≡ (text ++ (13 ∷ [])) ++ rest
    → w.connection_index ≡ length text + 1
    → let buffer = text ++ (0 ∷ write rest 0 (0 ∷ [])) in
      take_line w now
      ≡ some (taken w now buffer (on_line w.is_server_client w.ready_state w.connection_phase text))
take_line_text w now text rest h some_rest e i =
    let buffer = text ++ (0 ∷ write rest 0 (0 ∷ [])) in
    take_line_run w now (on_line w.is_server_client w.ready_state w.connection_phase text)
      (ap (λ m. end_line m w.connection_index) e
        ∙ end_line_text text rest w.connection_index (omega arith) some_rest)
      (string_in-text text (write rest 0 (0 ∷ [])) h) refl

cr-IsChars : (text : List ℕ) → IsText text → All (λ x. (x == 10) ≡ false) (text ++ (13 ∷ []))
cr-IsChars [] h = (refl, tt)
cr-IsChars (x ∷ text) h = (h.0.0, cr-IsChars text h.1)

feed_one :
    (w : WebSocket) (now b : ℕ) {r : WebSocket × List Event}
    → process_connection w now (some b) ≡ some r
    → feed w now (b ∷ []) ≡ some r
unfolding feed
feed_one w now b {r} e = rw (e, append-nil (r.1))

-- The line feed behind text that stands at the front of the line buffer.
feed_end :
    (w : WebSocket) (now : ℕ) (text rest : List ℕ)
    → IsWaiting w now
    → IsText text
    → 0 < length rest
    → w.connection_buffer ≡ (text ++ (13 ∷ [])) ++ rest
    → w.connection_index ≡ length text + 1
    → length text < 253
    → let buffer = text ++ (0 ∷ write (write rest 0 (10 ∷ [])) 0 (0 ∷ [])) in
      feed w now (10 ∷ [])
      ≡ some (taken w now buffer (on_line w.is_server_client w.ready_state w.connection_phase text))
feed_end w now text rest v h some_rest e i small =
    let rest' = write rest 0 (10 ∷ []) in
    feed_one w now 10 (
      process_connection-waiting w now 10 v
      ∙ take_byte_run w 10 now (omega (arith, v.stored))
      ∙ take_line_text (stored_byte w 10) now text rest' h
          (omega (arith, length-write rest 0 (10 ∷ [])))
          (ap (λ m. write m w.connection_index (10 ∷ [])) e
            ∙ write-append (text ++ (13 ∷ [])) rest w.connection_index (10 ∷ [])
                (omega (arith, length-append text (13 ∷ []))))
          i)

-- A line of text with its line end, from the front of the line buffer on: the handshake takes the
-- step of that line, and the line buffer keeps its size.
pub feed_line :
    (w : WebSocket) (now : ℕ) (text : List ℕ)
    → IsWaiting w now
    → w.connection_index ≡ 0
    → IsText text
    → length text < 253
    → (buffer : Block) × (feed w now (text ++ (13 ∷ 10 ∷ []))
        ≡ some
            (taken w now buffer (on_line w.is_server_client w.ready_state w.connection_phase text)))
      × (length buffer ≡ 256)
feed_line w now text v start h small =
    let front = text ++ (13 ∷ []) in
    let size : length front ≡ length text + 1 = length-append text (13 ∷ []) in
    let rest = drop (length front) w.connection_buffer in
    let some_rest : length rest ≡ 256 - length front =
      length-drop (length front) w.connection_buffer ∙ ap (λ t. t - length front) v.stored in
    let w1 =
      stored w (write w.connection_buffer w.connection_index front)
        (w.connection_index + length front) in
    let v1 : IsWaiting w1 now = record {
      connected = v.connected;
      in_time = v.in_time;
      stored = length-write w.connection_buffer w.connection_index front ∙ v.stored;
    } in
    let content : w1.connection_buffer ≡ front ++ rest =
      ap (λ i. write w.connection_buffer i front) start
      ∙ write_front_drop w.connection_buffer front (omega (arith, v.stored)) in
    let buffer = text ++ (0 ∷ write (write rest 0 (10 ∷ [])) 0 (0 ∷ [])) in
    let step = on_line w.is_server_client w.ready_state w.connection_phase text in
    (
      buffer,
      ap (feed w now) (sym (append_assoc text (13 ∷ []) (10 ∷ [])))
          ∙ feed-append w now front (10 ∷ []) {events' = (taken w now buffer step).1}
              (feed_text w now front v (cr-IsChars text h) (omega arith))
              (feed_end w1 now text rest v1 h (omega arith) content (omega arith) small),
      omega (
        arith,
        length-append text (0 ∷ write (write rest 0 (10 ∷ [])) 0 (0 ∷ [])),
        length-write (write rest 0 (10 ∷ [])) 0 (0 ∷ []),
        length-write rest 0 (10 ∷ []),
      ),
    )
