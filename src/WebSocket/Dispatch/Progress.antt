-- ===== src/WebSocket/Dispatch/Progress.antt =====
-- The loop of `_dispatchBinary` on any bytes: every frame that it takes makes the content shorter by
-- the frame's size.
use wsclient.Base.{
  ℕ, ◌≡◌, sym, subst, ◌∙◌, true, false, Option, some, none, List, [], length, ◌==◌, ltb,
  if◌then◌else◌, ◌>>=◌, Bool-cases, Option-cases, inl, inr,
}
use wsclient.SimpleBuffer.{SimpleBuffer, get_data}
use wsclient.Frame.{Header, parse_header, frame_size, ping, pong}
use wsclient.WebSocket.{WebSocket, Platform, Event}
use wsclient.WebSocket.Send.{send_data, close}
use wsclient.WebSocket.Dispatch.{
  Turn, again, stop, unmask, payload, deliver, consume_frame, data_frame, ping_frame, is_data,
  handle_frame, dispatch_round,
}
use wsclient.WebSocket.Dispatch.Place.{
  InOrder, SamePlace, stay, unmask-Stays, send_data-Stays, deliver-StaysWith, Shorter,
  consume_frame-Consumed,
}

-- What a round leaves if the loop goes on.
abbrev GoesOn : SimpleBuffer → ℕ → Option (Turn × WebSocket × List Event) → Type 0
GoesOn b n none = Unit {0}
GoesOn b n (some (stop, w', events)) = Unit {0}
GoesOn b n (some (again, w', events)) = Shorter b n w'.receive_buffer

trans_place : {b b' b'' : SimpleBuffer} → SamePlace b b' → SamePlace b' b'' → SamePlace b b''
trans_place x y = record { start = y.start ∙ x.start; end = y.end ∙ x.end }

module _ (p : Platform) (w : WebSocket) (header : Header) (o : InOrder w.receive_buffer) where
  data_frame-GoesOn : GoesOn w.receive_buffer (frame_size header) (data_frame p w header)
  unfolding data_frame
  data_frame-GoesOn =
      let b = w.receive_buffer in
      let unmasked = unmask-Stays p w header in
      elim (Option-cases (unmask p w header)) [
        | inl e ↦ rw e tt
        | inr (w1, e) ↦
            let same1 : SamePlace b w1.receive_buffer = rw e at unmasked in
            rw e (elim (Option-cases (payload w1 header)) [
              | inl f ↦ rw f tt
              | inr (bytes, f) ↦
                  let delivered = deliver-StaysWith p w1 header bytes in
                  rw f (elim (Option-cases (deliver p w1 header bytes)) [
                    | inl g ↦ rw g tt
                    | inr ((w2, events), g) ↦
                        let same2 : SamePlace w1.receive_buffer w2.receive_buffer =
                          rw g at delivered in
                        let last = consume_frame-Consumed b w2 header o (trans_place same1 same2) in
                        rw g (elim (Option-cases (consume_frame w2 header)) [
                          | inl h ↦ rw h tt
                          | inr (w3, h) ↦ rw h (rw h at last)
                        ])
                  ])
            ])
      ]

  -- What `ping_frame` answers with: nothing, or the payload.
  abbrev answer : WebSocket → Option (Option (List ℕ))
  answer w1 = if header.n == 0 then some none else (do bytes ← payload w1 header; some (some bytes))

  ping_frame-GoesOn :
      (seed : ℕ) → GoesOn w.receive_buffer (frame_size header) (ping_frame p w header seed)
  unfolding ping_frame
  ping_frame-GoesOn seed =
      let b = w.receive_buffer in
      let unmasked = unmask-Stays p w header in
      elim (Option-cases (unmask p w header)) [
        | inl e ↦ rw e tt
        | inr (w1, e) ↦
            let same1 : SamePlace b w1.receive_buffer = rw e at unmasked in
            rw e (elim (Option-cases (answer w1)) [
              | inl f ↦ rw f tt
              | inr (message, f) ↦
                  let answered = send_data-Stays p w1 pong message header.n seed in
                  rw f (elim (Option-cases (send_data p w1 pong message header.n seed)) [
                    | inl g ↦ rw g tt
                    | inr (w2, g) ↦
                        let same2 : SamePlace w1.receive_buffer w2.receive_buffer =
                          rw g at answered in
                        let last = consume_frame-Consumed b w2 header o (trans_place same1 same2) in
                        rw g (elim (Option-cases (consume_frame w2 header)) [
                          | inl h ↦ rw h tt
                          | inr (w3, h) ↦ rw h (rw h at last)
                        ])
                  ])
            ])
      ]

  handle_frame-GoesOn :
      (seed : ℕ) → GoesOn w.receive_buffer (frame_size header) (handle_frame p w header seed)
  unfolding handle_frame
  handle_frame-GoesOn seed =
      let b = w.receive_buffer in
      elim (Bool-cases (is_data header.opcode)) [
        | inl data_opcode ↦ rw data_opcode data_frame-GoesOn
        | inr control ↦ rw control (elim (Bool-cases (header.opcode == ping)) [
          | inl is_ping ↦ rw is_ping (ping_frame-GoesOn seed)
          | inr other ↦ rw other (elim (Bool-cases (header.opcode == pong)) [
            | inl is_pong ↦
                let last = consume_frame-Consumed b w header o (stay b) in
                rw is_pong (elim (Option-cases (consume_frame w header)) [
                  | inl h ↦ rw h tt
                  | inr (w3, h) ↦ rw h (rw h at last)
                ])
            | inr closes ↦
                rw closes
                  (elim (Option-cases (close p w)) [ inl h ↦ rw h tt | inr (w1, h) ↦ rw h tt ])
          ])
        ])
      ]

-- A round that goes on has found a header, and has taken as many bytes as its frame has.
abbrev pub Took : WebSocket → Option (Turn × WebSocket × List Event) → Type 0
Took w none = Unit {0}
Took w (some (stop, w', events)) = Unit {0}
Took w (some (again, w', events)) =
    (header : Header) × (parse_header (get_data w.receive_buffer) ≡ some header)
    × Shorter w.receive_buffer (frame_size header) w'.receive_buffer

GoesOn-Took :
    (w : WebSocket) (header : Header) (result : Option (Turn × WebSocket × List Event))
    → parse_header (get_data w.receive_buffer) ≡ some header
    → GoesOn w.receive_buffer (frame_size header) result
    → Took w result
GoesOn-Took w header none e h = tt
GoesOn-Took w header (some (stop, w', events)) e h = tt
GoesOn-Took w header (some (again, w', events)) e h = (header, e, h)

pub dispatch_round-Took :
    (p : Platform) (w : WebSocket) (seed : ℕ)
    → InOrder w.receive_buffer
    → Took w (dispatch_round p w seed)
dispatch_round-Took p w seed o = elim (Option-cases (parse_header (get_data w.receive_buffer))) [
  | inl e ↦ subst (Took w) (sym (no_header e)) tt
  | inr (header, e) ↦
      elim (Bool-cases (ltb (length (get_data w.receive_buffer)) (frame_size header))) [
        | inl waits ↦ subst (Took w) (sym (part header e waits)) tt
        | inr whole ↦ subst (Took w) (sym (handles header e whole)) (
            GoesOn-Took w header (handle_frame p w header seed) e
              (handle_frame-GoesOn p w header o seed))
      ]
]
  where
    no_header :
        parse_header (get_data w.receive_buffer) ≡ none
        → dispatch_round p w seed ≡ some (stop, w, [])
    no_header e = unfold dispatch_round in rw (dispatch_round, e)

    part :
        (header : Header)
        → parse_header (get_data w.receive_buffer) ≡ some header
        → ltb (length (get_data w.receive_buffer)) (frame_size header) ≡ true
        → dispatch_round p w seed ≡ some (stop, w, [])
    part header e waits = unfold dispatch_round in rw (dispatch_round, e, waits)

    handles :
        (header : Header)
        → parse_header (get_data w.receive_buffer) ≡ some header
        → ltb (length (get_data w.receive_buffer)) (frame_size header) ≡ false
        → dispatch_round p w seed ≡ handle_frame p w header seed
    handles header e whole = unfold dispatch_round in rw (dispatch_round, e, whole)
