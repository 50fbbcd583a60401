-- ===== src/WebSocket/Dispatch/Stall.antt =====
-- The sum of the header's and the message's length is kept in 32 bits: a frame whose sum is 2 ^ 32
-- is never consumed.
use wsclient.Base.{
  ℕ, zero, suc, ◌+◌, ◌<◌, ◌^◌, ◌-◌, ◌≡◌, refl, ap, ◌∙◌, false, some, List, [], ◌++◌, arith, length,
  length-append,
}
use wsclient.FastXor.{Key}
use wsclient.SimpleBuffer.{SimpleBuffer, get_data, get_size, consume}
use wsclient.SimpleBuffer.Invariant.{IsValid, length-get_data, get_size_lem, consume_part}
use wsclient.Frame.{Header, parse_header, frame_header, frame_size, expected_header_len, pong}
use wsclient.Frame.RoundTrip.{sent_header, parse_header-frame_header, length-frame_header}
use wsclient.WebSocket.{WebSocket, Platform}
use wsclient.WebSocket.Dispatch.{
  again, is_data, consume_frame, handle_frame, dispatch_round, dispatch_binary,
}
use wsclient.WebSocket.Dispatch.Deliver.{dispatch_round_whole}
use wsclient.WebSocket.Dispatch.Stream.{dispatch_binary_again}

-- The length with which a header of ten bytes makes up 2 ^ 32.
abbrev pub wrapping_length : ℕ
wrapping_length = 2 ^ 32 - 10

consume_nothing : {b : SimpleBuffer} → IsValid b → 0 < get_size b → consume b 0 ≡ some b
consume_nothing {b} v h =
    let same : b.start_loc + 0 ≡ b.start_loc = omega arith in
    consume_part 0 v (omega (arith, get_size_lem v))
    ∙ ap (λ t. some (record b { start_loc = t })) same

consume_frame_nothing :
    (w : WebSocket) (header : Header)
    → IsValid w.receive_buffer
    → 0 < get_size w.receive_buffer
    → frame_size header ≡ 0
    → consume_frame w header ≡ some w
unfolding consume_frame
consume_frame_nothing w header v h e =
    let run : consume w.receive_buffer (frame_size header) ≡ some w.receive_buffer =
      ap (consume w.receive_buffer) e ∙ consume_nothing v h in
    rw run

handle_frame-pong :
    (p : Platform) (w : WebSocket) (n : ℕ) (key : Key) (seed : ℕ)
    → consume_frame w (sent_header pong n false key) ≡ some w
    → handle_frame p w (sent_header pong n false key) seed ≡ some (again, w, [])
unfolding handle_frame is_data
handle_frame-pong p w n key seed e = rw e

wrapped_size : (key : Key) → frame_size (sent_header pong wrapping_length false key) ≡ 0
unfolding frame_size expected_header_len
wrapped_size key = refl

stalled_round :
    (p : Platform) (w : WebSocket) (key : Key) (rest : List ℕ) (seed : ℕ)
    → IsValid w.receive_buffer
    → get_data w.receive_buffer ≡ frame_header pong wrapping_length false key ++ rest
    → dispatch_round p w seed ≡ some (again, w, [])
stalled_round p w key rest seed v e =
    let header = frame_header pong wrapping_length false key in
    let length_header : length header ≡ 10 =
      length-frame_header pong wrapping_length false key ∙ (unfold expected_header_len in refl) in
    let n = ap length e ∙ length-append header rest in
    let empty = wrapped_size key in
    dispatch_round_whole p w (sent_header pong wrapping_length false key) seed
      (ap parse_header e
        ∙ parse_header-frame_header pong wrapping_length false key rest (omega arith) (omega arith))
      (omega arith)
    ∙ handle_frame-pong p w wrapping_length key seed (
        consume_frame_nothing w (sent_header pong wrapping_length false key) v
          (omega (arith, length-get_data v)) empty)

-- On a valid receive buffer that begins with the ten bytes of an unmasked PONG header of length
-- 2 ^ 32 - 10, the loop never ends: for any fuel it wants another round, in the same state.
pub dispatch_binary-stalls :
    (fuel : ℕ) (p : Platform) (w : WebSocket) (seeds : ℕ → ℕ) (key : Key) (rest : List ℕ)
    → IsValid w.receive_buffer
    → get_data w.receive_buffer ≡ frame_header pong wrapping_length false key ++ rest
    → dispatch_binary fuel p w seeds ≡ some (again, w, [])
unfolding dispatch_binary
dispatch_binary-stalls zero p w seeds key rest v e = refl
dispatch_binary-stalls (suc fuel) p w seeds key rest v e =
    dispatch_binary_again fuel p w seeds (stalled_round p w key rest (seeds fuel) v e)
      (dispatch_binary-stalls fuel p w seeds key rest v e)
