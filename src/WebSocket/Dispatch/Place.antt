-- ===== src/WebSocket/Dispatch/Place.antt =====
-- Where the content of the receive buffer stands while a frame is handled, and behind it.
use wsclient.Base.{
  ℕ, ◌+◌, ◌-◌, ◌≤◌, ◌<◌, ◌^◌, ◌≡◌, refl, sym, subst, ap₂, ◌∙◌, false, Option, some, none, List, [],
  arith, take, ◌==◌, ◌&&◌, leb, ltb, Bool-cases, Option-cases, inl, inr, read_at, write_at,
}
use wsclient.Base.Word.{u32, add32, sub32}
use wsclient.FastXor.{Key, fast_xor}
use wsclient.SimpleBuffer.{SimpleBuffer, get_data, get_size, modify_data, consume, add_buffer}
use wsclient.Frame.{Header, frame_size}
use wsclient.WebSocket.{WebSocket, Platform, Event}
use wsclient.WebSocket.Send.{
  xor_in_place, send_data, log_send, queue_frame, is_closing, get_masking_key,
}
use wsclient.WebSocket.Dispatch.{log_receive, unmask, deliver, consume_frame}

-- The positions of a buffer are in order, and words.
pub record InOrder (b : SimpleBuffer) : Type 0 where
  pub ordered : b.start_loc ≤ b.end_loc
  pub small : b.end_loc < 2 ^ 32

-- The content stands in the same place.
pub record SamePlace (b b' : SimpleBuffer) : Type 0 where
  pub start : b'.start_loc ≡ b.start_loc
  pub end : b'.end_loc ≡ b.end_loc

abbrev Stays : SimpleBuffer → Option WebSocket → Type 0
Stays b none = Unit {0}
Stays b (some w') = SamePlace b w'.receive_buffer

abbrev StaysWith : SimpleBuffer → Option (WebSocket × List Event) → Type 0
StaysWith b none = Unit {0}
StaysWith b (some (w', events)) = SamePlace b w'.receive_buffer

abbrev StaysBuffer : SimpleBuffer → Option SimpleBuffer → Type 0
StaysBuffer b none = Unit {0}
StaysBuffer b (some b') = SamePlace b b'

pub stay : (b : SimpleBuffer) → SamePlace b b
stay b = record { start = refl; end = refl }

-- A call that is undefined leaves nothing to show; of one that is defined, the result is followed.
module _ (p : Platform) where
  xor_in_place-StaysBuffer :
      (b : SimpleBuffer) (off n : ℕ) (key : Key) → StaysBuffer b (xor_in_place p b off n key)
  unfolding xor_in_place modify_data
  xor_in_place-StaysBuffer b off n key =
      elim (Option-cases (read_at b.buffer (b.start_loc + off) n)) [
        | inl e ↦ rw e tt
        | inr (bytes, e) ↦
            let masked = fast_xor p.big_endian (p.address b + off) key bytes in
            rw e (elim (Option-cases (write_at b.buffer (b.start_loc + off) masked)) [
              | inl f ↦ rw f tt
              | inr (block, f) ↦ rw f (record { start = refl; end = refl })
            ])
      ]

  pub unmask-Stays : (w : WebSocket) (header : Header) → Stays w.receive_buffer (unmask p w header)
  unfolding unmask
  unmask-Stays w header = elim (Bool-cases header.mask) [
    | inr plain ↦ rw plain (stay w.receive_buffer)
    | inl masked ↦
        let n = u32 header.n in
        let key = header.masking_key in
        let same = xor_in_place-StaysBuffer w.receive_buffer header.header_size n key in
        rw masked (elim (Option-cases (xor_in_place p w.receive_buffer header.header_size n key)) [
          | inl e ↦ rw e tt
          | inr (b, e) ↦ rw e (rw e at same)
        ])
  ]

log_send-same :
    (w : WebSocket) (bytes : List ℕ) → (log_send w bytes).receive_buffer ≡ w.receive_buffer
unfolding log_send
log_send-same w bytes = elim (Option-cases w.log_file) [ inl e ↦ rw e | inr (entries, e) ↦ rw e ]

log_receive-same :
    (w : WebSocket) (bytes : List ℕ) → (log_receive w bytes).receive_buffer ≡ w.receive_buffer
unfolding log_receive
log_receive-same w bytes = elim (Option-cases w.log_file) [ inl e ↦ rw e | inr (entries, e) ↦ rw e ]

same_place : {b b' : SimpleBuffer} → b' ≡ b → SamePlace b b'
same_place {b} e = subst (SamePlace b) (sym e) (stay b)

module _ (p : Platform) (w : WebSocket) where
  pub send_data-Stays :
      (type : ℕ) (message : Option (List ℕ)) (size seed : ℕ)
      → Stays w.receive_buffer (send_data p w type message size seed)
  unfolding send_data
  send_data-Stays type message size seed =
      let w' =
        log_send w
          (elim message as (λ _. List ℕ) [ none ↦ [] | some bytes ↦ take (u32 size) bytes ]) in
      let same = same_place (
        log_send-same w
          (elim message as (λ _. List ℕ) [ none ↦ [] | some bytes ↦ take (u32 size) bytes ])) in
      elim (Bool-cases (is_closing w'.ready_state)) [
        | inl late ↦ rw late same
        | inr alive ↦
            rw alive
              (elim (Option-cases (
                queue_frame p w'.transmit_buffer type message size w'.use_mask
                  (get_masking_key p.big_endian seed))) [
                    | inl e ↦ rw e tt
                    | inr (b, e) ↦ rw e same
                  ])
      ]

  pub deliver-StaysWith :
      (header : Header) (bytes : List ℕ) → StaysWith w.receive_buffer (deliver p w header bytes)
  unfolding deliver
  deliver-StaysWith header bytes =
      let b = w.receive_buffer in
      elim (Bool-cases (header.fin && get_size w.received_data == 0)) [
        | inl whole ↦ rw whole (same_place (log_receive-same w bytes))
        | inr part ↦
            rw part
              (elim (Option-cases
                (add_buffer p.malloc w.received_data (some bytes) (u32 header.n))) [
                  | inl e ↦ rw e tt
                  | inr ((added, kept), e) ↦ rw e (elim (Bool-cases header.fin) [
                    | inr waits ↦ rw waits (stay b)
                    | inl final ↦ rw final (elim (Bool-cases (get_size kept == 0)) [
                      | inl empty ↦ rw empty (stay b)
                      | inr full ↦ rw full (same_place (log_receive-same w (get_data kept)))
                    ])
                  ])
                ])
      ]

-- The content is shorter by `n` bytes.
pub record Shorter (b : SimpleBuffer) (n : ℕ) (b' : SimpleBuffer) : Type 0 where
  pub in_order : InOrder b'
  pub size : get_size b' + n ≡ get_size b

abbrev Consumed : SimpleBuffer → ℕ → Option SimpleBuffer → Type 0
Consumed b n none = Unit {0}
Consumed b n (some b') = Shorter b n b'

abbrev ConsumedFrame : SimpleBuffer → ℕ → Option WebSocket → Type 0
ConsumedFrame b n none = Unit {0}
ConsumedFrame b n (some w') = Shorter b n w'.receive_buffer

consume-Consumed : (b : SimpleBuffer) (n : ℕ) → InOrder b → Consumed b n (consume b n)
unfolding consume get_size
consume-Consumed b n o =
    let active : sub32 b.end_loc b.start_loc ≡ b.end_loc - b.start_loc =
      omega (arith, o.ordered, o.small) in
    elim (Bool-cases (leb n (sub32 b.end_loc b.start_loc))) [
      | inr more ↦ rw more tt
      | inl fits ↦
          let le : n ≤ b.end_loc - b.start_loc = ground (arith, active) in
          let clamp : ltb (sub32 b.end_loc b.start_loc) n ≡ false = ground (arith, active) in
          let start : add32 b.start_loc n ≡ b.start_loc + n = omega (arith, o.ordered, o.small) in
          rw (fits, clamp)
            (elim (Bool-cases (add32 b.start_loc n == b.end_loc)) [
              | inl all ↦
                  let whole : b.start_loc + n ≡ b.end_loc = ground (arith, start) in
                  rw all (record {
                    in_order = record { ordered = omega arith; small = omega arith };
                    size = omega (arith, o.ordered, o.small);
                  })
              | inr some_left ↦ rw some_left (record {
                in_order = record { ordered = omega (arith, o.ordered); small = o.small };
                size = omega (arith, o.ordered, o.small);
              })
            ])
    ]

-- Consuming a frame after steps that left the content in its place.
pub consume_frame-Consumed :
    (b : SimpleBuffer) (w : WebSocket) (header : Header)
    → InOrder b
    → SamePlace b w.receive_buffer
    → ConsumedFrame b (frame_size header) (consume_frame w header)
unfolding consume_frame
consume_frame-Consumed b w header o same =
    let n = frame_size header in
    let o' : InOrder w.receive_buffer = record {
      ordered = omega (arith, o.ordered, same.start, same.end);
      small = omega (arith, o.small, same.end);
    } in
    let size : get_size w.receive_buffer ≡ get_size b =
      unfold get_size in ap₂ sub32 same.end same.start in
    let run = consume-Consumed w.receive_buffer n o' in
    elim (Option-cases (consume w.receive_buffer n)) [
      | inl e ↦ rw e tt
      | inr (b', e) ↦
          let left : Shorter w.receive_buffer n b' = rw e at run in
          rw e (record { in_order = left.in_order; size = left.size ∙ size })
    ]
