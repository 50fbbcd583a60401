-- ===== src/WebSocket/Send/Queue.antt =====
-- What `sendData` puts in the transmit buffer.
use wsclient.Base.{
  ℕ, ◌+◌, ◌≤◌, ◌<◌, ◌^◌, ◌≡◌, refl, sym, ap, ◌∙◌, Bool, true, false, some, List, [], ◌++◌, arith,
  length, slice, write, ◌==◌, ==_iff, length-append, append_assoc, append-nil, slice_middle,
  write-append, write_all,
}
use wsclient.Base.Word.{IsBytes, u32, sub32}
use wsclient.FastXor.{Key, xor_loop}
use wsclient.FastXor.Bytewise.{IsKey, length-xor_loop}
use wsclient.SimpleBuffer.{SimpleBuffer, get_data, get_size, add_buffer}
use wsclient.SimpleBuffer.Invariant.{IsValid, length-get_data, get_size_lem}
use wsclient.SimpleBuffer.Queue.{extended, extended_lem, add_buffer-free}
use wsclient.Frame.{frame_header, expected_header_len}
use wsclient.Frame.RoundTrip.{length-frame_header}
use wsclient.Frame.Wire.{wire_frame, frame_header-IsBytes}
use wsclient.WebSocket.{Platform}
use wsclient.WebSocket.Send.{xor_in_place, queue_frame}
use wsclient.WebSocket.Send.Mask.{xor_in_place_lem}

pub queue_frame_plain :
    (p : Platform) (b : SimpleBuffer) {added : Bool} {b1 b2 : SimpleBuffer} (type : ℕ)
    (msg : List ℕ) (key : Key)
    → let header = frame_header type (length msg) false key in
      u32 (length msg) ≡ length msg
      → (length header == expected_header_len (length msg) false) ≡ true
      → add_buffer p.malloc b (some header) (length header) ≡ some (true, b1)
      → add_buffer p.malloc b1 (some msg) (length msg) ≡ some (added, b2)
      → queue_frame p b type (some msg) (length msg) false key ≡ some b2
unfolding queue_frame
queue_frame_plain p b type msg key cut same e f = rw (same, e, cut, f)

pub queue_frame_masked :
    (p : Platform) (b : SimpleBuffer) {added : Bool} {b1 b2 : SimpleBuffer} (type : ℕ)
    (msg : List ℕ) (key : Key)
    → let header = frame_header type (length msg) true key in
      u32 (length msg) ≡ length msg
      → (length header == expected_header_len (length msg) true) ≡ true
      → add_buffer p.malloc b (some header) (length header) ≡ some (true, b1)
      → add_buffer p.malloc b1 (some msg) (length msg) ≡ some (added, b2)
      → queue_frame p b type (some msg) (length msg) true key
        ≡ xor_in_place p b2 (sub32 (get_size b2) (length msg)) (length msg) key
unfolding queue_frame
queue_frame_masked p b type msg key cut same e f = rw (same, e, cut, f)

-- Behind the content there is room for a frame.
abbrev pub HasRoom : SimpleBuffer → ℕ → Bool → Type 0
HasRoom b size m = b.end_loc + expected_header_len size m + size ≤ b.max_len

-- What queueing leaves: a valid buffer with a whole frame behind the old content.
pub record Queued (b : SimpleBuffer) (type : ℕ) (m : Bool) (key : Key) (msg : List ℕ)
    (b' : SimpleBuffer) : Type 0 where
  pub valid : IsValid b'
  pub content : get_data b' ≡ get_data b ++ wire_frame type m key msg

module _ (p : Platform) {b : SimpleBuffer} (type : ℕ) (key : Key) (msg : List ℕ) (ht : type < 16)
    (k : IsKey key) (h : IsBytes msg) (v : IsValid b) where
  -- The buffer with the header and the message, not yet masked.
  both :
      (m : Bool)
      → HasRoom b (length msg) m
      → let header = frame_header type (length msg) m key in
        let b1 = extended b header (length header) in
        let b2 = extended b1 msg (length msg) in
        (add_buffer p.malloc b (some header) (length header) ≡ some (true, b1))
        × (add_buffer p.malloc b1 (some msg) (length msg) ≡ some (true, b2))
        × IsValid b2
        × (get_data b2 ≡ (get_data b ++ header) ++ msg)
  both m room =
      let header = frame_header type (length msg) m key in
      let b1 = extended b header (length header) in
      let len = length-frame_header type (length msg) m key in
      let (v1, e1) =
        extended_lem header (length header) v (frame_header-IsBytes type (length msg) m key ht k)
          refl (omega (arith, len)) in
      let (v2, e2) = extended_lem msg (length msg) v1 h refl (omega (arith, len)) in
      (
        add_buffer-free p.malloc header v (omega (arith, len)),
        add_buffer-free p.malloc msg v1 (omega (arith, len)),
        v2,
        e2 ∙ ap (λ t. t ++ msg) e1,
      )

  pub queue_frame_lem :
      (m : Bool)
      → HasRoom b (length msg) m
      → (b' : SimpleBuffer) × (queue_frame p b type (some msg) (length msg) m key ≡ some b')
        × Queued b type m key msg b'
  queue_frame_lem false room =
      let header = frame_header type (length msg) false key in
      let n = length msg in
      let (e, f, v2, content) = both false room in
      let len = length-frame_header type n false key in
      let cut : u32 n ≡ n = omega (arith, v.bounded, v.small) in
      (
        extended (extended b header (length header)) msg n,
        queue_frame_plain p b type msg key cut ((==_iff _ _).1 len) e f,
        record { valid = v2; content = content ∙ append_assoc (get_data b) header msg },
      )
  queue_frame_lem true room =
      let header = frame_header type (length msg) true key in
      let n = length msg in
      let (e, f, v2, content) = both true room in
      let len = length-frame_header type n true key in
      let cut : u32 n ≡ n = omega (arith, v.bounded, v.small) in
      let b2 = extended (extended b header (length header)) msg n in
      let off = length (get_data b ++ header) in
      let size : get_size b2 ≡ off + n =
        sym (length-get_data v2) ∙ ap length content ∙ length-append (get_data b ++ header) msg in
      let small : get_size b2 < 2 ^ 30 =
        omega (arith, get_size_lem v2, v2.within, v2.bounded, v2.small) in
      let place : sub32 (get_size b2) n ≡ off = omega arith in
      let (b3, run, masked) = xor_in_place_lem p off n key k v2 (omega arith) in
      let part : slice off n (get_data b2) ≡ msg =
        ap (slice off n) (
          content
          ∙ sym (append-nil ((get_data b ++ header) ++ msg))
          ∙ append_assoc (get_data b ++ header) msg [])
        ∙ slice_middle (get_data b ++ header) msg [] off n refl refl in
      (
        b3,
        queue_frame_masked p b type msg key cut ((==_iff _ _).1 len) e f
            ∙ ap (λ t. xor_in_place p b2 t n key) place
            ∙ run,
        record {
          valid = masked.valid;
          content =
              masked.content
              ∙ ap (λ t. write (get_data b2) off (xor_loop key 0 t)) part
              ∙ ap (λ t. write t off (xor_loop key 0 msg)) content
              ∙ write-append (get_data b ++ header) msg off (xor_loop key 0 msg) refl
              ∙ ap (λ t. (get_data b ++ header) ++ t)
                  (write_all msg (xor_loop key 0 msg) (length-xor_loop key 0 msg))
              ∙ append_assoc (get_data b) header (xor_loop key 0 msg);
        },
      )
