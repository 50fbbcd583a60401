-- ===== src/WebSocket/Poll/Receipt.antt =====
-- One round of the receive loop of `poll`.
use wsclient.Base.{
  ℕ, ◌+◌, ◌≤◌, ◌≡◌, refl, ap, ◌∙◌, true, some, none, List, [], ◌++◌, arith, length, if◌then◌else◌,
  write_at_lem, le→leb,
}
use wsclient.Base.Word.{IsBytes}
use wsclient.SimpleBuffer.{SimpleBuffer, get_data, confirm_capacity}
use wsclient.SimpleBuffer.Invariant.{IsAllocator, IsValid}
use wsclient.SimpleBuffer.Grow.{can_fit, MovesApart}
use wsclient.SimpleBuffer.Queue.{extended, extended_lem, confirm_capacity_lem, add_buffer-stored}
use wsclient.WebSocket.{WebSocket, Platform, default_max_read_size}
use wsclient.WebSocket.Dispatch.{again}
use wsclient.WebSocket.Poll.{Receive, store_received, receive_round}

pub store_received_run :
    (p : Platform) (b : SimpleBuffer) (bytes : List ℕ)
    → IsValid b
    → IsBytes bytes
    → length bytes ≤ default_max_read_size
    → b.end_loc + length bytes ≤ b.max_len
    → store_received p b b.end_loc bytes ≡ some (extended b bytes (length bytes))
unfolding store_received
store_received_run p b bytes v hb h room = rw (
  le→leb (length bytes) default_max_read_size h,
  write_at_lem b.buffer b.end_loc bytes (omega (arith, v.stored)),
  add_buffer-stored p.malloc bytes v hb room,
)

pub receive_round_run :
    (p : Platform) (w : WebSocket) (bytes : List ℕ) {place : ℕ} {b b' : SimpleBuffer}
    → confirm_capacity p.malloc w.receive_buffer default_max_read_size ≡ some (some place, b)
    → store_received p b place bytes ≡ some b'
    → receive_round p w (Receive.got bytes) ≡ some (again, record w { receive_buffer = b' }, [])
unfolding receive_round
receive_round_run p w bytes e f = rw (e, f)

-- With an allocator that succeeds, on a valid receive buffer that can hold a whole read more, and
-- whose content lies apart from its new place where it has to move: when the socket gives at most
-- the bytes that it was asked for, the round is defined and the loop goes on, the bytes stand
-- behind the old content, the buffer stays valid, and nothing else changes.
pub receive_round-got :
    (p : Platform) (w : WebSocket) (bytes : List ℕ)
    → IsAllocator p.malloc
    → IsValid w.receive_buffer
    → MovesApart w.receive_buffer default_max_read_size
    → can_fit w.receive_buffer default_max_read_size ≡ true
    → IsBytes bytes
    → length bytes ≤ default_max_read_size
    → (b : SimpleBuffer) × (receive_round p w (Receive.got bytes)
        ≡ some (again, record w { receive_buffer = b }, []))
      × IsValid b
      × (get_data b ≡ get_data w.receive_buffer ++ bytes)
receive_round-got p w bytes a v apart fit hb h =
    let size = default_max_read_size in
    let (b, run, g) = confirm_capacity_lem p.malloc size a v (omega arith) apart in
    let room = g.room fit in
    let (v', content) = extended_lem bytes (length bytes) g.valid hb refl (omega arith) in
    (
      extended b bytes (length bytes),
      receive_round_run p w bytes (run ∙ ap (λ t. some (if t then some b.end_loc else none, b)) fit)
          (store_received_run p b bytes g.valid hb h (omega arith)),
      v',
      content ∙ ap (λ t. t ++ bytes) g.same,
    )
