-- ===== src/WebSocket/Send/Mask.antt =====
-- The masking in place of a part of a buffer's content.
use wsclient.Base.{
  ℕ, ◌+◌, ◌≤◌, ◌≡◌, sym, ap, ◌∙◌, some, arith, length, slice, write, read_at, read_at_lem,
  slice-slice, length-slice, All-slice,
}
use wsclient.Base.Word.{IsByte, IsBytes}
use wsclient.FastXor.{Key, xor_loop, slow_xor, fast_xor, xor_bytes}
use wsclient.FastXor.Bytewise.{IsKey, length-xor_loop, xor_loop-IsBytes}
use wsclient.FastXor.Agree.{fast_xor-eq-slow_xor}
use wsclient.SimpleBuffer.{SimpleBuffer, get_size, get_data, modify_data}
use wsclient.SimpleBuffer.Invariant.{IsValid, get_size-le, get_data-IsBytes, length-get_data}
use wsclient.SimpleBuffer.Queue.{modify_data_lem}
use wsclient.WebSocket.{Platform}
use wsclient.WebSocket.Send.{xor_in_place}

-- A read behind the data pointer is a window of the content.
pub read_content :
    {b : SimpleBuffer} (off n : ℕ)
    → IsValid b
    → off + n ≤ get_size b
    → read_at b.buffer (b.start_loc + off) n ≡ some (slice off n (get_data b))
read_content {b} off n v h =
    read_at_lem b.buffer (b.start_loc + off) n (omega (arith, get_size-le v))
    ∙ ap some (unfold get_data in sym (slice-slice b.start_loc off (get_size b) n b.buffer h))

-- What masking leaves: `n` bytes of the content from `off` on are changed by the key.
pub record Masked (b : SimpleBuffer) (off n : ℕ) (key : Key) (b' : SimpleBuffer) : Type 0 where
  pub valid : IsValid b'
  pub content : get_data b' ≡ write (get_data b) off (xor_loop key 0 (slice off n (get_data b)))

pub xor_in_place_lem :
    (p : Platform) {b : SimpleBuffer} (off n : ℕ) (key : Key)
    → IsKey key
    → IsValid b
    → off + n ≤ get_size b
    → (b' : SimpleBuffer) × (xor_in_place p b off n key ≡ some b') × Masked b off n key b'
unfolding xor_in_place
xor_in_place_lem p {b} off n key k v h =
    let part = slice off n (get_data b) in
    let part_bytes : IsBytes part = All-slice IsByte off n (get_data b) (get_data-IsBytes v) in
    let masked = xor_loop key 0 part in
    let same : fast_xor p.big_endian (p.address b + off) key part ≡ masked =
      unfold slow_xor xor_bytes in
      fast_xor-eq-slow_xor p.big_endian (p.address b + off) key part k part_bytes in
    let size : length masked ≡ n =
      length-xor_loop key 0 part
      ∙ length-slice off n (get_data b) (omega (arith, length-get_data v)) in
    let (b', e, v', c) =
      modify_data_lem off masked v (xor_loop-IsBytes key 0 part k part_bytes)
        (omega (arith, size)) in
    (
      b',
      rw (read_content off n v h) (ap (modify_data b off) same ∙ e),
      record { valid = v'; content = c },
    )
