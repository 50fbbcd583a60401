-- ===== src/Frame/Wire.antt =====
-- Whole frames as they stand on the wire, and that a header is made of bytes.
use wsclient.Base.{
  ℕ, ◌<◌, ◌≡◌, refl, subst, sym, bit_or, Bool, true, false, List, ◌++◌, arith, length,
  if◌then◌else◌, lt-cases, inl, inr, All-append,
}
use wsclient.Base.Bits.{top_bit_or, or_top_bit, or_no_bit}
use wsclient.Base.Word.{IsByte, IsBytes}
use wsclient.FastXor.{Key, xor_loop}
use wsclient.FastXor.Bytewise.{IsKey, length-xor_loop}
use wsclient.Frame.{frame_header, key_bytes}
use wsclient.Frame.RoundTrip.{short-shape, medium-shape, long-shape, key_part, eight_bytes}

-- The message as it stands on the wire.
abbrev pub on_wire : Bool → Key → List ℕ → List ℕ
on_wire m key msg = if m then xor_loop key 0 msg else msg

-- The bytes of a whole frame.
abbrev pub wire_frame : ℕ → Bool → Key → List ℕ → List ℕ
wire_frame type m key msg = frame_header type (length msg) m key ++ on_wire m key msg

pub length-on_wire : (m : Bool) (key : Key) (msg : List ℕ) → length (on_wire m key msg) ≡ length msg
length-on_wire true key msg = length-xor_loop key 0 msg
length-on_wire false key msg = refl

key_part-IsBytes : (m : Bool) (key : Key) → IsKey key → IsBytes (key_part m key)
unfolding key_bytes
key_part-IsBytes true key h = (h.0, (h.1, (h.2, (h.3, tt))))
key_part-IsBytes false key h = tt

first-IsByte : (type : ℕ) → type < 16 → bit_or 0x80 type < 256
first-IsByte type h = rw (top_bit_or type (omega arith)) (omega arith)

second-IsByte : (v : ℕ) (m : Bool) → v < 128 → bit_or v (if m then 0x80 else 0) < 256
second-IsByte v true h = rw (or_top_bit v h) (omega arith)
second-IsByte v false h = rw (or_no_bit v) (omega arith)

eight_bytes-IsBytes : (n : ℕ) → IsBytes (eight_bytes n)
eight_bytes-IsBytes n = (
  omega arith,
  (
    omega arith,
    (omega arith, (omega arith, (omega arith, (omega arith, (omega arith, (omega arith, tt)))))),
  ),
)

pub frame_header-IsBytes :
    (type size : ℕ) (m : Bool) (key : Key)
    → type < 16
    → IsKey key
    → IsBytes (frame_header type size m key)
frame_header-IsBytes type size m key ht k = elim (lt-cases size 126) [
  | inl small ↦
      subst IsBytes (sym (short-shape type size m key small))
        (first-IsByte type ht, (second-IsByte size m (omega arith), key_part-IsBytes m key k))
  | inr large ↦ elim (lt-cases size 65536) [
    | inl small ↦ subst IsBytes (sym (medium-shape type size m key large small)) (
      first-IsByte type ht,
      (second-IsByte 126 m (omega arith), (omega arith, (omega arith, key_part-IsBytes m key k))),
    )
    | inr huge ↦ subst IsBytes (sym (long-shape type size m key huge)) (
      first-IsByte type ht,
      (
        second-IsByte 127 m (omega arith),
        All-append IsByte (eight_bytes size) (key_part m key) (eight_bytes-IsBytes size)
            (key_part-IsBytes m key k),
      ),
    )
  ]
]
