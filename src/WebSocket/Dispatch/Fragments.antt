-- ===== src/WebSocket/Dispatch/Fragments.antt =====
-- A message that comes in several frames.
use wsclient.Base.{
  ℕ, ◌+◌, ◌<◌, ◌≤◌, ◌≡◌, refl, sym, ap, ◌∙◌, Bool, true, false, Option, some, List, [], ◌∷◌, ◌++◌,
  arith, length, length-append, append_assoc, append-nil, All, ◌==◌, ◌>>=◌,
}
use wsclient.Base.Word.{IsBytes, u32}
use wsclient.SimpleBuffer.{get_data, get_size, clear, add_buffer}
use wsclient.SimpleBuffer.Invariant.{IsValid, length-get_data}
use wsclient.SimpleBuffer.Queue.{extended, extended_lem, add_buffer-free}
use wsclient.Frame.{Header, text_frame, continuation}
use wsclient.WebSocket.{WebSocket, Platform, Event, receive_message}
use wsclient.WebSocket.Dispatch.{log_receive, deliver}

-- A frame's header, and its bytes once they are unmasked.
pub record Fragment : Type 0 where
  pub header : Header
  pub bytes : List ℕ

pub record IsFragment (fin : Bool) (x : Fragment) : Type 0 where
  pub final : x.header.fin ≡ fin
  pub size : x.header.n ≡ length x.bytes
  pub given : 0 < length x.bytes
  pub is_bytes : IsBytes x.bytes

abbrev pub joined : List Fragment → List ℕ
joined [] = []
joined (x ∷ xs) = x.bytes ++ joined xs

-- `deliver` for one frame after the other.
abbrev pub deliver_all : Platform → WebSocket → List Fragment → Option (WebSocket × List Event)
deliver_all p w [] = some (w, [])
deliver_all p w (x ∷ xs) = do
  (w1, events) ← deliver p w x.header x.bytes
  (w2, events') ← deliver_all p w1 xs
  some (w2, events ++ events')

abbrev HasSpace : WebSocket → ℕ → Type 0
HasSpace w size = w.received_data.end_loc + size ≤ w.received_data.max_len

-- What is kept behind one more frame.
abbrev kept : WebSocket → Fragment → WebSocket
kept w x = record w { received_data = extended w.received_data x.bytes (length x.bytes) }

module _ (p : Platform) (w : WebSocket) (x : Fragment) {fin : Bool} (v : IsValid w.received_data)
    (h : IsFragment fin x) (room : HasSpace w (length x.bytes)) where
  kept_lem :
      IsValid (kept w x).received_data
      × (get_data (kept w x).received_data ≡ get_data w.received_data ++ x.bytes)
  kept_lem = extended_lem x.bytes (length x.bytes) v h.is_bytes refl room

  kept_size : 0 < get_size (kept w x).received_data
  kept_size =
      let (v', content) = kept_lem in
      omega (
        arith,
        h.given,
        length-get_data v',
        ap length content,
        length-append (get_data w.received_data) x.bytes,
      )

  kept_run :
      add_buffer p.malloc w.received_data (some x.bytes) (u32 x.header.n)
      ≡ some (true, (kept w x).received_data)
  kept_run =
      let size : u32 x.header.n ≡ length x.bytes = omega (arith, h.size, v.bounded, v.small) in
      ap (λ n. add_buffer p.malloc w.received_data (some x.bytes) n) size
      ∙ add_buffer-free p.malloc x.bytes v room

deliver-first :
    (p : Platform) (w : WebSocket) (x : Fragment)
    → IsValid w.received_data
    → IsFragment false x
    → HasSpace w (length x.bytes)
    → deliver p w x.header x.bytes ≡ some (kept w x, [])
unfolding deliver
deliver-first p w x v h room = rw (deliver, h.final, kept_run p w x v h room)

-- The callback gets what was kept.
abbrev done : WebSocket → WebSocket
done w = record (log_receive w (get_data w.received_data)) { received_data = clear w.received_data }

deliver-last :
    (p : Platform) (w : WebSocket) (x : Fragment)
    → IsValid w.received_data
    → IsFragment true x
    → HasSpace w (length x.bytes)
    → 0 < get_size w.received_data
    → (w' : WebSocket) × (deliver p w x.header x.bytes
        ≡ some (
          w',
          receive_message (get_data w.received_data ++ x.bytes) (x.header.opcode == text_frame)
              ∷ [],
        ))
      × (get_size w'.received_data ≡ 0)
unfolding deliver
deliver-last p w x v h room some_kept =
    let b = (kept w x).received_data in
    let pending : (get_size w.received_data == 0) ≡ false = ground arith in
    let full : (get_size b == 0) ≡ false = ground (arith, kept_size p w x v h room) in
    let (_, content) = kept_lem p w x v h room in
    (
      record (log_receive w (get_data b)) { received_data = clear b },
      rw (deliver, h.final, pending, kept_run p w x v h room, full, content),
      unfold clear get_size in refl,
    )

deliver_all_run :
    (p : Platform) (w : WebSocket) (x : Fragment) (xs : List Fragment) {w1 w2 : WebSocket}
    {events events' : List Event}
    → deliver p w x.header x.bytes ≡ some (w1, events)
    → deliver_all p w1 xs ≡ some (w2, events')
    → deliver_all p w (x ∷ xs) ≡ some (w2, events ++ events')
deliver_all_run p w x xs e f = rw (e, f)

deliver-rest :
    (p : Platform) (w : WebSocket) (middle : List Fragment) (last : Fragment)
    → IsValid w.received_data
    → 0 < get_size w.received_data
    → All (IsFragment false) middle
    → IsFragment true last
    → HasSpace w (length (joined (middle ++ (last ∷ []))))
    → (w' : WebSocket) × (deliver_all p w (middle ++ (last ∷ []))
        ≡ some (
          w',
          receive_message
                (get_data w.received_data ++ joined (middle ++ (last ∷ [])))
                (last.header.opcode == text_frame)
              ∷ [],
        ))
      × (get_size w'.received_data ≡ 0)
deliver-rest p w [] last v some_kept h k room =
    let fits : HasSpace w (length last.bytes) = omega (arith, length-append last.bytes []) in
    let (w', run, empty) = deliver-last p w last v k fits some_kept in
    (
      w',
      deliver_all_run p w last [] run refl
          ∙ ap
              (λ t. some (
                w',
                receive_message (get_data w.received_data ++ t) (last.header.opcode == text_frame)
                    ∷ [],
              ))
              (sym (append-nil last.bytes)),
      empty,
    )
deliver-rest p w (x ∷ middle) last v some_kept h k room =
    let rest = joined (middle ++ (last ∷ [])) in
    let sum = length-append x.bytes rest in
    let fits : HasSpace w (length x.bytes) = omega arith in
    let (v1, content) = kept_lem p w x v h.0 fits in
    let (w', run, empty) =
      deliver-rest p (kept w x) middle last v1 (kept_size p w x v h.0 fits) h.1 k (omega arith) in
    (
      w',
      deliver_all_run p w x (middle ++ (last ∷ [])) (deliver-first p w x v h.0 fits) run
          ∙ ap (λ t. some (w', receive_message t (last.header.opcode == text_frame) ∷ []))
              (ap (λ t. t ++ rest) content ∙ append_assoc (get_data w.received_data) x.bytes rest),
      empty,
    )

-- When no part of a message waits: a frame that is not final, any number of frames that are not
-- final, and a final continuation frame, none of them empty, whose bytes all fit behind what
-- `mReceivedData` holds: the callback gets one message, the bytes of all frames in their order, and
-- gets it as binary whatever opcode the first frame had; no part of a message waits then.
pub deliver-fragmented :
    (p : Platform) (w : WebSocket) (first : Fragment) (middle : List Fragment) (last : Fragment)
    → IsValid w.received_data
    → get_size w.received_data ≡ 0
    → IsFragment false first
    → All (IsFragment false) middle
    → IsFragment true last
    → last.header.opcode ≡ continuation
    → HasSpace w (length (joined (first ∷ (middle ++ (last ∷ [])))))
    → (w' : WebSocket) × (deliver_all p w (first ∷ (middle ++ (last ∷ [])))
        ≡ some (w', receive_message (joined (first ∷ (middle ++ (last ∷ [])))) false ∷ []))
      × (get_size w'.received_data ≡ 0)
deliver-fragmented p w first middle last v idle h hs k continued room =
    let rest = joined (middle ++ (last ∷ [])) in
    let sum = length-append first.bytes rest in
    let fits : HasSpace w (length first.bytes) = omega arith in
    let (v1, content) = kept_lem p w first v h fits in
    let (w', run, empty) =
      deliver-rest p (kept w first) middle last v1 (kept_size p w first v h fits) hs k
        (omega arith) in
    (
      w',
      deliver_all_run p w first (middle ++ (last ∷ [])) (deliver-first p w first v h fits) run
          ∙ ap (λ t. some (w', receive_message t (last.header.opcode == text_frame) ∷ []))
              (ap (λ t. t ++ rest) content
                ∙ ap (λ t. (t ++ first.bytes) ++ rest)
                    (length_zero (get_data w.received_data) (length-get_data v ∙ idle)))
          ∙ ap (λ t. some (w', receive_message (first.bytes ++ rest) (t == text_frame) ∷ []))
              continued,
      empty,
    )
  where
    length_zero : (xs : List ℕ) → length xs ≡ 0 → xs ≡ []
    length_zero [] e = refl
    length_zero (x ∷ xs) e = absurd (omega arith)
