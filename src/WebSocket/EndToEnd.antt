-- ===== src/WebSocket/EndToEnd.antt =====
-- A message from `sendData` of one end to the callback of the other.
use wsclient.Base.{
  ℕ, ◌<◌, ◌≡◌, sym, ap, ◌∙◌, false, true, Option, none, some, List, [], ◌∷◌, ◌++◌, length,
  append-nil, ◌==◌,
}
use wsclient.Base.Word.{IsBytes}
use wsclient.SimpleBuffer.{SimpleBuffer, get_data, get_size}
use wsclient.SimpleBuffer.Invariant.{IsValid}
use wsclient.Frame.{text_frame}
use wsclient.Frame.Wire.{wire_frame}
use wsclient.WebSocket.{WebSocket, Platform, receive_message}
use wsclient.WebSocket.Send.{is_closing, send_data}
use wsclient.WebSocket.Send.Queue.{HasRoom}
use wsclient.WebSocket.Send.Message.{key_of, get_masking_key-IsKey, send_data_lem}
use wsclient.WebSocket.Dispatch.{again, is_data, dispatch_round}
use wsclient.WebSocket.Dispatch.Deliver.{delivered, dispatch_round-wire_frame}

-- The transmit buffer of a result.
abbrev transmitted : WebSocket → Option WebSocket → SimpleBuffer
transmitted w none = w.transmit_buffer
transmitted w (some w') = w'.transmit_buffer

-- One end, not closing, with a valid transmit buffer that is empty and has room for the frame,
-- sends a data message. Whatever its byte order, whether it masks and whichever the time of its
-- key, if the other end's valid receive buffer holds what the first end's transmit buffer holds
-- after the call, and no part of a message waits there, one round of the other end's dispatch is
-- defined and calls the callback with the very message, and leaves the receive buffer valid and
-- empty.
pub send_data-dispatch_round :
    (p p' : Platform) (w w1 w' : WebSocket) (type : ℕ) (msg : List ℕ) (seed seed' : ℕ)
    → type < 16
    → is_data type ≡ true
    → IsBytes msg
    → is_closing w.ready_state ≡ false
    → IsValid w.transmit_buffer
    → HasRoom w.transmit_buffer (length msg) w.use_mask
    → get_data w.transmit_buffer ≡ []
    → send_data p w type (some msg) (length msg) seed ≡ some w1
    → IsValid w'.receive_buffer
    → get_size w'.received_data ≡ 0
    → get_data w'.receive_buffer ≡ get_data w1.transmit_buffer
    → (b : SimpleBuffer) × (dispatch_round p' w' seed'
        ≡ some (again, delivered w' msg b, receive_message msg (type == text_frame) ∷ []))
      × IsValid b
      × (get_data b ≡ [])
send_data-dispatch_round p p' w w1 w' type msg seed seed' ht hd h alive v room empty sent v' idle
      arrived =
    let key = key_of p seed in
    let (b, run, q) = send_data_lem p w type msg seed ht h alive v room in
    let kept : get_data w1.transmit_buffer ≡ get_data b =
      ap (λ o. get_data (transmitted w o)) (sym sent ∙ run) in
    dispatch_round-wire_frame p' w' type w.use_mask key msg [] seed' ht hd
      (get_masking_key-IsKey p.big_endian seed) h v' idle
      (arrived
        ∙ kept
        ∙ q.content
        ∙ ap (λ t. t ++ wire_frame type w.use_mask key msg) empty
        ∙ sym (append-nil (wire_frame type w.use_mask key msg)))
