-- ===== src/WebSocket/Connection/Opens.antt =====
-- When the handshake is over.
use wsclient.Base.{
  ℕ, ◌≡◌, ◌⊎◌, refl, Bool, true, false, List, length, ◌==◌, ==_iff, Bool-cases, inl, inr,
}
use wsclient.WebSocket.{
  connecting, opened, ConnectionPhase, http_status, hconnection_upgrade, hsec_websocket_accept,
  hserver_websocket, hupgrade_websocket, h, server_client_strings,
}
use wsclient.WebSocket.Connection.{is_switching, on_line}
use wsclient.Base.Text.{same_bytes, codes}

-- A line opens a connecting socket only in the last phase of a client, or when it is the empty line
-- behind the request that a server got.
on_line-opened :
    (is_server : Bool) (phase : ConnectionPhase) (text : List ℕ)
    → (on_line is_server connecting phase text).state ≡ opened
    → (phase ≡ h) ⊎ ((phase ≡ server_client_strings) × (length text ≡ 0))
unfolding on_line
on_line-opened s server_client_strings text e = elim (Bool-cases (length text == 0)) [
  | inl empty ↦ inr (refl, (==_iff (length text) 0).0 empty)
  | inr more ↦ absurd (cc (e, more))
]
on_line-opened true http_status text e =
    elim (Bool-cases (same_bytes text (codes "GET / HTTP/1.1"))) [
      | inl good ↦ absurd (cc (e, good))
      | inr bad ↦ absurd (cc (e, bad))
    ]
on_line-opened false http_status text e = elim (Bool-cases (is_switching text)) [
  | inl good ↦ absurd (cc (e, good))
  | inr bad ↦ absurd (cc (e, bad))
]
on_line-opened s hconnection_upgrade text e = absurd (cc e)
on_line-opened s hsec_websocket_accept text e = absurd (cc e)
on_line-opened s hserver_websocket text e = absurd (cc e)
on_line-opened s hupgrade_websocket text e = absurd (cc e)
on_line-opened s h text e = inl refl
