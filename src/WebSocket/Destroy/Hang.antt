-- ===== src/WebSocket/Destroy/Hang.antt =====
-- A connection that cannot be made: `WebSocket::create` does not come back.
use wsclient.Base.{
  ℕ, ◌<◌, ◌≡◌, refl, Bool, false, some, none, List, [], ◌∷◌, arith, leb, ◌⊎◌, lt→leb, All, inl, inr,
  Block,
}
use wsclient.Base.Scan.{Integer}
use wsclient.SimpleBuffer.{create}
use wsclient.SimpleBuffer.Invariant.{IsAllocator, create-IsValid}
use wsclient.SimpleBuffer.Grow.{MovesApart}
use wsclient.WebSocket.Send.Close.{close_lem}
use wsclient.WebSocket.{
  WebSocket, Platform, default_transmit_buffer_size, default_maximum_buffer_size,
}
use wsclient.WebSocket.Client.{Target, create_client, target_of, unconnected, is_valid}
use wsclient.WebSocket.Dispatch.{again}
use wsclient.WebSocket.Poll.{poll, is_closed}
use wsclient.WebSocket.Send.{close, is_closing}
use wsclient.WebSocket.Destroy.{Pass, close_timeout, close_loop, destroy, create_web_socket}

-- Less than a second lies between two readings of the timer.
abbrev pub IsQuick : Pass → Type 0
IsQuick pass = pass.elapsed < close_timeout

close_loop-socketless :
    (p : Platform) (w : WebSocket) (passes : List Pass)
    → w.socket ≡ false
    → is_closed w.ready_state ≡ false
    → All IsQuick passes
    → close_loop p w passes ≡ some (again, w, [])
unfolding close_loop poll
close_loop-socketless p w [] dead alive quick = simp alive
close_loop-socketless p w (pass ∷ passes) dead alive quick =
    let late : leb close_timeout pass.elapsed ≡ false = lt→leb _ _ quick.0 in
    simp (alive, dead, late, close_loop-socketless p w passes dead alive quick.1)

-- The constructor ends without a socket: the URL or the origin is refused, or the connection is.
abbrev pub Refused : (List ℕ → Integer → Bool) → List ℕ → List ℕ → Type 0
Refused connect url origin =
    (target_of url origin ≡ some none)
    ⊎ ((t : Target) × (target_of url origin ≡ some (some t)) × (connect t.host t.port ≡ false))

create_client-Refused :
    (p : Platform) (connect : List ℕ → Integer → Bool) (url origin : List ℕ) (use_mask : Bool)
    (now : ℕ)
    → Refused connect url origin
    → create_client p connect url origin use_mask now ≡ some (unconnected p use_mask now, [])
unfolding create_client
create_client-Refused p connect url origin use_mask now (inl e) = rw (create_client, e)
create_client-Refused p connect url origin use_mask now (inr (t, e, refused)) =
    rw (create_client, e, refused)

-- A fresh buffer need not move its content.
fresh-MovesApart :
    (malloc : ℕ → Block) (n : ℕ)
    → MovesApart (create malloc default_transmit_buffer_size default_maximum_buffer_size) n
unfolding create
fresh-MovesApart malloc n h k = absurd (omega arith)

destroy_run :
    (p : Platform) (w : WebSocket) (passes : List Pass) {w1 : WebSocket}
    → close p w ≡ some w1
    → close_loop p w1 passes ≡ some (again, w1, [])
    → destroy p w passes ≡ some (again, [])
unfolding destroy
destroy_run p w passes e f = rw (e, f)

destroy-unconnected :
    (p : Platform) (use_mask : Bool) (now : ℕ) (passes : List Pass)
    → IsAllocator p.malloc
    → All IsQuick passes
    → destroy p (unconnected p use_mask now) passes ≡ some (again, [])
unfolding unconnected is_closing is_closed
destroy-unconnected p use_mask now passes a quick =
    let (v, empty) =
      create-IsValid p.malloc default_transmit_buffer_size default_maximum_buffer_size a
        (omega arith) (omega arith) in
    let (b, e, q) = close_lem p (unconnected p use_mask now) a v (fresh-MovesApart p.malloc 6) in
    destroy_run p (unconnected p use_mask now) passes e
      (close_loop-socketless p _ passes refl refl quick)

create_web_socket_run :
    (p : Platform) (connect : List ℕ → Integer → Bool) (url origin : List ℕ) (use_mask : Bool)
    (now : ℕ) (passes : List Pass) {w : WebSocket}
    → create_client p connect url origin use_mask now ≡ some (w, [])
    → is_valid w ≡ false
    → destroy p w passes ≡ some (again, [])
    → create_web_socket p connect url origin use_mask now passes ≡ some (again, none, [])
unfolding create_web_socket
create_web_socket_run p connect url origin use_mask now passes e f g = rw (e, f, g)

-- With an allocator that succeeds: when the URL or the origin is refused, or the connection is, and
-- less than a second lies between two readings of the timer, `WebSocket::create` does not return:
-- after any number of passes the loop of the destructor wants another one.
pub create_web_socket_hangs :
    (p : Platform) (connect : List ℕ → Integer → Bool) (url origin : List ℕ) (use_mask : Bool)
    (now : ℕ) (passes : List Pass)
    → IsAllocator p.malloc
    → Refused connect url origin
    → All IsQuick passes
    → create_web_socket p connect url origin use_mask now passes ≡ some (again, none, [])
create_web_socket_hangs p connect url origin use_mask now passes a refused quick =
    create_web_socket_run p connect url origin use_mask now passes
      (create_client-Refused p connect url origin use_mask now refused)
      (unfold is_valid unconnected in refl) (destroy-unconnected p use_mask now passes a quick)
