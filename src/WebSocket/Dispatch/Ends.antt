-- ===== src/WebSocket/Dispatch/Ends.antt =====
-- The end of the loop of `_dispatchBinary`.
use wsclient.Base.{
  ℕ, zero, suc, ◌<◌, ◌≡◌, sym, subst, Option, some, none, List, arith, Option-cases, Bool-cases,
  inl, inr, ◌==◌,
}
use wsclient.SimpleBuffer.{get_data, get_size}
use wsclient.Frame.{Header, parse_header, frame_size}
use wsclient.WebSocket.{WebSocket, Platform, Event}
use wsclient.WebSocket.Dispatch.{Turn, again, stop, dispatch_round, dispatch_binary}
use wsclient.WebSocket.Dispatch.Place.{InOrder}
use wsclient.WebSocket.Dispatch.Progress.{Took, dispatch_round-Took}

-- Rounds of the loop, one after the other.
pub data Rounds (p : Platform) : WebSocket → WebSocket → Type 0 where
  no_round : {w : WebSocket} → Rounds p w w
  one_round :
      {w w1 w2 : WebSocket} (seed : ℕ) (events : List Event)
      → dispatch_round p w seed ≡ some (again, w1, events)
      → Rounds p w1 w2
      → Rounds p w w2

-- The content begins with a header whose frame has the size 0 in 32 bits.
pub record IsStalled (w : WebSocket) : Type 0 where
  pub header : Header
  pub found : parse_header (get_data w.receive_buffer) ≡ some header
  pub wraps : frame_size header ≡ 0

abbrev pub ComesToStall : Platform → WebSocket → Type 0
ComesToStall p w = (w0 : WebSocket) × Rounds p w w0 × IsStalled w0

-- What a result of the loop says about the state that it began with.
abbrev Ends : Platform → WebSocket → Option (Turn × WebSocket × List Event) → Type 0
Ends p w none = Unit {0}
Ends p w (some (stop, w', events)) = Unit {0}
Ends p w (some (again, w', events)) = ComesToStall p w

round_again :
    (fuel : ℕ) (p : Platform) (w w1 : WebSocket) (seeds : ℕ → ℕ) (events : List Event)
    → dispatch_round p w (seeds fuel) ≡ some (again, w1, events)
    → Took w (some (again, w1, events))
    → (get_size w1.receive_buffer < get_size w.receive_buffer
        → Ends p w1 (dispatch_binary fuel p w1 seeds))
    → Ends p w (dispatch_binary (suc fuel) p w seeds)
unfolding dispatch_binary
round_again fuel p w w1 seeds events e (header, found, left) rest =
    elim (Bool-cases (frame_size header == 0)) [
      | inl stalled ↦ after (
        w,
        Rounds.no_round,
        record { header = header; found = found; wraps = ground (arith, stalled) },
      )
      | inr more ↦
          let less : get_size w1.receive_buffer < get_size w.receive_buffer =
            ground (arith, left.size, more) in
          let ends = rest less in
          rw e (elim (Option-cases (dispatch_binary fuel p w1 seeds)) [
            | inl f ↦ rw f tt
            | inr ((stop, w2, events'), f) ↦ rw f tt
            | inr ((again, w2, events'), f) ↦
                let (w0, rounds, stalled) : ComesToStall p w1 = rw f at ends in
                rw f (w0, Rounds.one_round (seeds fuel) events e rounds, stalled)
          ])
    ]
  where
    after : ComesToStall p w → Ends p w (dispatch_binary (suc fuel) p w seeds)
    after stall = elim (Option-cases (dispatch_binary (suc fuel) p w seeds)) [
      | inl f ↦ subst (Ends p w) (sym f) tt
      | inr ((stop, w2, events'), f) ↦ subst (Ends p w) (sym f) tt
      | inr ((again, w2, events'), f) ↦ subst (Ends p w) (sym f) stall
    ]

loop-Ends :
    (fuel : ℕ) (p : Platform) (w : WebSocket) (seeds : ℕ → ℕ)
    → InOrder w.receive_buffer
    → get_size w.receive_buffer < fuel
    → Ends p w (dispatch_binary fuel p w seeds)
unfolding dispatch_binary
loop-Ends zero p w seeds o h = absurd (omega arith)
loop-Ends (suc fuel) p w seeds o h =
    let took = dispatch_round-Took p w (seeds fuel) o in
    elim (Option-cases (dispatch_round p w (seeds fuel))) [
      | inl e ↦ rw e tt
      | inr ((stop, w1, events), e) ↦ rw e tt
      | inr ((again, w1, events), e) ↦
          let left : Took w (some (again, w1, events)) = rw e at took in
          round_again fuel p w w1 seeds events e left
            λ less. loop-Ends fuel p w1 seeds (left.2.in_order) (omega arith)
    ]

-- Whatever bytes the receive buffer holds, with its positions in order: given more fuel than there
-- are bytes, the loop wants another round only if some number of its rounds comes to a frame whose
-- size in 32 bits is 0. In every other case in which it is defined it comes to its end.
pub dispatch_binary-ends :
    (fuel : ℕ) (p : Platform) (w w' : WebSocket) (seeds : ℕ → ℕ) (events : List Event)
    → InOrder w.receive_buffer
    → get_size w.receive_buffer < fuel
    → dispatch_binary fuel p w seeds ≡ some (again, w', events)
    → ComesToStall p w
dispatch_binary-ends fuel p w w' seeds events o h e =
    subst (Ends p w) e (loop-Ends fuel p w seeds o h)
