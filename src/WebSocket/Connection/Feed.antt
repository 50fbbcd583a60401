-- ===== src/WebSocket/Connection/Feed.antt =====
-- Calls of `processConnection` for several bytes.
use wsclient.Base.{
  ℕ, ◌-◌, ◌<◌, ◌≡◌, ap, ◌∙◌, Bool, true, false, not, Option, some, List, [], ◌∷◌, ◌++◌, arith,
  length, ◌==◌, ◌&&◌, ◌>>=◌, append_assoc, All, Option-cases, inl, inr,
}
use wsclient.WebSocket.{WebSocket, Event}
use wsclient.WebSocket.Connection.{connection_time_out, process_connection}

-- A call of `processConnection` for each byte that arrives, all at one time in whole seconds.
unfoldable pub feed : WebSocket → ℕ → List ℕ → Option (WebSocket × List Event)
feed w now [] = some (w, [])
feed w now (b ∷ bs) = do
  (w1, events) ← process_connection w now (some b)
  (w2, events') ← feed w1 now bs
  some (w2, events ++ events')

-- The socket waits for a byte, within its time.
pub record IsWaiting (w : WebSocket) (now : ℕ) : Type 0 where
  pub connected : w.socket ≡ true
  pub in_time : now - w.connection_timer < connection_time_out
  pub stored : length w.connection_buffer ≡ 256

-- A byte of text: neither a line feed nor a zero.
abbrev pub IsText : List ℕ → Type 0
IsText xs = All (λ x. ((x == 10) ≡ false) × ((x == 0) ≡ false)) xs

-- What comes in two parts: the second part finds what the first has left.
then_feed : ℕ → List ℕ → WebSocket × List Event → Option (WebSocket × List Event)
then_feed now ys (w1, events) = do (w2, events') ← feed w1 now ys; some (w2, events ++ events')

feed_split :
    (w : WebSocket) (now : ℕ) (xs ys : List ℕ)
    → feed w now (xs ++ ys) ≡ (feed w now xs >>= then_feed now ys)
unfolding feed then_feed
feed_split w now [] ys = elim (Option-cases (feed w now ys)) [ inl e ↦ rw e | inr (r, e) ↦ rw e ]
feed_split w now (x ∷ xs) ys = elim (Option-cases (process_connection w now (some x))) [
  | inl e ↦ rw e
  | inr (r, e) ↦
      rw (e, feed_split (r.0) now xs ys)
        (elim (Option-cases (feed (r.0) now xs)) [
          | inl e ↦ rw e
          | inr (s, e) ↦ rw e (elim (Option-cases (feed (s.0) now ys)) [
            | inl e ↦ rw e
            | inr (t, e) ↦ rw (e, append_assoc (r.1) (s.1) (t.1))
          ])
        ])
]

-- The same as a test.
abbrev pub is_text : List ℕ → Bool
is_text [] = true
is_text (x ∷ xs) = not (x == 10) && (not (x == 0) && is_text xs)

pub is_text-IsText : (xs : List ℕ) → is_text xs ≡ true → IsText xs
is_text-IsText [] e = tt
is_text-IsText (x ∷ xs) e = ground (arith, is_text-IsText xs)

pub feed-append :
    (w : WebSocket) (now : ℕ) (xs ys : List ℕ) {w1 w2 : WebSocket} {events events' : List Event}
    → feed w now xs ≡ some (w1, events)
    → feed w1 now ys ≡ some (w2, events')
    → feed w now (xs ++ ys) ≡ some (w2, events ++ events')
unfolding then_feed
feed-append w now xs ys {w1} {w2} {events} {events'} e f =
    feed_split w now xs ys ∙ ap (λ o. o >>= then_feed now ys) e ∙ rw f
