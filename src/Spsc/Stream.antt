-- ===== src/Spsc/Stream.antt =====
-- Any sequence of calls by one writer and one reader: the ring is a pipe.
use wsclient.Base.{
  ℕ, ◌≡◌, refl, sym, ap, ◌∙◌, true, false, Option, some, List, [], ◌∷◌, ◌++◌, length, take, min,
  ◌>>=◌, append_assoc, append-nil,
}
use wsclient.Spsc
use wsclient.Spsc.{Shared, Endpoint, size, calc_size}
use wsclient.Spsc.Invariant.{IsValid, contents}
use wsclient.Spsc.Write.{accepted, write_lem}
use wsclient.Spsc.Read.{read_lem}

pub data Call : Type 0 where
  put : List ℕ → Call
  get : ℕ → Call

-- The bytes that the writer handed over, those that the reader got, and the last state.
unfoldable pub run : Endpoint → Endpoint → Shared → List Call → Option (List ℕ × List ℕ × Shared)
run w r s [] = some ([], [], s)
run w r s (put bytes ∷ calls) = do
  (n, s') ← Spsc.write w s bytes (length bytes)
  (sent, got, t) ← run w r s' calls
  some (take n bytes ++ sent, got, t)
run w r s (get n ∷ calls) = do
  (k, bytes, s') ← Spsc.read r s n
  (sent, got, t) ← run w r s' calls
  some (sent, bytes ++ got, t)

-- The two ends of one ring.
pub record IsPair (w r : Endpoint) : Type 0 where
  pub writes : w.is_writer ≡ true
  pub reads : r.is_writer ≡ false
  pub other : r.attached ≡ true
  pub same : r.capacity ≡ w.capacity

-- Validity and content do not depend on the end.
pub turn :
    {e f : Endpoint} {s : Shared}
    → f.attached ≡ true
    → f.capacity ≡ e.capacity
    → IsValid e s
    → IsValid f s
unfolding size calc_size
turn {e} {f} {s} b c v = record {
  bound = b;
  small = rw c v.small;
  stored = rw c v.stored;
  read_in = rw c v.read_in;
  write_in = rw c v.write_in;
  free = rw c v.free;
}

pub same_contents :
    (e f : Endpoint) (s : Shared) → f.capacity ≡ e.capacity → contents e s ≡ contents f s
same_contents e f s c = rw c refl

-- What a run leaves.
pub record Piped (w : Endpoint) (s : Shared) (sent got : List ℕ) (t : Shared) : Type 0 where
  pub valid : IsValid w t
  pub stream : contents w s ++ sent ≡ got ++ contents w t

-- From a valid ring, in every sequence of whole calls by its writer and its reader each call is
-- defined, the ring stays valid, and the bytes come out in the order in which they went in: what
-- was in the ring, followed by what was sent, is what was got, followed by what is left.
pub run-Piped :
    (w r : Endpoint) (s : Shared) (calls : List Call)
    → IsPair w r
    → IsValid w s
    → (sent : List ℕ) × (got : List ℕ) × (t : Shared) × (run w r s calls ≡ some (sent, got, t))
      × Piped w s sent got t
unfolding run
run-Piped w r s [] p v = ([], [], s, refl, record { valid = v; stream = append-nil (contents w s) })
run-Piped w r s (put bytes ∷ calls) p v =
    let (s', e, x) = write_lem bytes v p.writes in
    let (sent, got, t, f, y) = run-Piped w r s' calls p x.valid in
    let front = take (accepted w s (length bytes)) bytes in
    (
      front ++ sent,
      got,
      t,
      rw (e, f),
      record {
        valid = y.valid;
        stream =
            sym (append_assoc (contents w s) front sent)
            ∙ ap (λ u. u ++ sent) (sym x.content)
            ∙ y.stream;
      },
    )
run-Piped w r s (get n ∷ calls) p v =
    let (s', e, x) = read_lem n (turn p.other p.same v) p.reads in
    let bytes = take (min n (size r s)) (contents r s) in
    let (sent, got, t, f, y) = run-Piped w r s' calls p (turn v.bound (sym p.same) x.valid) in
    let split : contents w s ≡ bytes ++ contents w s' =
      same_contents w r s p.same
      ∙ x.content
      ∙ ap (λ u. bytes ++ u) (sym (same_contents w r s' p.same)) in
    (
      sent,
      bytes ++ got,
      t,
      rw (e, f),
      record {
        valid = y.valid;
        stream =
            ap (λ u. u ++ sent) split
            ∙ append_assoc bytes (contents w s') sent
            ∙ ap (λ u. bytes ++ u) y.stream
            ∙ sym (append_assoc bytes got (contents w t));
      },
    )
