-- ===== src/Wsocket/Waiting.antt =====
-- `select` and `nullSelect` of ext/easywsclient/wsocket.cpp: what they ask the system to wait for.
use wsclient.Base.{
  ℕ, ◌+◌, ◌*◌, ◌/◌, ◌%◌, ◌<◌, ◌≡◌, arith, not, ◌&&◌, ◌==◌, Option, none, some, if◌then◌else◌,
}
use wsclient.Base.Scan.{Integer}
use wsclient.Wsocket.{Socket}

-- `timeval`; both parts have the sign of the time in milliseconds.
pub record Timeval : Type 0 where
  pub seconds : Integer
  pub microseconds : Integer

unfoldable pub timeval_of : Integer → Timeval
timeval_of timeout = record {
  seconds = record timeout { magnitude = timeout.magnitude / 1000 };
  microseconds = record timeout { magnitude = timeout.magnitude % 1000 * 1000 };
}

-- A call of `select`: the descriptor to read from, the one to write to, the first argument, and how
-- long to wait; without a time it waits until something happens.
pub record Waiting : Type 0 where
  pub reads : Option ℕ
  pub writes : Option ℕ
  pub bound : ℕ
  pub limit : Option Timeval

unfoldable pub null_select : Integer → Waiting
null_select timeout = record {
  reads = none;
  writes = none;
  bound = 0;
  limit = some (timeval_of timeout);
}

-- `select`; there is no set for `INVALID_SOCKET`.
unfoldable pub select : Socket → Integer → ℕ → Option Waiting
select s timeout tx_buf_size = elim s.descriptor [
  | none ↦ none
  | some d ↦ some (record {
    reads = some d;
    writes = if tx_buf_size == 0 then none else some d;
    bound = d + 1;
    limit =
        if not timeout.negative && not (timeout.magnitude == 0)
        then some (timeval_of timeout)
        else none;
  })
]

abbrev microseconds_in : Timeval → ℕ
microseconds_in t = t.seconds.magnitude * 1000000 + t.microseconds.magnitude

-- The time is the one that was given, and its second part is less than a second.
timeval_of_lem :
    (timeout : Integer)
    → (microseconds_in (timeval_of timeout) ≡ timeout.magnitude * 1000)
      × ((timeval_of timeout).microseconds.magnitude < 1000000)
unfolding timeval_of
timeval_of_lem timeout = (omega arith, omega arith)
