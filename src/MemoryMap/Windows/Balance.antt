-- ===== src/MemoryMap/Windows/Balance.antt =====
-- The handles and the view of a memory map on Windows.
use wsclient.Base.{ℕ, ◌≡◌, Option, none, some, List, ◌++◌, if◌then◌else◌}
use wsclient.Wsocket.{Call}
use wsclient.Wsocket.Table.{table_after}
use wsclient.MemoryMap.Windows.{Handle, is_invalid, Answers, WindowsMap, release_handles}

-- Where the view is, if the file opens and is mapped.
abbrev pub view_at : Handle → Handle → Option ℕ → Option ℕ
view_at file mapping view =
    if is_invalid file then none else if is_invalid mapping then none else view

-- What the second half of the constructor leaves, once the object is released.
record Viewed (a : Answers) (size : ℕ) (r : WindowsMap × List Call) : Type 0 where
  length_kept : r.0.map_size ≡ size
  view : r.0.data_address ≡ view_at a.file a.mapping a.view
  balance : (table : List ℕ) → table_after (r.1 ++ release_handles r.0) table ≡ table

-- `createMemoryMap`, and `release` of what it returned.
abbrev pub calls_in_all : Option WindowsMap → List Call → List Call
calls_in_all none calls = calls
calls_in_all (some m) calls = calls ++ release_handles m

-- The size and the place of what is mapped.
abbrev pub view_of : Option WindowsMap → Option (ℕ × ℕ)
view_of none = none
view_of (some m) = elim m.data_address [ none ↦ none | some view ↦ some (m.map_size, view) ]

abbrev pub sized : ℕ → Option ℕ → Option (ℕ × ℕ)
sized size none = none
sized size (some view) = some (size, view)

-- What is mapped: the file that is to be mapped, when it opens and the system gives a view of it.
abbrev pub mapped : Answers → Option ℕ → Option (ℕ × ℕ)
mapped a none = none
mapped a (some n) = sized n (view_at a.file a.mapping a.view)
