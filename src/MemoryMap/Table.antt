-- ===== src/MemoryMap/Table.antt =====
-- The file of a memory map.
use wsclient.Base.{ℕ, ◌<◌, ◌≡◌, ◌==◌, Option, none, some, List, ◌++◌, if◌then◌else◌}
use wsclient.Wsocket.{Call}
use wsclient.Wsocket.Table.{table_after}
use wsclient.MemoryMap.{Opening, MemoryMap, release_map, check_base}

-- What is mapped, and how long it is: nothing if the file does not open, is empty or cannot be mapped.
abbrev pub mapped : Option ℕ → ℕ → Option ℕ → Option (ℕ × ℕ)
mapped none length address = none
mapped (some d) length none = none
mapped (some d) length (some a) = if length == 0 then none else some (a, length)

abbrev pub mapped_at : Option MemoryMap → Option (ℕ × ℕ)
mapped_at none = none
mapped_at (some m) = elim m.base_address [ none ↦ none | some a ↦ some (a, m.map_length) ]

-- `createMemoryMap`, and `release` of what it returned.
abbrev pub calls_in_all : Option MemoryMap × List Call × Option ℕ → List Call
calls_in_all (none, calls, size) = calls
calls_in_all (some m, calls, size) = calls ++ release_map m

-- What is claimed of the constructor's result.
abbrev Accounts : Opening → List ℕ → MemoryMap × List Call × Option ℕ → Type 0
Accounts o table result =
    (mapped_at ((check_base result).0) ≡ mapped o.descriptor o.length o.address)
    × (table_after (calls_in_all (check_base result)) table ≡ table)

module _ (d length : ℕ) (table : List ℕ) (h : 0 < d) where
  abbrev file : Option ℕ → Opening
  file address = record { descriptor = some d; length = length; address = address }
