-- ===== src/MemoryMap.antt =====
-- ext/easywsclient/MemoryMap.cpp: a file that is mapped into memory. This is the class for systems
-- other than Windows; MemoryMap/Windows is the other one. What
-- `open`, `lseek` and `mmap` return is given; a descriptor is none for -1, and an address is none for
-- a null pointer.
pub mod Table
pub mod Windows
mod Tests
use wsclient.Base.{
  ℕ, zero, Bool, true, false, ◌==◌, Option, none, some, List, [], ◌∷◌, ◌++◌, if◌then◌else◌,
}
use wsclient.Wsocket.{Call, opened, closed}

-- What the system returns: the file's descriptor, its length, and where `mmap` puts it, or none for
-- `MAP_FAILED`.
pub record Opening : Type 0 where
  pub descriptor : Option ℕ
  pub length : ℕ
  pub address : Option ℕ

pub record MemoryMap : Type 0 where
  pub file_number : Option ℕ
  pub map_length : ℕ
  pub base_address : Option ℕ

-- The constructor: the object, the calls on descriptors, and `size` if it is set. It looks at
-- neither `createOk` nor `readOnly`.
unfoldable pub map_file : Opening → MemoryMap × List Call × Option ℕ
map_file o = elim o.descriptor [
  | none ↦ (record { file_number = none; map_length = 0; base_address = none }, [], none)
  | some d ↦
      if o.length == 0
      then (
        record { file_number = some d; map_length = 0; base_address = none },
        opened d ∷ [],
        some 0,
      )
      else elim o.address [
        | none ↦ (
          record { file_number = some 0; map_length = 0; base_address = none },
          opened d ∷ closed d ∷ [],
          none,
        )
        | some a ↦ (
          record { file_number = some d; map_length = o.length; base_address = some a },
          opened d ∷ [],
          some o.length,
        )
      ]
]

-- `release`: the destructor closes the file; the memory stays mapped.
unfoldable pub release_map : MemoryMap → List Call
release_map m = elim m.file_number [ none ↦ [] | some d ↦ if d == 0 then [] else closed d ∷ [] ]

-- `createMemoryMap`: null when nothing is mapped.
unfoldable pub check_base :
    MemoryMap × List Call × Option ℕ → Option MemoryMap × List Call × Option ℕ
check_base (m, calls, size) = elim m.base_address [
  | none ↦ (none, calls ++ release_map m, size)
  | some a ↦ (some m, calls, size)
]

unfoldable pub create_memory_map : Opening → Option MemoryMap × List Call × Option ℕ
create_memory_map o = check_base (map_file o)
