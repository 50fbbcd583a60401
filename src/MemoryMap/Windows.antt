-- ===== src/MemoryMap/Windows.antt =====
-- The class of ext/easywsclient/MemoryMap.cpp for Windows. What the calls of the system return is
-- given.
pub mod Zeros
pub mod Handles
pub mod Prepare
pub mod Balance
mod Tests
use wsclient.Base.{
  ℕ, zero, suc, ◌+◌, ◌-◌, ◌*◌, ◌^◌, Bool, true, false, not, leb, ◌==◌, Option, none, some, List, [],
  ◌∷◌, ◌++◌, if◌then◌else◌, ◌>>=◌,
}
use wsclient.Wsocket.{Call, opened, closed}

-- `INVALID_HANDLE_VALUE` and the null handle are no objects.
pub data Handle : Type 0 where
  invalid null : Handle
  handle : ℕ → Handle

abbrev pub is_invalid : Handle → Bool
is_invalid invalid = true
is_invalid null = false
is_invalid (handle h) = false

abbrev pub opens : Handle → List Call
opens invalid = []
opens null = []
opens (handle h) = opened h ∷ []

-- `CloseHandle`
abbrev pub closes : Handle → List Call
closes invalid = []
closes null = []
closes (handle h) = closed h ∷ []

-- What the system returns: the file that is there, and the two halves of its size; the file that is
-- made anew, whether `malloc` succeeds, and how many bytes each `WriteFile` wrote; the file that is
-- mapped, the mapping, and where its view is.
pub record Answers : Type 0 where
  pub existing : Handle
  pub low_size : ℕ
  pub high_size : ℕ
  pub fresh : Handle
  pub temp : Bool
  pub written : ℕ → ℕ
  pub file : Handle
  pub mapping : Handle
  pub view : Option ℕ

pub record WindowsMap : Type 0 where
  pub map_size : ℕ
  pub map_file : Handle
  pub map_handle : Handle
  pub data_address : Option ℕ

abbrev pub one_mb : ℕ
one_mb = 1048576

-- `getFileSize`, on a machine that stores the low half first.
unfoldable pub get_file_size : ℕ → ℕ → ℕ
get_file_size low high = low + 2 ^ 32 * high

-- The loop that fills the file with zeros: whether all was written, and the sizes that `WriteFile` was
-- called with; none when the fuel is used up.
unfoldable pub write_zeros : ℕ → ℕ → (ℕ → ℕ) → ℕ → Option (Bool × List ℕ)
write_zeros zero i written write_size = if write_size == 0 then some (true, []) else none
write_zeros (suc fuel) i written write_size =
    let w = if leb one_mb write_size then one_mb else write_size in
    let rest = do
      (ok, asked) ← write_zeros fuel (i + 1) written (write_size - w)
      some (ok, w ∷ asked)
    in if write_size == 0
      then some (true, [])
      else if written i == w
      then rest
      else some (false, w ∷ [])

-- What the first half of the constructor leaves: `fileOk`, `size`, the sizes that were written, and
-- the calls on handles.
pub record Prepared : Type 0 where
  pub file_ok : Bool
  pub size : ℕ
  pub asked : List ℕ
  pub calls : List Call

-- Without `createOk`: the size of the file that is there.
unfoldable pub look_up : Answers → ℕ → Prepared
look_up a size =
    if is_invalid a.existing
    then record { file_ok = false; size = size; asked = []; calls = [] }
    else record {
      file_ok = true;
      size = get_file_size a.low_size a.high_size;
      asked = [];
      calls = opens a.existing ++ closes a.existing;
    }

-- With `createOk`: a new file of zeros.
unfoldable pub make_file : ℕ → Answers → ℕ → Option Prepared
make_file fuel a size =
    let calls = opens a.fresh ++ closes a.fresh in
    let fill = do
      (ok, asked) ← write_zeros fuel 0 a.written size
      some (record { file_ok = ok; size = size; asked = asked; calls = calls })
    in if is_invalid a.fresh
      then some (record { file_ok = false; size = size; asked = []; calls = [] })
      else if a.temp
      then fill
      else some (record { file_ok = false; size = size; asked = []; calls = calls })

-- The second half.
unfoldable pub map_view : Answers → ℕ → WindowsMap × List Call
map_view a size =
    if is_invalid a.file
    then (record { map_size = size; map_file = null; map_handle = null; data_address = none }, [])
    else if is_invalid a.mapping
    then (
      record { map_size = size; map_file = null; map_handle = invalid; data_address = none },
      opens a.file ++ closes a.file,
    )
    else elim a.view [
      | none ↦ (
        record { map_size = size; map_file = null; map_handle = null; data_address = none },
        opens a.file ++ (opens a.mapping ++ (closes a.mapping ++ closes a.file)),
      )
      | some view ↦ (
        record {
          map_size = size;
          map_file = a.file;
          map_handle = a.mapping;
          data_address = some view;
        },
        opens a.file ++ opens a.mapping,
      )
    ]

-- The destructor.
unfoldable pub release_handles : WindowsMap → List Call
release_handles m = closes m.map_handle ++ closes m.map_file

-- The constructor behind what is prepared.
unfoldable pub construct : Answers → Prepared → WindowsMap × List Call
construct a x =
    if x.file_ok
    then (let (m, calls) = map_view a x.size in (m, x.calls ++ calls))
    else (record { map_size = 0; map_file = null; map_handle = null; data_address = none }, x.calls)

-- The end of `createMemoryMap`: null when nothing is mapped.
unfoldable pub check_view : WindowsMap × List Call → Option WindowsMap × List Call
check_view (m, calls) = elim m.data_address [
  | none ↦ (none, calls ++ release_handles m)
  | some view ↦ (some m, calls)
]

-- `createMemoryMap`: what is prepared, the object or null, and all calls on handles. `readOnly` only
-- goes to the system.
unfoldable pub create_windows_map :
    ℕ → Answers → Bool → ℕ → Option (Prepared × Option WindowsMap × List Call)
create_windows_map fuel a create_ok size = do
  x ← if create_ok then make_file fuel a size else some (look_up a size)
  let (result, calls) = check_view (construct a x)
  some (x, result, calls)
