-- ===== src/MemoryMap/Windows/Prepare.antt =====
-- What the first half of the constructor leaves on Windows, for ext/easywsclient/MemoryMap.cpp.
use wsclient.Base.{
  sum, ℕ, ◌+◌, ◌*◌, ◌≤◌, ◌≡◌, refl, ap, Bool, true, false, not, ◌&&◌, Option, none, some, List, [],
  ◌++◌, All, if◌then◌else◌, Bool-cases, inl, inr,
}
use wsclient.Wsocket.Table.{table_after}
use wsclient.MemoryMap.Windows.{
  is_invalid, opens, closes, Answers, one_mb, get_file_size, Prepared, look_up, make_file,
}
use wsclient.MemoryMap.Windows.Zeros.{wrote_all, write_zeros_lem}
use wsclient.MemoryMap.Windows.Handles.{opens-closes}

-- The size of the file that is to be mapped, by what the system returned: the file that is there has
-- the size that its two halves give; a new one has the size asked for, when it opened, there was
-- memory for the zeros and all of them were written.
abbrev pub file_size : Answers → Bool → ℕ → Option ℕ
file_size a false size =
    if is_invalid a.existing then none else some (a.low_size + 4294967296 * a.high_size)
file_size a true size =
    if not (is_invalid a.fresh) && (a.temp && wrote_all a.written 0 size) then some size else none

abbrev pub is_some : Option ℕ → Bool
is_some none = false
is_some (some n) = true

-- Its handles are closed, the file is as described, and a new file is filled as far as it is good.
pub record Ready (a : Answers) (create_ok : Bool) (size : ℕ) (x : Prepared) : Type 0 where
  pub closed_again : (table : List ℕ) → table_after x.calls table ≡ table
  pub file : (if x.file_ok then some x.size else none) ≡ file_size a create_ok size
  pub bounded : All (λ n. n ≤ one_mb) x.asked
  pub filled : (if create_ok && x.file_ok then sum x.asked else size) ≡ size

pub look_up-Ready : (a : Answers) (size : ℕ) → Ready a false size (look_up a size)
unfolding look_up get_file_size
look_up-Ready a size = elim (Bool-cases (is_invalid a.existing)) [
  | inl no_file ↦
      rw no_file (record {
        closed_again = λ table. refl;
        file = rw no_file refl;
        bounded = tt;
        filled = refl;
      })
  | inr file ↦ rw file (record {
    closed_again = opens-closes a.existing;
    file = rw file refl;
    bounded = tt;
    filled = refl;
  })
]

pub make_file-Ready :
    (fuel : ℕ) (a : Answers) (size : ℕ)
    → size ≤ fuel * one_mb
    → (x : Prepared) × (make_file fuel a size ≡ some x) × Ready a true size x
unfolding make_file
make_file-Ready fuel a size h =
    let calls = opens a.fresh ++ closes a.fresh in
    let (ok, asked, run, filled, same) = write_zeros_lem fuel 0 a.written size h in
    elim (Bool-cases (is_invalid a.fresh)) [
      | inl no_file ↦ (
        record { file_ok = false; size = size; asked = []; calls = [] },
        rw no_file refl,
        record {
          closed_again = λ table. refl;
          file = rw no_file refl;
          bounded = tt;
          filled = refl;
        },
      )
      | inr file ↦ elim (Bool-cases a.temp) [
        | inl memory ↦ (
          record { file_ok = ok; size = size; asked = asked; calls = calls },
          simp (file, memory, run),
          record {
            closed_again = opens-closes a.fresh;
            file = rw (file, memory) (ap (λ t. if t then some size else none) same);
            bounded = filled.bounded;
            filled = whole ok filled.whole;
          },
        )
        | inr no_memory ↦ (
          record { file_ok = false; size = size; asked = []; calls = calls },
          simp (file, no_memory),
          record {
            closed_again = opens-closes a.fresh;
            file = rw (file, no_memory) refl;
            bounded = tt;
            filled = refl;
          },
        )
      ]
    ]
  where
    whole :
        {total : ℕ} (ok : Bool) → (ok ≡ true → total ≡ size) → (if ok then total else size) ≡ size
    whole true e = e refl
    whole false e = refl
