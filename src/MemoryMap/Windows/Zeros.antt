-- ===== src/MemoryMap/Windows/Zeros.antt =====
-- The loop that fills a new file.
use wsclient.Base.{
  sum, ℕ, zero, suc, ◌+◌, ◌-◌, ◌*◌, ◌≤◌, ◌≡◌, refl, sym, Bool, true, false, some, List, [], ◌∷◌,
  arith, leb, ◌==◌, ◌&&◌, ◌||◌, ◌/◌, ◌%◌, ◌<◌, ap, ◌∙◌, le→leb, lt→leb, lt-cases, All,
  if◌then◌else◌, Bool-cases, inl, inr,
}
use wsclient.MemoryMap.Windows.{one_mb, write_zeros}

-- The system wrote each of so many megabytes as a whole, from the call `i` on.
abbrev pub megabytes : (ℕ → ℕ) → ℕ → ℕ → Bool
megabytes written i zero = true
megabytes written i (suc n) = written i == one_mb && megabytes written (i + 1) n

-- The system wrote every whole megabyte of a size, and then what is left of it, if something is.
abbrev pub wrote_all : (ℕ → ℕ) → ℕ → ℕ → Bool
wrote_all written i size =
    let n = size / one_mb in
    megabytes written i n && (size % one_mb == 0 || written (i + n) == size % one_mb)

&&_assoc : (a b c : Bool) → ((a && b) && c) ≡ (a && (b && c))
&&_assoc true b c = refl
&&_assoc false b c = refl

wrote_all-nothing : (written : ℕ → ℕ) (i : ℕ) → wrote_all written i 0 ≡ true
wrote_all-nothing written i = refl

wrote_all-rest :
    (written : ℕ → ℕ) (i size : ℕ)
    → 0 < size
    → size < one_mb
    → wrote_all written i size ≡ (written i == size)
wrote_all-rest written i size h k =
    let none_whole : size / one_mb ≡ 0 = omega arith in
    let left : size % one_mb ≡ size = omega arith in
    let more : (size == 0) ≡ false = ground arith in
    let here : i + 0 ≡ i = omega arith in rw (none_whole, left, more, here) refl

wrote_all-more :
    (written : ℕ → ℕ) (i size : ℕ)
    → one_mb ≤ size
    → wrote_all written i size ≡ (written i == one_mb && wrote_all written (i + 1) (size - one_mb))
wrote_all-more written i size h =
    let n = (size - one_mb) / one_mb in
    let whole : size / one_mb ≡ suc n = omega arith in
    let left : (size - one_mb) % one_mb ≡ size % one_mb = omega arith in
    let there : i + suc n ≡ (i + 1) + n = omega arith in
    rw (whole, left, there)
      (&&_assoc (written i == one_mb) (megabytes written (i + 1) n)
        (size % one_mb == 0 || written ((i + 1) + n) == size % one_mb))

-- The next piece, and the others.
wrote_all-step :
    (written : ℕ → ℕ) (i size : ℕ)
    → 0 < size
    → let w = if leb one_mb size then one_mb else size in
      wrote_all written i size ≡ (written i == w && wrote_all written (i + 1) (size - w))
wrote_all-step written i size h = elim (lt-cases size one_mb) [
  | inl last ↦
      let short : leb one_mb size ≡ false = lt→leb _ _ last in
      let nothing : size - size ≡ 0 = omega arith in
      rw (short, nothing) (wrote_all-rest written i size h last ∙ and_true (written i == size))
  | inr whole ↦
      let long : leb one_mb size ≡ true = le→leb _ _ whole in
      rw long (wrote_all-more written i size whole)
]
  where
    and_true : (t : Bool) → t ≡ (t && true)
    and_true true = refl
    and_true false = refl

-- What the loop asks to be written: at most a megabyte at a time, and in all the whole size, if the
-- system wrote everything.
pub record Filled (size : ℕ) (ok : Bool) (asked : List ℕ) : Type 0 where
  pub bounded : All (λ n. n ≤ one_mb) asked
  pub whole : ok ≡ true → sum asked ≡ size

-- With fuel for every megabyte that was begun, the loop comes to its end, with success when the
-- system wrote everything; it asks for at most a megabyte at a time, and when it ends with success
-- it has asked for the whole size.
pub write_zeros_lem :
    (fuel i : ℕ) (written : ℕ → ℕ) (size : ℕ)
    → size ≤ fuel * one_mb
    → (ok : Bool) × (asked : List ℕ) × (write_zeros fuel i written size ≡ some (ok, asked))
      × Filled size ok asked
      × (ok ≡ wrote_all written i size)
unfolding write_zeros
write_zeros_lem zero i written size h =
    let none_left : size ≡ 0 = omega arith in
    let ends : (size == 0) ≡ true = ground arith in
    (
      true,
      [],
      rw ends refl,
      record { bounded = tt; whole = λ _. omega arith },
      rw none_left (sym (wrote_all-nothing written i)),
    )
write_zeros_lem (suc fuel) i written size h =
    let w = if leb one_mb size then one_mb else size in
    let small : w ≤ one_mb = ground arith in
    let part : w ≤ size = ground arith in
    let (ok, asked, run, filled, same) =
      write_zeros_lem fuel (i + 1) written (size - w) (ground arith) in
    elim (Bool-cases (size == 0)) [
      | inl nothing ↦
          let none_left : size ≡ 0 = ground (arith, nothing) in
          (
            true,
            [],
            rw nothing refl,
            record { bounded = tt; whole = λ _. sym none_left },
            rw none_left (sym (wrote_all-nothing written i)),
          )
      | inr more ↦
          let step = wrote_all-step written i size (ground (arith, more)) in
          elim (Bool-cases (written i == w)) [
            | inl all ↦ (
              ok,
              w ∷ asked,
              rw (more, all, run) refl,
              record {
                bounded = (small, filled.bounded);
                whole = λ e. omega (arith, filled.whole e);
              },
              same ∙ sym (step ∙ ap (λ t. t && wrote_all written (i + 1) (size - w)) all),
            )
            | inr missing ↦ (
              false,
              w ∷ [],
              rw (more, missing) refl,
              record { bounded = (small, tt); whole = λ e. absurd (cc e) },
              sym (step ∙ ap (λ t. t && wrote_all written (i + 1) (size - w)) missing),
            )
          ]
    ]
