-- ===== src/Lstab/Update.antt =====
-- Reading a leap second file.
use lyp_lyl.Prelude.{
  get_elem?, ℕ, zero, suc, ◌+◌, ◌-◌, ◌%◌, ◌^◌, ◌≤◌, ◌<◌, ◌≡◌, refl, ◌≢◌, true, false, some, List,
  [], ◌∷◌, arith,
}
use lyp_lyl.Prelude.Int.{ℤ}
use lyp_lyl.Prelude.Memory.{write}
use lyp_lyl.Lstab.{
  n_leaps, ntp_utc_offset, epoch_marker_init, read_loop, lstab_read, update_leapsecond_table,
  lstab_utc2tai, Lstab, Line, expiration, leap, other, LeapFile, unknown,
}

-- The leap second lines of a file.
abbrev pub leaps : List Line → List (ℕ × ℤ)
leaps [] = []
leaps (leap val offset ∷ ls) = (val, offset) ∷ leaps ls
leaps (expiration e ∷ ls) = leaps ls
leaps (other ∷ ls) = leaps ls

abbrev set_expiration : ℕ → Lstab → Lstab
set_expiration e t = record t { expiration_utc = (e + 2 ^ 64 - ntp_utc_offset) % 2 ^ 64 }

abbrev set_entry : ℕ → ℕ → ℤ → Lstab → Lstab
set_entry index val offset t = record t {
  lstab = write t.lstab index (epoch_marker_init val offset);
}

-- The loop writes only inside the array, and never before its start index.
pub read_loop_bounds :
    (ls : List Line) (index : ℕ) (t : Lstab)
    → index ≤ n_leaps
    → (index ≤ (read_loop ls index t).1) × ((read_loop ls index t).1 ≤ n_leaps)
unfolding read_loop
read_loop_bounds [] index t h = omega arith
read_loop_bounds (expiration e ∷ ls) index t h =
    ground (arith, read_loop_bounds ls index (set_expiration e t))
read_loop_bounds (leap val offset ∷ ls) index t h =
    ground (arith, read_loop_bounds ls (index + 1) (set_entry index val offset t))
read_loop_bounds (other ∷ ls) index t h = ground (arith, read_loop_bounds ls index t)

read_loop-before :
    (ls : List Line) (index : ℕ) (t : Lstab) (j : ℕ)
    → j < index
    → (read_loop ls index t).0.lstab j ≡ t.lstab j
unfolding read_loop
read_loop-before [] index t j h = refl
read_loop-before (expiration e ∷ ls) index t j h =
    ground (arith, read_loop-before ls index (set_expiration e t) j)
read_loop-before (leap val offset ∷ ls) index t j h =
    ground (arith, read_loop-before ls (index + 1) (set_entry index val offset t) j)
read_loop-before (other ∷ ls) index t j h = ground (arith, read_loop-before ls index t j)

read_loop-get_elem? :
    (ls : List Line) (index : ℕ) (t : Lstab) (i k : ℕ)
    → k ≡ index + i
    → k < n_leaps
    → (val : ℕ) (offset : ℤ) → get_elem? (leaps ls) i ≡ some (val, offset)
    → (read_loop ls index t).0.lstab k ≡ epoch_marker_init val offset
unfolding read_loop
read_loop-get_elem? [] index t i k e h val offset g = cc
read_loop-get_elem? (expiration x ∷ ls) index t i k e h val offset g =
    ground (arith, read_loop-get_elem? ls index (set_expiration x t) i k e h val offset g)
read_loop-get_elem? (leap v o ∷ ls) index t zero k e h val offset g =
    ground (arith, read_loop-before ls (index + 1) (set_entry index v o t) k)
read_loop-get_elem? (leap v o ∷ ls) index t (suc i) k e h val offset g =
    let k-next : k ≡ index + 1 + i = omega arith in
    ground
      (arith, read_loop-get_elem? ls (index + 1) (set_entry index v o t) i k k-next h val offset g)
read_loop-get_elem? (other ∷ ls) index t i k e h val offset g =
    ground (arith, read_loop-get_elem? ls index t i k e h val offset g)

-- Reading a file stores its leap second lines in order, each as the marker of its time and offset,
-- from the start index on and as far as the array reaches.
pub read_loop-entries :
    (ls : List Line) (index : ℕ) (t : Lstab) (i : ℕ)
    → index + i < n_leaps
    → (val : ℕ) (offset : ℤ) → get_elem? (leaps ls) i ≡ some (val, offset)
    → (read_loop ls index t).0.lstab (index + i) ≡ epoch_marker_init val offset
read_loop-entries ls index t i h val offset g =
    read_loop-get_elem? ls index t i (index + i) refl h val offset g

-- A table from a file whose re-reading fails knows no offset: the conversion answers unknown,
-- whatever the time, and leaves the table empty.
pub lstab_utc2tai-failed :
    (file : LeapFile) (t : Lstab) (mtime utctime : ℕ)
    → t.leapfile ≡ true
    → file.mtime ≡ some mtime
    → t.lsfile_mtime ≢ mtime
    → (lstab_read file.lines t).1 ≡ false
    → ((lstab_utc2tai file t utctime).1 ≡ unknown) × ((lstab_utc2tai file t utctime).0.length ≡ 0)
unfolding lstab_utc2tai update_leapsecond_table
lstab_utc2tai-failed file t mtime utctime lf m new bad = ground arith
