-- ===== src/Lstab.antt =====
-- lstab.c: the leap second table. Times are uint64_t; an int offset is a ℤ. The array is a function
-- of the index, of which the code uses the entries below `length`.
pub mod Search
pub mod History
pub mod Update
use lyp_lyl.Prelude.{
  ltb, leb, ◌==◌, if◌then◌else◌, ℕ, zero, suc, ◌+◌, ◌-◌, ◌*◌, ◌%◌, ◌^◌, Bool, true, false, not,
  ◌&&◌, Option, none, some, List, [], ◌∷◌,
}
use lyp_lyl.Prelude.Int.{ℤ, pos, negsuc}
use lyp_lyl.Prelude.Memory.{write}

abbrev pub n_leaps : ℕ
n_leaps = 228

abbrev pub ntp_utc_offset : ℕ
ntp_utc_offset = 2208988800

-- struct epoch_marker
pub record EpochMarker : Type 0 where
  pub offset : ℤ
  pub ntp : ℕ
  pub tai : ℕ
  pub utc : ℕ

-- struct lstab. `leapfile` is false where the table is the built-in one; `expiration_utc` is zero
-- where no file gave it.
pub record Lstab : Type 0 where
  pub lstab : ℕ → EpochMarker
  pub expiration_utc : ℕ
  pub leapfile : Bool
  pub lsfile_mtime : ℕ
  pub length : ℕ

-- An int as the 64 bit word that it is converted to.
abbrev pub word64 : ℤ → ℕ
word64 (pos n) = n % 2 ^ 64
word64 (negsuc n) = 2 ^ 64 - 1 - n % 2 ^ 64

unfoldable pub epoch_marker_init : ℕ → ℤ → EpochMarker
epoch_marker_init val offset =
    let utc = (val + 2 ^ 64 - ntp_utc_offset) % 2 ^ 64 in
    record { offset = offset; ntp = val; tai = (utc + word64 offset) % 2 ^ 64; utc = utc }

-- What the two calls of sscanf make of a line of the file.
pub data Line : Type 0 where
  expiration : ℕ → Line
  leap : ℕ → ℤ → Line
  other : Line

-- The loop over the lines, from an index of the array.
unfoldable pub read_loop : List Line → ℕ → Lstab → Lstab × ℕ
read_loop [] index t = (t, index)
read_loop (expiration e ∷ ls) index t =
    let t' = record t { expiration_utc = (e + 2 ^ 64 - ntp_utc_offset) % 2 ^ 64 } in
    let rest = read_loop ls index t' in if ltb index n_leaps then rest else (t, index)
read_loop (leap val offset ∷ ls) index t =
    let t' = record t { lstab = write t.lstab index (epoch_marker_init val offset) } in
    let rest = read_loop ls (index + 1) t' in if ltb index n_leaps then rest else (t, index)
read_loop (other ∷ ls) index t =
    let rest = read_loop ls index t in if ltb index n_leaps then rest else (t, index)

-- The file is `none` where fopen fails. The answer is true for the return value 0.
unfoldable pub lstab_read : Option (List Line) → Lstab → Lstab × Bool
unfolding read_loop
lstab_read none t = (t, false)
lstab_read (some ls) t =
    let (t', index) = read_loop ls 0 t in
    if t'.expiration_utc == 0 then (t', false) else (record t' { length = index }, true)

-- The file as the system shows it: its modification time, if stat succeeds, and its lines.
pub record LeapFile : Type 0 where
  pub mtime : Option ℕ
  pub lines : Option (List Line)

unfoldable pub update_leapsecond_table : LeapFile → Lstab → Lstab × Bool
update_leapsecond_table file t = if not t.leapfile then (t, true) else elim file.mtime [
  | none ↦ (t, false)
  | some mtime ↦
      if t.lsfile_mtime == mtime
      then (t, true)
      else let (t', done) = lstab_read file.lines t in
        if done
        then (record t' { lsfile_mtime = mtime }, true)
        else (record t' { length = 0 }, false)
]

-- The loop of lstab_utc2tai over the indices below `n`, from the last one down.
unfoldable pub search_epoch : (ℕ → EpochMarker) → ℕ → ℕ → Option ℕ
search_epoch lstab zero utctime = none
search_epoch lstab (suc n) utctime =
    if leb (lstab n).utc utctime then some n else search_epoch lstab n utctime

-- enum lstab_result; where the code sets *tai_offset, its value.
pub data Result : Type 0 where
  valid expired ambiguous : ℤ → Result
  unknown : Result

-- The part of lstab_utc2tai after the update of the table.
unfoldable pub lookup_epoch : Lstab → ℕ → Result
lookup_epoch t utctime = elim (search_epoch t.lstab t.length utctime) [
  | none ↦ unknown
  | some epoch ↦
      let next = epoch + 1 in
      let tai_offset = (t.lstab epoch).offset in
      if ltb next t.length && utctime == (t.lstab next).utc - 1
      then ambiguous tai_offset
      else if ltb t.expiration_utc utctime
      then expired tai_offset
      else valid tai_offset
]

unfoldable pub lstab_utc2tai : LeapFile → Lstab → ℕ → Lstab × Result
lstab_utc2tai file t utctime =
    let (t', done) = update_leapsecond_table file t in
    if done then (t', lookup_epoch t' utctime) else (t', unknown)

abbrev pub empty_marker : EpochMarker
empty_marker = record { offset = pos 0; ntp = 0; tai = 0; utc = 0 }

-- offset_table: the NTP time of each historical leap second, and the offset from then on.
abbrev pub offset_table : List (ℕ × ℕ)
offset_table =
    (2272060800, 10)
    ∷ (2287785600, 11)
    ∷ (2303683200, 12)
    ∷ (2335219200, 13)
    ∷ (2366755200, 14)
    ∷ (2398291200, 15)
    ∷ (2429913600, 16)
    ∷ (2461449600, 17)
    ∷ (2492985600, 18)
    ∷ (2524521600, 19)
    ∷ (2571782400, 20)
    ∷ (2603318400, 21)
    ∷ (2634854400, 22)
    ∷ (2698012800, 23)
    ∷ (2776982400, 24)
    ∷ (2840140800, 25)
    ∷ (2871676800, 26)
    ∷ (2918937600, 27)
    ∷ (2950473600, 28)
    ∷ (2982009600, 29)
    ∷ (3029443200, 30)
    ∷ (3076704000, 31)
    ∷ (3124137600, 32)
    ∷ (3345062400, 33)
    ∷ (3439756800, 34)
    ∷ (3550089600, 35)
    ∷ (3644697600, 36)
    ∷ (3692217600, 37)
    ∷ []

-- The loop of lstab_init over the table, from an index.
unfoldable pub init_loop : List (ℕ × ℕ) → ℕ → (ℕ → EpochMarker) → ℕ → EpochMarker
init_loop [] i lstab = lstab
init_loop ((val, offset) ∷ rest) i lstab =
    init_loop rest (i + 1) (write lstab i (epoch_marker_init val (pos offset)))

-- lstab_create without a file: calloc, then lstab_init.
unfoldable pub lstab_init : Lstab
lstab_init = record {
  lstab = init_loop offset_table 0 (λ i. empty_marker);
  expiration_utc = 3944332800 - ntp_utc_offset;
  leapfile = false;
  lsfile_mtime = 0;
  length = 28;
}
