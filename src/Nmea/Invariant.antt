-- ===== src/Nmea/Invariant.antt =====
-- The parser writes inside its array, and its checksum is that of its text, after any bytes.
use Prim.Native.Nat.{bit_xor}
use lyp_lyl.Prelude.{
  ltb, ◌==◌, if◌then◌else◌, Bool-cases, Option-cases, ℕ, zero, suc, ◌+◌, ◌≤◌, ◌<◌, ◌≡◌, refl, inl,
  inr, Bool, true, false, ◌||◌, List, [], ◌∷◌, arith,
}
use lyp_lyl.Prelude.Memory.{write}
use lyp_lyl.Nmea.{
  nmea_char_min, nmea_char_max, nmea_max_length, nmea_reset, store, nmea_accumulate, on_symbol,
  nmea_parse_symbol, nmea_scan_rmc, parse_loop, nmea_parse, NmeaState, idle, have_dollar,
  have_startg, have_startx, have_body, have_csuma, have_csum_msb, have_csum_lsb, have_penultimate,
  Parser, CLibrary,
}

-- The exclusive or of the first `n` characters.
unfoldable pub xor_below : (ℕ → ℕ) → ℕ → ℕ
xor_below s zero = 0
xor_below s (suc n) = bit_xor (xor_below s n) (s n)

-- The text fits in front of the last byte of the array, which stays zero as all bytes after the
-- text do, and the checksum is the exclusive or of the text.
pub record IsValid (np : Parser) : Type 0 where
  pub fits : np.offset ≤ nmea_max_length
  pub terminated : (i : ℕ) → np.offset ≤ i → np.sentence i ≡ 0
  pub summed : np.checksum ≡ xor_below np.sentence np.offset

xor_below-write : (s : ℕ → ℕ) (n k c : ℕ) → n ≤ k → xor_below (write s k c) n ≡ xor_below s n
unfolding xor_below
xor_below-write s zero k c h = refl
xor_below-write s (suc n) k c h = ground (arith, xor_below-write s n k c)

nmea_reset-IsValid : IsValid nmea_reset
nmea_reset-IsValid = record {
  fits = omega arith;
  terminated = λ i h. refl;
  summed = unfold xor_below in refl;
}

store-IsValid :
    (np : Parser) (c : ℕ) → IsValid np → np.offset < nmea_max_length → IsValid (store np c)
store-IsValid np c v h = record {
  fits = omega arith;
  terminated = λ i p. ground (arith, v.terminated i);
  summed =
      let n : np.offset + 1 ≡ suc np.offset = omega arith in
      rw n (
        unfold xor_below in
        ground (arith, v.summed, xor_below-write np.sentence np.offset np.offset c (omega arith)));
}

nmea_accumulate-IsValid : (np : Parser) (c : ℕ) → IsValid np → IsValid (nmea_accumulate np c)
unfolding nmea_accumulate
nmea_accumulate-IsValid np c v = elim (Bool-cases (ltb c nmea_char_min || ltb nmea_char_max c)) [
  | inl bad ↦ rw bad nmea_reset-IsValid
  | inr good ↦ rw good (elim (Bool-cases (np.offset == nmea_max_length)) [
    | inl full ↦ rw full (store-IsValid nmea_reset c nmea_reset-IsValid (omega arith))
    | inr room ↦ rw room (store-IsValid np c v (ground (arith, v.fits)))
  ])
]

-- A parser that differs in its state and its checksum's characters only.
relabel :
    (np : Parser) (s : NmeaState) (msb lsb : ℕ)
    → IsValid np
    → IsValid (record np { state = s; csum_msb = msb; csum_lsb = lsb })
relabel np s msb lsb v = record { fits = v.fits; terminated = v.terminated; summed = v.summed }

if-IsValid : (b : Bool) {p q : Parser} → IsValid p → IsValid q → IsValid (if b then p else q)
if-IsValid true v w = v
if-IsValid false v w = w

on_symbol-IsValid :
    (s : NmeaState) (np : Parser) (c : ℕ) → IsValid np → IsValid (on_symbol s np c).0
on_symbol-IsValid idle np c v =
    if-IsValid (c == b'$') (relabel np have_dollar np.csum_msb np.csum_lsb v) v
on_symbol-IsValid have_dollar np c v =
    if-IsValid (c == b'G')
      (nmea_accumulate-IsValid _ c (relabel np have_startg np.csum_msb np.csum_lsb v))
      nmea_reset-IsValid
on_symbol-IsValid have_startg np c v =
    nmea_accumulate-IsValid _ c (relabel np have_startx np.csum_msb np.csum_lsb v)
on_symbol-IsValid have_startx np c v =
    nmea_accumulate-IsValid _ c (relabel np have_body np.csum_msb np.csum_lsb v)
on_symbol-IsValid have_body np c v =
    if-IsValid (c == b'*') (relabel np have_csuma np.csum_msb np.csum_lsb v)
      (nmea_accumulate-IsValid np c v)
on_symbol-IsValid have_csuma np c v = relabel np have_csum_msb c np.csum_lsb v
on_symbol-IsValid have_csum_msb np c v = relabel np have_csum_lsb np.csum_msb c v
on_symbol-IsValid have_csum_lsb np c v = elim (Bool-cases (c == 10)) [
  | inl e ↦ rw e v
  | inr e ↦ rw e (
      if-IsValid (c == 13) (relabel np have_penultimate np.csum_msb np.csum_lsb v)
        nmea_reset-IsValid)
]
on_symbol-IsValid have_penultimate np c v = elim (Bool-cases (c == 10)) [
  | inl e ↦ rw e v
  | inr e ↦ rw e nmea_reset-IsValid
]

pub nmea_parse_symbol-IsValid :
    (np : Parser) (c : ℕ) → IsValid np → IsValid (nmea_parse_symbol np c).0
unfolding nmea_parse_symbol
nmea_parse_symbol-IsValid np c v = on_symbol-IsValid np.state np c v

parse_loop-IsValid :
    (lib : CLibrary) (cs : List ℕ) (np : Parser) (count : ℕ)
    → IsValid np
    → IsValid (parse_loop lib np cs count).0
unfolding parse_loop
parse_loop-IsValid lib [] np count v = v
parse_loop-IsValid lib (c ∷ cs) np count v = elim (Bool-cases (nmea_parse_symbol np c).1) [
  | inl whole ↦ rw whole (elim (Option-cases (nmea_scan_rmc lib (nmea_parse_symbol np c).0)) [
    | inl e ↦ rw e (parse_loop-IsValid lib cs nmea_reset (count + 1) nmea_reset-IsValid)
    | inr (r, e) ↦ rw e nmea_reset-IsValid
  ])
  | inr more ↦ rw more (
      parse_loop-IsValid lib cs (nmea_parse_symbol np c).0 (count + 1)
        (nmea_parse_symbol-IsValid np c v))
]

-- Whatever bytes nmea_parse reads, the parser stays well-formed: its text ends before the last byte
-- of the array and is followed by zeros, and its checksum is the exclusive or of its text.
pub nmea_parse-IsValid :
    (lib : CLibrary) (np : Parser) (buf : List ℕ) → IsValid np → IsValid (nmea_parse lib np buf).0
unfolding nmea_parse
nmea_parse-IsValid lib np buf v = parse_loop-IsValid lib buf np 0 v
