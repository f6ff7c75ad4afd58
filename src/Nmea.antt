-- ===== src/Nmea.antt =====
-- nmea.c: the parser of NMEA sentences, one character at a time. A character is its byte; the
-- array `sentence` is a function of the index, zero past the text. sscanf and mktime of the C
-- library are the parameters.
pub mod Invariant
pub mod Frame
use Prim.Native.Nat.{bit_xor}
use lyp_lyl.Prelude.{
  ltb, ◌==◌, if◌then◌else◌, ℕ, zero, suc, ◌+◌, ◌-◌, ◌*◌, Bool, true, false, not, ◌||◌, Option, none,
  some, List, [], ◌∷◌,
}
use lyp_lyl.Prelude.Int.{◌+ℤ◌, ℤ, pos, negsuc}
use lyp_lyl.Prelude.Memory.{write}

abbrev pub nmea_char_min : ℕ
nmea_char_min = 32

abbrev pub nmea_char_max : ℕ
nmea_char_max = 126

abbrev pub nmea_max_length : ℕ
nmea_max_length = 256

-- enum nmea_state
pub data NmeaState : Type 0 where
  idle have_dollar have_startg have_startx have_body have_csuma have_csum_msb have_csum_lsb
        have_penultimate :
      NmeaState

-- struct nmea_parser; the two characters of payload_checksum are two fields.
pub record Parser : Type 0 where
  pub sentence : ℕ → ℕ
  pub csum_msb : ℕ
  pub csum_lsb : ℕ
  pub state : NmeaState
  pub checksum : ℕ
  pub offset : ℕ

-- memset to zero
abbrev pub nmea_reset : Parser
nmea_reset = record {
  sentence = λ i. 0;
  csum_msb = 0;
  csum_lsb = 0;
  state = idle;
  checksum = 0;
  offset = 0;
}

abbrev pub store : Parser → ℕ → Parser
store np c = record np {
  sentence = write np.sentence np.offset c;
  offset = np.offset + 1;
  checksum = bit_xor np.checksum c;
}

unfoldable pub nmea_accumulate : Parser → ℕ → Parser
nmea_accumulate np c =
    if ltb c nmea_char_min || ltb nmea_char_max c
    then nmea_reset
    else store (if np.offset == nmea_max_length then nmea_reset else np) c

-- The `switch` on the state. The second part is true for the return value 0, a whole sentence.
abbrev pub on_symbol : NmeaState → Parser → ℕ → Parser × Bool
on_symbol idle np c = (if c == b'$' then record np { state = have_dollar } else np, false)
on_symbol have_dollar np c =
    (if c == b'G' then nmea_accumulate (record np { state = have_startg }) c else nmea_reset, false)
on_symbol have_startg np c = (nmea_accumulate (record np { state = have_startx }) c, false)
on_symbol have_startx np c = (nmea_accumulate (record np { state = have_body }) c, false)
on_symbol have_body np c =
    (if c == b'*' then record np { state = have_csuma } else nmea_accumulate np c, false)
on_symbol have_csuma np c = (record np { state = have_csum_msb; csum_msb = c }, false)
on_symbol have_csum_msb np c = (record np { state = have_csum_lsb; csum_lsb = c }, false)
on_symbol have_csum_lsb np c =
    if c == 10
    then (np, true)
    else (if c == 13 then record np { state = have_penultimate } else nmea_reset, false)
on_symbol have_penultimate np c = if c == 10 then (np, true) else (nmea_reset, false)

unfoldable pub nmea_parse_symbol : Parser → ℕ → Parser × Bool
nmea_parse_symbol np c = on_symbol np.state np c

-- struct tm, the part that is filled in.
pub record Tm : Type 0 where
  pub tm_hour : ℤ
  pub tm_min : ℤ
  pub tm_sec : ℤ
  pub tm_mday : ℤ
  pub tm_mon : ℤ
  pub tm_year : ℤ

-- struct nmea_rmc
pub record NmeaRmc : Type 0 where
  pub tv_sec : ℤ
  pub tv_nsec : ℤ
  pub fix_valid : Bool

-- The five values of the first sscanf of the sentence.
pub record TimeFields : Type 0 where
  pub hour : ℤ
  pub minute : ℤ
  pub second : ℤ
  pub msec : ℤ
  pub status : ℕ

-- The C library: "%02hhx" of the checksum's characters; the formats of the sentence with and
-- without a fraction of a second (msec is then 0); the date from an index on; mktime.
pub record CLibrary : Type 0 where
  pub scan_hex : ℕ → ℕ → Option ℕ
  pub scan_time_msec : (ℕ → ℕ) → Option TimeFields
  pub scan_time : (ℕ → ℕ) → Option TimeFields
  pub scan_date : (ℕ → ℕ) → ℕ → Option (ℤ × ℤ × ℤ)
  pub mktime : Tm → ℤ
  pub scale_msec : ℤ → ℤ

-- strchr(ptr, ','), then ptr++: the search stops at the terminating zero, at the latest at the end
-- of the array, which the count of characters left bounds.
unfoldable pub after_comma : (ℕ → ℕ) → ℕ → ℕ → Option ℕ
after_comma s zero i = none
after_comma s (suc left) i =
    let rest = after_comma s left (i + 1) in
    if s i == b',' then some (i + 1) else if s i == 0 then none else rest

-- The loop over nine commas.
unfoldable pub skip_commas : (ℕ → ℕ) → ℕ → ℕ → Option ℕ
unfolding after_comma
skip_commas s zero i = some i
skip_commas s (suc n) i = elim (after_comma s (nmea_max_length + 1 - i) i) [
  | none ↦ none
  | some j ↦ skip_commas s n j
]

-- The end of nmea_scan_rmc: a leap second is read as 59, months count from 0, years from 1900.
abbrev finish : CLibrary → TimeFields → ℤ × ℤ × ℤ → NmeaRmc
finish lib t (mday, mon, year) = record {
  tv_sec = lib.mktime (record {
    tm_hour = t.hour;
    tm_min = t.minute;
    tm_sec = elim t.second [ pos n ↦ pos (if n == 60 then 59 else n) | negsuc n ↦ negsuc n ];
    tm_mday = mday;
    tm_mon = mon +ℤ negsuc 0;
    tm_year = year +ℤ pos 100;
  });
  tv_nsec = lib.scale_msec t.msec;
  fix_valid = t.status == b'A';
}

abbrev scan_fields : CLibrary → (ℕ → ℕ) → TimeFields → Option NmeaRmc
scan_fields lib s t = elim (skip_commas s 9 0) [
  | none ↦ none
  | some i ↦ elim (lib.scan_date s i) [ none ↦ none | some d ↦ some (finish lib t d) ]
]

unfoldable pub nmea_scan_rmc : CLibrary → Parser → Option NmeaRmc
nmea_scan_rmc lib np = elim (lib.scan_hex np.csum_msb np.csum_lsb) [
  | none ↦ none
  | some checksum ↦
      if not (checksum == np.checksum) then none else elim (lib.scan_time_msec np.sentence) [
        | some t ↦ scan_fields lib np.sentence t
        | none ↦ elim (lib.scan_time np.sentence) [
          | none ↦ none
          | some t ↦ scan_fields lib np.sentence t
        ]
      ]
]

-- The loop of nmea_parse: the parser, the result if a sentence was read, and the count of bytes.
unfoldable pub parse_loop : CLibrary → Parser → List ℕ → ℕ → Parser × Option NmeaRmc × ℕ
parse_loop lib np [] count = (np, none, count)
parse_loop lib np (c ∷ cs) count =
    let (np', whole) = nmea_parse_symbol np c in
    let next = parse_loop lib np' cs (count + 1) in
    let again = parse_loop lib nmea_reset cs (count + 1) in
    if whole
    then elim (nmea_scan_rmc lib np') [ some r ↦ (nmea_reset, some r, count + 1) | none ↦ again ]
    else next

unfoldable pub nmea_parse : CLibrary → Parser → List ℕ → Parser × Option NmeaRmc × ℕ
nmea_parse lib np buf = parse_loop lib np buf 0
