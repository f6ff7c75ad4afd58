-- ===== src/Util.antt =====
-- util.c: what the programs share: texts, leap seconds, numbers in a range, identities.
pub mod Base64
pub mod Leaps
pub mod Arrays
use lyp_lyl.Prelude.{
  ltb, leb, ◌==◌, if◌then◌else◌, length, ℕ, zero, suc, ◌+◌, ◌-◌, ◌*◌, ◌/◌, ◌%◌, Bool, true, false,
  not, ◌&&◌, ◌||◌, Option, none, some, List, [], ◌∷◌, ◌++◌,
}
use lyp_lyl.Prelude.Int.{◌+ℤ◌, ◌-ℤ◌, ltb_ℤ, ℤ, pos}
use lyp_lyl.Fsm.{PortState, disabled, pre_master, master, uncalibrated, slave}
use lyp_lyl.UnicastService.{ns_per_sec}

-- The last clause is the `default`.
unfoldable pub port_state_normalize : PortState → PortState
port_state_normalize master = master
port_state_normalize slave = slave
port_state_normalize pre_master = pre_master
port_state_normalize uncalibrated = uncalibrated
port_state_normalize s = disabled

-- A string is the list of its bytes, without the zero at its end.
unfoldable pub count_char : List ℕ → ℕ → ℕ
count_char [] c = 0
count_char (s ∷ str) c = let num = count_char str c in if s == c then num + 1 else num

-- (c & 0xC0) != 0x80
unfoldable pub strlen_utf8 : List ℕ → ℕ
strlen_utf8 [] = 0
strlen_utf8 (c ∷ s) = let len = strlen_utf8 s in if c / 64 % 4 == 2 then len else len + 1

abbrev pub max_ptp_octets : ℕ
max_ptp_octets = 255

-- struct static_ptp_text, its text up to `length`; struct PTPText is its text.
pub record StaticPtpText : Type 0 where
  pub max_symbols : ℕ
  pub text : List ℕ

-- In these the answer is true for 0.
unfoldable pub static_ptp_text_copy : StaticPtpText → List ℕ → StaticPtpText × Bool
static_ptp_text_copy dst src =
    if ltb 0 dst.max_symbols && ltb dst.max_symbols (strlen_utf8 src)
    then (dst, false)
    else (record dst { text = src }, true)

unfoldable pub ptp_text_copy : StaticPtpText → List ℕ
ptp_text_copy src = src.text

unfoldable pub ptp_text_set : List ℕ → Option (List ℕ) → List ℕ × Bool
ptp_text_set dst none = ([], true)
ptp_text_set dst (some src) = if ltb max_ptp_octets (length src) then (dst, false) else (src, true)

unfoldable pub static_ptp_text_set : StaticPtpText → List ℕ → StaticPtpText × Bool
static_ptp_text_set dst src =
    if ltb max_ptp_octets (length src)
    then (dst, false)
    else if ltb 0 dst.max_symbols && ltb dst.max_symbols (strlen_utf8 src)
    then (dst, false)
    else (record dst { text = src }, true)

abbrev pub ns_per_hour : ℕ
ns_per_hour = 3600 * ns_per_sec

abbrev pub ns_per_day : ℕ
ns_per_day = 24 * ns_per_hour

unfoldable pub is_utc_ambiguous : ℕ → Bool
is_utc_ambiguous ts = leb (ns_per_day - ts % ns_per_day) ns_per_sec

-- The leap second and the UTC offset, to which leap_second_status has pointers.
pub record Leap : Type 0 where
  pub leap : ℤ
  pub utc_offset : ℤ

abbrev pub is_zero : ℤ → Bool
is_zero (pos zero) = true
is_zero i = false

-- An early or late change of the leap second and of the UTC offset is put right.
abbrev pub fix_leap : ℤ → Leap → Leap
fix_leap leap_status l =
    if is_zero l.leap && not (is_zero leap_status)
    then record { leap = leap_status; utc_offset = l.utc_offset -ℤ leap_status }
    else if not (is_zero l.leap) && is_zero leap_status
    then record { leap = leap_status; utc_offset = l.utc_offset +ℤ l.leap }
    else l

-- The status is what the call returns.
unfoldable pub leap_second_status : ℕ → ℤ → Leap → ℤ × Leap
leap_second_status ts leap_set l =
    let leap_status =
      if ltb (6 * ns_per_hour) (ts % ns_per_day)
      then if is_zero leap_set then l.leap else leap_set
      else pos 0 in
    (leap_status, fix_leap leap_status l)

-- enum parser_result
pub data ParserResult : Type 0 where
  parsed_ok not_parsed bad_value malformed out_of_range : ParserResult

-- What strtol and strtoul say of a string: whether a number was there and nothing behind it,
-- whether it did not fit, and the number.
pub record Strto (N : Type 0) : Type 0 where
  pub whole : Bool
  pub erange : Bool
  pub parsed_val : N

-- The result is written where the answer is parsed_ok.
unfoldable pub get_ranged_int : Strto ℤ → ℤ → ℤ → ℤ → ParserResult × ℤ
get_ranged_int s result min max =
    if not s.whole
    then (malformed, result)
    else if s.erange || ltb_ℤ s.parsed_val min || ltb_ℤ max s.parsed_val
    then (out_of_range, result)
    else (parsed_ok, s.parsed_val)

unfoldable pub get_ranged_uint : Strto ℕ → ℕ → ℕ → ℕ → ParserResult × ℕ
get_ranged_uint s result min max =
    if not s.whole
    then (malformed, result)
    else if s.erange || ltb s.parsed_val min || ltb max s.parsed_val
    then (out_of_range, result)
    else (parsed_ok, s.parsed_val)

abbrev pub is_parsed : ParserResult → Bool
is_parsed parsed_ok = true
is_parsed r = false

-- The answer is true for 0.
unfoldable pub get_arg_val_i : Strto ℤ → ℤ → ℤ → ℤ → Bool × ℤ
get_arg_val_i s val min max = let r = get_ranged_int s val min max in (is_parsed r.0, r.1)

unfoldable pub get_arg_val_ui : Strto ℕ → ℕ → ℕ → ℕ → Bool × ℕ
get_arg_val_ui s val min max = let r = get_ranged_uint s val min max in (is_parsed r.0, r.1)

-- `now` is none where clock_gettime fails. The answer is true for 1, with the time that is kept.
unfoldable pub rate_limited : Option ℕ → ℕ → ℕ → Bool × ℕ
rate_limited none interval last = (true, last)
rate_limited (some now) interval last =
    if ltb now (last + interval) then (true, last) else (false, now)

-- The hardware address of an interface, of which the bytes behind its length are zero; none where
-- sk_interface_macaddr fails.
abbrev pub identity_of : List ℕ → Option (List ℕ)
identity_of (a ∷ b ∷ c ∷ d ∷ e ∷ f ∷ []) = some (a ∷ b ∷ c ∷ 0xff ∷ 0xfe ∷ d ∷ e ∷ f ∷ [])
identity_of (a ∷ b ∷ c ∷ d ∷ e ∷ f ∷ g ∷ h ∷ []) = some (a ∷ b ∷ c ∷ d ∷ e ∷ f ∷ g ∷ h ∷ [])
identity_of mac = none

unfoldable pub generate_clock_identity : Option (List ℕ) → Option (List ℕ)
generate_clock_identity none = none
generate_clock_identity (some mac) = identity_of mac

-- parray_extend: `alloced` doubles until it is at least `needed`.
unfoldable pub double_until : ℕ → ℕ → ℕ → ℕ
double_until zero alloced needed = alloced
double_until (suc fuel) alloced needed =
    let more = double_until fuel (alloced * 2) needed in
    if ltb alloced needed then more else alloced

-- The entries before the NULL at the end, and the room for entries that the array has afterwards
-- if it had the room of the first loop before.
unfoldable pub parray_extend {ℓ} : {A : Type ℓ} → List A → List A → List A × ℕ
parray_extend a ps =
    let len = length a + 1 in
    let alloced = double_until len 1 len in
    let needed = len + length ps in
    (a ++ ps, if ltb alloced needed then double_until needed alloced needed else alloced)
