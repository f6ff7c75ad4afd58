-- ===== src/Tmv.antt =====
-- tmv.h: time values, int64_t nanoseconds. A Tmv is the bit pattern of its `ns`, below 2 ^ 64;
-- `value` is the number that the pattern stands for. The conversions to and from double are not
-- modelled.
pub mod Laws
use lyp_lyl.Prelude.{ltb, ◌==◌, if◌then◌else◌, ℕ, ◌+◌, ◌-◌, ◌*◌, ◌/◌, ◌%◌, ◌^◌, Bool}
use lyp_lyl.Prelude.Int.{ltb_ℤ, ℤ, pos, negsuc}

abbrev pub Tmv : Type 0
Tmv = ℕ

abbrev pub value : Tmv → ℤ
value a = if ltb a (2 ^ 63) then pos a else negsuc (2 ^ 64 - a - 1)

-- The pattern of -a.
abbrev pub negate : ℕ → ℕ
negate a = (2 ^ 64 - a) % 2 ^ 64

unfoldable pub tmv_add : Tmv → Tmv → Tmv
tmv_add a b = (a + b) % 2 ^ 64

-- By a positive divisor; the division rounds towards zero.
unfoldable pub tmv_div : Tmv → ℕ → Tmv
tmv_div a divisor = if ltb a (2 ^ 63) then a / divisor else negate ((2 ^ 64 - a) / divisor)

unfoldable pub tmv_cmp : Tmv → Tmv → ℤ
tmv_cmp a b = if a == b then pos 0 else if ltb_ℤ (value b) (value a) then pos 1 else negsuc 0

unfoldable pub tmv_sign : Tmv → ℤ
tmv_sign x = if x == 0 then pos 0 else if ltb_ℤ (pos 0) (value x) then pos 1 else negsuc 0

unfoldable pub tmv_is_zero : Tmv → Bool
tmv_is_zero x = x == 0

unfoldable pub tmv_sub : Tmv → Tmv → Tmv
tmv_sub a b = (a + 2 ^ 64 - b) % 2 ^ 64

abbrev pub tmv_zero : Tmv
tmv_zero = 0

-- The arithmetic shift of a 64 bit pattern by 16.
unfoldable pub correction_to_tmv : ℕ → Tmv
correction_to_tmv c = if ltb c (2 ^ 63) then c / 2 ^ 16 else c / 2 ^ 16 + (2 ^ 64 - 2 ^ 48)

-- A TimeInterval counts nanoseconds / 2 ^ 16; what it cannot hold is clamped.
unfoldable pub tmv_to_TimeInterval : Tmv → ℕ
tmv_to_TimeInterval x =
    if ltb_ℤ (value x) (negsuc (2 ^ 47 - 1))
    then 0xFFFF800000000000 * 2 ^ 16 % 2 ^ 64
    else if ltb_ℤ (pos 0x00007FFFFFFFFFFF) (value x)
    then 0x00007FFFFFFFFFFF * 2 ^ 16 % 2 ^ 64
    else x * 2 ^ 16 % 2 ^ 64

-- struct Timestamp, the 48 bit seconds and the nanoseconds of the protocol.
pub record Timestamp : Type 0 where
  pub seconds_lsb : ℕ
  pub seconds_msb : ℕ
  pub nanoseconds : ℕ

-- The literal 1000000000ULL makes the division one of the unsigned pattern.
unfoldable pub tmv_to_Timestamp : Tmv → Timestamp
tmv_to_Timestamp x =
    let sec = x / 1000000000 in
    record {
      seconds_lsb = sec % 2 ^ 32;
      seconds_msb = sec / 2 ^ 32 % 2 ^ 16;
      nanoseconds = x % 1000000000;
    }

-- struct timespec; both fields are patterns of 64 bits.
pub record Timespec : Type 0 where
  pub tv_sec : ℕ
  pub tv_nsec : ℕ

unfoldable pub timespec_to_tmv : Timespec → Tmv
timespec_to_tmv ts = (ts.tv_sec * 1000000000 + ts.tv_nsec) % 2 ^ 64

-- Signed division and remainder, both rounded towards zero.
unfoldable pub tmv_to_timespec : Tmv → Timespec
tmv_to_timespec t =
    if ltb t (2 ^ 63)
    then record { tv_sec = t / 1000000000; tv_nsec = t % 1000000000 }
    else record {
      tv_sec = negate ((2 ^ 64 - t) / 1000000000);
      tv_nsec = negate ((2 ^ 64 - t) % 1000000000);
    }

-- struct timestamp of the host (and ptp_clock_time): seconds and nanoseconds.
unfoldable pub timestamp_to_tmv : ℕ → ℕ → Tmv
timestamp_to_tmv sec nsec = (sec * 1000000000 + nsec) % 2 ^ 64
