-- ===== src/Tmv/Laws.antt =====
-- Arithmetic, order and conversions of time values.
use lyp_lyl.Prelude.{if◌then◌else◌, ◌+◌, ◌-◌, ◌*◌, ◌^◌, ◌<◌, ◌≡◌, ◌↔◌, true, arith}
use lyp_lyl.Prelude.Int.{◌+ℤ◌, ◌-ℤ◌, ◌≤ℤ◌, ◌<ℤ◌, ltb_ℤ, leb_ℤ, ℤ, pos, negsuc}
use lyp_lyl.Tmv.{
  Tmv, value, tmv_add, tmv_cmp, tmv_sub, correction_to_tmv, tmv_to_TimeInterval, tmv_to_Timestamp,
  timespec_to_tmv, tmv_to_timespec, timestamp_to_tmv,
}

-- Where the sum of two time values fits into 64 bits, tmv_add gives it.
pub value-tmv_add :
    (a b : Tmv)
    → a < 2 ^ 64
    → b < 2 ^ 64
    → negsuc (2 ^ 63 - 1) ≤ℤ value a +ℤ value b
    → value a +ℤ value b <ℤ pos (2 ^ 63)
    → value (tmv_add a b) ≡ value a +ℤ value b
unfolding tmv_add ◌+ℤ◌
value-tmv_add a b ha hb lo hi = ground arith

-- Where the difference of two time values fits into 64 bits, tmv_sub gives it.
pub value-tmv_sub :
    (a b : Tmv)
    → a < 2 ^ 64
    → b < 2 ^ 64
    → negsuc (2 ^ 63 - 1) ≤ℤ value a -ℤ value b
    → value a -ℤ value b <ℤ pos (2 ^ 63)
    → value (tmv_sub a b) ≡ value a -ℤ value b
unfolding tmv_sub ◌-ℤ◌
value-tmv_sub a b ha hb lo hi = ground arith

-- tmv_sub undoes tmv_add, also where the sum wraps around.
pub tmv_sub-tmv_add : (a b : Tmv) → a < 2 ^ 64 → b < 2 ^ 64 → tmv_sub (tmv_add a b) b ≡ a
unfolding tmv_add tmv_sub
tmv_sub-tmv_add a b ha hb = omega arith

-- tmv_cmp is the order of the values: at most zero exactly when the first is no larger.
pub tmv_cmp-le :
    (a b : Tmv)
    → a < 2 ^ 64
    → b < 2 ^ 64
    → (leb_ℤ (tmv_cmp a b) (pos 0) ≡ true) ↔ (value a ≤ℤ value b)
unfolding tmv_cmp
tmv_cmp-le a b ha hb = (λ h. ground arith, λ h. ground arith)

-- A time value, negative ones included, comes back from its struct timespec.
pub timespec_to_tmv-tmv_to_timespec :
    (t : Tmv) → t < 2 ^ 64 → timespec_to_tmv (tmv_to_timespec t) ≡ t
unfolding timespec_to_tmv tmv_to_timespec
timespec_to_tmv-tmv_to_timespec t h = ground arith

-- The largest and smallest nanoseconds of a TimeInterval.
abbrev pub clamp : ℤ → ℤ
clamp x =
    if ltb_ℤ x (negsuc (2 ^ 47 - 1))
    then negsuc (2 ^ 47 - 1)
    else if ltb_ℤ (pos (2 ^ 47 - 1)) x
    then pos (2 ^ 47 - 1)
    else x

-- A time value that is sent as a TimeInterval and read as a correction arrives as it was, or
-- clamped to the range of a TimeInterval.
pub correction_to_tmv-tmv_to_TimeInterval :
    (x : Tmv) → x < 2 ^ 64 → value (correction_to_tmv (tmv_to_TimeInterval x)) ≡ clamp (value x)
unfolding correction_to_tmv tmv_to_TimeInterval
correction_to_tmv-tmv_to_TimeInterval x h = ground arith

-- The protocol's Timestamp keeps every 64 bit pattern: its 48 bit seconds and its nanoseconds
-- give the time value back.
pub timestamp_to_tmv-tmv_to_Timestamp :
    (x : Tmv)
    → x < 2 ^ 64
    → timestamp_to_tmv
        ((tmv_to_Timestamp x).seconds_msb * 2 ^ 32 + (tmv_to_Timestamp x).seconds_lsb)
        (tmv_to_Timestamp x).nanoseconds
      ≡ x
unfolding timestamp_to_tmv tmv_to_Timestamp
timestamp_to_tmv-tmv_to_Timestamp x h = omega arith

pub tmv_add-lt : (a b : Tmv) → tmv_add a b < 2 ^ 64
unfolding tmv_add
tmv_add-lt a b = omega arith

pub tmv_sub-lt : (a b : Tmv) → tmv_sub a b < 2 ^ 64
unfolding tmv_sub
tmv_sub-lt a b = omega arith
