-- ===== src/Tests/Values.antt =====
-- Time values and the moving average.
use lyp_lyl.Prelude.{
  length, ◌+◌, ◌-◌, ◌*◌, ◌%◌, ◌^◌, ◌≡◌, refl, ◌↔◌, true, List, [], ◌∷◌, ◌++◌, arith,
}
use lyp_lyl.Prelude.Int.{◌+ℤ◌, ◌≤ℤ◌, leb_ℤ, pos}
use lyp_lyl.Tmv.{
  Tmv, value, tmv_add, tmv_div, tmv_cmp, tmv_sub, correction_to_tmv, tmv_to_TimeInterval,
  tmv_to_Timestamp, timespec_to_tmv, tmv_to_timespec, timestamp_to_tmv,
}
use lyp_lyl.Tmv.Laws.{
  value-tmv_add, tmv_cmp-le, timespec_to_tmv-tmv_to_timespec, clamp,
  correction_to_tmv-tmv_to_TimeInterval, timestamp_to_tmv-tmv_to_Timestamp,
}
use lyp_lyl.Filter.Mave.{mave_create, mave_accumulate, feed}
use lyp_lyl.Filter.Mave.Window.{total}
use lyp_lyl.Filter.Mave.Mean.{last, mave_accumulate-mean}
use Prim.Native.Nat.{min}

-- The patterns of -3 and 5.
abbrev minus_three : Tmv
minus_three = 2 ^ 64 - 3

value-tmv_add_test : value (tmv_add minus_three 5) ≡ value minus_three +ℤ value 5
unfolding ◌+ℤ◌
value-tmv_add_test =
    value-tmv_add minus_three 5 (omega arith) (omega arith) (omega arith) (omega arith)

tmv_cmp-le_test : (leb_ℤ (tmv_cmp minus_three 5) (pos 0) ≡ true) ↔ (value minus_three ≤ℤ value 5)
tmv_cmp-le_test = tmv_cmp-le minus_three 5 (omega arith) (omega arith)

timespec_to_tmv-tmv_to_timespec_test : timespec_to_tmv (tmv_to_timespec minus_three) ≡ minus_three
timespec_to_tmv-tmv_to_timespec_test = timespec_to_tmv-tmv_to_timespec minus_three (omega arith)

correction_to_tmv-tmv_to_TimeInterval_test :
    value (correction_to_tmv (tmv_to_TimeInterval minus_three)) ≡ clamp (value minus_three)
correction_to_tmv-tmv_to_TimeInterval_test =
    correction_to_tmv-tmv_to_TimeInterval minus_three (omega arith)

timestamp_to_tmv-tmv_to_Timestamp_test :
    timestamp_to_tmv
      ((tmv_to_Timestamp 5000000007).seconds_msb * 2 ^ 32
        + (tmv_to_Timestamp 5000000007).seconds_lsb)
      (tmv_to_Timestamp 5000000007).nanoseconds
    ≡ 5000000007
timestamp_to_tmv-tmv_to_Timestamp_test = timestamp_to_tmv-tmv_to_Timestamp 5000000007 (omega arith)

abbrev readings : List Tmv
readings = 10 ∷ 20 ∷ 60 ∷ []

-- The mean of the last two of 10, 20, 60 and 100.
mean_of_two : (mave_accumulate (feed (mave_create 2) readings) 100).1 ≡ 80
unfolding mave_accumulate feed mave_create tmv_add tmv_sub tmv_div
mean_of_two = refl

mave_accumulate-mean_example :
    (mave_accumulate (feed (mave_create 2) readings) 100).1
    ≡ tmv_div
        (total (last 2 (readings ++ 100 ∷ [])) % 2 ^ 64)
        (min (length (readings ++ 100 ∷ [])) 2)
mave_accumulate-mean_example = mave_accumulate-mean 2 readings 100 (omega arith) (omega arith)
