-- ===== src/Tests/Stamps.antt =====
-- tsproc.c: an exchange of messages, with a ratio in place of the doubles.

use lyp_lyl.Prelude.{ltb, ◌==◌, ℕ, ◌*◌, ◌/◌, ◌≡◌, refl, true, false, none, some, arith}
use lyp_lyl.Tmv.{tmv_add, tmv_is_zero, tmv_sub}
use lyp_lyl.Tsproc.{
  tsproc_down_ts, get_raw_delay, tsproc_update_delay, tsproc_update_offset, tsproc_reset,
  TsprocMode, filter, raw, Doubles, Tsproc,
}
use lyp_lyl.Tsproc.Symmetric.{
  offset_part, exchanged, get_raw_delay-exchanged, tsproc_update_offset-exchanged,
}
use lyp_lyl.Tsproc.Answers.{is_some, tsproc_reset-No_answer, tsproc_down_ts-after_reset}
use lyp_lyl.Filter.Choice.{by_average}
use lyp_lyl.Filter.Mave.{mave_create}

-- Ratios in thousandths, rounded down.
abbrev thousandths : Doubles ℕ
thousandths = record {
  one = 1000;
  is_one = λ r. r == 1000;
  scale = λ r t. r * t / 1000;
  quotient = λ a b. 1000 * a / b;
  above_one = λ r. ltb 1000 r;
}

abbrev stamped : TsprocMode → Tsproc ℕ
stamped mode = record {
  mode = mode;
  clock_rate_ratio = 1000;
  t1 = 0;
  t2 = 0;
  t3 = 0;
  t4 = 0;
  filtered_delay = 480;
  filtered_delay_valid = true;
  delay_filter = by_average (mave_create 4);
}

get_raw_delay-exchanged_test :
    get_raw_delay thousandths (exchanged thousandths (stamped raw) 1000 9000 500 70) ≡ 500
get_raw_delay-exchanged_test =
    get_raw_delay-exchanged thousandths (stamped raw) 1000 9000 500 70 refl (omega arith)
      (omega arith) (omega arith) (omega arith)

nonzero_sent : tmv_is_zero 1000 ≡ false
unfolding tmv_is_zero
nonzero_sent = refl

nonzero_asked : tmv_is_zero 9000 ≡ false
unfolding tmv_is_zero
nonzero_asked = refl

nonzero_received : tmv_is_zero (tmv_add (tmv_add 1000 500) 70) ≡ false
unfolding tmv_is_zero tmv_add
nonzero_received = refl

-- The filtered delay is 20 too small.
tsproc_update_offset-exchanged_example :
    offset_part
      (tsproc_update_offset thousandths (exchanged thousandths (stamped filter) 1000 9000 500 70))
    ≡ some (tmv_sub (tmv_add 500 70) 480)
tsproc_update_offset-exchanged_example =
    tsproc_update_offset-exchanged thousandths (stamped filter) 1000 9000 500 70 refl refl
      (omega arith) (omega arith) (omega arith) (omega arith) (omega arith) nonzero_sent
      nonzero_asked nonzero_received

tsproc_down_ts-after_reset_test :
    is_some (
      tsproc_update_offset thousandths
        (tsproc_down_ts thousandths (tsproc_reset thousandths (stamped filter) false) 1000 9000))
    ≡ true
tsproc_down_ts-after_reset_test =
    tsproc_down_ts-after_reset thousandths (stamped filter) false 1000 9000 nonzero_sent
      nonzero_asked

tsproc_reset-No_answer_example :
    (tsproc_update_offset thousandths (tsproc_reset thousandths (stamped raw) true) ≡ none)
    × (tsproc_update_delay thousandths (tsproc_reset thousandths (stamped raw) true)
        ≡ (tsproc_reset thousandths (stamped raw) true, none))
tsproc_reset-No_answer_example = tsproc_reset-No_answer thousandths (stamped raw) true
