-- ===== src/Servo.antt =====
-- servo.c: the shell around the servo algorithms (servo_sample and the offset threshold) and the
-- regions of shared memory by which the processes of two domains exchange their states.
pub mod Stable
pub mod Shm
pub mod Exchange
use lyp_lyl.Prelude.{ltb, ◌==◌, if◌then◌else◌, ℕ, suc, ◌-◌, ◌*◌, Bool, true, false}
use lyp_lyl.Prelude.Int.{ltb_ℤ, ℤ, pos, negsuc}

-- enum servo_state
pub data ServoState : Type 0 where
  unlocked jump locked locked_stable : ServoState

-- The fields of struct servo that servo.c itself keeps during its work.
pub record Servo : Type 0 where
  pub offset_threshold : ℤ
  pub num_offset_values : ℕ
  pub curr_offset_values : ℕ
  pub first_update : Bool

-- llabs
abbrev pub abs : ℤ → ℕ
abs (pos n) = n
abs (negsuc n) = suc n

abbrev pub nonzero : ℤ → Bool
nonzero (pos n) = ltb 0 n
nonzero (negsuc n) = true

unfoldable pub check_offset_threshold : Servo → ℤ → Servo × Bool
check_offset_threshold s offset =
    let fewer =
      if ltb 0 s.curr_offset_values then s.curr_offset_values - 1 else s.curr_offset_values in
    let curr = if ltb_ℤ (pos (abs offset)) s.offset_threshold then fewer else s.num_offset_values in
    if nonzero s.offset_threshold
    then (record s { curr_offset_values = curr }, curr == 0)
    else (s, false)

-- The `switch` of servo_sample on the state that the algorithm reports.
abbrev pub judge : Servo → ℤ → ServoState → Servo × ServoState
judge s offset unlocked = (record s { curr_offset_values = s.num_offset_values }, unlocked)
judge s offset jump =
    (record s { curr_offset_values = s.num_offset_values; first_update = false }, jump)
judge s offset locked =
    let (s', stable) = check_offset_threshold s offset in
    (record s' { first_update = false }, if stable then locked_stable else locked)
judge s offset locked_stable = (s, locked_stable)

-- The algorithm behind the function pointer `sample`: its own state, its frequency and the state
-- that it reports, from the offset, the local time stamp and the weight.
pub record Algorithm : Type 1 where
  pub Memory : Type 0
  pub Frequency : Type 0
  pub Weight : Type 0
  pub sample : Memory → ℤ → ℕ → Weight → Memory × Frequency × ServoState

module _ (alg : Algorithm) where
  open alg use {Memory, Frequency, Weight, sample}

  unfoldable pub servo_sample :
      Servo → Memory → ℤ → ℕ → Weight → Servo × Memory × Frequency × ServoState
  servo_sample s mem offset local_ts weight =
      let (mem', r, state) = sample mem offset local_ts weight in
      let (s', state') = judge s offset state in (s', mem', r, state')

-- The end of servo_create: the counters from the configuration.
unfoldable pub servo_start : ℤ → ℕ → Servo
servo_start offset_threshold num_offset_values = record {
  offset_threshold = offset_threshold;
  num_offset_values = num_offset_values;
  curr_offset_values = num_offset_values;
  first_update = true;
}
