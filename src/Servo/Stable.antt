-- ===== src/Servo/Stable.antt =====
-- When the servo reports that it is stable.
use lyp_lyl.Prelude.{
  if◌then◌else◌, ℕ, ◌+◌, ◌-◌, ◌≤◌, ◌≡◌, refl, ◌↔◌, Bool, true, List, [], ◌∷◌, arith,
}
use lyp_lyl.Prelude.Int.{ltb_ℤ, ℤ, pos}
use lyp_lyl.Servo.{
  abs, nonzero, check_offset_threshold, judge, servo_sample, servo_start, ServoState, unlocked,
  jump, locked, locked_stable, Servo, Algorithm,
}

-- One call of servo_sample: the algorithm's answer is a function of what it is given.
pub record Call (alg : Algorithm) : Type 0 where
  pub offset : ℤ
  pub local_ts : ℕ
  pub weight : alg.Weight

abbrev pub small : ℤ → ℤ → Bool
small threshold offset = ltb_ℤ (pos (abs offset)) threshold

-- The length of the unbroken row of locked samples with a small offset, after one more sample.
abbrev pub streak_step : ℤ → ℕ → ℤ → ServoState → ℕ
streak_step threshold k offset unlocked = 0
streak_step threshold k offset jump = 0
streak_step threshold k offset locked = if small threshold offset then k + 1 else 0
streak_step threshold k offset locked_stable = k

module _ (alg : Algorithm) where
  open alg use {Memory, sample}

  -- The servo and its algorithm after a list of calls.
  unfoldable pub run : Servo → Memory → List (Call alg) → Servo × Memory
  run s mem [] = (s, mem)
  run s mem (c ∷ cs) =
      let (s', mem', r, state) = servo_sample alg s mem c.offset c.local_ts c.weight in
      run s' mem' cs

  -- The row after a list of calls, from what the algorithm reports.
  unfoldable pub streak : ℤ → Memory → ℕ → List (Call alg) → ℕ
  streak threshold mem k [] = k
  streak threshold mem k (c ∷ cs) =
      let (mem', r, state) = sample mem c.offset c.local_ts c.weight in
      streak threshold mem' (streak_step threshold k c.offset state) cs

  -- The counter shows what is missing from the row.
  abbrev Counted : Servo → ℤ → ℕ → ℕ → Type 0
  Counted s threshold n k =
      (s.offset_threshold ≡ threshold) × (s.num_offset_values ≡ n) × (s.curr_offset_values ≡ n - k)

  judge-Counted :
      (s : Servo) (threshold : ℤ) (n k : ℕ) (offset : ℤ) (state : ServoState)
      → nonzero threshold ≡ true
      → Counted s threshold n k
      → Counted (judge s offset state).0 threshold n (streak_step threshold k offset state)
  unfolding check_offset_threshold
  judge-Counted s threshold n k offset unlocked nz h = ground arith
  judge-Counted s threshold n k offset jump nz h = ground arith
  judge-Counted s threshold n k offset locked nz h = ground arith
  judge-Counted s threshold n k offset locked_stable nz h = h

  run-Counted :
      (cs : List (Call alg)) (s : Servo) (mem : Memory) (threshold : ℤ) (n k : ℕ)
      → nonzero threshold ≡ true
      → Counted s threshold n k
      → Counted (run s mem cs).0 threshold n (streak threshold mem k cs)
  unfolding run streak servo_sample
  run-Counted [] s mem threshold n k nz h = h
  run-Counted (c ∷ cs) s mem threshold n k nz h =
      let (mem', r, state) = sample mem c.offset c.local_ts c.weight in
      run-Counted cs (judge s c.offset state).0 mem' threshold n
        (streak_step threshold k c.offset state) nz
        (judge-Counted s threshold n k c.offset state nz h)

  judge-stable :
      (s : Servo) (threshold : ℤ) (n k : ℕ) (offset : ℤ)
      → nonzero threshold ≡ true
      → Counted s threshold n k
      → ((judge s offset locked).1 ≡ locked_stable) ↔ (n ≤ streak_step threshold k offset locked)
  unfolding check_offset_threshold
  judge-stable s threshold n k offset nz h = (λ e. ground arith, λ e. ground arith)

  -- With a threshold, a servo that was started with the count n of values reports after any calls,
  -- for a sample on which its algorithm is locked, that it is stable exactly when that sample ends
  -- an unbroken row of at least n locked samples whose offsets are below the threshold.
  pub servo_sample-stable :
      (threshold : ℤ) (n : ℕ) (mem : Memory) (cs : List (Call alg)) (c : Call alg)
      → nonzero threshold ≡ true
      → (sample (run (servo_start threshold n) mem cs).1 c.offset c.local_ts c.weight).2 ≡ locked
      → ((servo_sample alg
            (run (servo_start threshold n) mem cs).0
            (run (servo_start threshold n) mem cs).1
            c.offset
            c.local_ts
            c.weight).3
          ≡ locked_stable)
        ↔ (n ≤ streak_step threshold (streak threshold mem 0 cs) c.offset locked)
  unfolding servo_sample
  servo_sample-stable threshold n mem cs c nz lock = rw lock (
      judge-stable (run (servo_start threshold n) mem cs).0 threshold n (streak threshold mem 0 cs)
        c.offset nz
        (run-Counted cs (servo_start threshold n) mem threshold n 0 nz
          (unfold servo_start in (refl, refl, omega arith))))
