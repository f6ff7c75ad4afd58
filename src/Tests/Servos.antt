-- ===== src/Tests/Servos.antt =====
-- The servo shell and the shared memory.
use lyp_lyl.Prelude.{
  ltb, if◌then◌else◌, ℕ, ◌≤◌, ◌≡◌, refl, ◌↔◌, Bool, true, false, none, some, List, [], ◌∷◌, arith,
}
use lyp_lyl.Prelude.Int.{ℤ, pos, negsuc}
use lyp_lyl.Servo.{
  servo_sample, servo_start, ServoState, unlocked, locked, locked_stable, Algorithm,
}
use lyp_lyl.Servo.Stable.{streak_step, run, streak, servo_sample-stable, Call}
use lyp_lyl.Servo.Shm.{
  shm_init_magic, same_domain, servo_state_shm_update, servo_state_shm_read,
  slave_servo_stable_shm_update, slave_servo_stable_shm_read, sync_state_shm_update,
  sync_state_shm_read, fresh, create, Region, StableFlags, missing, exists, System,
}
use lyp_lyl.Servo.Exchange.{works, servo_state_shm_read-update, sync_state-frame, create-waits}

-- An algorithm that is locked from its second sample on.
abbrev second_locks : Algorithm
second_locks = record {
  Memory = Bool;
  Frequency = ℕ;
  Weight = ℕ;
  sample = λ seen offset ts weight. (true, 0, if seen then locked else unlocked);
}

abbrev sample_of : ℤ → Call second_locks
sample_of offset = record { offset = offset; local_ts = 0; weight = 1 }

abbrev samples : List (Call second_locks)
samples = sample_of (pos 900) ∷ sample_of (negsuc 4) ∷ []

servo_sample-stable_example :
    ((servo_sample second_locks
        (run second_locks (servo_start (pos 10) 2) false samples).0
        (run second_locks (servo_start (pos 10) 2) false samples).1
        (pos 7)
        0
        1).3
      ≡ locked_stable)
    ↔ (2 ≤ streak_step (pos 10) (streak second_locks (pos 10) false 0 samples) (pos 7) locked)
unfolding run servo_sample
servo_sample-stable_example =
    servo_sample-stable second_locks (pos 10) 2 false samples (sample_of (pos 7)) refl refl

abbrev region : Region ServoState
region = fresh unlocked

servo_state_shm_read-update_test :
    let after = (servo_state_shm_update works region locked (pos 0)).0 in
    ((servo_state_shm_read works after (pos 1)).1
      ≡ (if same_domain (pos 0) (pos 1) then some locked else none))
    × ((servo_state_shm_read works after (pos 1)).0.mutex ≡ region.mutex)
servo_state_shm_read-update_test =
    servo_state_shm_read-update region locked (pos 0) (pos 1) (omega arith)

abbrev flags : Region StableFlags
flags =
    fresh (record { slave_servo_stable = pos 1; sync_received = pos 0; sync_domain_id = negsuc 0 })

sync_state-frame_test :
    ((slave_servo_stable_shm_read works
        (sync_state_shm_update works flags (pos 1) (pos 1)).0
        (pos 0)).1
      ≡ (slave_servo_stable_shm_read works flags (pos 0)).1)
    × ((sync_state_shm_read works (slave_servo_stable_shm_update works flags (pos 1) (pos 1)).0).1
        ≡ (sync_state_shm_read works flags).1)
sync_state-frame_test = sync_state-frame flags (pos 1) (pos 1) (pos 0)

-- Another process creates the region, and marks it after two milliseconds.
abbrev late_mark : System
late_mark = record {
  first = missing;
  exclusive = exists;
  second = true;
  truncates = true;
  maps = true;
  sem_inits = true;
  seen = λ i. if ltb i 2 then 0 else shm_init_magic;
}

create-waits_example :
    (create late_mark unlocked region ≡ some region)
    ↔ ((late_mark.maps ≡ true) × ((i : ℕ) × (i ≤ 5000) × (late_mark.seen i ≡ shm_init_magic)))
create-waits_example = create-waits late_mark unlocked region refl
