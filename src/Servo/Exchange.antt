-- ===== src/Servo/Exchange.antt =====
-- What one process writes to a region and another reads from it, and who waits for whom.
use lyp_lyl.Prelude.{
  ◌==◌, if◌then◌else◌, Bool-cases, ℕ, zero, suc, ◌+◌, ◌≤◌, ◌<◌, ◌≡◌, ◌↔◌, inl, inr, true, false,
  none, some, arith,
}
use lyp_lyl.Prelude.Int.{ℤ}
use lyp_lyl.Servo.{ServoState}
use lyp_lyl.Servo.Shm.{
  shm_init_magic, same_domain, servo_state_shm_update, servo_state_shm_read,
  slave_servo_stable_shm_update, slave_servo_stable_shm_read, sync_state_shm_update,
  sync_state_shm_read, wait_init, max_polls, open_region, create, Region, Semaphore, StableFlags,
  System,
}

abbrev pub works : Semaphore
works = record { waits = true; posts = true }

same_domain_iff : (a b : ℤ) → (same_domain a b ≡ true) ↔ (a ≡ b)
same_domain_iff a b = (λ h. ground arith, λ h. ground arith)

-- A reader of the servo state gets exactly what was last written for the domain that it asks for:
-- after an update for one domain, a read for that domain gives the written state, and a read for
-- any other domain fails; both leave the semaphore as it was before the update.
pub servo_state_shm_read-update :
    (shm : Region ServoState) (state : ServoState) (wrote asked : ℤ)
    → 0 < shm.mutex
    → let after = (servo_state_shm_update works shm state wrote).0 in
      ((servo_state_shm_read works after asked).1
        ≡ (if same_domain wrote asked then some state else none))
      × ((servo_state_shm_read works after asked).0.mutex ≡ shm.mutex)
unfolding servo_state_shm_read servo_state_shm_update
servo_state_shm_read-update shm state wrote asked h = ground arith

-- The stable flag and the sync state share a region and do not disturb one another: an update of
-- the one leaves what a reader gets of the other as it was.
pub sync_state-frame :
    (shm : Region StableFlags) (flag domain asked : ℤ)
    → ((slave_servo_stable_shm_read works (sync_state_shm_update works shm flag domain).0 asked).1
        ≡ (slave_servo_stable_shm_read works shm asked).1)
      × ((sync_state_shm_read works (slave_servo_stable_shm_update works shm flag domain).0).1
          ≡ (sync_state_shm_read works shm).1)
unfolding slave_servo_stable_shm_read slave_servo_stable_shm_update sync_state_shm_read
    sync_state_shm_update
sync_state-frame shm flag domain asked = ground arith

wait_init_sound :
    (seen : ℕ → ℕ) (left retry : ℕ)
    → wait_init seen left retry ≡ true
    → (i : ℕ) × (retry ≤ i) × (i ≤ retry + left) × (seen i ≡ shm_init_magic)
unfolding wait_init
wait_init_sound seen zero retry h = (retry, omega arith, omega arith, ground arith)
wait_init_sound seen (suc left) retry h = elim (Bool-cases (seen retry == shm_init_magic)) [
  | inl e ↦ (retry, omega arith, omega arith, ground arith)
  | inr e ↦
      let (i, lo, hi, s) = wait_init_sound seen left (suc retry) (rw e at h) in
      (i, omega arith, omega arith, s)
]

wait_init_complete :
    (seen : ℕ → ℕ) (left retry i : ℕ)
    → retry ≤ i
    → i ≤ retry + left
    → seen i ≡ shm_init_magic
    → wait_init seen left retry ≡ true
unfolding wait_init
wait_init_complete seen zero retry i lo hi s = let e : retry ≡ i = omega arith in rw (e, s)
wait_init_complete seen (suc left) retry i lo hi s = elim (Bool-cases (retry == i)) [
  | inl e ↦ let r : retry ≡ i = ground arith in rw (r, s)
  | inr e ↦ ground (arith, wait_init_complete seen left (suc retry) i)
]

-- A process that is not the creator gets the region exactly when it can map it and the creator's
-- mark is seen at one of the polls 0 to 5000.
pub create-waits :
    {A : Type 0} (w : System) (v : A) (there : Region A)
    → open_region w ≡ some false
    → (create w v there ≡ some there)
      ↔ ((w.maps ≡ true) × ((i : ℕ) × (i ≤ 5000) × (w.seen i ≡ shm_init_magic)))
unfolding create
create-waits w v there o = (
  λ h.
      let m : w.maps ≡ true = ground arith in
      let p : wait_init w.seen max_polls 0 ≡ true = ground arith in
      let (i, lo, hi, s) = wait_init_sound w.seen max_polls 0 p in (m, (i, omega arith, s)),
  λ h.
      let p : wait_init w.seen max_polls 0 ≡ true =
        wait_init_complete w.seen max_polls 0 (h.1).0 (omega arith) (omega (arith, (h.1).1))
          (h.1).2 in
      ground (arith, p, h.0),
)
