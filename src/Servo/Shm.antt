-- ===== src/Servo/Shm.antt =====
-- The regions of shared memory of servo.c: the servo state of domain 0, the restart flag of a
-- master, and the stable flag of the slave servo with the sync state. A critical section is one
-- step; sem_wait and sem_post fail only where the system says so.
use lyp_lyl.Prelude.{
  ◌==◌, if◌then◌else◌, ℕ, zero, suc, ◌+◌, ◌-◌, ◌*◌, ◌/◌, Bool, true, false, not, ◌&&◌, ◌||◌, Option,
  none, some,
}
use lyp_lyl.Prelude.Int.{pos_part, neg_part, ℤ, pos, negsuc}
use lyp_lyl.Servo.{ServoState, unlocked}

abbrev pub shm_init_magic : ℕ
shm_init_magic = 0x12345678

-- One region; `value` is the payload, and `mutex` the semaphore's value.
pub record Region (A : Type 0) : Type 0 where
  pub init_complete : ℕ
  pub value : A
  pub initialized : Bool
  pub domain_id : ℤ
  pub mutex : ℕ

-- Whether sem_wait and sem_post succeed in a call.
pub record Semaphore : Type 0 where
  pub waits : Bool
  pub posts : Bool

abbrev pub same_domain : ℤ → ℤ → Bool
same_domain a b = (pos_part a == pos_part b) && (neg_part a == neg_part b)

module _ {A : Type 0} where
  abbrev pub acquire : Region A → Region A
  acquire r = record r { mutex = r.mutex - 1 }

  abbrev pub release : Bool → Region A → Region A
  release posts r = if posts then record r { mutex = r.mutex + 1 } else r

  -- The region after an update, and true for the return value 0.
  unfoldable pub update : Semaphore → Region A → A → ℤ → Region A × Bool
  update sem shm v domain_id =
      if sem.waits
      then (
        release sem.posts
            (record (acquire shm) { value = v; domain_id = domain_id; initialized = true }),
        sem.posts,
      )
      else (shm, false)

  -- The region after a read, and the value that the caller gets. Where only the last sem_post
  -- fails the code has stored the value and reports an error: that value is dropped here.
  unfoldable pub read : Semaphore → Region A → ℤ → Region A × Option A
  read sem shm domain_id =
      if sem.waits
      then (if not shm.initialized || not (same_domain shm.domain_id domain_id)
          then (release sem.posts (acquire shm), none)
          else (release sem.posts (acquire shm), if sem.posts then some shm.value else none))
      else (shm, none)

-- The three pairs of functions, which differ in the payload alone.
unfoldable pub servo_state_shm_update :
    Semaphore → Region ServoState → ServoState → ℤ → Region ServoState × Bool
unfolding update
servo_state_shm_update sem shm state domain_id = update sem shm state domain_id

unfoldable pub servo_state_shm_read :
    Semaphore → Region ServoState → ℤ → Region ServoState × Option ServoState
unfolding read
servo_state_shm_read sem shm domain_id = read sem shm domain_id

unfoldable pub master_restart_shm_update : Semaphore → Region ℤ → ℤ → ℤ → Region ℤ × Bool
unfolding update
master_restart_shm_update sem shm master_restart_detected domain_id =
    update sem shm master_restart_detected domain_id

unfoldable pub master_restart_shm_read : Semaphore → Region ℤ → ℤ → Region ℤ × Option ℤ
unfolding read
master_restart_shm_read sem shm domain_id = read sem shm domain_id

-- The region of the slave servo also carries the sync state of the other domain.
pub record StableFlags : Type 0 where
  pub slave_servo_stable : ℤ
  pub sync_received : ℤ
  pub sync_domain_id : ℤ

unfoldable pub slave_servo_stable_shm_update :
    Semaphore → Region StableFlags → ℤ → ℤ → Region StableFlags × Bool
unfolding update
slave_servo_stable_shm_update sem shm slave_servo_stable domain_id =
    update sem shm (record (shm.value) { slave_servo_stable = slave_servo_stable }) domain_id

unfoldable pub slave_servo_stable_shm_read :
    Semaphore → Region StableFlags → ℤ → Region StableFlags × Option ℤ
unfolding read
slave_servo_stable_shm_read sem shm domain_id =
    let (shm', got) = read sem shm domain_id in
    (shm', elim got [ none ↦ none | some v ↦ some v.slave_servo_stable ])

unfoldable pub sync_state_shm_update :
    Semaphore → Region StableFlags → ℤ → ℤ → Region StableFlags × Bool
sync_state_shm_update sem shm sync_received_state domain_id =
    if sem.waits
    then (
      release sem.posts (record (acquire shm) {
        value = record (shm.value) {
          sync_received = sync_received_state;
          sync_domain_id = domain_id;
        };
      }),
      sem.posts,
    )
    else (shm, false)

unfoldable pub sync_state_shm_read : Semaphore → Region StableFlags → Region StableFlags × Option ℤ
sync_state_shm_read sem shm =
    if sem.waits
    then (release sem.posts (acquire shm), if sem.posts then some shm.value.sync_received else none)
    else (shm, none)

-- How a first shm_open and an exclusive one end.
pub data Opening : Type 0 where
  opened missing refused : Opening

pub data Creation : Type 0 where
  created exists denied : Creation

-- What the system answers during a creation; `seen i` is the value of init_complete after i waits.
pub record System : Type 0 where
  pub first : Opening
  pub exclusive : Creation
  pub second : Bool
  pub truncates : Bool
  pub maps : Bool
  pub sem_inits : Bool
  pub seen : ℕ → ℕ

-- The wait for the creator, with so many polls left, then the test after the loop.
unfoldable pub wait_init : (ℕ → ℕ) → ℕ → ℕ → Bool
wait_init seen zero retry = seen retry == shm_init_magic
wait_init seen (suc left) retry =
    let rest = wait_init seen left (suc retry) in
    if seen retry == shm_init_magic then true else rest

-- MAX_INIT_WAIT_MS * 1000 / INIT_POLL_INTERVAL_US
abbrev pub max_polls : ℕ
max_polls = 5000 * 1000 / 1000

-- The two calls of shm_open: none is an error, otherwise whether this process is the creator.
abbrev pub open_region : System → Option Bool
open_region w = elim w.first [
  | opened ↦ some false
  | refused ↦ none
  | missing ↦ elim w.exclusive [
    | created ↦ some true
    | denied ↦ none
    | exists ↦ if w.second then some false else none
  ]
]

module _ {A : Type 0} where
  -- A creator's region, with the given payload.
  abbrev pub fresh : A → Region A
  fresh v = record {
    init_complete = shm_init_magic;
    value = v;
    initialized = false;
    domain_id = negsuc 0;
    mutex = 1;
  }

  -- The whole creation, from the region as it stands in memory.
  unfoldable pub create : System → A → Region A → Option (Region A)
  create w v there = elim (open_region w) [
    | none ↦ none
    | some true ↦ if w.truncates && (w.maps && w.sem_inits) then some (fresh v) else none
    | some false ↦ if w.maps && wait_init w.seen max_polls 0 then some there else none
  ]

unfoldable pub servo_state_shm_create : System → Region ServoState → Option (Region ServoState)
unfolding create
servo_state_shm_create w there = create w unlocked there

unfoldable pub master_restart_shm_create : System → Region ℤ → Option (Region ℤ)
unfolding create
master_restart_shm_create w there = create w (pos 0) there

unfoldable pub slave_servo_stable_shm_create :
    System → Region StableFlags → Option (Region StableFlags)
unfolding create
slave_servo_stable_shm_create w there =
    create w
      (record { slave_servo_stable = pos 0; sync_received = pos 0; sync_domain_id = negsuc 0 })
      there
