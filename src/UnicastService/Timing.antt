-- ===== src/UnicastService/Timing.antt =====
-- The times of the unicast service as numbers of nanoseconds.
use lyp_lyl.Prelude.{
  ltb, leb, Bool-cases, ℕ, zero, suc, ◌+◌, ◌-◌, ◌*◌, ◌/◌, ◌^◌, ◌≤◌, ◌<◌, ◌≡◌, refl, ap, ◌∙◌, inl,
  inr, arith,
}
use lyp_lyl.Pqueue.Order.{Ranks}
use native.Mathlib.Nat.{div-div-eq-div-mul}
use lyp_lyl.Prelude.Int.{ltb_ℤ, ℤ, pos, negsuc}
use lyp_lyl.Tmv.{Timespec}
use lyp_lyl.UnicastService.{
  ns_per_sec, timespec_compare, compare_timeout, normalize_loop, timespec_normalize, halve,
  log_to_timespec, interval_increment, initialize_interval, ServiceInterval,
}

abbrev pub nanoseconds_of : Timespec → ℕ
nanoseconds_of ts = ts.tv_sec * ns_per_sec + ts.tv_nsec

abbrev pub IsNormal : Timespec → Type 0
IsNormal ts = ts.tv_nsec < ns_per_sec

-- Normal times are compared as their numbers of nanoseconds, the earlier one being the greater.
pub timespec_compare_iff :
    (a b : Timespec)
    → IsNormal a
    → IsNormal b
    → (ltb_ℤ (pos 0) (timespec_compare a b) ≡ ltb (nanoseconds_of a) (nanoseconds_of b))
      × (ltb_ℤ (timespec_compare a b) (pos 0) ≡ ltb (nanoseconds_of b) (nanoseconds_of a))
unfolding timespec_compare
timespec_compare_iff a b n n' = (ground arith, ground arith)

normalize_loop_lem :
    (rounds : ℕ) (ts : Timespec)
    → ts.tv_nsec < (rounds + 1) * ns_per_sec
    → IsNormal (normalize_loop rounds ts)
      × (nanoseconds_of (normalize_loop rounds ts) ≡ nanoseconds_of ts)
unfolding normalize_loop
normalize_loop_lem zero ts h = (omega arith, refl)
normalize_loop_lem (suc rounds) ts h = elim (Bool-cases (leb ns_per_sec ts.tv_nsec)) [
  | inl e ↦
      let less : Timespec = record { tv_sec = ts.tv_sec + 1; tv_nsec = ts.tv_nsec - ns_per_sec } in
      let much : ns_per_sec ≤ ts.tv_nsec = ground arith in
      let ih = normalize_loop_lem rounds less (omega arith) in rw e (ih.0, ih.1 ∙ omega arith)
  | inr e ↦ rw e (ground arith, refl)
]

-- The loop of timespec_normalize ends with a normal time, which is the same time.
pub timespec_normalize_lem :
    (ts : Timespec)
    → IsNormal (timespec_normalize ts)
      × (nanoseconds_of (timespec_normalize ts) ≡ nanoseconds_of ts)
unfolding timespec_normalize
timespec_normalize_lem ts = normalize_loop_lem (ts.tv_nsec / ns_per_sec) ts (omega arith)

halve_lem : (n x : ℕ) → halve n x ≡ x / 2 ^ n
unfolding halve
halve_lem zero x = omega arith
halve_lem (suc n) x =
    let twice : 2 * 2 ^ n ≡ 2 ^ suc n = omega arith in
    halve_lem n (x / 2) ∙ (div-div-eq-div-mul x 2 (2 ^ n) ∙ ap (λ d. x / d) twice)

-- A period is a power of two of a second: for a negative logarithm, the second is halved as often
-- as it says, down to whole nanoseconds.
pub log_to_timespec_lem :
    (n : ℕ)
    → (nanoseconds_of (log_to_timespec (pos n)) ≡ 2 ^ n * ns_per_sec)
      × (nanoseconds_of (log_to_timespec (negsuc n)) ≡ ns_per_sec / 2 ^ suc n)
unfolding log_to_timespec
log_to_timespec_lem n =
    let twice : 2 * 2 ^ n ≡ 2 ^ suc n = omega arith in
    let less : 0 * ns_per_sec + halve n 500000000 ≡ halve n 500000000 = omega arith in
    (
      omega arith,
      less
          ∙ halve_lem n 500000000
          ∙ (div-div-eq-div-mul ns_per_sec 2 (2 ^ n) ∙ ap (λ d. ns_per_sec / d) twice),
    )

-- The interval after some rounds.
unfoldable pub after : ℕ → ServiceInterval → ServiceInterval
after zero i = i
after (suc rounds) i = after rounds (interval_increment i)

after_lem :
    (rounds : ℕ) (i : ServiceInterval)
    → IsNormal i.tmo
    → IsNormal (after rounds i).tmo
      × (nanoseconds_of (after rounds i).tmo
          ≡ nanoseconds_of i.tmo + rounds * nanoseconds_of i.incr)
unfolding after interval_increment
after_lem zero i h = (h, omega arith)
after_lem (suc rounds) i h =
    let sum : Timespec = record {
      tv_sec = i.tmo.tv_sec + i.incr.tv_sec;
      tv_nsec = i.tmo.tv_nsec + i.incr.tv_nsec;
    } in
    let normal = timespec_normalize_lem sum in
    let ih = after_lem rounds (interval_increment i) normal.0 in
    let step : nanoseconds_of (timespec_normalize sum)
        ≡ nanoseconds_of i.tmo + nanoseconds_of i.incr =
      normal.1 ∙ omega arith in
    (ih.0, ih.1 ∙ omega (arith, step))

-- The timeouts of a new interval do not drift: after any number of increments the timeout is a
-- normal time, 10 ms and that many whole periods after the time at which the interval began.
pub interval_increment-initialize_interval :
    (rounds : ℕ) (now : Timespec) (log_period : ℤ)
    → (let t = (after rounds (initialize_interval now log_period)).tmo in
        IsNormal t
        × (nanoseconds_of t
            ≡ nanoseconds_of now + 10000000 + rounds * nanoseconds_of (log_to_timespec log_period)))
unfolding initialize_interval
interval_increment-initialize_interval rounds now log_period =
    let begin : Timespec = record { tv_sec = now.tv_sec; tv_nsec = now.tv_nsec + 10000000 } in
    let normal = timespec_normalize_lem begin in
    let done = after_lem rounds (initialize_interval now log_period) normal.0 in
    let start : nanoseconds_of (timespec_normalize begin) ≡ nanoseconds_of now + 10000000 =
      normal.1 ∙ omega arith in
    (done.0, done.1 ∙ omega (arith, start))

-- The comparison that the service gives its queue orders intervals with normal timeouts by their
-- timeouts, the earliest first.
pub compare_timeout-Ranks :
    Ranks {A = (i : ServiceInterval) × IsNormal i.tmo}
      (λ a b. compare_timeout a.0 b.0)
      (λ a. nanoseconds_of a.0.tmo)
unfolding compare_timeout
compare_timeout-Ranks = record {
  positive = λ a b. (timespec_compare_iff a.0.tmo b.0.tmo a.1 b.1).0;
  negative = λ a b. (timespec_compare_iff a.0.tmo b.0.tmo a.1 b.1).1;
}
