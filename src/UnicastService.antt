-- ===== src/UnicastService.antt =====
-- unicast_service.c: the timing of the intervals that a unicast server keeps in its queue. The
-- times are natural numbers: CLOCK_MONOTONIC is not negative.
pub mod Timing
pub mod Contracts
pub mod Holders
pub mod Granting
pub mod Single
pub mod Cancel
pub mod Clients
use lyp_lyl.Prelude.{ltb, leb, if◌then◌else◌, ℕ, zero, suc, ◌+◌, ◌-◌, ◌*◌, ◌/◌, ◌^◌}
use lyp_lyl.Prelude.Int.{ℤ, pos, negsuc}
use lyp_lyl.Tmv.{Timespec}

abbrev pub ns_per_sec : ℕ
ns_per_sec = 1000000000

-- struct unicast_service_interval, less its clients.
pub record ServiceInterval : Type 0 where
  pub incr : Timespec
  pub tmo : Timespec
  pub log_period : ℤ

unfoldable pub timespec_compare : Timespec → Timespec → ℤ
timespec_compare a b =
    if ltb a.tv_sec b.tv_sec
    then pos 1
    else if ltb b.tv_sec a.tv_sec
    then negsuc 0
    else if ltb a.tv_nsec b.tv_nsec
    then pos 1
    else if ltb b.tv_nsec a.tv_nsec
    then negsuc 0
    else pos 0

unfoldable pub compare_timeout : ServiceInterval → ServiceInterval → ℤ
compare_timeout a b = timespec_compare a.tmo b.tmo

-- The loop of timespec_normalize. Each round takes a second away.
unfoldable pub normalize_loop : ℕ → Timespec → Timespec
normalize_loop zero ts = ts
normalize_loop (suc rounds) ts =
    let rest =
      normalize_loop rounds
        (record { tv_sec = ts.tv_sec + 1; tv_nsec = ts.tv_nsec - ns_per_sec }) in
    if leb ns_per_sec ts.tv_nsec then rest else ts

unfoldable pub timespec_normalize : Timespec → Timespec
timespec_normalize ts = normalize_loop (ts.tv_nsec / ns_per_sec) ts

-- The loop of log_to_timespec.
unfoldable pub halve : ℕ → ℕ → ℕ
halve zero ns = ns
halve (suc n) ns = halve n (ns / 2)

-- `1 << log_seconds` is an int: the argument is below 31.
unfoldable pub log_to_timespec : ℤ → Timespec
log_to_timespec (pos n) = record { tv_sec = 2 ^ n; tv_nsec = 0 }
log_to_timespec (negsuc n) = record { tv_sec = 0; tv_nsec = halve n 500000000 }

unfoldable pub interval_increment : ServiceInterval → ServiceInterval
interval_increment i = record i {
  tmo =
      timespec_normalize (record {
        tv_sec = i.tmo.tv_sec + i.incr.tv_sec;
        tv_nsec = i.tmo.tv_nsec + i.incr.tv_nsec;
      });
}

-- The interval, from the time that the clock shows.
unfoldable pub initialize_interval : Timespec → ℤ → ServiceInterval
initialize_interval now log_period = record {
  incr = log_to_timespec log_period;
  tmo = timespec_normalize (record { tv_sec = now.tv_sec; tv_nsec = now.tv_nsec + 10000000 });
  log_period = log_period;
}
