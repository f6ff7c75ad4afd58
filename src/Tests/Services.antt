-- ===== src/Tests/Services.antt =====
-- Intervals of the unicast service.
use lyp_lyl.Prelude.{◌+◌, ◌*◌, ◌≡◌}
use lyp_lyl.Prelude.Int.{pos, negsuc}
use lyp_lyl.Tmv.{Timespec}
use lyp_lyl.UnicastService.{log_to_timespec, initialize_interval}
use lyp_lyl.UnicastService.Timing.{
  nanoseconds_of, IsNormal, log_to_timespec_lem, after, interval_increment-initialize_interval,
}

abbrev start : Timespec
start = record { tv_sec = 7; tv_nsec = 995000000 }

-- Eight times a second.
log_to_timespec_test :
    (nanoseconds_of (log_to_timespec (pos 2)) ≡ 4000000000)
    × (nanoseconds_of (log_to_timespec (negsuc 2)) ≡ 125000000)
log_to_timespec_test = log_to_timespec_lem 2

interval_increment-initialize_interval_test :
    (let t = (after 10 (initialize_interval start (negsuc 2))).tmo in
      IsNormal t
      × (nanoseconds_of t
          ≡ nanoseconds_of start + 10000000 + 10 * nanoseconds_of (log_to_timespec (negsuc 2))))
interval_increment-initialize_interval_test =
    interval_increment-initialize_interval 10 start (negsuc 2)
