-- ===== src/Fsm.antt =====
-- The port state machines: fsm.c and fsm.h (ordinary and slave-only ports), designated_fsm.c (ports
-- with a configured role) and unicast_fsm.c (one entry of the unicast master table).
-- `mdiff`, an int that the code tests for zero, is a Bool. A state or event outside the enums,
-- which leaves the state as it is, is not represented.
pub mod Ptp
pub mod Unicast
use lyp_lyl.Prelude.{ℕ, Bool, true, false, if◌then◌else◌}

-- enum port_state
pub data PortState : Type 0 where
  initializing faulty disabled listening pre_master master passive uncalibrated slave grand_master :
      PortState

-- enum fsm_event
pub data FsmEvent : Type 0 where
  none powerup initialize designated_enabled designated_disabled fault_cleared fault_detected
        state_decision_event qualification_timeout_expires announce_receipt_timeout_expires
        synchronization_fault master_clock_selected init_complete rs_master rs_grand_master rs_slave
        rs_passive :
      FsmEvent

-- The enum's values, by which the C code compares states.
abbrev pub number : PortState → ℕ
number initializing = 1
number faulty = 2
number disabled = 3
number listening = 4
number pre_master = 5
number master = 6
number passive = 7
number uncalibrated = 8
number slave = 9
number grand_master = 10

-- The test at the top of each port state machine.
abbrev pub is_restart : FsmEvent → Bool
is_restart initialize = true
is_restart powerup = true
is_restart _ = false

-- The `switch` of ptp_fsm; the last clause is every `default`.
abbrev ptp_switch : PortState → FsmEvent → Bool → PortState
ptp_switch initializing fault_detected m = faulty
ptp_switch initializing init_complete m = listening
ptp_switch faulty designated_disabled m = disabled
ptp_switch faulty fault_cleared m = initializing
ptp_switch disabled designated_enabled m = initializing
ptp_switch listening designated_disabled m = disabled
ptp_switch listening fault_detected m = faulty
ptp_switch listening announce_receipt_timeout_expires m = master
ptp_switch listening rs_master m = pre_master
ptp_switch listening rs_grand_master m = grand_master
ptp_switch listening rs_slave m = uncalibrated
ptp_switch listening rs_passive m = passive
ptp_switch pre_master designated_disabled m = disabled
ptp_switch pre_master fault_detected m = faulty
ptp_switch pre_master qualification_timeout_expires m = master
ptp_switch pre_master rs_slave m = uncalibrated
ptp_switch pre_master rs_passive m = passive
ptp_switch master designated_disabled m = disabled
ptp_switch master fault_detected m = faulty
ptp_switch master rs_slave m = uncalibrated
ptp_switch master rs_passive m = passive
ptp_switch grand_master designated_disabled m = disabled
ptp_switch grand_master fault_detected m = faulty
ptp_switch grand_master rs_slave m = uncalibrated
ptp_switch grand_master rs_passive m = passive
ptp_switch passive designated_disabled m = disabled
ptp_switch passive fault_detected m = faulty
ptp_switch passive announce_receipt_timeout_expires m = master
ptp_switch passive rs_master m = pre_master
ptp_switch passive rs_grand_master m = grand_master
ptp_switch passive rs_slave m = uncalibrated
ptp_switch uncalibrated designated_disabled m = disabled
ptp_switch uncalibrated fault_detected m = faulty
ptp_switch uncalibrated announce_receipt_timeout_expires m = master
ptp_switch uncalibrated master_clock_selected m = slave
ptp_switch uncalibrated rs_master m = pre_master
ptp_switch uncalibrated rs_grand_master m = grand_master
ptp_switch uncalibrated rs_slave m = uncalibrated
ptp_switch uncalibrated rs_passive m = passive
ptp_switch slave designated_disabled m = disabled
ptp_switch slave fault_detected m = faulty
ptp_switch slave announce_receipt_timeout_expires m = master
ptp_switch slave synchronization_fault m = uncalibrated
ptp_switch slave rs_master m = pre_master
ptp_switch slave rs_grand_master m = grand_master
ptp_switch slave rs_slave m = if m then uncalibrated else slave
ptp_switch slave rs_passive m = passive
ptp_switch s e m = s

unfoldable pub ptp_fsm : PortState → FsmEvent → Bool → PortState
ptp_fsm state event mdiff = if is_restart event then initializing else ptp_switch state event mdiff

-- The `switch` of ptp_slave_fsm.
abbrev slave_switch : PortState → FsmEvent → Bool → PortState
slave_switch initializing fault_detected m = faulty
slave_switch initializing init_complete m = listening
slave_switch faulty designated_disabled m = disabled
slave_switch faulty fault_cleared m = initializing
slave_switch disabled designated_enabled m = initializing
slave_switch listening designated_disabled m = disabled
slave_switch listening fault_detected m = faulty
slave_switch listening announce_receipt_timeout_expires m = listening
slave_switch listening rs_master m = listening
slave_switch listening rs_grand_master m = listening
slave_switch listening rs_passive m = listening
slave_switch listening rs_slave m = uncalibrated
slave_switch uncalibrated designated_disabled m = disabled
slave_switch uncalibrated fault_detected m = faulty
slave_switch uncalibrated announce_receipt_timeout_expires m = listening
slave_switch uncalibrated rs_master m = listening
slave_switch uncalibrated rs_grand_master m = listening
slave_switch uncalibrated rs_passive m = listening
slave_switch uncalibrated master_clock_selected m = slave
slave_switch slave designated_disabled m = disabled
slave_switch slave fault_detected m = faulty
slave_switch slave announce_receipt_timeout_expires m = listening
slave_switch slave rs_master m = listening
slave_switch slave rs_grand_master m = listening
slave_switch slave rs_passive m = listening
slave_switch slave synchronization_fault m = uncalibrated
slave_switch slave rs_slave m = if m then uncalibrated else slave
slave_switch s e m = s

unfoldable pub ptp_slave_fsm : PortState → FsmEvent → Bool → PortState
ptp_slave_fsm state event mdiff =
    if is_restart event then initializing else slave_switch state event mdiff

-- designated_fsm.c: the port's role is configured, so no state decision changes it.
abbrev designated_master_switch : PortState → FsmEvent → PortState
designated_master_switch initializing fault_detected = faulty
designated_master_switch initializing init_complete = master
designated_master_switch faulty fault_cleared = initializing
designated_master_switch master fault_detected = faulty
designated_master_switch s e = s

unfoldable pub designated_master_fsm : PortState → FsmEvent → Bool → PortState
designated_master_fsm state event mdiff =
    if is_restart event then initializing else designated_master_switch state event

abbrev designated_slave_switch : PortState → FsmEvent → PortState
designated_slave_switch initializing fault_detected = faulty
designated_slave_switch initializing init_complete = slave
designated_slave_switch faulty fault_cleared = initializing
designated_slave_switch slave fault_detected = faulty
designated_slave_switch s e = s

unfoldable pub designated_slave_fsm : PortState → FsmEvent → Bool → PortState
designated_slave_fsm state event mdiff =
    if is_restart event then initializing else designated_slave_switch state event
