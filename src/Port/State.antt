-- ===== src/Port/State.antt =====
-- port.c: port_state_update, which drives a port by its state machine, and the choice of the
-- machine in port_open.

use lyp_lyl.Prelude.{
  ◌==◌, if◌then◌else◌, ◌≡◌, Bool, true, false, not, ◌&&◌, Option, none, some, List, [], ◌∷◌, arith,
}
use lyp_lyl.Prelude.Int.{eq_ℤ, ℤ, pos, negsuc}
use lyp_lyl.Fsm.{
  number, ptp_fsm, ptp_slave_fsm, designated_master_fsm, designated_slave_fsm, PortState,
  initializing, faulty, FsmEvent, fault_cleared, fault_detected, init_complete,
}

abbrev pub Machine : Type 0
Machine = PortState → FsmEvent → Bool → PortState

-- struct fault_interval, with the count that ends the enum of its types.
pub data FaultTmoType : Type 0 where
  linear_seconds log2_seconds cnt : FaultTmoType

pub record FaultInterval : Type 0 where
  pub tmo_type : FaultTmoType
  pub val : ℤ

-- FRI_ASAP, -128
abbrev pub fri_asap : ℤ
fri_asap = negsuc 127

unfoldable pub clear_fault_asap : FaultInterval → Bool
clear_fault_asap faint = elim faint.tmo_type [
  | linear_seconds ↦ eq_ℤ faint.val (pos 0)
  | log2_seconds ↦ eq_ℤ faint.val fri_asap
  | cnt ↦ false
]

-- What the update reads of its environment: whether the link is up, the fault interval of the last
-- fault's type, and whether port_initialize reports an error.
pub record Surroundings : Type 0 where
  pub link_up : Bool
  pub fault : FaultInterval
  pub init_fails : Bool

-- The fields of struct port that the update writes, and the count of its NOTIFY_PORT_STATE.
pub record Port : Type 0 where
  pub state : PortState
  pub unicast_state_dirty : Bool
  pub notified : Bool

-- A fault is cleared at once where the surroundings allow it.
abbrev pub clear_fault : Machine → Surroundings → PortState → PortState
clear_fault f w faulty =
    if w.link_up && clear_fault_asap w.fault then f faulty fault_cleared false else faulty
clear_fault f w next = next

-- The port is initialized immediately, and goes on with the outcome.
abbrev pub skip_initializing : Machine → Surroundings → PortState → PortState
skip_initializing f w initializing =
    if w.init_fails then f initializing fault_detected false else f initializing init_complete false
skip_initializing f w next = next

abbrev pub next_state : Machine → Surroundings → PortState → FsmEvent → Bool → PortState
next_state f w state event mdiff = skip_initializing f w (clear_fault f w (f state event mdiff))

-- The port after the update, and whether its state changed.
unfoldable pub port_state_update : Machine → Surroundings → Port → FsmEvent → Bool → Port × Bool
port_state_update f w p event mdiff =
    let next = next_state f w p.state event mdiff in
    let marked = if mdiff then record p { unicast_state_dirty = true } else p in
    if number next == number p.state
    then (marked, false)
    else (record marked { state = next; unicast_state_dirty = true; notified = true }, true)

-- One update: the event, `mdiff` and the surroundings.
pub record Update : Type 0 where
  pub event : FsmEvent
  pub mdiff : Bool
  pub world : Surroundings

unfoldable pub run : Machine → Port → List Update → Port
run f p [] = p
run f p (u ∷ us) = run f (port_state_update f u.world p u.event u.mdiff).0 us

-- A port that is opened.
unfoldable pub opened : Port
opened = record { state = initializing; unicast_state_dirty = true; notified = false }

-- How port_open chooses the machine: the BMCA option, the UDS ports, which ignore it, then the
-- configured role or the clock's. `none` is the error.
pub record Options : Type 0 where
  pub bmca_noop : Bool
  pub is_uds : Bool
  pub master_only : Bool
  pub slave_only : Bool

unfoldable pub select_machine : Options → Option Machine
select_machine o =
    if o.bmca_noop && not o.is_uds
    then if o.master_only
      then some designated_master_fsm
      else if o.slave_only
      then some designated_slave_fsm
      else none
    else some (if o.slave_only then ptp_slave_fsm else ptp_fsm)

pub update-state :
    (f : Machine) (w : Surroundings) (p : Port) (e : FsmEvent) (m : Bool)
    → (port_state_update f w p e m).0.state ≡ next_state f w p.state e m
unfolding port_state_update
update-state f w p e m = ground arith
