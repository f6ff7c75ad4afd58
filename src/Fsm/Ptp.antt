-- ===== src/Fsm/Ptp.antt =====
-- The ordinary and the slave-only port (fsm.c): what leads to each role, and how the two agree.
use lyp_lyl.Prelude.{Bool, true, false, ◌≡◌, ◌≢◌, ◌⊎◌, ◌↔◌, arith}
use lyp_lyl.Fsm.{
  PortState, listening, pre_master, master, passive, uncalibrated, slave, grand_master, FsmEvent,
  designated_disabled, fault_detected, qualification_timeout_expires,
  announce_receipt_timeout_expires, synchronization_fault, master_clock_selected, rs_master,
  rs_grand_master, rs_slave, rs_passive, is_restart, ptp_fsm, ptp_slave_fsm,
}

-- The slave-only port keeps listening where the ordinary port would serve or be passive.
abbrev pub demote : PortState → PortState
demote pre_master = listening
demote master = listening
demote passive = listening
demote grand_master = listening
demote s = s

abbrev pub Demoted : PortState → Type 0
Demoted s = demote s ≡ s

-- In each state that a slave-only port can be in, its machine takes the step of the ordinary
-- machine, with listening in place of the pre-master, master, grand master and passive states.
pub ptp_slave_fsm-demote :
    (s : PortState) (e : FsmEvent) (m : Bool)
    → Demoted s
    → ptp_slave_fsm s e m ≡ demote (ptp_fsm s e m)
unfolding ptp_fsm ptp_slave_fsm
ptp_slave_fsm-demote s e m h = ground arith

-- The events that end a slave's service: a restart, a fault, a disable, an announce timeout, a
-- synchronization fault, a decision for another role, and one for the slave role with a new master.
abbrev pub unsettles : FsmEvent → Bool → Bool
unsettles fault_detected m = true
unsettles designated_disabled m = true
unsettles announce_receipt_timeout_expires m = true
unsettles synchronization_fault m = true
unsettles rs_master m = true
unsettles rs_grand_master m = true
unsettles rs_passive m = true
unsettles rs_slave m = m
unsettles e m = is_restart e

-- An ordinary port is a slave after a step exactly when it was uncalibrated and its master clock
-- was selected, or when it was a slave and the event does not end a slave's service.
pub ptp_fsm-slave :
    (s : PortState) (e : FsmEvent) (m : Bool)
    → (ptp_fsm s e m ≡ slave) ↔ (
        ((s ≡ uncalibrated) × (e ≡ master_clock_selected))
        ⊎ ((s ≡ slave) × (unsettles e m ≡ false)))
unfolding ptp_fsm
ptp_fsm-slave s e m = (λ h. ground arith, λ h. ground arith)

-- An ordinary port that was in another state is a master after a step exactly when its
-- qualification time ended before it served, or when no announce message came in time while it was
-- listening, passive, uncalibrated or a slave.
pub ptp_fsm-master :
    (s : PortState) (e : FsmEvent) (m : Bool)
    → s ≢ master
    → (ptp_fsm s e m ≡ master) ↔ (
        ((s ≡ pre_master) × (e ≡ qualification_timeout_expires))
        ⊎ ((e ≡ announce_receipt_timeout_expires)
            × ((s ≡ listening) ⊎ (s ≡ passive) ⊎ (s ≡ uncalibrated) ⊎ (s ≡ slave))))
unfolding ptp_fsm
ptp_fsm-master s e m n = (λ h. ground arith, λ h. ground arith)
