-- ===== src/Tests/Machines.antt =====
-- The state machines of the ports and of the unicast negotiation.
use lyp_lyl.Prelude.{if◌then◌else◌, ◌≡◌, refl, ◌≢◌, ◌↔◌, ◌⊎◌, true, false, not, ◌&&◌, List, [], ◌∷◌}
use lyp_lyl.Fsm.{
  ptp_fsm, ptp_slave_fsm, initializing, faulty, listening, pre_master, master, passive,
  uncalibrated, slave, FsmEvent, initialize, fault_detected, qualification_timeout_expires,
  announce_receipt_timeout_expires, master_clock_selected, init_complete, rs_master, rs_slave,
}
use lyp_lyl.Fsm.Ptp.{demote, ptp_slave_fsm-demote, unsettles, ptp_fsm-slave, ptp_fsm-master}
use lyp_lyl.Fsm.Unicast.{
  unicast_fsm, unicast_run, contract, negotiate, contract-unicast_fsm, Holds, have_sydy-needs,
  have_ann, UnicastEvent, grant_ann, selected, grant_sydy,
}
use lyp_lyl.Port.State.{
  fri_asap, clear_fault_asap, port_state_update, run, opened, select_machine, log2_seconds,
  Surroundings, Port, Update, Options,
}
use lyp_lyl.Port.Roles.{InRole, run-InRole, update-ne-initializing, update-fault_detected}

ptp_slave_fsm-demote_example :
    ptp_slave_fsm listening rs_master false ≡ demote (ptp_fsm listening rs_master false)
ptp_slave_fsm-demote_example = ptp_slave_fsm-demote listening rs_master false refl

ptp_fsm-slave_test : (ptp_fsm uncalibrated master_clock_selected true ≡ slave) ↔ (
    ((uncalibrated ≡ uncalibrated) × (master_clock_selected ≡ master_clock_selected))
    ⊎ ((uncalibrated ≡ slave) × (unsettles master_clock_selected true ≡ false)))
ptp_fsm-slave_test = ptp_fsm-slave uncalibrated master_clock_selected true

ptp_fsm-master_test : (ptp_fsm slave announce_receipt_timeout_expires true ≡ master) ↔ (
    ((slave ≡ pre_master) × (announce_receipt_timeout_expires ≡ qualification_timeout_expires))
    ⊎ ((announce_receipt_timeout_expires ≡ announce_receipt_timeout_expires)
        × ((slave ≡ listening) ⊎ (slave ≡ passive) ⊎ (slave ≡ uncalibrated) ⊎ (slave ≡ slave))))
ptp_fsm-master_test = ptp_fsm-master slave announce_receipt_timeout_expires true (λ e. cc)

contract-unicast_fsm_test :
    contract (unicast_fsm have_ann selected) ≡ negotiate (contract have_ann) selected
contract-unicast_fsm_test = contract-unicast_fsm have_ann selected

abbrev grants : List UnicastEvent
grants = grant_ann ∷ selected ∷ grant_sydy ∷ []

have_sydy-needs_test : Holds grant_ann grants × Holds selected grants × Holds grant_sydy grants
unfolding unicast_run unicast_fsm
have_sydy-needs_test = have_sydy-needs grants refl

abbrev calm : Surroundings
calm = record {
  link_up = true;
  fault = record { tmo_type = log2_seconds; val = fri_asap };
  init_fails = false;
}

abbrev happens : FsmEvent → Update
happens e = record { event = e; mdiff = false; world = calm }

abbrev client_only : Options
client_only = record { bmca_noop = false; is_uds = false; master_only = false; slave_only = true }

abbrev session : List Update
session =
    happens init_complete
    ∷ happens rs_slave
    ∷ happens master_clock_selected
    ∷ happens rs_master
    ∷ []

-- A slave-only port that is told to be a master listens again.
session_state : (run ptp_slave_fsm opened session).state ≡ listening
unfolding run opened port_state_update ptp_slave_fsm
session_state = refl

run-InRole_example : InRole client_only (run ptp_slave_fsm opened session).state
unfolding select_machine
run-InRole_example = run-InRole client_only session refl

update-ne-initializing_test :
    (port_state_update ptp_slave_fsm calm opened initialize false).0.state ≢ initializing
unfolding select_machine
update-ne-initializing_test = update-ne-initializing client_only calm opened initialize false refl

abbrev serving : Port
serving = record { state = master; unicast_state_dirty = false; notified = false }

update-fault_detected_test :
    (port_state_update ptp_fsm calm serving fault_detected false).0.state ≡ (
      if calm.link_up && (clear_fault_asap calm.fault && not calm.init_fails)
      then listening
      else faulty)
update-fault_detected_test = update-fault_detected calm serving false (λ e. cc)
