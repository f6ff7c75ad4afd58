-- ===== src/Port/SyncFup.antt =====
-- port.c: Sync and Follow_Up messages, from process_sync and process_follow_up to the clock. The
-- functions of clock.c, which is not in the repository, are the fields of ClockCalls. Left out of
-- port_synchronize and process_sync: timers, monitors, the remembered sequence id of the security
-- association, the delay requests, and the PHC switch of a jbod.
pub mod Told
pub mod Pairs
pub mod Order
pub mod Waiting
pub mod Release
pub mod Watch
use lyp_lyl.Prelude.{
  leb, ◌==◌, if◌then◌else◌, ℕ, ◌+◌, ◌*◌, ◌%◌, ◌^◌, Bool, true, false, not, ◌&&◌, ◌||◌, Option, none,
  some, List, ◌∷◌,
}
use lyp_lyl.Prelude.Int.{◌+ℤ◌, ltb_ℤ, eq_ℤ, ℤ, pos, negsuc}
use lyp_lyl.Prelude.Memory.{write}
use lyp_lyl.Tmv.{
  Tmv, value, tmv_add, tmv_cmp, tmv_is_zero, tmv_sub, correction_to_tmv, timestamp_to_tmv,
}
use lyp_lyl.Fsm.{
  PortState, faulty, disabled, uncalibrated, slave, FsmEvent, synchronization_fault,
  master_clock_selected,
}
use lyp_lyl.Servo.{ServoState, unlocked, jump, locked, locked_stable}
use lyp_lyl.Port.State.{Machine, port_state_update, Surroundings, Port}

-- enum syfu_state and enum syfu_event
pub data SyfuState : Type 0 where
  sf_empty sf_have_sync sf_have_fup : SyfuState

pub data SyfuEvent : Type 0 where
  sync_mismatch sync_match fup_mismatch fup_match : SyfuEvent

-- What the handlers read of a struct ptp_message. The address tells messages apart, an identity is
-- a number, and `info` is the Follow_Up information TLV, where there is one.
pub record Message : Type 0 where
  pub address : ℕ
  pub sequence_id : ℕ
  pub source : ℕ
  pub unicast : Bool
  pub two_step : Bool
  pub log_message_interval : ℤ
  pub correction : ℕ
  pub hwts : Tmv
  pub sw : Tmv
  pub pdu_sec : ℕ
  pub pdu_nsec : ℕ
  pub info : Option ℕ

pub record ClockCalls (C : Type 0) : Type 0 where
  pub clock_synchronize : C → Tmv → Tmv → C × ServoState
  pub clock_servo_state : C → ServoState
  pub servo_offset_threshold : C → ℕ
  pub servo_reset : C → C
  pub clock_request_servo_reset : C → C
  pub clock_sync_interval : C → ℤ → C
  pub clock_follow_up_info : C → ℕ → C
  pub clock_parent_identity : C → ℕ

-- The fields of struct port for requests of message intervals; `requested` has, the latest first,
-- the sync intervals with which port_tx_interval_request has been called.
pub record Intervals : Type 0 where
  pub msg_interval_request : Bool
  pub initial_log_sync_interval : ℤ
  pub log_sync_interval : ℤ
  pub oper_log_sync_interval : ℤ
  pub log_min_pdelay_req_interval : ℤ
  pub log_pdelay_req_interval : ℤ
  pub oper_log_pdelay_req_interval : ℤ
  pub requested : List ℤ

abbrev pub signal_set_initial : ℤ
signal_set_initial = pos 126

-- The other fields of struct port that take part; `refs` is, for each message, how many more references
-- these functions have taken than released.
pub record Syncing (C : Type 0) : Type 0 where
  pub port : Port
  pub clock : C
  pub syfu : SyfuState
  pub last_syncfup : Message
  pub refs : ℕ → ℤ
  pub sync_mismatches : ℕ
  pub followup_mismatches : ℕ
  pub last_sync_recv_time : Tmv
  pub sync_interval_exceed_count : ℕ
  pub log_sync_interval : ℤ
  pub intervals : Intervals
  pub asymmetry : ℕ
  pub ignore_source_id : Bool
  pub follow_up_info : Bool
  pub assume_two_step : Bool

unfoldable pub fup_sync_ok : Message → Message → Bool
fup_sync_ok fup sync = not (ltb_ℤ (tmv_cmp fup.sw sync.sw) (pos 0))

abbrev pub is_have_sync : SyfuState → Bool
is_have_sync sf_have_sync = true
is_have_sync s = false

abbrev pub is_have_fup : SyfuState → Bool
is_have_fup sf_have_fup = true
is_have_fup s = false

-- The states in which Sync and Follow_Up messages count.
abbrev pub is_client : PortState → Bool
is_client uncalibrated = true
is_client slave = true
is_client s = false

-- The states on whose entry the transition functions of the port call flush_last_sync.
abbrev pub flushes : PortState → Bool
flushes uncalibrated = true
flushes faulty = true
flushes disabled = true
flushes s = false

abbrev pub is_locked : ServoState → Bool
is_locked locked = true
is_locked s = false

-- The port goes over to these intervals and requests a sync interval of its master.
abbrev pub request_intervals : Intervals → ℤ → ℤ → ℤ → Intervals
request_intervals i log_sync log_pdelay_req sent = record i {
  log_sync_interval = log_sync;
  log_pdelay_req_interval = log_pdelay_req;
  requested = sent ∷ i.requested;
}

module _ {C : Type 0} where
  abbrev pub msg_get : Syncing C → Message → Syncing C
  msg_get p m = record p { refs = write p.refs m.address (p.refs m.address +ℤ pos 1) }

  abbrev pub msg_put : Syncing C → Message → Syncing C
  msg_put p m = record p { refs = write p.refs m.address (p.refs m.address +ℤ negsuc 0) }

  unfoldable pub flush_last_sync : Syncing C → Syncing C
  flush_last_sync p = elim p.syfu [
    | sf_empty ↦ p
    | sf_have_sync ↦ record (msg_put p p.last_syncfup) { syfu = sf_empty }
    | sf_have_fup ↦ record (msg_put p p.last_syncfup) { syfu = sf_empty }
  ]

  -- The port's state machine, then the transition into the new state.
  unfoldable pub port_dispatch : Machine → Surroundings → Syncing C → FsmEvent → Syncing C
  port_dispatch f w p event =
      let updated = port_state_update f w p.port event false in
      let p' = record p { port = updated.0 } in
      let flushed = flush_last_sync p' in
      if updated.1 && flushes updated.0.state then flushed else p'

module _ {C : Type 0} (k : ClockCalls C) where
  unfoldable pub check_source_identity : Syncing C → Message → Bool
  check_source_identity p m = p.ignore_source_id || k.clock_parent_identity p.clock == m.source

  module _ (f : Machine) (w : Surroundings) where
    unfoldable pub message_interval_request : Syncing C → ServoState → ℤ → Syncing C
    message_interval_request p last_state sync_interval =
        let i = p.intervals in
        let asked = record p {
          intervals =
              request_intervals i i.oper_log_sync_interval i.oper_log_pdelay_req_interval
                i.oper_log_sync_interval;
        } in
        let reset = record p { clock = k.servo_reset p.clock } in
        if not i.msg_interval_request
        then p
        else if is_locked last_state
        then port_dispatch f w asked master_clock_selected
        else if not (eq_ℤ sync_interval i.oper_log_sync_interval)
        then port_dispatch f w reset synchronization_fault
        else p

    -- The part of the case SERVO_UNLOCKED after the dispatch.
    unfoldable pub initial_interval_request : Syncing C → ℤ → Syncing C
    initial_interval_request p sync_interval =
        let i = p.intervals in
        if not (k.servo_offset_threshold p.clock == 0)
          && not (eq_ℤ sync_interval i.initial_log_sync_interval)
        then record p {
          intervals =
              request_intervals i i.initial_log_sync_interval i.log_min_pdelay_req_interval
                signal_set_initial;
        }
        else p

    -- The switch by the state of the servo.
    abbrev pub on_servo : Syncing C → ServoState → ServoState → ℤ → Syncing C
    on_servo p last_state unlocked sync_interval =
        initial_interval_request (port_dispatch f w p synchronization_fault) sync_interval
    on_servo p last_state jump sync_interval = port_dispatch f w p synchronization_fault
    on_servo p last_state locked sync_interval = port_dispatch f w p master_clock_selected
    on_servo p last_state locked_stable sync_interval =
        port_dispatch f w (message_interval_request p last_state sync_interval)
          master_clock_selected

    unfoldable pub port_synchronize : Syncing C → Tmv → ℕ → ℕ → ℕ → ℕ → ℤ → Syncing C
    port_synchronize p ingress_ts origin_sec origin_nsec correction1 correction2 sync_interval =
        let t1 = timestamp_to_tmv origin_sec origin_nsec in
        let c1 = correction_to_tmv correction1 in
        let c2 = correction_to_tmv correction2 in
        let t1c = tmv_add t1 (tmv_add c1 c2) in
        let last_state = k.clock_servo_state p.clock in
        let answer = k.clock_synchronize p.clock ingress_ts t1c in
        on_servo (record p { clock = answer.0 }) last_state answer.1 sync_interval

    -- The message in hand takes the place of the one that waits.
    abbrev pub replace_last : Syncing C → Message → SyfuState → Syncing C
    replace_last p m syfu = record (msg_get (msg_put p p.last_syncfup) m) {
      last_syncfup = m;
      syfu = syfu;
    }

    -- The synchronization by a pair, one of which waits: its reference is released at the end. The
    -- interval is that of the message in hand.
    abbrev pub pair_up : Syncing C → Message → Message → ℤ → Syncing C
    pair_up p sync fup sync_interval =
        let p' =
          port_synchronize p sync.hwts fup.pdu_sec fup.pdu_nsec sync.correction fup.correction
            sync_interval in
        record (msg_put p' p'.last_syncfup) { syfu = sf_empty }

    -- port_syfufsm by the state it is in.
    abbrev pub on_syfu : Syncing C → Message → SyfuState → SyfuEvent → Syncing C
    on_syfu p m sf_empty sync_mismatch = record (msg_get p m) {
      last_syncfup = m;
      syfu = sf_have_sync;
    }
    on_syfu p m sf_empty fup_mismatch = record (msg_get p m) {
      last_syncfup = m;
      syfu = sf_have_fup;
    }
    on_syfu p m sf_empty sync_match = p
    on_syfu p m sf_empty fup_match = p
    on_syfu p m sf_have_sync sync_mismatch = record (replace_last p m sf_have_sync) {
      sync_mismatches = p.sync_mismatches + 1;
    }
    on_syfu p m sf_have_sync sync_match = p
    on_syfu p m sf_have_sync fup_mismatch = record (replace_last p m sf_have_fup) {
      followup_mismatches = p.followup_mismatches + 1;
    }
    on_syfu p m sf_have_sync fup_match = pair_up p p.last_syncfup m m.log_message_interval
    on_syfu p m sf_have_fup sync_mismatch = record (replace_last p m sf_have_sync) {
      sync_mismatches = p.sync_mismatches + 1;
    }
    on_syfu p m sf_have_fup sync_match = pair_up p m p.last_syncfup m.log_message_interval
    on_syfu p m sf_have_fup fup_mismatch = record (replace_last p m sf_have_fup) {
      followup_mismatches = p.followup_mismatches + 1;
    }
    on_syfu p m sf_have_fup fup_match = p

    unfoldable pub port_syfufsm : Syncing C → SyfuEvent → Message → Syncing C
    port_syfufsm p event m = on_syfu p m p.syfu event

-- The watch over the gaps between Sync messages: five long gaps in a row request a reset of the
-- servo.
abbrev pub long_gap : Tmv → Tmv → Bool
long_gap last now = ltb_ℤ (pos 500000000) (value (tmv_sub now last))

-- The message with the delay asymmetry in its correction; both are patterns of 64 bits.
abbrev pub corrected : {C : Type 0} → Syncing C → Message → Message
corrected p m = record m { correction = (m.correction + p.asymmetry) % 2 ^ 64 }

module _ {C : Type 0} (k : ClockCalls C) where
  abbrev pub judge_gap : Syncing C → Tmv → Syncing C
  judge_gap p now =
      let count = p.sync_interval_exceed_count + 1 in
      if long_gap p.last_sync_recv_time now
      then record p {
        clock = if leb 5 count then k.clock_request_servo_reset p.clock else p.clock;
        sync_interval_exceed_count = count;
      }
      else record p { sync_interval_exceed_count = 0 }

  unfoldable pub watch_interval : Syncing C → Message → Syncing C
  watch_interval p m =
      let judged = if tmv_is_zero p.last_sync_recv_time then p else judge_gap p m.hwts in
      if tmv_is_zero m.hwts then p else record judged { last_sync_recv_time = m.hwts }

  unfoldable pub adopt_interval : Syncing C → Message → Syncing C
  adopt_interval p m =
      let said = m.log_message_interval in
      let bogus = ltb_ℤ said (negsuc 9) || ltb_ℤ (pos 22) said in
      let adopted = record p {
        log_sync_interval = said;
        clock = k.clock_sync_interval p.clock said;
      } in
      if not m.unicast && not (eq_ℤ said p.log_sync_interval)
      then if bogus then p else adopted
      else p

  module _ (f : Machine) (w : Surroundings) where
    unfoldable pub process_sync : Syncing C → Message → Syncing C
    process_sync p m =
        let p' = adopt_interval (watch_interval p m) m in
        let m' = corrected p' m in
        let at_once = flush_last_sync (
          port_synchronize k f w p' m'.hwts m'.pdu_sec m'.pdu_nsec m'.correction 0
            m'.log_message_interval) in
        let matches =
          is_have_fup p'.syfu
          && fup_sync_ok p'.last_syncfup m'
          && p'.last_syncfup.sequence_id == m'.sequence_id in
        if is_client p.port.state && check_source_identity k p m
        then if not p.assume_two_step && not m.two_step
          then at_once
          else port_syfufsm k f w p' (if matches then sync_match else sync_mismatch) m'
        else p

    abbrev pub take_follow_up : Syncing C → Message → Syncing C
    take_follow_up p m =
        let matches = is_have_sync p.syfu && p.last_syncfup.sequence_id == m.sequence_id in
        port_syfufsm k f w p (if matches then fup_match else fup_mismatch) m

    unfoldable pub process_follow_up : Syncing C → Message → Syncing C
    process_follow_up p m =
        if is_client p.port.state && check_source_identity k p m
        then if p.follow_up_info
          then elim m.info [
            | none ↦ p
            | some fui ↦ take_follow_up (record p { clock = k.clock_follow_up_info p.clock fui }) m
          ]
          else take_follow_up p m
        else p
