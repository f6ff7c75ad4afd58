-- ===== src/Tests/Syncs.antt =====
-- A port and a clock that keeps a list of its synchronizations.

use lyp_lyl.Prelude.{
  ◌==◌, if◌then◌else◌, ℕ, ◌+◌, ◌*◌, ◌^◌, ◌≡◌, refl, true, false, none, List, [], ◌∷◌,
}
use lyp_lyl.Prelude.Int.{pos, negsuc}
use lyp_lyl.Tmv.{Tmv, tmv_add, tmv_cmp, tmv_is_zero, tmv_sub, correction_to_tmv, timestamp_to_tmv}
use lyp_lyl.Fsm.{ptp_fsm, slave}
use lyp_lyl.Servo.{ServoState, jump, locked}
use lyp_lyl.Port.State.{port_state_update, linear_seconds, Surroundings}
use lyp_lyl.Port.SyncFup.{
  fup_sync_ok, flush_last_sync, port_dispatch, check_source_identity, port_synchronize,
  port_syfufsm, corrected, watch_interval, adopt_interval, process_sync, process_follow_up,
  sf_empty, sf_have_sync, sf_have_fup, Message, ClockCalls, Intervals, Syncing,
}
use lyp_lyl.Port.SyncFup.Pairs.{prepare}
use lyp_lyl.Port.SyncFup.Watch.{watch_all, watch_all-Late}
use lyp_lyl.Port.SyncFup.Order.{process_sync-process_follow_up, KeepsParent, Paired}
use lyp_lyl.Port.SyncFup.Waiting.{
  held, process_follow_up-Postponed, process_sync-Postponed, Postponed,
}
use lyp_lyl.Port.SyncFup.Release.{process_follow_up-references}

abbrev Log : Type 0
Log = List (Tmv × Tmv)

-- The master has the identity 9, and the servo always has the same answer.
abbrev recorder : ServoState → ClockCalls Log
recorder answer = record {
  clock_synchronize = λ c ingress origin. ((ingress, origin) ∷ c, answer);
  clock_servo_state = λ c. locked;
  servo_offset_threshold = λ c. 0;
  servo_reset = λ c. c;
  clock_request_servo_reset = λ c. c;
  clock_sync_interval = λ c i. c;
  clock_follow_up_info = λ c i. c;
  clock_parent_identity = λ c. 9;
}

abbrev sync_41 : Message
sync_41 = record {
  address = 1;
  sequence_id = 41;
  source = 9;
  unicast = false;
  two_step = true;
  log_message_interval = pos 0;
  correction = 2 * 2 ^ 16;
  hwts = 5000;
  sw = 0;
  pdu_sec = 0;
  pdu_nsec = 0;
  info = none;
}

abbrev fup_41 : Message
fup_41 = record sync_41 { address = 2; correction = 3 * 2 ^ 16; hwts = 0; pdu_nsec = 4000 }

abbrev fup_40 : Message
fup_40 = record fup_41 { sequence_id = 40 }

abbrev quiet : Surroundings
quiet = record {
  link_up = true;
  fault = record { tmo_type = linear_seconds; val = pos 4 };
  init_fails = false;
}

abbrev no_requests : Intervals
no_requests = record {
  msg_interval_request = false;
  initial_log_sync_interval = negsuc 2;
  log_sync_interval = negsuc 2;
  oper_log_sync_interval = pos 0;
  log_min_pdelay_req_interval = pos 0;
  log_pdelay_req_interval = pos 0;
  oper_log_pdelay_req_interval = pos 0;
  requested = [];
}

abbrev slave_port : Syncing Log
slave_port = record {
  port = record { state = slave; unicast_state_dirty = false; notified = false };
  clock = [];
  syfu = sf_empty;
  last_syncfup = sync_41;
  refs = λ a. pos 0;
  sync_mismatches = 0;
  followup_mismatches = 0;
  last_sync_recv_time = 0;
  sync_interval_exceed_count = 0;
  log_sync_interval = pos 0;
  intervals = no_requests;
  asymmetry = 0;
  ignore_source_id = false;
  follow_up_info = false;
  assume_two_step = false;
}

abbrev sync_then_fup : ServoState → Syncing Log
sync_then_fup a =
    process_follow_up (recorder a) ptp_fsm quiet
      (process_sync (recorder a) ptp_fsm quiet slave_port sync_41) fup_41

abbrev fup_then_sync : ServoState → Syncing Log
fup_then_sync a =
    process_sync (recorder a) ptp_fsm quiet
      (process_follow_up (recorder a) ptp_fsm quiet slave_port fup_41) sync_41

-- The origin is the precise origin time and both corrections.
sync_then_fup_test : (sync_then_fup locked).clock ≡ (5000, 4005) ∷ []
unfolding process_sync process_follow_up check_source_identity watch_interval adopt_interval
    port_syfufsm port_synchronize port_dispatch flush_last_sync fup_sync_ok tmv_add tmv_cmp tmv_sub
    tmv_is_zero correction_to_tmv timestamp_to_tmv port_state_update ptp_fsm
sync_then_fup_test = refl

recorder-KeepsParent : (a : ServoState) → KeepsParent (recorder a)
recorder-KeepsParent a = record { reset = λ c. refl; interval = λ c i. refl }

process_sync-process_follow_up_example :
    (let q = prepare (recorder locked) slave_port sync_41 in
      let s' = corrected q sync_41 in
      Paired (recorder locked) ptp_fsm quiet q s' fup_41 (sync_then_fup locked)
      × Paired (recorder locked) ptp_fsm quiet q s' fup_41 (fup_then_sync locked))
unfolding check_source_identity fup_sync_ok tmv_cmp
process_sync-process_follow_up_example =
    process_sync-process_follow_up (recorder locked) ptp_fsm quiet slave_port sync_41 fup_41
      (recorder-KeepsParent locked) refl refl refl refl refl refl refl refl refl

-- The Sync message waits.
abbrev waiting : Syncing Log
waiting = record slave_port { syfu = sf_have_sync; refs = held 1 }

process_follow_up-Postponed_example :
    Postponed waiting fup_40 sf_have_fup
      (process_follow_up (recorder locked) ptp_fsm quiet waiting fup_40)
unfolding check_source_identity
process_follow_up-Postponed_example =
    process_follow_up-Postponed (recorder locked) ptp_fsm quiet waiting fup_40 refl refl refl refl

process_sync-Postponed_test :
    (let q = prepare (recorder locked) waiting sync_41 in
      Postponed q
        (corrected q sync_41)
        sf_have_sync
        (process_sync (recorder locked) ptp_fsm quiet waiting sync_41))
unfolding check_source_identity
process_sync-Postponed_test =
    process_sync-Postponed (recorder locked) ptp_fsm quiet waiting sync_41 refl refl refl refl

process_follow_up-references_example :
    ((process_follow_up (recorder jump) ptp_fsm quiet waiting fup_41).syfu ≡ sf_empty)
    × ((a : ℕ)
        → (process_follow_up (recorder jump) ptp_fsm quiet waiting fup_41).refs a
          ≡ (if 1 == a then negsuc 0 else pos 0))
unfolding check_source_identity port_state_update ptp_fsm tmv_add correction_to_tmv timestamp_to_tmv
process_follow_up-references_example =
    process_follow_up-references (recorder jump) ptp_fsm quiet waiting fup_41 refl refl refl refl
      refl (λ a. refl)

-- A clock that counts the requests to reset the servo.
abbrev reset_counter : ClockCalls ℕ
reset_counter = record {
  clock_synchronize = λ c ingress origin. (c, locked);
  clock_servo_state = λ c. locked;
  servo_offset_threshold = λ c. 0;
  servo_reset = λ c. c;
  clock_request_servo_reset = λ c. c + 1;
  clock_sync_interval = λ c i. c;
  clock_follow_up_info = λ c i. c;
  clock_parent_identity = λ c. 9;
}

abbrev slow_port : Syncing ℕ
slow_port = record {
  port = slave_port.port;
  clock = 0;
  syfu = sf_empty;
  last_syncfup = sync_41;
  refs = λ a. pos 0;
  sync_mismatches = 0;
  followup_mismatches = 0;
  last_sync_recv_time = 1000;
  sync_interval_exceed_count = 3;
  log_sync_interval = pos 0;
  intervals = no_requests;
  asymmetry = 0;
  ignore_source_id = false;
  follow_up_info = false;
  assume_two_step = false;
}

abbrev late_syncs : List Message
late_syncs =
    record sync_41 { hwts = 600001000 }
    ∷ record sync_41 { hwts = 1200001000 }
    ∷ record sync_41 { hwts = 1800001000 }
    ∷ []

watch_all-Late_test :
    ((watch_all reset_counter slow_port late_syncs).sync_interval_exceed_count ≡ 6)
    × ((watch_all reset_counter slow_port late_syncs).clock ≡ 2)
unfolding tmv_is_zero tmv_sub
watch_all-Late_test =
    watch_all-Late reset_counter slow_port late_syncs refl
      (refl, refl, (refl, refl, (refl, refl, tt)))
