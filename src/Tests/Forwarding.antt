-- ===== src/Tests/Forwarding.antt =====
-- tc.c: a transparent clock with three ports: port 1 is a slave, port 2 a master, port 3 passive.
use lyp_lyl.Prelude.{
  All, ℕ, ◌*◌, ◌^◌, ◌≡◌, refl, inl, inr, true, false, some, List, [], ◌∷◌, ◌++◌, arith,
}
use lyp_lyl.Fsm.{PortState, master, passive, slave}
use lyp_lyl.Tmv.{Tmv, tmv_sub, tmv_zero, tmv_to_TimeInterval, Timespec}
use lyp_lyl.Tc.{
  sync_type, delay_req_type, follow_up_type, delay_resp_type, ingress_blocked, egress_blocked,
  tc_blocked, tc_match_syfup, first_match, tc_flush, tc_prune, tc_complete_syfup, tc_complete,
  Frame, Txd, TcPort, sync_fup, transmit, release, Medium,
}
use lyp_lyl.Tc.Forward.{made_follow_up, residence_time, tc_fwd_sync}
use lyp_lyl.Tc.Order.{corrected_fup, tc_complete_syfup-either_order, Belong}
use lyp_lyl.Tc.Blocked.{tc_blocked-ways}
use lyp_lyl.Tc.Delay.{corrected_resp, tc_complete-response, Answers}
use lyp_lyl.Tc.Release.{tc_complete_syfup-flushed, tc_prune-Pruned, Pruned}
use lyp_lyl.Tc.OneStep.{IsReady, syncs, fups, tc_fwd_sync-one_step, IsOpen}
use mathlib.Core.List.{Memᴰ}

abbrev second : ℕ → Timespec
second n = record { tv_sec = n; tv_nsec = 0 }

-- A frame stays 300 ns in the clock, and the descriptor of a port has its number.
abbrev air : Medium
air = record {
  clock_domain_number = 0;
  transport_send = λ p m. true;
  transport_txts = λ p m. some 1300;
  rate = λ r. r;
  tc_allocate = λ p m. some p;
  fault_detected = tc_flush;
}

abbrev broken : Medium
broken = record air { transport_send = λ p m. false }

abbrev port_of : ℕ → PortState → TcPort
port_of n s = record {
  portnum = n;
  state = s;
  tc_spanning_tree = true;
  peer_delay = 40;
  asymmetry = 0;
  tx_timestamp_offset = 0;
  tc_transmitted = [];
}

abbrev sync_5 : Frame
sync_5 = record {
  message_type = sync_type;
  domain = 0;
  source = 9;
  sequence_id = 5;
  requesting = 0;
  two_step = false;
  origin = 70;
  correction = 0;
  steps_removed = 0;
  hwts = 1000;
  host = second 3;
}

abbrev fup_5 : Frame
fup_5 = record sync_5 { message_type = follow_up_type }

abbrev ports : List TcPort
ports = port_of 1 slave ∷ port_of 2 master ∷ port_of 3 passive ∷ []

abbrev pair_5 : Belong sync_5 fup_5
pair_5 = record { sync_kind = refl; fup_kind = refl; sequence = refl; sender = refl }

tc_blocked-ways_test : tc_blocked 0 (port_of 1 slave) (port_of 2 master) sync_5 ≡ false
tc_blocked-ways_test =
    tc_blocked-ways 0 (port_of 1 slave) (port_of 2 master) sync_5 (omega arith) (omega arith) refl
      refl

abbrev slots : ℕ → ℕ
slots n = n

abbrev stamps : ℕ → Tmv
stamps n = 1300

port_2-IsOpen : IsOpen air (second 4) (port_of 1 slave) sync_5 refl slots stamps (port_of 2 master)
unfolding tc_blocked egress_blocked ingress_blocked
port_2-IsOpen = record {
  unblocked = refl;
  awaits = record { room_sync = refl; room_fup = refl; fresh = tt; no_sync = tt; no_fup = tt };
  sends_sync = refl;
  sends_fup = refl;
  stamped = refl;
}

ports-IsReady : All (IsReady air (second 4) (port_of 1 slave) sync_5 refl slots stamps) ports
unfolding tc_blocked egress_blocked ingress_blocked
ports-IsReady = (inl refl, (inr port_2-IsOpen, (inl refl, tt)))

tc_fwd_sync-one_step_example :
    tc_fwd_sync air true (second 4) (port_of 1 slave) ports sync_5
    ≡ some (
      port_of 1 slave,
      ports,
      syncs air (second 4) (port_of 1 slave) sync_5 refl slots stamps ports
          ++ fups air (second 4) (port_of 1 slave) sync_5 refl slots stamps ports,
    )
tc_fwd_sync-one_step_example =
    tc_fwd_sync-one_step air (second 4) (port_of 1 slave) sync_5 refl slots stamps ports
      ports-IsReady refl

-- The correction is 340 ns.
correction_340 :
    fups air (second 4) (port_of 1 slave) sync_5 refl slots stamps ports
    ≡ transmit 2 (record (made_follow_up sync_5) { host = second 4; correction = 340 * 2 ^ 16 })
      ∷ release (record sync_5 { two_step = true; host = second 4 })
      ∷ []
unfolding tc_blocked egress_blocked ingress_blocked residence_time tmv_to_TimeInterval tmv_sub
correction_340 = refl

tc_complete_syfup-either_order_example :
    let fup = corrected_fup air (port_of 1 slave) (port_of 2 master) sync_5 fup_5 pair_5 300 in
    (tc_complete_syfup air
        (port_of 1 slave)
        (tc_complete_syfup air (port_of 1 slave) (port_of 2 master) sync_5 300).0
        fup_5
        tmv_zero
      ≡ (port_of 2 master, transmit 2 fup ∷ release sync_5 ∷ []))
    × (tc_complete_syfup air
          (port_of 1 slave)
          (tc_complete_syfup air (port_of 1 slave) (port_of 2 master) fup_5 tmv_zero).0
          sync_5
          300
        ≡ (port_of 2 master, transmit 2 fup ∷ release fup_5 ∷ []))
tc_complete_syfup-either_order_example =
    tc_complete_syfup-either_order air (port_of 1 slave) (port_of 2 master) sync_5 fup_5 pair_5 2
      (record { room_sync = refl; room_fup = refl; fresh = tt; no_sync = tt; no_fup = tt }) 300 refl

abbrev request_8 : Frame
request_8 = record sync_5 { message_type = delay_req_type; source = 4; sequence_id = 8 }

abbrev response_8 : Frame
response_8 = record sync_5 { message_type = delay_resp_type; requesting = 4; sequence_id = 8 }

abbrev answers_8 : Answers request_8 response_8
answers_8 = record { req_kind = refl; resp_kind = refl; sequence = refl; requester = refl }

tc_complete-response_example :
    tc_complete air
      (tc_complete air (port_of 2 master) (port_of 1 slave) request_8 300).1
      (port_of 2 master)
      response_8
      tmv_zero
    ≡ (
      port_of 1 slave,
      port_of 2 master,
      transmit 2 (
            corrected_resp air
              (port_of 2 master)
              (port_of 1 slave)
              request_8
              response_8
              answers_8
              300)
          ∷ release request_8
          ∷ [],
    )
tc_complete-response_example =
    tc_complete-response air (port_of 2 master) (port_of 1 slave) request_8 response_8 answers_8 1
      (record { room = refl; fresh = tt; alone = tt }) 300 refl

abbrev waiting_5 : Txd
waiting_5 = record { slot = 2; msg = sync_5; residence = 300; ingress_port = 1 }

abbrev port_2_waits : TcPort
port_2_waits = record (port_of 2 master) { tc_transmitted = waiting_5 ∷ [] }

found_5 : first_match (tc_match_syfup 1 fup_5) (waiting_5 ∷ []) ≡ some (sync_fup, waiting_5)
unfolding first_match tc_match_syfup
found_5 = refl

tc_complete_syfup-flushed_test :
    ((tc_complete_syfup broken (port_of 1 slave) port_2_waits fup_5 tmv_zero).1
      ≡ (tc_flush port_2_waits).1 ++ (release sync_5 ∷ []))
    × Memᴰ (release sync_5) (tc_flush port_2_waits).1
tc_complete_syfup-flushed_test =
    tc_complete_syfup-flushed broken (port_of 1 slave) port_2_waits fup_5 tmv_zero waiting_5 found_5
      (λ f. refl) refl

abbrev later_7 : Txd
later_7 = record {
  slot = 3;
  msg = record sync_5 { host = second 7; sequence_id = 7 };
  residence = 300;
  ingress_port = 1;
}

abbrev two_wait : TcPort
two_wait = record (port_of 2 master) { tc_transmitted = waiting_5 ∷ later_7 ∷ [] }

tc_prune-Pruned_test :
    Pruned
      (second 7)
      (waiting_5 ∷ later_7 ∷ [])
      (tc_prune (second 7) two_wait).0.tc_transmitted
      (tc_prune (second 7) two_wait).1
tc_prune-Pruned_test = tc_prune-Pruned (second 7) two_wait ((omega arith, tt), (tt, tt))
