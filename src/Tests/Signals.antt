-- ===== src/Tests/Signals.antt =====
-- port_signaling.c: a client and a server.

use lyp_lyl.Prelude.{ℕ, ◌-◌, ◌^◌, ◌≡◌, refl, Bool, false, some, List, [], ◌∷◌, map}
use lyp_lyl.Prelude.Int.{pos}
use lyp_lyl.Tmv.{Tmv, Timespec}
use lyp_lyl.Fsm.{master}
use lyp_lyl.Fsm.Unicast.{wait, have_sydy}
use lyp_lyl.UnicastService.{ServiceInterval}
use lyp_lyl.UnicastService.Contracts.{UnicastService}
use lyp_lyl.UnicastClient.{sync, delay_resp, e2e, MasterAddress, MasterTable, ClientPort}
use lyp_lyl.UnicastClient.Grants.{state_changed}
use lyp_lyl.UnicastClient.Timer.{sydy_mask}
use lyp_lyl.UnicastClient.Renewals.{all_sent}
use lyp_lyl.Signaling.{
  process_signaling, Organization, cancel_unicast, SignalingMessage, SignalingPort,
}
use lyp_lyl.Signaling.Replies.{willing, as_request, as_reply, process_signaling-replies, Wanted}
use lyp_lyl.Signaling.Negotiation.{timer_exchange, negotiation-have_sydy}
use lyp_lyl.Signaling.Kept.{KeptClient, process_signaling-KeptClient}

abbrev no_bit : ℕ → Bool
no_bit b = false

abbrev candidate : MasterAddress
candidate = record {
  port_identity = 2 ^ 80 - 1;
  transport = 1;
  state = wait;
  address = 51;
  granted = no_bit;
  sydymsk = [];
  renewal_tmo = 0;
}

abbrev candidates : MasterTable
candidates = record {
  addrs = candidate ∷ [];
  table_index = 7;
  peer_addr = candidate;
  has_peer = false;
}

abbrev asking : ClientPort
asking = record {
  delay_mechanism = e2e;
  transport_type = 1;
  log_announce_interval = pos 1;
  log_sync_interval = pos 0;
  log_min_delay_req_interval = pos 0;
  log_pdelay_req_interval = pos 0;
  unicast_req_duration = 300;
  unicast_master_table = some candidates;
  calls = [];
}

abbrev times : ServiceInterval
times = record {
  incr = record { tv_sec = 1; tv_nsec = 0 };
  tmo = record { tv_sec = 0; tv_nsec = 0 };
  log_period = pos 0;
}

abbrev no_contracts : UnicastService
no_contracts = record { intervals = []; queue = record { cells = λ i. times; max = 10; len = 0 } }

abbrev server : SignalingPort
server = record {
  state = master;
  identity = 900;
  client = asking;
  service = some no_contracts;
  initial_log_announce_interval = pos 1;
  initial_log_sync_interval = pos 0;
  log_min_pdelay_req_interval = pos 0;
  asymmetry = 0;
}

abbrev same_asymmetry : SignalingPort → Organization → Tmv
same_asymmetry p o = p.asymmetry

abbrev at_100 : Timespec
at_100 = record { tv_sec = 100; tv_nsec = 0 }

abbrev wanted_two : List Wanted
wanted_two =
    (record { mtype = sync; log_interval = pos 0; seconds = 300 })
    ∷ (record { mtype = delay_resp; log_interval = pos 0; seconds = 300 })
    ∷ []

abbrev request_two : SignalingMessage
request_two = record { from = 77; source = 5; target = 900; tlv_list = map as_request wanted_two }

process_signaling-replies_example :
    (process_signaling same_asymmetry (willing at_100 (some 100) all_sent) request_two server).1.0
    ≡ map as_reply wanted_two
process_signaling-replies_example =
    process_signaling-replies same_asymmetry at_100 (some 100) all_sent request_two server
      no_contracts wanted_two refl refl refl ((refl, refl), ((refl, refl), tt))

negotiation-have_sydy_example :
    (timer_exchange same_asymmetry at_100 server 77 5
      (some 1100)
      (some 1100)
      all_sent
      no_contracts
      (
        (timer_exchange same_asymmetry at_100 server 77 5
            (some 1000)
            (some 1000)
            all_sent
            no_contracts
            (asking, record candidate { sydymsk = sydy_mask e2e })).0,
        (state_changed all_sent 900
            (timer_exchange same_asymmetry at_100 server 77 5
              (some 1000)
              (some 1000)
              all_sent
              no_contracts
              (asking, record candidate { sydymsk = sydy_mask e2e })).1).0,
      )).1.state
    ≡ have_sydy
negotiation-have_sydy_example =
    negotiation-have_sydy same_asymmetry at_100 at_100 server 77 5 299 (some 1000) (some 1000)
      (some 1100) (some 1100) all_sent no_contracts no_contracts asking candidate refl refl refl
      refl refl refl

abbrev cancelling : SignalingMessage
cancelling = record { from = 51; source = 5; target = 900; tlv_list = cancel_unicast 0xb0 ∷ [] }

process_signaling-KeptClient_test :
    KeptClient
      (process_signaling same_asymmetry (willing at_100 (some 100) all_sent) cancelling server)
process_signaling-KeptClient_test =
    process_signaling-KeptClient same_asymmetry (willing at_100 (some 100) all_sent) cancelling
      server (tt, tt)
