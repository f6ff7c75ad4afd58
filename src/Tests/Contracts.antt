-- ===== src/Tests/Contracts.antt =====
-- unicast_service.c: clients that ask for contracts.

use lyp_lyl.Prelude.{drop, ◌≡◌, refl, Bool, true, false, none, some, [], ◌∷◌, arith}
use lyp_lyl.Prelude.Int.{pos, negsuc}
use lyp_lyl.Tmv.{Timespec}
use lyp_lyl.UnicastService.{ServiceInterval}
use lyp_lyl.UnicastService.Contracts.{
  unicast_service_extend, renew, clear_stale, scan, use_client, at_interval, add_contract,
  remove_contract, unicast_service_add, announces, syncs, Client, UnicastService, Request,
}
use lyp_lyl.UnicastService.Granting.{contracts, add_contract-Other}
use lyp_lyl.UnicastService.Single.{beyond, AnsweredTo, unicast_service_add-AnsweredTo}
use lyp_lyl.UnicastService.Cancel.{remove_contract-first}
use lyp_lyl.UnicastService.Clients.{
  unicast_service_clients, all_pass, unicast_service_clients-current,
}

abbrev start : Timespec
start = record { tv_sec = 7; tv_nsec = 0 }

abbrev no_timing : ServiceInterval
no_timing = record { incr = start; tmo = start; log_period = pos 0 }

-- The client 4 has sync messages twice a second and announce messages each second.
abbrev client_4 : Bool → Bool → Client
client_4 a s = record {
  port_identity = 40;
  announce_seqnum = 3;
  sync_seqnum = 5;
  announce = a;
  sync = s;
  addr = 4;
  grant_tmo = 300;
}

abbrev service : UnicastService
service = record {
  intervals =
      record { log_period = negsuc 0; clients = client_4 false true ∷ [] }
      ∷ record { log_period = pos 0; clients = client_4 true false ∷ [] }
      ∷ [];
  queue = record { len = 2; max = 16; cells = λ i. no_timing };
}

-- It asks for sync messages each second.
abbrev slower : Request
slower = record { address = 4; identity = 40; log_period = pos 0; duration = 60 }

unicast_service_add-AnsweredTo_example :
    AnsweredTo
      (some 290)
      syncs
      slower
      service
      (beyond (pos 0))
      (unicast_service_add true true true start (some 290) 0x0 slower service)
unicast_service_add-AnsweredTo_example =
    unicast_service_add-AnsweredTo true true true start (some 290) syncs slower service
      (omega arith)

add_contract-Other_test :
    contracts announces 4
      (add_contract (some 290) syncs slower true true true start service).0.intervals
    ≡ contracts announces 4 service.intervals
add_contract-Other_test =
    add_contract-Other (some 290) syncs slower announces 4 refl true true true start service

remove_contract-first_example :
    contracts syncs 4 (remove_contract none syncs slower service.intervals)
    ≡ drop 1 (contracts syncs 4 service.intervals)
remove_contract-first_example = remove_contract-first none syncs slower service.intervals

-- The request moves the contract for sync messages to the record that the client has already.
moved :
    (add_contract (some 290) syncs slower true true true start service).0.intervals
    ≡ record { log_period = negsuc 0; clients = [] }
      ∷ record {
        log_period = pos 0;
        clients = record (client_4 true true) { grant_tmo = 350 } ∷ [];
      }
      ∷ []
unfolding add_contract scan renew clear_stale use_client at_interval unicast_service_extend
moved = refl

abbrev lasting : Client
lasting = record {
  port_identity = 5;
  announce_seqnum = 65535;
  sync_seqnum = 8;
  announce = true;
  sync = true;
  addr = 77;
  grant_tmo = 500;
}

unicast_service_clients-current_example :
    ((unicast_service_clients all_pass
        (some 400)
        (lasting ∷ record lasting { grant_tmo = 300 } ∷ [])).0
      ≡ record lasting { announce_seqnum = 0; sync_seqnum = 9 } ∷ [])
    × ((unicast_service_clients all_pass
          (some 400)
          (lasting ∷ record lasting { grant_tmo = 300 } ∷ [])).1.0
        ≡ (record { to = 77; kind = announces; seqnum = 65535 })
          ∷ (record { to = 77; kind = syncs; seqnum = 8 })
          ∷ [])
unicast_service_clients-current_example =
    unicast_service_clients-current 400 (lasting ∷ record lasting { grant_tmo = 300 } ∷ [])
