-- ===== src/Tests/Clients.antt =====
-- unicast_client.c: a port with one master in its table.

use lyp_lyl.Prelude.{ℕ, ◌≡◌, refl, Bool, true, false, none, some, [], ◌∷◌, arith}
use lyp_lyl.Prelude.Int.{pos}
use lyp_lyl.Prelude.Memory.{write}
use lyp_lyl.Fsm.Unicast.{unicast_fsm, wait, have_ann, have_sydy}
use lyp_lyl.UnicastClient.{
  sync, delay_resp, announce, unicast_client_set_renewal, unicast_client_ok,
  unicast_client_msg_is_from_master_table_entry, e2e, MasterAddress, MasterTable, ClientPort,
}
use lyp_lyl.UnicastClient.Grants.{grant_to, unicast_client_grant, state_changed, Grant}
use lyp_lyl.UnicastClient.Timer.{
  timer_master, sydy_mask, unicast_client_initialize, port_unicast_message_valid,
}
use lyp_lyl.UnicastClient.Reach.{
  AllBacked, Reached-AllBacked, on_grant_tlv, Reached, at_start, after,
}
use lyp_lyl.UnicastClient.Progress.{all_tlvs, round, round-have_sydy}
use lyp_lyl.UnicastClient.Renewals.{
  renewed, Earliest, renewed-Earliest, types, all_sent, timer_master-types,
}
use lyp_lyl.UnicastClient.Senders.{
  unicast_client_grant-elsewhere, port_unicast_message_valid-silent,
}

abbrev no_bits : ℕ → Bool
no_bits b = false

abbrev entry : MasterAddress
entry = record {
  port_identity = 0;
  transport = 1;
  state = wait;
  address = 51;
  granted = no_bits;
  sydymsk = [];
  renewal_tmo = 0;
}

abbrev table_7 : MasterTable
table_7 = record { addrs = entry ∷ []; table_index = 7; peer_addr = entry; has_peer = false }

abbrev client : ClientPort
client = record {
  delay_mechanism = e2e;
  transport_type = 1;
  log_announce_interval = pos 1;
  log_sync_interval = pos 0;
  log_min_delay_req_interval = pos 0;
  log_pdelay_req_interval = pos 0;
  unicast_req_duration = 300;
  unicast_master_table = none;
  calls = [];
}

abbrev announce_grant : Grant
announce_grant = record {
  from = 51;
  source = 900;
  message_type = announce;
  log_inter_message_period = pos 1;
  duration_field = 300;
}

abbrev set_up_client : ClientPort
set_up_client = (unicast_client_initialize (table_7 ∷ []) 7 300 true none client).0

granted_once : Reached set_up_client (unicast_client_grant (some 1000) announce_grant set_up_client)
granted_once = after at_start (on_grant_tlv (some 1000) announce_grant)

Reached-AllBacked_example :
    AllBacked (unicast_client_grant (some 1000) announce_grant set_up_client)
Reached-AllBacked_example =
    Reached-AllBacked (table_7 ∷ []) 7 300 true none client
      (unicast_client_grant (some 1000) announce_grant set_up_client) ((refl, tt), tt) refl
      granted_once

-- The first grant gives an announce contract that is renewed after 225 seconds.
first_grant_run :
    (unicast_client_ok (unicast_client_grant (some 1000) announce_grant set_up_client) 51
      ≡ some (record entry {
        state = have_ann;
        port_identity = 900;
        granted = write no_bits announce true;
        sydymsk = announce ∷ sync ∷ delay_resp ∷ [];
        renewal_tmo = 1225;
      }))
unfolding unicast_client_grant grant_to unicast_client_ok unicast_client_set_renewal
    unicast_client_initialize unicast_fsm
first_grant_run = refl

round-have_sydy_test :
    (round (some 1100) 900 300 (
      (round (some 1000) 900 300 (client, record entry { sydymsk = sydy_mask e2e })).0,
      (state_changed all_sent 900
          (round (some 1000) 900 300 (client, record entry { sydymsk = sydy_mask e2e })).1).0,
    )).1.state
    ≡ have_sydy
round-have_sydy_test =
    round-have_sydy (some 1000) (some 1100) 900 299 all_sent client entry refl refl refl

renewed-Earliest_example :
    Earliest
      (renewed entry ((1010, 300) ∷ (1000, 300) ∷ [])).renewal_tmo
      ((1010, 300) ∷ (1000, 300) ∷ [])
renewed-Earliest_example =
    renewed-Earliest entry (1010, 300) ((1000, 300) ∷ []) refl (omega arith, (omega arith, tt))

timer_master-types_example :
    types
      (all_tlvs (timer_master all_sent (some 1300) client (record entry { state = have_sydy })).1.0)
    ≡ announce ∷ sync ∷ delay_resp ∷ []
timer_master-types_example = timer_master-types 1300 client (record entry { state = have_sydy })

unicast_client_grant-elsewhere_example :
    unicast_client_ok (unicast_client_grant (some 1000) announce_grant set_up_client) 52
    ≡ unicast_client_ok set_up_client 52
unicast_client_grant-elsewhere_example =
    unicast_client_grant-elsewhere (some 1000) announce_grant set_up_client 52 refl

port_unicast_message_valid-silent_example :
    port_unicast_message_valid all_sent client 77 901 announce ≡ (false, [])
unfolding unicast_client_msg_is_from_master_table_entry
port_unicast_message_valid-silent_example =
    port_unicast_message_valid-silent all_sent client 77 901 announce refl
