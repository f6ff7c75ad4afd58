-- ===== src/UnicastClient/Timer.antt =====
-- unicast_client.c: the request timer and the setting up of the client; port.c: what a port asks of
-- its unicast client.

use lyp_lyl.Prelude.{
  ◌==◌, if◌then◌else◌, ℕ, Bool, true, false, ◌&&◌, Option, none, some, List, [], ◌∷◌, ◌++◌,
}
use lyp_lyl.Fsm.Unicast.{UnicastState, wait, have_ann, need_sydy, have_sydy}
use lyp_lyl.UnicastClient.{
  sync, delay_resp, announce, Sent, unicast_client_announce, unicast_client_sydy,
  unicast_client_renew, unicast_client_peer_renew, unicast_client_msg_is_from_master_table_entry,
  DelayMechanism, p2p, no_mechanism, MasterAddress, MasterTable, ClientPort, Outgoing, Transmit,
}
use lyp_lyl.UnicastClient.Grants.{is_p2p, unicast_client_tx_cancel, unicast_cancel_all}

-- The switch of unicast_client_timer, by the state.
abbrev pub timer_by :
    UnicastState → Transmit → Option ℕ → ClientPort → MasterAddress → MasterAddress × Sent
timer_by wait t now p u = (u, unicast_client_announce t p u)
timer_by have_ann t now p u = unicast_client_renew t now p u
timer_by need_sydy t now p u = (u, unicast_client_sydy t p u)
timer_by have_sydy t now p u = unicast_client_renew t now p u

unfoldable pub timer_master :
    Transmit → Option ℕ → ClientPort → MasterAddress → MasterAddress × Sent
timer_master t now p u = timer_by u.state t now p u

abbrev pub timer_peer : (ℕ → Transmit) → Option ℕ → ClientPort → MasterTable → MasterTable × Sent
timer_peer t now p table =
    if is_p2p p.delay_mechanism
    then unicast_client_peer_renew (t table.peer_addr.address) now p table
    else (table, ([], true))

-- The loop over the masters. What it returns is the answer for the last of them.
unfoldable pub timer_loop :
    (ℕ → Transmit)
    → Option ℕ
    → ClientPort
    → MasterTable
    → Bool
    → List MasterAddress
    → (MasterTable × List MasterAddress) × Sent
timer_loop t now p table err [] = ((table, []), ([], err))
timer_loop t now p table err (u ∷ us) =
    let here = timer_master (t u.address) now p u in
    let peer = timer_peer t now p table in
    let skipped = timer_loop t now p table err us in
    let rest = timer_loop t now p peer.0 here.1.1 us in
    if u.transport == p.transport_type
    then ((rest.0.0, here.0 ∷ rest.0.1), (here.1.0 ++ (peer.1.0 ++ rest.1.0), rest.1.1))
    else ((skipped.0.0, u ∷ skipped.0.1), skipped.1)

abbrev pub timed : (ℕ → Transmit) → Option ℕ → ClientPort → Option MasterTable → ClientPort × Sent
timed t now p none = (p, ([], true))
timed t now p (some table) =
    let done = timer_loop t now p table true table.addrs in
    (record p { unicast_master_table = some (record done.0.0 { addrs = done.0.1 }) }, done.1)

-- The timer is only set where there is a table.
unfoldable pub unicast_client_timer : (ℕ → Transmit) → Option ℕ → ClientPort → ClientPort × Sent
unicast_client_timer t now p = timed t now p p.unicast_master_table

abbrev pub sydy_mask : DelayMechanism → List ℕ
sydy_mask p2p = announce ∷ sync ∷ []
sydy_mask no_mechanism = announce ∷ sync ∷ []
sydy_mask m = announce ∷ sync ∷ delay_resp ∷ []

abbrev pub with_masks : DelayMechanism → List MasterAddress → List MasterAddress
with_masks m [] = []
with_masks m (u ∷ us) = record u { sydymsk = sydy_mask m } ∷ with_masks m us

abbrev pub find_table : ℕ → List MasterTable → Option MasterTable
find_table id [] = none
find_table id (x ∷ xs) = let rest = find_table id xs in if x.table_index == id then some x else rest

abbrev pub with_peer : Option ℕ → MasterTable → MasterTable
with_peer none table = table
with_peer (some a) table = record table { peer_addr = record table.peer_addr { address = a } }

abbrev pub is_none : Option ℕ → Bool
is_none none = true
is_none (some a) = false

-- The table that is copied, and the address of the peer where its name is one.
abbrev pub set_up : ClientPort → ℕ → Bool → Option ℕ → Option MasterTable → ClientPort × Bool
set_up p duration copied peer none = (p, false)
set_up p duration false peer (some table) = (p, false)
set_up p duration true peer (some table) =
    let addrs = with_masks p.delay_mechanism table.addrs in
    let addressed = if table.has_peer then with_peer peer table else table in
    if table.has_peer && is_none peer then (p, false) else (
      record p {
        unicast_master_table = some (record addressed { addrs = addrs });
        unicast_req_duration = duration;
      },
      true,
    )

-- The tables and the two options of the configuration, whether the copy gets its memory, and what
-- str2addr makes of the name of the peer. The answer is true for 0.
unfoldable pub unicast_client_initialize :
    List MasterTable → ℕ → ℕ → Bool → Option ℕ → ClientPort → ClientPort × Bool
unicast_client_initialize tables table_id duration copied peer p =
    if table_id == 0 then (p, true) else set_up p duration copied peer (find_table table_id tables)

-- port_cancel_unicast: the loop over the masters.
unfoldable pub cancel_masters :
    (ℕ → Transmit) → List MasterAddress → List MasterAddress × List Outgoing
cancel_masters t [] = ([], [])
cancel_masters t (u ∷ us) =
    let here = unicast_client_tx_cancel (t u.address) u unicast_cancel_all in
    let rest = cancel_masters t us in (here.0 ∷ rest.0, here.1.0 ++ rest.1)

-- What `memset` makes of an entry, with the address and the identity of a message.
abbrev pub stranger : ℕ → ℕ → MasterAddress
stranger from source = record {
  port_identity = source;
  transport = 0;
  state = wait;
  address = from;
  granted = λ b. false;
  sydymsk = [];
  renewal_tmo = 0;
}

-- The answer, with what is sent to a sender that is in no entry.
unfoldable pub port_unicast_message_valid : Transmit → ClientPort → ℕ → ℕ → ℕ → Bool × List Outgoing
port_unicast_message_valid t p from source msg_type =
    if unicast_client_msg_is_from_master_table_entry p from
    then (true, [])
    else (false, (unicast_client_tx_cancel t (stranger from source) (msg_type ∷ [])).1.0)
