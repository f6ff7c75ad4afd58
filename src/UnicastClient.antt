-- ===== src/UnicastClient.antt =====
-- unicast_client.c: the masters that a port has asked for unicast messages. A set of bits by
-- message types, `granted`, is a function from the numbers of the bits, and a constant mask is the
-- list of the numbers of its bits. Addresses and identities are numbers. What unicast_client.c
-- hands to the clock is kept in `calls`; the timers are left out.
pub mod Grants
pub mod Timer
pub mod Backed
pub mod Decisions
pub mod Reach
pub mod Progress
pub mod Renewals
pub mod Senders
use lyp_lyl.Prelude.{
  ltb, ◌==◌, if◌then◌else◌, ℕ, ◌+◌, ◌*◌, ◌/◌, Bool, true, false, not, ◌&&◌, ◌||◌, Option, none,
  some, List, [], ◌∷◌,
}
use lyp_lyl.Prelude.Int.{ℤ}
use lyp_lyl.Fsm.Unicast.{UnicastState, have_sydy}

-- enum delay_mechanism
pub data DelayMechanism : Type 0 where
  auto e2e p2p common_p2p no_mechanism : DelayMechanism

abbrev pub sync : ℕ
sync = 0x0

abbrev pub pdelay_resp : ℕ
pdelay_resp = 0x3

abbrev pub delay_resp : ℕ
delay_resp = 0x9

abbrev pub announce : ℕ
announce = 0xb

-- struct unicast_master_address
pub record MasterAddress : Type 0 where
  pub port_identity : ℕ
  pub transport : ℕ
  pub state : UnicastState
  pub address : ℕ
  pub granted : ℕ → Bool
  pub sydymsk : List ℕ
  pub renewal_tmo : ℕ

-- struct unicast_master_table
pub record MasterTable : Type 0 where
  pub addrs : List MasterAddress
  pub table_index : ℕ
  pub peer_addr : MasterAddress
  pub has_peer : Bool

pub data ClockCall : Type 0 where
  clock_set_sde : ClockCall
  clock_sync_interval : ℤ → ClockCall

-- What the unicast client uses of struct port.
pub record ClientPort : Type 0 where
  pub delay_mechanism : DelayMechanism
  pub transport_type : ℕ
  pub log_announce_interval : ℤ
  pub log_sync_interval : ℤ
  pub log_min_delay_req_interval : ℤ
  pub log_pdelay_req_interval : ℤ
  pub unicast_req_duration : ℕ
  pub unicast_master_table : Option MasterTable
  pub calls : List ClockCall

-- The TLVs that are sent.
pub data ClientTlv : Type 0 where
  request : ℤ → ℕ → ℕ → ClientTlv
  cancel_transmission : ℕ → ClientTlv
  acknowledge_cancel : ℕ → ClientTlv

-- A signaling message that was sent.
pub record Outgoing : Type 0 where
  pub to_address : ℕ
  pub to_identity : ℕ
  pub tlvs : List ClientTlv

-- Whether port_signaling_uc_construct, the calls of msg_tlv_append and port_prepare_and_send
-- succeed.
pub record Transmit : Type 0 where
  pub constructs : Bool
  pub attaches : ClientTlv → Bool
  pub sends : Bool

-- What was sent, and whether 0 is returned.
abbrev pub Sent : Type 0
Sent = List Outgoing × Bool

abbrev pub all_attached : Transmit → List ClientTlv → Bool
all_attached t [] = true
all_attached t (x ∷ xs) = t.attaches x && all_attached t xs

abbrev pub transmit : Transmit → MasterAddress → List ClientTlv → Sent
transmit t dst tlvs =
    if t.constructs && all_attached t tlvs && t.sends
    then (
      (record { to_address = dst.address; to_identity = dst.port_identity; tlvs = tlvs }) ∷ [],
      true,
    )
    else ([], false)

abbrev pub request_announce : ClientPort → ClientTlv
request_announce p = request p.log_announce_interval announce p.unicast_req_duration

abbrev pub measures_e2e : DelayMechanism → Bool
measures_e2e p2p = false
measures_e2e no_mechanism = false
measures_e2e m = true

abbrev pub request_sydy : ClientPort → List ClientTlv
request_sydy p =
    request p.log_sync_interval sync p.unicast_req_duration
    ∷ (if measures_e2e p.delay_mechanism
        then request p.log_min_delay_req_interval delay_resp p.unicast_req_duration ∷ []
        else [])

unfoldable pub unicast_client_announce : Transmit → ClientPort → MasterAddress → Sent
unicast_client_announce t p dst = transmit t dst (request_announce p ∷ [])

unfoldable pub unicast_client_sydy : Transmit → ClientPort → MasterAddress → Sent
unicast_client_sydy t p dst = transmit t dst (request_sydy p)

abbrev pub has_sydy : UnicastState → Bool
has_sydy have_sydy = true
has_sydy s = false

-- In these functions `now` is none where clock_gettime fails.
unfoldable pub unicast_client_renew :
    Transmit → Option ℕ → ClientPort → MasterAddress → MasterAddress × Sent
unicast_client_renew t none p dst = (dst, ([], false))
unicast_client_renew t (some now) p dst = if ltb now dst.renewal_tmo then (dst, ([], true)) else (
  record dst { renewal_tmo = 0 },
  transmit t dst (request_announce p ∷ (if has_sydy dst.state then request_sydy p else [])),
)

unfoldable pub unicast_client_peer_renew :
    Transmit → Option ℕ → ClientPort → MasterTable → MasterTable × Sent
unicast_client_peer_renew t none p table = (table, ([], not table.has_peer))
unicast_client_peer_renew t (some now) p table =
    let peer = table.peer_addr in
    if not table.has_peer || ltb now peer.renewal_tmo then (table, ([], true)) else (
      record table { peer_addr = record peer { renewal_tmo = 0 } },
      transmit t peer (request p.log_pdelay_req_interval pdelay_resp p.unicast_req_duration ∷ []),
    )

unfoldable pub unicast_client_set_renewal : Option ℕ → MasterAddress → ℕ → MasterAddress
unicast_client_set_renewal none master duration = master
unicast_client_set_renewal (some now) master duration =
    let tmo = now + 3 * duration / 4 in
    if master.renewal_tmo == 0 || ltb tmo master.renewal_tmo
    then record master { renewal_tmo = tmo }
    else master

-- The search of unicast_client_ok, and a change of the entry that it finds.
abbrev pub first_at : ℕ → List MasterAddress → Option MasterAddress
first_at address [] = none
first_at address (u ∷ us) =
    let rest = first_at address us in if u.address == address then some u else rest

abbrev pub replace_at : ℕ → MasterAddress → List MasterAddress → List MasterAddress
replace_at address u' [] = []
replace_at address u' (u ∷ us) =
    let rest = replace_at address u' us in if u.address == address then u' ∷ us else u ∷ rest

abbrev pub ok_in : ℕ → Option MasterTable → Option MasterAddress
ok_in address none = none
ok_in address (some table) = first_at address table.addrs

unfoldable pub unicast_client_ok : ClientPort → ℕ → Option MasterAddress
unicast_client_ok p address = ok_in address p.unicast_master_table

abbrev pub in_table : (MasterTable → MasterTable) → Option MasterTable → Option MasterTable
in_table change none = none
in_table change (some x) = some (change x)

abbrev pub on_table : (MasterTable → MasterTable) → ClientPort → ClientPort
on_table change p = record p { unicast_master_table = in_table change p.unicast_master_table }

abbrev pub put_back : ℕ → ClientPort × MasterAddress → ClientPort
put_back address (p, u) =
    on_table (λ table. record table { addrs = replace_at address u table.addrs }) p

abbrev pub call : ClockCall → ClientPort → ClientPort
call c p = record p { calls = c ∷ p.calls }

unfoldable pub unicast_client_enabled : ClientPort → Bool
unicast_client_enabled p = elim p.unicast_master_table [ none ↦ false | some x ↦ true ]

unfoldable pub unicast_client_msg_is_from_master_table_entry : ClientPort → ℕ → Bool
unicast_client_msg_is_from_master_table_entry p address =
    elim (ok_in address p.unicast_master_table) [ none ↦ false | some x ↦ true ]
