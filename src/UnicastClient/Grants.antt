-- ===== src/UnicastClient/Grants.antt =====
-- unicast_client.c: what a grant, a cancellation and a decision of the clock change.

use lyp_lyl.Prelude.{
  ◌==◌, if◌then◌else◌, ℕ, ◌/◌, ◌%◌, Bool, true, false, not, ◌&&◌, ◌||◌, Option, none, some, List,
  [], ◌∷◌, ◌++◌,
}
use lyp_lyl.Prelude.Int.{ℤ}
use lyp_lyl.Prelude.Memory.{write}
use lyp_lyl.Fsm.Unicast.{
  unicast_fsm, UnicastState, wait, need_sydy, have_sydy, grant_ann, selected, grant_sydy,
  unselected, cancel,
}
use lyp_lyl.UnicastService.Contracts.{out_of_range}
use lyp_lyl.UnicastClient.{
  sync, pdelay_resp, delay_resp, announce, Sent, transmit, has_sydy, unicast_client_set_renewal,
  unicast_client_ok, on_table, put_back, call, DelayMechanism, p2p, MasterAddress, MasterTable,
  clock_set_sde, clock_sync_interval, ClientPort, ClientTlv, cancel_transmission,
  acknowledge_cancel, Outgoing, Transmit,
}

-- A signaling message with a TLV that grants unicast transmission.
pub record Grant : Type 0 where
  pub from : ℕ
  pub source : ℕ
  pub message_type : ℕ
  pub log_inter_message_period : ℤ
  pub duration_field : ℕ

abbrev pub is_p2p : DelayMechanism → Bool
is_p2p p2p = true
is_p2p m = false

-- (granted & sydymsk) == sydymsk
abbrev pub holds_all : (ℕ → Bool) → List ℕ → Bool
holds_all bits [] = true
holds_all bits (b ∷ bs) = bits b && holds_all bits bs

-- granted & bitmask
abbrev pub holds_any : (ℕ → Bool) → List ℕ → Bool
holds_any bits [] = false
holds_any bits (b ∷ bs) = bits b || holds_any bits bs

abbrev pub advance : MasterAddress → MasterAddress
advance u =
    if holds_all u.granted u.sydymsk then record u { state = unicast_fsm u.state grant_sydy } else u

module _ (now : Option ℕ) (g : Grant) where
  -- The switch by the state, after the bit is set.
  abbrev pub on_grant : UnicastState → ClientPort → MasterAddress → ClientPort × MasterAddress
  on_grant need_sydy p u =
      if g.message_type == delay_resp
      then (
        record p { log_min_delay_req_interval = g.log_inter_message_period },
        unicast_client_set_renewal now (advance u) g.duration_field,
      )
      else if g.message_type == sync
      then (
        call (clock_sync_interval g.log_inter_message_period) p,
        unicast_client_set_renewal now (advance u) g.duration_field,
      )
      else (p, u)
  on_grant have_sydy p u =
      if g.message_type == announce || g.message_type == delay_resp || g.message_type == sync
      then (p, unicast_client_set_renewal now u g.duration_field)
      else (p, u)
  on_grant s p u =
      if g.message_type == announce
      then (
        p,
        unicast_client_set_renewal now
            (record u { state = unicast_fsm u.state grant_ann; port_identity = g.source })
            g.duration_field,
      )
      else (p, u)

  abbrev pub renew_peer : MasterTable → MasterTable
  renew_peer table = record table {
    peer_addr =
        unicast_client_set_renewal now (record table.peer_addr { port_identity = g.source })
          g.duration_field;
  }

  -- unicast_client_grant, from the entry that unicast_client_ok has found.
  unfoldable pub grant_to : ClientPort → MasterAddress → ClientPort × MasterAddress
  grant_to p u =
      if g.duration_field == 0
      then if g.message_type == pdelay_resp
        then (p, u)
        else (call clock_set_sde p, record u { state = wait })
      else if out_of_range g.log_inter_message_period
      then (p, u)
      else if is_p2p p.delay_mechanism && g.message_type == delay_resp
      then (p, u)
      else if is_p2p p.delay_mechanism && g.message_type == pdelay_resp
      then (
        on_table renew_peer (record p { log_pdelay_req_interval = g.log_inter_message_period }),
        u,
      )
      else on_grant u.state p (record u { granted = write u.granted g.message_type true })

  abbrev pub granted_by : ClientPort → Option MasterAddress → ClientPort
  granted_by p none = p
  granted_by p (some u) = put_back g.from (grant_to p u)

  unfoldable pub unicast_client_grant : ClientPort → ClientPort
  unicast_client_grant p = granted_by p (unicast_client_ok p g.from)

-- The three tests of unicast_client_tx_cancel, in the order of the list, with the TLVs so far. The
-- bit goes as soon as the TLV is attached, also where the message is never sent.
unfoldable pub cancel_each :
    Transmit → List ℕ → List ℕ → MasterAddress → List ClientTlv → MasterAddress × Sent
cancel_each t bitmask [] dst tlvs = (
  dst,
  if t.sends
      then (
        (record { to_address = dst.address; to_identity = dst.port_identity; tlvs = tlvs }) ∷ [],
        true,
      )
      else ([], false),
)
cancel_each t bitmask (b ∷ bs) dst tlvs =
    let skipped = cancel_each t bitmask bs dst tlvs in
    let attached =
      cancel_each t bitmask bs (record dst { granted = write dst.granted b false })
        (tlvs ++ cancel_transmission b ∷ []) in
    if dst.granted b && holds_any (λ i. i == b) bitmask
    then if t.attaches (cancel_transmission b) then attached else (dst, ([], false))
    else skipped

unfoldable pub unicast_client_tx_cancel : Transmit → MasterAddress → List ℕ → MasterAddress × Sent
unicast_client_tx_cancel t dst bitmask =
    if not (holds_any dst.granted bitmask)
    then (dst, ([], true))
    else if not t.constructs
    then (dst, ([], false))
    else cancel_each t bitmask (announce ∷ sync ∷ delay_resp ∷ []) dst []

abbrev pub unicast_cancel_all : List ℕ
unicast_cancel_all = announce ∷ sync ∷ delay_resp ∷ []

abbrev pub unicast_cancel_sydy : List ℕ
unicast_cancel_sydy = sync ∷ delay_resp ∷ []

-- A cancellation by the master: its address and the flags of the TLV.
abbrev pub cancelled : Transmit → ClientPort → ℕ → ℕ → Option MasterAddress → ClientPort × Sent
cancelled t p from flags none = (p, ([], true))
cancelled t p from flags (some u) =
    let mtype = flags / 16 in
    if not (mtype == announce || mtype == sync || mtype == delay_resp) || flags / 2 % 2 == 1
    then (p, ([], true))
    else (
      put_back from (
        call clock_set_sde p,
        record u { state = unicast_fsm u.state cancel; granted = write u.granted mtype false },
      ),
      transmit t u (acknowledge_cancel flags ∷ []),
    )

-- The flags are a byte.
unfoldable pub unicast_client_cancel : Transmit → ClientPort → ℕ → ℕ → ClientPort × Sent
unicast_client_cancel t p from flags = cancelled t p from flags (unicast_client_ok p from)

-- The loop of unicast_client_state_changed at one entry; the answer of tx_cancel is ignored. An
-- entry that has sync and delay messages leaves that state when it is not selected, so the test
-- that the state changed holds there.
unfoldable pub state_changed : Transmit → ℕ → MasterAddress → MasterAddress × List Outgoing
state_changed t parent u =
    let unselected_u = record u { state = unicast_fsm u.state unselected } in
    let done = unicast_client_tx_cancel t unselected_u unicast_cancel_sydy in
    if u.port_identity == parent
    then (record u { state = unicast_fsm u.state selected }, [])
    else if has_sydy u.state
    then (done.0, done.1.0)
    else (unselected_u, [])

unfoldable pub changed_all :
    (ℕ → Transmit) → ℕ → List MasterAddress → List MasterAddress × List Outgoing
changed_all t parent [] = ([], [])
changed_all t parent (u ∷ us) =
    let rest = changed_all t parent us in
    let here = state_changed (t u.address) parent u in (here.0 ∷ rest.0, here.1 ++ rest.1)

abbrev pub changed_in :
    (ℕ → Transmit) → ℕ → ClientPort → Option MasterTable → ClientPort × List Outgoing
changed_in t parent p none = (p, [])
changed_in t parent p (some table) =
    let done = changed_all t parent table.addrs in
    (record p { unicast_master_table = some (record table { addrs = done.0 }) }, done.1)

-- What is transmitted to an address succeeds as the first argument says; `parent` is what
-- clock_parent_identity answers.
unfoldable pub unicast_client_state_changed :
    (ℕ → Transmit) → ℕ → ClientPort → ClientPort × List Outgoing
unicast_client_state_changed t parent p = changed_in t parent p p.unicast_master_table
