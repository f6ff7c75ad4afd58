-- ===== src/Tc.antt =====
-- tc.c: the transparent clock. A frame goes from its ingress port to the others, and the time it
-- spent on the way is added to a correction field. Ports and identities are numbers, no two ports
-- have the same. The authentication TLVs, which sad.c renews where a frame is changed, and the
-- pool of descriptors are left out: an answer of the surroundings says which descriptor is free.

pub mod Forward
pub mod Blocked
pub mod Order
pub mod Stash
pub mod Delay
pub mod Release
pub mod OneStep
use lyp_lyl.Prelude.{
  ltb, ◌==◌, if◌then◌else◌, ℕ, ◌+◌, ◌*◌, ◌%◌, ◌^◌, Bool, true, false, not, ◌&&◌, ◌||◌, Option, none,
  some, List, [], ◌∷◌, ◌++◌, map,
}
use lyp_lyl.Fsm.{PortState, master, uncalibrated, slave, grand_master}
use lyp_lyl.Tmv.{Tmv, tmv_to_TimeInterval, Timespec}

-- The message types.
abbrev pub sync_type : ℕ
sync_type = 0x0

abbrev pub delay_req_type : ℕ
delay_req_type = 0x1

abbrev pub follow_up_type : ℕ
follow_up_type = 0x8

abbrev pub delay_resp_type : ℕ
delay_resp_type = 0x9

abbrev pub announce_type : ℕ
announce_type = 0xb

-- What tc.c reads of a message: `requesting` is the identity in a delay response, `hwts` and
-- `host` its time stamps, and `two_step` is true where one_step answers 0.
pub record Frame : Type 0 where
  pub message_type : ℕ
  pub domain : ℕ
  pub source : ℕ
  pub sequence_id : ℕ
  pub requesting : ℕ
  pub two_step : Bool
  pub origin : ℕ
  pub correction : ℕ
  pub steps_removed : ℕ
  pub hwts : Tmv
  pub host : Timespec

-- struct tc_txd; `slot` tells the descriptors apart.
pub record Txd : Type 0 where
  pub slot : ℕ
  pub msg : Frame
  pub residence : Tmv
  pub ingress_port : ℕ

-- What tc.c reads of a port.
pub record TcPort : Type 0 where
  pub portnum : ℕ
  pub state : PortState
  pub tc_spanning_tree : Bool
  pub peer_delay : Tmv
  pub asymmetry : ℕ
  pub tx_timestamp_offset : ℕ
  pub tc_transmitted : List Txd

pub data TcMatch : Type 0 where
  mismatch sync_fup fup_sync delay_reqresp : TcMatch

-- What leaves through a port, and the references that are given back.
pub data Action : Type 0 where
  transmit : ℕ → Frame → Action
  release : Frame → Action

-- The answers of the surroundings: whether a port sends a frame, the time stamp it got on the way
-- out, what the rate ratio of the clock makes of a residence time, the free descriptor, and what
-- port_dispatch does to a port on a fault.
pub record Medium : Type 0 where
  pub clock_domain_number : ℕ
  pub transport_send : ℕ → Frame → Bool
  pub transport_txts : ℕ → Frame → Option Tmv
  pub rate : Tmv → Tmv
  pub tc_allocate : ℕ → Frame → Option ℕ
  pub fault_detected : TcPort → TcPort × List Action

-- The ingress state, and the egress state.
unfoldable pub ingress_blocked : PortState → Bool → Bool
ingress_blocked master delay_req = not delay_req
ingress_blocked grand_master delay_req = not delay_req
ingress_blocked uncalibrated delay_req = false
ingress_blocked slave delay_req = false
ingress_blocked s delay_req = true

unfoldable pub egress_blocked : PortState → Bool → Bool
egress_blocked uncalibrated delay_req = not delay_req
egress_blocked slave delay_req = not delay_req
egress_blocked master delay_req = delay_req
egress_blocked grand_master delay_req = delay_req
egress_blocked s delay_req = true

unfoldable pub tc_blocked : ℕ → TcPort → TcPort → Frame → Bool
tc_blocked domain q p m =
    let delay_req = m.message_type == delay_req_type in
    if q.portnum == p.portnum
    then true
    else if p.portnum == 0
    then true
    else if not q.tc_spanning_tree
    then false
    else if not (m.domain == domain)
    then false
    else if ingress_blocked q.state delay_req
    then true
    else egress_blocked p.state delay_req

unfoldable pub tc_match_delay : ℕ → Frame → Txd → TcMatch
tc_match_delay ingress_port resp t =
    if not (ingress_port == t.ingress_port)
    then mismatch
    else if not (t.msg.sequence_id == resp.sequence_id)
    then mismatch
    else if not (t.msg.source == resp.requesting)
    then mismatch
    else if t.msg.message_type == delay_req_type && resp.message_type == delay_resp_type
    then delay_reqresp
    else mismatch

unfoldable pub tc_match_syfup : ℕ → Frame → Txd → TcMatch
tc_match_syfup ingress_port m t =
    if not (ingress_port == t.ingress_port)
    then mismatch
    else if not (m.sequence_id == t.msg.sequence_id)
    then mismatch
    else if not (m.source == t.msg.source)
    then mismatch
    else if t.msg.message_type == sync_type && m.message_type == follow_up_type
    then sync_fup
    else if t.msg.message_type == follow_up_type && m.message_type == sync_type
    then fup_sync
    else mismatch

abbrev pub or_else : TcMatch → Txd → Option (TcMatch × Txd) → Option (TcMatch × Txd)
or_else mismatch t rest = rest
or_else k t rest = some (k, t)

-- The first descriptor that matches, as the loops over tc_transmitted find it.
unfoldable pub first_match : (Txd → TcMatch) → List Txd → Option (TcMatch × Txd)
first_match match_of [] = none
first_match match_of (t ∷ ts) = or_else (match_of t) t (first_match match_of ts)

-- TAILQ_REMOVE.
unfoldable pub remove_txd : ℕ → List Txd → List Txd
remove_txd slot [] = []
remove_txd slot (t ∷ ts) = let rest = remove_txd slot ts in if t.slot == slot then ts else t ∷ rest

unfoldable pub tc_flush : TcPort → TcPort × List Action
tc_flush q = (record q { tc_transmitted = [] }, map (λ (t : Txd). release t.msg) q.tc_transmitted)

unfoldable pub tc_current : Frame → Timespec → Bool
tc_current m now =
    ltb (now.tv_sec * 1000000000 + now.tv_nsec)
      (m.host.tv_sec * 1000000000 + m.host.tv_nsec + 1000000000)

unfoldable pub prune_list : Timespec → List Txd → List Txd × List Action
prune_list now [] = ([], [])
prune_list now (t ∷ ts) =
    let rest = prune_list now ts in
    if tc_current t.msg now then (t ∷ ts, []) else (rest.0, release t.msg ∷ rest.1)

unfoldable pub tc_prune : Timespec → TcPort → TcPort × List Action
tc_prune now q =
    let pruned = prune_list now q.tc_transmitted in
    (record q { tc_transmitted = pruned.0 }, pruned.1)

module _ (medium : Medium) where
  -- The frame is sent, or the fault is dispatched.
  unfoldable pub try_send : TcPort → Frame → TcPort × List Action
  try_send p m =
      if medium.transport_send p.portnum m
      then (p, transmit p.portnum m ∷ [])
      else medium.fault_detected p

  -- A frame that waits for its counterpart, in tc_complete_request and tc_complete_syfup.
  unfoldable pub tc_complete_request : TcPort → TcPort → Frame → Tmv → TcPort × List Action
  tc_complete_request q p req residence = elim (medium.tc_allocate p.portnum req) [
    | none ↦ medium.fault_detected p
    | some slot ↦
        let t : Txd = record {
          slot = slot;
          msg = req;
          residence = residence;
          ingress_port = q.portnum;
        } in
        (record p { tc_transmitted = p.tc_transmitted ++ (t ∷ []) }, [])
  ]

  -- The first part is the port `q`, in which the request is found, the second one `p`.
  abbrev pub answer_request :
      TcPort → TcPort → Frame → Option (TcMatch × Txd) → TcPort × TcPort × List Action
  answer_request q p resp none = (q, p, [])
  answer_request q p resp (some (k, t)) =
      let c2 = (resp.correction + tmv_to_TimeInterval t.residence) % 2 ^ 64 in
      let sent = try_send p (record resp { correction = c2 }) in
      (
        record q { tc_transmitted = remove_txd t.slot q.tc_transmitted },
        sent.0,
        sent.1 ++ (release t.msg ∷ []),
      )

  unfoldable pub tc_complete_response : TcPort → TcPort → Frame → TcPort × TcPort × List Action
  tc_complete_response q p resp =
      answer_request q p resp (first_match (tc_match_delay p.portnum resp) q.tc_transmitted)

  -- A Follow_Up message with the residence time of its Sync message.
  unfoldable pub send_fup : TcPort → TcPort → Frame → Tmv → Txd → TcPort × List Action
  send_fup q p fup residence t =
      let c1 = (fup.correction + tmv_to_TimeInterval residence) % 2 ^ 64 in
      let c2 = (c1 + tmv_to_TimeInterval q.peer_delay) % 2 ^ 64 in
      let sent = try_send p (record fup { correction = (c2 + q.asymmetry) % 2 ^ 64 }) in
      (
        record sent.0 { tc_transmitted = remove_txd t.slot sent.0.tc_transmitted },
        sent.1 ++ (release t.msg ∷ []),
      )

  abbrev pub pair_syfup :
      TcPort → TcPort → Frame → Tmv → Option (TcMatch × Txd) → TcPort × List Action
  pair_syfup q p msg residence none = tc_complete_request q p msg residence
  pair_syfup q p msg residence (some (sync_fup, t)) = send_fup q p msg t.residence t
  pair_syfup q p msg residence (some (fup_sync, t)) = send_fup q p t.msg residence t
  pair_syfup q p msg residence (some (k, t)) = (p, [])

  unfoldable pub tc_complete_syfup : TcPort → TcPort → Frame → Tmv → TcPort × List Action
  tc_complete_syfup q p msg residence =
      pair_syfup q p msg residence (first_match (tc_match_syfup q.portnum msg) p.tc_transmitted)

  -- For the caller the port `q` may have changed too.
  abbrev pub beside : TcPort → TcPort × List Action → TcPort × TcPort × List Action
  beside q done = (q, done.0, done.1)

  unfoldable pub tc_complete : TcPort → TcPort → Frame → Tmv → TcPort × TcPort × List Action
  tc_complete q p msg residence =
      if msg.message_type == sync_type || msg.message_type == follow_up_type
      then beside q (tc_complete_syfup q p msg residence)
      else if msg.message_type == delay_req_type
      then beside q (tc_complete_request q p msg residence)
      else if msg.message_type == delay_resp_type
      then tc_complete_response q p msg
      else (q, p, [])
