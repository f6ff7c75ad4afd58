-- ===== src/Tc/Forward.antt =====
-- tc.c: the loops over the ports of the clock. The state that they hand on is the ingress port,
-- the ports of the clock and what was done.
-- The Follow_Up message that a one step Sync message gets.
use lyp_lyl.Prelude.{
  ◌==◌, if◌then◌else◌, ℕ, ◌+◌, ◌%◌, ◌^◌, Bool, true, false, not, ◌&&◌, Option, none, some, List, [],
  ◌∷◌, ◌++◌,
}
use lyp_lyl.Tmv.{Tmv, tmv_add, tmv_sub, tmv_zero, correction_to_tmv, Timespec}
use lyp_lyl.Tc.{
  follow_up_type, announce_type, tc_blocked, try_send, beside, tc_complete, Frame, TcPort, Action,
  Medium,
}

abbrev pub made_follow_up : Frame → Frame
made_follow_up msg = record msg {
  message_type = follow_up_type;
  two_step = false;
  correction = 0;
  requesting = 0;
  steps_removed = 0;
  hwts = 0;
}

-- The loops that only send, over the ports that are not blocked.

module _ (medium : Medium) where
  unfoldable pub send_all : TcPort → Frame → List TcPort → List TcPort × List Action
  send_all q m [] = ([], [])
  send_all q m (p ∷ ps) =
      let rest = send_all q m ps in
      let sent = try_send medium p m in
      if tc_blocked medium.clock_domain_number q p m
      then (p ∷ rest.0, rest.1)
      else (sent.0 ∷ rest.0, sent.1 ++ rest.1)

  -- The residence time of an event message that has left through `p`, from its ingress and egress
  -- time stamps.
  unfoldable pub residence_time : TcPort → Tmv → Tmv → Tmv
  residence_time p ingress stamp =
      let egress =
        if p.tx_timestamp_offset == 0
        then stamp
        else tmv_add stamp (correction_to_tmv p.tx_timestamp_offset) in
      medium.rate (tmv_sub egress ingress)

  abbrev pub complete_stamped : TcPort → TcPort → Frame → Option Tmv → TcPort × TcPort × List Action
  complete_stamped q p m none = beside medium q (medium.fault_detected p)
  complete_stamped q p m (some stamp) = tc_complete medium q p m (residence_time p m.hwts stamp)

  -- The loop with what is done at a port that is not blocked.
  unfoldable pub complete_all :
      (TcPort → TcPort → TcPort × TcPort × List Action)
      → TcPort
      → Frame
      → List TcPort
      → TcPort × List TcPort × List Action
  complete_all complete q m [] = (q, [], [])
  complete_all complete q m (p ∷ ps) =
      let done = complete q p in
      let next = complete_all complete done.0 m ps in
      let rest = complete_all complete q m ps in
      if tc_blocked medium.clock_domain_number q p m
      then (rest.0, p ∷ rest.1, rest.2)
      else (next.0, done.1 ∷ next.1, done.2 ++ next.2)

  -- `now` is the time of CLOCK_MONOTONIC.
  unfoldable pub tc_fwd_event :
      Timespec → TcPort → List TcPort → Frame → TcPort × List TcPort × List Action
  tc_fwd_event now q ports msg =
      let m = record msg { host = now } in
      let sent = send_all q m ports in
      let done =
        complete_all (λ q p. complete_stamped q p m (medium.transport_txts p.portnum m)) q m
          sent.0 in
      (done.0, done.1, sent.1 ++ done.2)

  -- Also tc_fwd_response, which has the same body.
  unfoldable pub tc_fwd_folup :
      Timespec → TcPort → List TcPort → Frame → TcPort × List TcPort × List Action
  tc_fwd_folup now q ports msg =
      let m = record msg { host = now } in
      complete_all (λ q p. tc_complete medium q p m tmv_zero) q m ports

  -- `allocated` is false where there is no room for a message: then -1 is returned.
  unfoldable pub tc_fwd_sync :
      Bool → Timespec → TcPort → List TcPort → Frame → Option (TcPort × List TcPort × List Action)
  tc_fwd_sync allocated now q ports msg =
      let event = tc_fwd_event now q ports (record msg { two_step = true }) in
      let folup = tc_fwd_folup now event.0 event.1 (made_follow_up msg) in
      if msg.two_step
      then some event
      else if allocated
      then some (folup.0, folup.1, event.2 ++ folup.2)
      else none

  unfoldable pub tc_forward : TcPort → List TcPort → Frame → List TcPort × List Action
  tc_forward q ports msg =
      let counted =
        if q.tc_spanning_tree && msg.message_type == announce_type
        then record msg { steps_removed = (1 + msg.steps_removed) % 2 ^ 16 }
        else msg in
      send_all q counted ports

-- The clock identity is the part of a port identity that `clock_of` finds.
unfoldable pub tc_ignore : (clock_of : ℕ → ℕ) → Bool → ℕ → ℕ → ℕ → ℕ → ℕ → Frame → Bool
tc_ignore clock_of match transport_specific own_specific port_identity clock_identity domain m =
    if match && not (transport_specific == own_specific)
    then true
    else if m.source == port_identity
    then true
    else if not (m.domain == domain)
    then true
    else clock_identity == clock_of m.source
