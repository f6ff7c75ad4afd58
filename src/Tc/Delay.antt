-- ===== src/Tc/Delay.antt =====
-- A Delay_Req message and its response go through a transparent clock.
use lyp_lyl.Prelude.{
  ◌==◌, ℕ, ◌+◌, ◌%◌, ◌^◌, ◌≡◌, refl, true, false, some, List, [], ◌∷◌, ◌++◌, arith,
}
use lyp_lyl.Tmv.{Tmv, tmv_zero, tmv_to_TimeInterval}
use lyp_lyl.Tc.{
  sync_type, delay_req_type, follow_up_type, delay_resp_type, tc_match_delay, try_send,
  tc_complete_request, tc_complete_response, beside, tc_complete, Frame, TcPort, delay_reqresp,
  Action, transmit, release, Medium,
}
use lyp_lyl.Tc.Stash.{
  Unmatched, Fresh, first_match-snoc, remove_txd-snoc, kept, tc_complete_request-stored,
}

of_request :
    (medium : Medium) (q p : TcPort) (m : Frame) (r : Tmv)
    → m.message_type ≡ delay_req_type
    → tc_complete medium q p m r ≡ beside medium q (tc_complete_request medium q p m r)
unfolding tc_complete
of_request medium q p m r e =
    let no_sync : (m.message_type == sync_type) ≡ false = ground arith in
    let no_fup : (m.message_type == follow_up_type) ≡ false = ground arith in
    let this : (m.message_type == delay_req_type) ≡ true = ground arith in
    rw (no_sync, no_fup, this) refl

of_response :
    (medium : Medium) (q p : TcPort) (m : Frame) (r : Tmv)
    → m.message_type ≡ delay_resp_type
    → tc_complete medium q p m r ≡ tc_complete_response medium q p m
unfolding tc_complete
of_response medium q p m r e =
    let no_sync : (m.message_type == sync_type) ≡ false = ground arith in
    let no_fup : (m.message_type == follow_up_type) ≡ false = ground arith in
    let no_request : (m.message_type == delay_req_type) ≡ false = ground arith in
    let this : (m.message_type == delay_resp_type) ≡ true = ground arith in
    rw (no_sync, no_fup, no_request, this) refl

-- A request, and the response to it.

pub record Answers (req resp : Frame) : Type 0 where
  pub req_kind : req.message_type ≡ delay_req_type
  pub resp_kind : resp.message_type ≡ delay_resp_type
  pub sequence : req.sequence_id ≡ resp.sequence_id
  pub requester : req.source ≡ resp.requesting

module _ (medium : Medium) (q p : TcPort) (req resp : Frame) (answers : Answers req resp) where
  -- The egress port `p` has room for the request, and no other request there gets the response.
  pub record AwaitsResponse (slot : ℕ) : Type 0 where
    pub room : medium.tc_allocate p.portnum req ≡ some slot
    pub fresh : Fresh slot p.tc_transmitted
    pub alone : Unmatched (tc_match_delay q.portnum resp) p.tc_transmitted

  abbrev pub corrected_resp : Tmv → Frame
  corrected_resp residence = record resp {
    correction = (resp.correction + tmv_to_TimeInterval residence) % 2 ^ 64;
  }

  req_then_resp :
      (residence : Tmv) (slot : ℕ)
      → tc_match_delay q.portnum resp (kept q req residence slot) ≡ delay_reqresp
  unfolding tc_match_delay
  req_then_resp residence slot =
      let port : (q.portnum == q.portnum) ≡ true = ground arith in
      let sequence : (req.sequence_id == resp.sequence_id) ≡ true =
        ground (arith, answers.sequence) in
      let requester : (req.source == resp.requesting) ≡ true = ground (arith, answers.requester) in
      rw (port, sequence, requester, answers.req_kind, answers.resp_kind) refl

  module _ (slot : ℕ) (ready : AwaitsResponse slot) (residence : Tmv) where
    -- The request goes from `q` to `p`, then the response from `p` to `q`.
    abbrev pub after_request : TcPort × TcPort × List Action
    after_request = tc_complete medium q p req residence

    abbrev pub after_response : TcPort × TcPort × List Action
    after_response = tc_complete medium after_request.1 q resp tmv_zero

    after_request_lem : after_request ≡ (
      q,
      record p { tc_transmitted = p.tc_transmitted ++ (kept q req residence slot ∷ []) },
      [],
    )
    after_request_lem =
        rw
          (
            of_request medium q p req residence answers.req_kind,
            tc_complete_request-stored medium q p req slot residence ready.room,
          )
          refl

    response_lem :
        medium.transport_send q.portnum (corrected_resp residence) ≡ true
        → tc_complete medium
            (record p { tc_transmitted = p.tc_transmitted ++ (kept q req residence slot ∷ []) })
            q
            resp
            tmv_zero
          ≡ (p, q, transmit q.portnum (corrected_resp residence) ∷ release req ∷ [])
    unfolding tc_complete_response try_send
    response_lem sent =
        let port = record p {
          tc_transmitted = p.tc_transmitted ++ (kept q req residence slot ∷ []);
        } in
        rw
          (
            of_response medium port q resp tmv_zero answers.resp_kind,
            first_match-snoc (tc_match_delay q.portnum resp) p.tc_transmitted
                (kept q req residence slot) delay_reqresp ready.alone
                (req_then_resp residence slot),
            sent,
            remove_txd-snoc p.tc_transmitted (kept q req residence slot) ready.fresh,
          )
          refl

    -- Where the ingress port of a Delay_Req message can send it, the response that comes to the egress port of the request leaves with the residence time of the request added to its correction field, and the two ports are as they were before the request.
    pub tc_complete-response :
        medium.transport_send q.portnum (corrected_resp residence) ≡ true
        → after_response ≡ (p, q, transmit q.portnum (corrected_resp residence) ∷ release req ∷ [])
    tc_complete-response sent = rw after_request_lem (response_lem sent)
