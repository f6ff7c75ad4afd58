-- ===== src/Signaling.antt =====
-- port_signaling.c: a signaling message goes to the unicast service, to the unicast client or to
-- the intervals of the port, TLV by TLV. What becomes of the asymmetry by an interface rate TLV is
-- a parameter, since it is computed with doubles.
pub mod Replies
pub mod Negotiation
pub mod Kept
use lyp_lyl.Prelude.{
  ◌==◌, if◌then◌else◌, ℕ, ◌-◌, ◌*◌, ◌/◌, ◌%◌, ◌^◌, Bool, true, false, not, ◌&&◌, ◌||◌, Option, none,
  some, List, [], ◌∷◌, ◌++◌,
}
use lyp_lyl.Prelude.Int.{eq_ℤ, ℤ, pos, negsuc}
use lyp_lyl.Fsm.{PortState, initializing, faulty, disabled}
use lyp_lyl.Tmv.{Tmv, Timespec}
use lyp_lyl.UnicastService.Contracts.{
  unicast_service_add, unicast_service_remove, UnicastService, ServiceAnswer, granted, denied,
  Request,
}
use lyp_lyl.UnicastClient.{ClientPort, Transmit}
use lyp_lyl.UnicastClient.Grants.{unicast_client_grant, unicast_client_cancel, Grant}

-- Which committee the three bytes of `id` name.
pub data Committee : Type 0 where
  ieee8021 itu_t another_committee : Committee

-- The fields of an organization extension, as the structs for interval requests and for interface
-- rates read them.
pub record Organization : Type 0 where
  pub id : Committee
  pub subtype : ℕ
  pub link_delay_interval : ℤ
  pub time_sync_interval : ℤ
  pub announce_interval : ℤ
  pub interface_bit_period : ℕ
  pub bits_before_timestamp : ℕ
  pub bits_after_timestamp : ℕ

-- The TLVs of a message: requests and grants by message type, interval and duration, a
-- cancellation by its flags. An acknowledgement, a TLV that is not to be propagated and any other
-- change nothing.
pub data SignalingTlv : Type 0 where
  request_unicast : ℕ → ℤ → ℕ → SignalingTlv
  grant_unicast : ℕ → ℤ → ℕ → SignalingTlv
  cancel_unicast : ℕ → SignalingTlv
  organization_extension : Organization → SignalingTlv
  no_effect : SignalingTlv

pub record SignalingMessage : Type 0 where
  pub from : ℕ
  pub source : ℕ
  pub target : ℕ
  pub tlv_list : List SignalingTlv

-- A grant that is sent, with the duration 0 where the service is denied.
pub record Reply : Type 0 where
  pub reply_type : ℕ
  pub log_period : ℤ
  pub duration : ℕ

-- What process_signaling uses of struct port.
pub record SignalingPort : Type 0 where
  pub state : PortState
  pub identity : ℕ
  pub client : ClientPort
  pub service : Option UnicastService
  pub initial_log_announce_interval : ℤ
  pub initial_log_sync_interval : ℤ
  pub log_min_pdelay_req_interval : ℤ
  pub asymmetry : Tmv

-- The answers of the system: for new clients and intervals of the service, the clock, whether a
-- grant can be sent, and the transmission of an acknowledgement.
pub record Answers : Type 0 where
  pub room_client : Bool
  pub room_interval : Bool
  pub grows : Bool
  pub start : Timespec
  pub now : Option ℕ
  pub replies : Bool
  pub acknowledges : Transmit

-- Ten bytes 0xff.
abbrev pub wildcard_pid : ℕ
wildcard_pid = 2 ^ 80 - 1

-- SIGNAL_NO_CHANGE is -128, and SIGNAL_SET_INITIAL is 126.
unfoldable pub set_interval : ℤ → ℤ → ℤ → ℤ
set_interval current_interval new_interval initial_interval =
    if eq_ℤ new_interval (negsuc 127)
    then current_interval
    else if eq_ℤ new_interval (pos 126)
    then initial_interval
    else new_interval

unfoldable pub process_interval_request : SignalingPort → Organization → SignalingPort
process_interval_request p r =
    let c = p.client in
    record p {
      client = record c {
        log_announce_interval =
            set_interval c.log_announce_interval r.announce_interval
              p.initial_log_announce_interval;
        log_sync_interval =
            set_interval c.log_sync_interval r.time_sync_interval p.initial_log_sync_interval;
        log_pdelay_req_interval =
            set_interval c.log_pdelay_req_interval r.link_delay_interval
              p.log_min_pdelay_req_interval;
      };
    }

-- The states in which process_signaling returns at once.
abbrev pub ignores : PortState → Bool
ignores initializing = true
ignores faulty = true
ignores disabled = true
ignores s = false

-- What one TLV makes of the port, the grants that are sent, and whether 0 is returned after it. An
-- acknowledgement that is sent is not kept.
abbrev pub Handled : Type 0
Handled = SignalingPort × (List Reply × Bool)

-- unicast_service_reply, without the interface rate that may go with it.
abbrev pub unicast_service_reply : Answers → ℕ → ℤ → ℕ → List Reply × Bool
unicast_service_reply answers mtype log_period duration =
    if answers.replies
    then ((record { reply_type = mtype; log_period = log_period; duration = duration }) ∷ [], true)
    else ([], false)

-- unicast_service_grant or unicast_service_deny.
abbrev pub reply_by : Answers → ServiceAnswer → ℕ → ℤ → ℕ → List Reply × Bool
reply_by answers granted mtype log_period duration =
    unicast_service_reply answers mtype log_period duration
reply_by answers denied mtype log_period duration = unicast_service_reply answers mtype log_period 0

module _ (rate : SignalingPort → Organization → Tmv) (answers : Answers)
    (m : SignalingMessage) where
  abbrev pub asked_by : ℤ → ℕ → Request
  asked_by log_period duration = record {
    address = m.from;
    identity = m.source;
    log_period = log_period;
    duration = duration;
  }

  abbrev pub serve : SignalingPort → Option UnicastService → ℕ → ℤ → ℕ → Bool → Handled
  serve p none mtype log_period duration err = (p, ([], err))
  serve p (some s) mtype log_period duration err =
      let done =
        unicast_service_add answers.room_client answers.room_interval answers.grows answers.start
          answers.now mtype (asked_by log_period duration) s in
      (record p { service = some done.0 }, reply_by answers done.1 mtype log_period duration)

  abbrev pub without_contract : ℕ → Option UnicastService → Option UnicastService
  without_contract flags none = none
  without_contract flags (some s) =
      some (unicast_service_remove (flags % 2 == 1) (flags / 16) (asked_by (pos 0) 0) s)

  -- The organization extensions that are known, by the committee.
  abbrev pub process_organization : Committee → SignalingPort → Organization → SignalingPort
  process_organization ieee8021 p o = process_interval_request p o
  process_organization itu_t p o = record p { asymmetry = rate p o }
  process_organization another_committee p o = p

  abbrev pub is_known : Committee → Bool
  is_known another_committee = false
  is_known c = true

  -- The switch by the type of the TLV; `err` is what was to be returned before it.
  unfoldable pub process_tlv : SignalingPort → Bool → SignalingTlv → Handled
  process_tlv p err (request_unicast mtype log_period duration) =
      serve p p.service mtype log_period duration err
  process_tlv p err (grant_unicast mtype log_period duration) =
      let g : Grant = record {
        from = m.from;
        source = m.source;
        message_type = mtype;
        log_inter_message_period = log_period;
        duration_field = duration;
      } in
      (record p { client = unicast_client_grant answers.now g p.client }, ([], err))
  process_tlv p err (cancel_unicast flags) =
      let done = unicast_client_cancel answers.acknowledges p.client m.from flags in
      (record p { client = done.0; service = without_contract flags p.service }, ([], done.1.1))
  process_tlv p err (organization_extension o) =
      if o.subtype == 2 && is_known o.id
      then (process_organization o.id p o, ([], true))
      else (p, ([], err))
  process_tlv p err no_effect = (p, ([], err))

  unfoldable pub process_tlvs : SignalingPort → Bool → List SignalingTlv → Handled
  process_tlvs p err [] = (p, ([], err))
  process_tlvs p err (tlv ∷ tlvs) =
      let here = process_tlv p err tlv in
      let rest = process_tlvs here.0 here.1.1 tlvs in (rest.0, (here.1.0 ++ rest.1.0, rest.1.1))

  unfoldable pub process_signaling : SignalingPort → Handled
  process_signaling p =
      if ignores p.state || not (m.target == p.identity || m.target == wildcard_pid)
      then (p, ([], true))
      else process_tlvs p true m.tlv_list
