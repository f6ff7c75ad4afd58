-- ===== src/Signaling/Kept.antt =====
-- What every signaling message keeps.

use lyp_lyl.Prelude.{
  ◌==◌, if-both, ℕ, Bool, true, not, ◌&&◌, ◌||◌, Option, none, some, List, [], ◌∷◌,
}
use lyp_lyl.Prelude.Int.{ℤ}
use lyp_lyl.Tmv.{Tmv}
use lyp_lyl.UnicastService.Contracts.{UnicastService}
use lyp_lyl.UnicastClient.Reach.{AllBacked, Step-AllBacked, on_grant_tlv, on_cancel_tlv}
use lyp_lyl.Signaling.{
  wildcard_pid, process_interval_request, ignores, Handled, serve, process_organization, is_known,
  process_tlv, process_tlvs, process_signaling, Committee, ieee8021, itu_t, another_committee,
  Organization, SignalingTlv, request_unicast, grant_unicast, cancel_unicast,
  organization_extension, no_effect, SignalingMessage, SignalingPort, Answers,
}

abbrev pub KeptClient : Handled → Type 0
KeptClient r = AllBacked r.0.client

module _ (rate : SignalingPort → Organization → Tmv) (answers : Answers)
    (m : SignalingMessage) where
  serve-KeptClient :
      (p : SignalingPort) (o : Option UnicastService) (mtype : ℕ) (log_period : ℤ) (duration : ℕ)
      (err : Bool)
      → AllBacked p.client
      → KeptClient (serve rate answers m p o mtype log_period duration err)
  serve-KeptClient p none mtype log_period duration err h = h
  serve-KeptClient p (some s) mtype log_period duration err h = h

  process_organization-kept :
      (c : Committee) (p : SignalingPort) (o : Organization)
      → AllBacked p.client
      → AllBacked (process_organization rate answers m c p o).client
  unfolding process_interval_request
  process_organization-kept ieee8021 p o h = h
  process_organization-kept itu_t p o h = h
  process_organization-kept another_committee p o h = h

  process_tlv-KeptClient :
      (p : SignalingPort) (err : Bool) (tlv : SignalingTlv)
      → AllBacked p.client
      → KeptClient (process_tlv rate answers m p err tlv)
  unfolding process_tlv
  process_tlv-KeptClient p err (request_unicast mtype log_period duration) h =
      serve-KeptClient p p.service mtype log_period duration err h
  process_tlv-KeptClient p err (grant_unicast mtype log_period duration) h =
      Step-AllBacked (on_grant_tlv answers.now _) h
  process_tlv-KeptClient p err (cancel_unicast flags) h =
      Step-AllBacked (on_cancel_tlv answers.acknowledges m.from flags) h
  process_tlv-KeptClient p err (organization_extension o) h =
      if-both KeptClient (o.subtype == 2 && is_known rate answers m o.id)
        (λ _. process_organization-kept o.id p o h) (λ _. h)
  process_tlv-KeptClient p err no_effect h = h

  process_tlvs-KeptClient :
      (tlvs : List SignalingTlv) (p : SignalingPort) (err : Bool)
      → AllBacked p.client
      → KeptClient (process_tlvs rate answers m p err tlvs)
  unfolding process_tlvs
  process_tlvs-KeptClient [] p err h = h
  process_tlvs-KeptClient (tlv ∷ tlvs) p err h =
      let here = process_tlv rate answers m p err tlv in
      process_tlvs-KeptClient tlvs here.0 here.1.1 (process_tlv-KeptClient p err tlv h)

  -- No signaling message, whatever TLVs it has, takes the unicast client out of its invariant: each of its masters is in a state that its grants support.
  pub process_signaling-KeptClient :
      (p : SignalingPort) → AllBacked p.client → KeptClient (process_signaling rate answers m p)
  unfolding process_signaling
  process_signaling-KeptClient p h =
      if-both KeptClient
        (ignores p.state || not (m.target == p.identity || m.target == wildcard_pid)) (λ _. h)
        (λ _. process_tlvs-KeptClient m.tlv_list p true h)
