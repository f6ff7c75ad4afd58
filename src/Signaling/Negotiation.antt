-- ===== src/Signaling/Negotiation.antt =====
-- The unicast client of one port and the unicast service of another, by the messages between them.

use lyp_lyl.Prelude.{
  ◌==◌, if◌then◌else◌, All, ℕ, suc, ◌≡◌, refl, sym, ap, ◌∙◌, Bool, true, false, ◌||◌, Option, some,
  List, [], ◌∷◌, ◌++◌, map, arith,
}
use lyp_lyl.Prelude.Memory.{write}
use lyp_lyl.Fsm.Unicast.{unicast_fsm, wait, have_ann, need_sydy, have_sydy}
use lyp_lyl.Tmv.{Tmv, Timespec}
use lyp_lyl.UnicastService.Contracts.{out_of_range, UnicastService}
use lyp_lyl.UnicastClient.{
  sync, delay_resp, announce, transmit, measures_e2e, unicast_client_announce, unicast_client_sydy,
  MasterAddress, ClientPort, ClientTlv, request, cancel_transmission, acknowledge_cancel, Outgoing,
  Transmit,
}
use lyp_lyl.UnicastClient.Grants.{grant_to, state_changed, Grant}
use lyp_lyl.Signaling.{
  wildcard_pid, ignores, process_signaling, Organization, SignalingMessage, Reply, SignalingPort,
}
use lyp_lyl.Signaling.Replies.{
  willing, as_request, as_reply, IsServed, process_signaling-heard, Wanted,
}
use lyp_lyl.UnicastClient.Timer.{timer_master, sydy_mask}
use lyp_lyl.UnicastClient.Progress.{
  renewal, answered, all_tlvs, round, first-round, second-round, selected-state,
}
use lyp_lyl.UnicastClient.Renewals.{all_sent}
use mathlib.Core.List.{append-nil}

-- The requests among the TLVs of a client.
abbrev pub wanted : List ClientTlv → List Wanted
wanted [] = []
wanted (request log_period mtype asked ∷ tlvs) =
    (record { mtype = mtype; log_interval = log_period; seconds = asked }) ∷ wanted tlvs
wanted (tlv ∷ tlvs) = wanted tlvs

-- The grants of the port whose identity is `source`, in the entry that unicast_client_ok has found.
unfoldable pub take_grants :
    Option ℕ → ℕ → ClientPort × MasterAddress → List Reply → ClientPort × MasterAddress
take_grants now source r [] = r
take_grants now source r (reply ∷ replies) =
    let g : Grant = record {
      from = r.1.address;
      source = source;
      message_type = reply.reply_type;
      log_inter_message_period = reply.log_period;
      duration_field = reply.duration;
    } in
    take_grants now source (grant_to now g r.0 r.1) replies

-- Where all requests are for the same time and are granted as asked, this is the master that
-- grants everything.
take_grants-answered :
    (now : Option ℕ) (source duration : ℕ) (tlvs : List ClientTlv) (r : ClientPort × MasterAddress)
    → All (λ (w : Wanted). w.seconds ≡ duration) (wanted tlvs)
    → take_grants now source r (map as_reply (wanted tlvs)) ≡ answered now source duration r tlvs
unfolding take_grants answered
take_grants-answered now source duration [] r h = refl
take_grants-answered now source duration (request log_period mtype asked ∷ tlvs) r h =
    rw h.0 (take_grants-answered now source duration tlvs _ h.1)
take_grants-answered now source duration (cancel_transmission b ∷ tlvs) r h =
    take_grants-answered now source duration tlvs r h
take_grants-answered now source duration (acknowledge_cancel b ∷ tlvs) r h =
    take_grants-answered now source duration tlvs r h

abbrev pub one_message : MasterAddress → List ClientTlv → List Outgoing
one_message u tlvs =
    (record { to_address = u.address; to_identity = u.port_identity; tlvs = tlvs }) ∷ []

-- The port of a server, as its unicast service is when a message comes.
module _ (rate : SignalingPort → Organization → Tmv) (start : Timespec) (server : SignalingPort)
    (client_address client_identity : ℕ) where
  -- The messages of the client go to the server one by one, each with the target identity that the
  -- client gives it; these are the grants that the server sends.
  unfoldable pub serve_all : Option ℕ → Transmit → SignalingPort → List Outgoing → List Reply
  serve_all now t p [] = []
  serve_all now t p (o ∷ os) =
      let m : SignalingMessage = record {
        from = client_address;
        source = client_identity;
        target = o.to_identity;
        tlv_list = map as_request (wanted o.tlvs);
      } in
      let done = process_signaling rate (willing start now t) m p in
      done.1.0 ++ serve_all now t done.0 os

  -- A timer event of the client at one of its masters, the messages that it sends, and the grants
  -- that come back from the address that it sends them to.
  unfoldable pub timer_exchange :
      Option ℕ
      → Option ℕ
      → Transmit
      → UnicastService
      → ClientPort × MasterAddress
      → ClientPort × MasterAddress
  timer_exchange now server_now t s r =
      let asked = timer_master all_sent now r.0 r.1 in
      let replies = serve_all server_now t (record server { service = some s }) asked.1.0 in
      take_grants now server.identity (r.0, asked.0) replies

  -- The server takes messages for this target identity.
  abbrev pub Hears : ℕ → Type 0
  Hears target = (target == server.identity || target == wildcard_pid) ≡ true

  -- The time that a client asks for is the same in all its requests.
  timer_exchange-round :
      (now server_now : Option ℕ) (t : Transmit) (s : UnicastService)
      (r : ClientPort × MasterAddress) (duration : ℕ) (tlvs : List ClientTlv)
      → ignores server.state ≡ false
      → Hears r.1.port_identity
      → (timer_master all_sent now r.0 r.1).1.0 ≡ one_message r.1 tlvs
      → All IsServed (wanted tlvs)
      → All (λ (w : Wanted). w.seconds ≡ duration) (wanted tlvs)
      → timer_exchange now server_now t s r ≡ round now server.identity duration r
  unfolding timer_exchange round serve_all
  timer_exchange-round now server_now t s r duration tlvs awake hears sends served same =
      let asked = timer_master all_sent now r.0 r.1 in
      let id = server.identity in
      let m : SignalingMessage = record {
        from = client_address;
        source = client_identity;
        target = r.1.port_identity;
        tlv_list = map as_request (wanted tlvs);
      } in
      let all : all_tlvs asked.1.0 ≡ tlvs = ap all_tlvs sends ∙ append-nil tlvs in
      let replies : serve_all server_now t (record server { service = some s }) asked.1.0
          ≡ map as_reply (wanted tlvs) =
        ap (serve_all server_now t (record server { service = some s })) sends
        ∙ append-nil _
        ∙ process_signaling-heard rate start server_now t m server s (wanted tlvs) refl awake hears
            served in
      ap (take_grants now id (r.0, asked.0)) replies
      ∙ take_grants-answered now id duration tlvs (r.0, asked.0) same
      ∙ ap (answered now id duration (r.0, asked.0)) (sym all)

-- What a client asks for when it has no grants, and when it has been selected.
module _ (p : ClientPort) (duration : ℕ) (lasts : p.unicast_req_duration ≡ duration) where
  abbrev Fits : List ClientTlv → Type 0
  Fits tlvs = All IsServed (wanted tlvs) × All (λ (w : Wanted). w.seconds ≡ duration) (wanted tlvs)

  abbrev announce_list : List ClientTlv
  announce_list = request p.log_announce_interval announce p.unicast_req_duration ∷ []

  wait-Fits : out_of_range p.log_announce_interval ≡ false → Fits announce_list
  wait-Fits near = (((refl, near), tt), (lasts, tt))

  wait-sends :
      (now : Option ℕ) (u : MasterAddress)
      → let u' : MasterAddress = record u { state = wait } in
        (timer_master all_sent now p u').1.0 ≡ one_message u' announce_list
  unfolding timer_master unicast_client_announce
  wait-sends now u = refl

  -- By the two cases of request_sydy.
  abbrev sydy_list : Bool → List ClientTlv
  sydy_list both =
      request p.log_sync_interval sync p.unicast_req_duration
      ∷ (if both
          then request p.log_min_delay_req_interval delay_resp p.unicast_req_duration ∷ []
          else [])

  sydy-Fits :
      (both : Bool)
      → out_of_range p.log_sync_interval ≡ false
      → out_of_range p.log_min_delay_req_interval ≡ false
      → Fits (sydy_list both)
  sydy-Fits true s d = (((refl, s), ((refl, d), tt)), (lasts, (lasts, tt)))
  sydy-Fits false s d = (((refl, s), tt), (lasts, tt))

  sydy-sends :
      (both : Bool) (u : MasterAddress)
      → (transmit all_sent u (sydy_list both)).0 ≡ one_message u (sydy_list both)
  sydy-sends true u = refl
  sydy-sends false u = refl

  need_sydy-sends :
      (now : Option ℕ) (u : MasterAddress)
      → let u' : MasterAddress = record u { state = need_sydy } in
        (timer_master all_sent now p u').1.0
        ≡ one_message u' (sydy_list (measures_e2e p.delay_mechanism))
  unfolding timer_master unicast_client_sydy
  need_sydy-sends now u =
      sydy-sends (measures_e2e p.delay_mechanism) (record u { state = need_sydy })

-- A client and a server come to terms: a master of the client that is in the first state, and whose identity is that of the server or the wildcard, as that of a configured master is, reaches the last one by one timer event, the selection of that master by the clock, and another timer event, where the server takes each message as its service is then, has room for a client, an interval and the queue, and is in a state to answer. What the client asks for is not for a time of zero, and its intervals are at most 30, as logarithms, either way. The grants come from the address of that master, and are taken by its entry as unicast_client_grant does when it has found the entry; the search for the entry and the target identity of the answers are not part of this.
pub negotiation-have_sydy :
    (rate : SignalingPort → Organization → Tmv) (start later_start : Timespec)
    (server : SignalingPort) (client_address client_identity duration : ℕ)
    (now server_now later server_later : Option ℕ) (t : Transmit) (s s_later : UnicastService)
    (p : ClientPort) (u : MasterAddress)
    → ignores server.state ≡ false
    → (u.port_identity == server.identity || u.port_identity == wildcard_pid) ≡ true
    → p.unicast_req_duration ≡ suc duration
    → out_of_range p.log_announce_interval ≡ false
    → out_of_range p.log_sync_interval ≡ false
    → out_of_range p.log_min_delay_req_interval ≡ false
    → let blank = record u { state = wait; sydymsk = sydy_mask p.delay_mechanism } in
      let first =
        timer_exchange rate start server client_address client_identity now server_now t s
          (p, blank) in
      let chosen = (state_changed t server.identity first.1).0 in
      (timer_exchange rate later_start server client_address client_identity later server_later t
        s_later
        (first.0, chosen)).1.state
      ≡ have_sydy
unfolding unicast_fsm
negotiation-have_sydy rate start later_start server client_address client_identity duration now
      server_now later server_later t s s_later p u awake hears lasts ha hs hd =
    let id = server.identity in
    let blank : MasterAddress = record u { sydymsk = sydy_mask p.delay_mechanism } in
    let asked = wait-Fits p (suc duration) lasts ha in
    let one =
      timer_exchange-round rate start server client_address client_identity now server_now t s
        (p, record blank { state = wait }) (suc duration) _ awake hears
        (wait-sends p (suc duration) lasts now blank) asked.0 asked.1
      ∙ first-round now id duration p blank ha in
    let tmo = renewal now u.renewal_tmo (suc duration) in
    let held : MasterAddress = record blank {
      state = have_ann;
      granted = write u.granted announce true;
      port_identity = id;
      renewal_tmo = tmo;
    } in
    let need : MasterAddress = record held { state = need_sydy } in
    let wants = sydy-Fits p (suc duration) lasts (measures_e2e p.delay_mechanism) hs hd in
    let own : (id == id || id == wildcard_pid) ≡ true = ground arith in
    let two =
      timer_exchange-round rate later_start server client_address client_identity later server_later
        t s_later (p, need) (suc duration) _ awake own
        (need_sydy-sends p (suc duration) lasts later held) wants.0 wants.1 in
    rw (one, selected-state t held, two)
      (second-round later id duration p p.delay_mechanism
        (record u { port_identity = id; renewal_tmo = tmo }) hs hd)
