-- ===== src/Signaling/Replies.antt =====
-- What a server answers, and how far a client comes by it.

use lyp_lyl.Prelude.{
  leb, ◌==◌, if-both, All, ℕ, ◌≡◌, refl, sym, ap, ap₂, subst, Bool, true, false, ◌||◌, Option, none,
  some, List, [], ◌∷◌, ◌++◌, map, arith,
}
use lyp_lyl.Prelude.Int.{ℤ}
use lyp_lyl.Tmv.{Tmv, Timespec}
use lyp_lyl.Pqueue.{pqueue_insert, Pqueue}
use lyp_lyl.UnicastService.{compare_timeout, initialize_interval, ServiceInterval}
use lyp_lyl.UnicastService.Contracts.{
  scan, enqueue, into_interval, settle, add_contract, out_of_range, unicast_service_add, Kind,
  announces, syncs, Interval, UnicastService, ServiceAnswer, granted, denied, Request,
}
use lyp_lyl.UnicastClient.{sync, pdelay_resp, delay_resp, announce, Transmit}
use lyp_lyl.Signaling.{
  wildcard_pid, ignores, reply_by, asked_by, process_tlv, process_tlvs, process_signaling,
  Organization, SignalingTlv, request_unicast, SignalingMessage, Reply, SignalingPort, Answers,
}

abbrev IsGranted : UnicastService × ServiceAnswer → Type 0
IsGranted r = r.1 ≡ granted

abbrev IsInserted : Pqueue ServiceInterval × Bool → Type 0
IsInserted r = r.1 ≡ true

pqueue_insert-IsInserted :
    (q : Pqueue ServiceInterval) (x : ServiceInterval)
    → IsInserted (pqueue_insert compare_timeout true q x)
unfolding pqueue_insert
pqueue_insert-IsInserted q x = if-both IsInserted (leb q.max q.len) (λ _. refl) (λ _. refl)

-- With room for a client and for an interval, nothing is denied.
module _ (now : Option ℕ) (kind : Kind) (r : Request) where
  enqueue-IsGranted :
      (queued : Pqueue ServiceInterval × Bool) (s : UnicastService)
      → IsInserted queued
      → IsGranted (enqueue now kind r true queued s)
  enqueue-IsGranted (q, true) s h = refl
  enqueue-IsGranted (q, false) s h = absurd (ground (arith, h))

  into_interval-IsGranted :
      (queued : Pqueue ServiceInterval × Bool) (s : UnicastService) (o : Option (List Interval))
      → IsInserted queued
      → IsGranted (into_interval now kind r true queued s o)
  into_interval-IsGranted queued s (some is) h = refl
  into_interval-IsGranted queued s none h = enqueue-IsGranted queued s h

  settle-IsGranted :
      (start : Timespec) (s : UnicastService) (done : Bool) (o : Option (List Interval))
      → IsGranted (settle now kind r true true true start s done o)
  settle-IsGranted start s true o = refl
  settle-IsGranted start s false (some is) = refl
  settle-IsGranted start s false none =
      into_interval-IsGranted _ s _
        (pqueue_insert-IsInserted s.queue (initialize_interval start r.log_period))

  add_contract-IsGranted :
      (start : Timespec) (s : UnicastService)
      → IsGranted (add_contract now kind r true true true start s)
  unfolding add_contract
  add_contract-IsGranted start s =
      settle-IsGranted start (record s { intervals = (scan now kind r s.intervals).0 }) _ _

-- The message types that unicast transmission is granted for.
abbrev pub is_served : ℕ → Bool
is_served mtype = mtype == announce || mtype == sync || mtype == delay_resp || mtype == pdelay_resp

unicast_service_add-IsGranted :
    (start : Timespec) (now : Option ℕ) (mtype : ℕ) (r : Request) (s : UnicastService)
    → is_served mtype ≡ true
    → out_of_range r.log_period ≡ false
    → IsGranted (unicast_service_add true true true start now mtype r s)
unfolding unicast_service_add
unicast_service_add-IsGranted start now mtype r s served near =
    if-both IsGranted (mtype == 0xb) (λ _. rw near (add_contract-IsGranted now announces r start s))
      (λ a.
        if-both IsGranted (mtype == 0x0) (λ _. rw near (add_contract-IsGranted now syncs r start s))
          (λ b.
            if-both IsGranted (mtype == 0x9 || mtype == 0x3) (λ _. refl)
              (λ c. absurd (ground (arith, a, b, c, served)))))

-- A server that has room for clients, intervals and the queue, and a way to send.
abbrev pub willing : Timespec → Option ℕ → Transmit → Answers
willing start now t = record {
  room_client = true;
  room_interval = true;
  grows = true;
  start = start;
  now = now;
  replies = true;
  acknowledges = t;
}

-- The requests of a client, by what they ask for.
pub record Wanted : Type 0 where
  pub mtype : ℕ
  pub log_interval : ℤ
  pub seconds : ℕ

abbrev pub as_request : Wanted → SignalingTlv
as_request w = request_unicast w.mtype w.log_interval w.seconds

abbrev pub as_reply : Wanted → Reply
as_reply w = record { reply_type = w.mtype; log_period = w.log_interval; duration = w.seconds }

abbrev pub IsServed : Wanted → Type 0
IsServed w = (is_served w.mtype ≡ true) × (out_of_range w.log_interval ≡ false)

module _ (rate : SignalingPort → Organization → Tmv) (start : Timespec) (now : Option ℕ)
    (t : Transmit) (m : SignalingMessage) where
  reply_by-granted :
      (answer : ServiceAnswer) (w : Wanted)
      → answer ≡ granted
      → reply_by (willing start now t) answer w.mtype w.log_interval w.seconds
        ≡ (as_reply w ∷ [], true)
  reply_by-granted granted w h = refl
  reply_by-granted denied w h = absurd (ground (arith, h))

  process_tlvs-replies :
      (ws : List Wanted) (p : SignalingPort) (s : UnicastService) (err : Bool)
      → All IsServed ws
      → (process_tlvs rate
          (willing start now t)
          m
          (record p { service = some s })
          err
          (map as_request ws)).1.0
        ≡ map as_reply ws
  unfolding process_tlvs process_tlv
  process_tlvs-replies [] p s err h = refl
  process_tlvs-replies (w ∷ ws) p s err h =
      let r = asked_by rate (willing start now t) m w.log_interval w.seconds in
      let done = unicast_service_add true true true start now w.mtype r s in
      let answered =
        reply_by-granted done.1 w
          (unicast_service_add-IsGranted start now w.mtype r s h.0.0 h.0.1) in
      ap₂ (λ (a b : List Reply). a ++ b) (ap (λ (x : List Reply × Bool). x.0) answered)
        (process_tlvs-replies ws p done.0 _ h.1)

  -- What a server answers to a message of requests that is meant for all ports or for this one.
  pub process_signaling-heard :
      (p : SignalingPort) (s : UnicastService) (ws : List Wanted)
      → m.tlv_list ≡ map as_request ws
      → ignores p.state ≡ false
      → (m.target == p.identity || m.target == wildcard_pid) ≡ true
      → All IsServed ws
      → (process_signaling rate (willing start now t) m (record p { service = some s })).1.0
        ≡ map as_reply ws
  unfolding process_signaling
  process_signaling-heard p s ws asks awake meant h =
      rw (awake, meant)
        (subst
          (λ tlvs.
            (process_tlvs rate (willing start now t) m (record p { service = some s }) true
              tlvs).1.0
            ≡ map as_reply ws)
          (sym asks) (process_tlvs-replies ws p s true h))

  -- A server that is in a state to answer, has room for a client, an interval and the queue, and can send, answers a message of requests that is meant for it with a grant for each, in the order of the requests and for as long as was asked, where each asks for announce, sync or delay messages with an interval of at most 30, as the logarithm, either way.
  pub process_signaling-replies :
      (p : SignalingPort) (s : UnicastService) (ws : List Wanted)
      → m.tlv_list ≡ map as_request ws
      → ignores p.state ≡ false
      → (m.target == p.identity) ≡ true
      → All IsServed ws
      → (process_signaling rate (willing start now t) m (record p { service = some s })).1.0
        ≡ map as_reply ws
  process_signaling-replies p s ws asks awake meant h =
      process_signaling-heard p s ws asks awake (rw meant refl) h
