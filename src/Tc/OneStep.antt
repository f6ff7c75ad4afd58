-- ===== src/Tc/OneStep.antt =====
-- A one step Sync message goes through a transparent clock as a two step one: the Follow_Up
-- message that is made for it takes the residence time along.

use lyp_lyl.Prelude.{
  ◌==◌, if◌then◌else◌, All, ℕ, ◌≡◌, refl, ◌⊎◌, inl, inr, Bool, true, false, ◌||◌, some, List, [],
  ◌∷◌, ◌++◌, map,
}
use lyp_lyl.Tmv.{Tmv, tmv_add, tmv_sub, tmv_zero, correction_to_tmv, Timespec}
use lyp_lyl.Tc.{
  sync_type, follow_up_type, tc_blocked, try_send, tc_complete_syfup, beside, tc_complete, Frame,
  TcPort, Action, transmit, release, Medium,
}
use lyp_lyl.Tc.Stash.{kept}
use lyp_lyl.Tc.Forward.{
  send_all, residence_time, complete_stamped, complete_all, tc_fwd_event, tc_fwd_folup, tc_fwd_sync,
}
use lyp_lyl.Tc.Order.{corrected_fup, stored, fup_meets, Belong, Awaits}
use mathlib.Core.List.{append-nil}

module _ (medium : Medium) (now : Timespec) (q : TcPort) (msg : Frame)
    (kind : msg.message_type ≡ sync_type) (slot : ℕ → ℕ) (stamp : ℕ → Tmv) where
  abbrev pub the_sync : Frame
  the_sync = record msg { two_step = true; host = now }

  -- The Follow_Up message takes the identification and the origin's time along; its correction is
  -- 0 so far.
  abbrev pub the_fup : Frame
  the_fup = record {
    message_type = 8;
    domain = msg.domain;
    source = msg.source;
    sequence_id = msg.sequence_id;
    requesting = 0;
    two_step = false;
    origin = msg.origin;
    correction = 0;
    steps_removed = 0;
    hwts = 0;
    host = now;
  }

  pub the_pair : Belong the_sync the_fup
  the_pair = record { sync_kind = kind; fup_kind = refl; sequence = refl; sender = refl }

  -- The residence time: from the ingress time stamp to the time stamp of the transmission, put
  -- forward by the port's offset, at the rate of the master's clock.
  abbrev pub residence_at : TcPort → Tmv
  residence_at p =
      let out = stamp p.portnum in
      let offset = correction_to_tmv p.tx_timestamp_offset in
      medium.rate
        (tmv_sub (if p.tx_timestamp_offset == 0 then out else tmv_add out offset) msg.hwts)

  residence_time-at :
      (p : TcPort) → residence_time medium p msg.hwts (stamp p.portnum) ≡ residence_at p
  unfolding residence_time
  residence_time-at p = refl

  abbrev pub fup_at : TcPort → Frame
  fup_at p = corrected_fup medium q p the_sync the_fup the_pair (residence_at p)

  -- The port lets both messages through.
  pub record IsOpen (p : TcPort) : Type 0 where
    pub unblocked : tc_blocked medium.clock_domain_number q p the_sync ≡ false
    pub awaits : Awaits medium q p the_sync the_fup the_pair (slot p.portnum)
    pub sends_sync : medium.transport_send p.portnum the_sync ≡ true
    pub sends_fup : medium.transport_send p.portnum (fup_at p) ≡ true
    pub stamped : medium.transport_txts p.portnum the_sync ≡ some (stamp p.portnum)

  abbrev pub IsReady : TcPort → Type 0
  IsReady p = (tc_blocked medium.clock_domain_number q p the_sync ≡ true) ⊎ IsOpen p

  abbrev opened : Bool → List Action → List Action
  opened true actions = []
  opened false actions = actions

  -- What leaves through each open port: first the Sync messages, then the Follow_Up messages.
  abbrev pub syncs : List TcPort → List Action
  syncs [] = []
  syncs (p ∷ ps) =
      opened (tc_blocked medium.clock_domain_number q p the_sync) (transmit p.portnum the_sync ∷ [])
      ++ syncs ps

  abbrev pub fups : List TcPort → List Action
  fups [] = []
  fups (p ∷ ps) =
      opened (tc_blocked medium.clock_domain_number q p the_sync)
        (transmit p.portnum (fup_at p) ∷ release the_sync ∷ [])
      ++ fups ps

  -- The port while the Sync message waits.
  abbrev with_sync : TcPort → TcPort
  with_sync p = record p {
    tc_transmitted = p.tc_transmitted ++ (kept q the_sync (residence_at p) (slot p.portnum) ∷ []);
  }

  abbrev waiting : Bool → TcPort → TcPort
  waiting true p = p
  waiting false p = with_sync p

  abbrev all_waiting : List TcPort → List TcPort
  all_waiting = map (λ (p : TcPort). waiting (tc_blocked medium.clock_domain_number q p the_sync) p)

  send_all-syncs :
      (ps : List TcPort) → All IsReady ps → send_all medium q the_sync ps ≡ (ps, syncs ps)
  unfolding send_all try_send
  send_all-syncs [] h = refl
  send_all-syncs (p ∷ ps) (inl b, h) = rw (b, send_all-syncs ps h) refl
  send_all-syncs (p ∷ ps) (inr o, h) = rw (o.unblocked, o.sends_sync, send_all-syncs ps h) refl

  of_syfup :
      (p : TcPort) (m : Frame) (r : Tmv)
      → (m.message_type == sync_type || m.message_type == follow_up_type) ≡ true
      → tc_complete medium q p m r ≡ beside medium q (tc_complete_syfup medium q p m r)
  unfolding tc_complete
  of_syfup p m r e = rw e refl

  event_at :
      (p : TcPort)
      → IsOpen p
      → complete_stamped medium q p the_sync (medium.transport_txts p.portnum the_sync)
        ≡ (q, with_sync p, [])
  event_at p o =
      let is_sync : (the_sync.message_type == sync_type || the_sync.message_type == follow_up_type)
          ≡ true =
        rw kind refl in
      rw
        (
          o.stamped,
          residence_time-at p,
          of_syfup p the_sync (residence_at p) is_sync,
          stored medium q p the_sync the_fup the_pair (slot p.portnum) o.awaits (residence_at p)
              the_sync o.awaits.room_sync o.awaits.no_fup (residence_at p),
        )
        refl

  complete_all-event :
      (ps : List TcPort)
      → All IsReady ps
      → complete_all medium
          (λ q p. complete_stamped medium q p the_sync (medium.transport_txts p.portnum the_sync))
          q
          the_sync
          ps
        ≡ (q, all_waiting ps, [])
  unfolding complete_all
  complete_all-event [] h = refl
  complete_all-event (p ∷ ps) (inl b, h) = rw (b, complete_all-event ps h) refl
  complete_all-event (p ∷ ps) (inr o, h) =
      rw (o.unblocked, event_at p o, complete_all-event ps h) refl

  folup_at :
      (p : TcPort)
      → IsOpen p
      → tc_complete medium q (with_sync p) the_fup tmv_zero
        ≡ (q, p, transmit p.portnum (fup_at p) ∷ release the_sync ∷ [])
  folup_at p o =
      rw
        (
          of_syfup (with_sync p) the_fup tmv_zero refl,
          fup_meets medium q p the_sync the_fup the_pair (slot p.portnum) o.awaits (residence_at p)
              o.sends_fup,
        )
        refl

  -- The Follow_Up message goes the way of the Sync message.
  tc_blocked-fup :
      (p : TcPort)
      → tc_blocked medium.clock_domain_number q p the_fup
        ≡ tc_blocked medium.clock_domain_number q p the_sync
  unfolding tc_blocked
  tc_blocked-fup p = rw kind refl

  tc_blocked-with_sync :
      (p : TcPort)
      → tc_blocked medium.clock_domain_number q (with_sync p) the_fup
        ≡ tc_blocked medium.clock_domain_number q p the_sync
  unfolding tc_blocked
  tc_blocked-with_sync p = rw kind refl

  complete_all-folup :
      (ps : List TcPort)
      → All IsReady ps
      → complete_all medium
          (λ q p. tc_complete medium q p the_fup tmv_zero)
          q
          the_fup
          (all_waiting ps)
        ≡ (q, ps, fups ps)
  unfolding complete_all
  complete_all-folup [] h = refl
  complete_all-folup (p ∷ ps) (inl b, h) = rw (b, tc_blocked-fup p, b, complete_all-folup ps h) refl
  complete_all-folup (p ∷ ps) (inr o, h) =
      rw (o.unblocked, tc_blocked-with_sync p, o.unblocked, folup_at p o, complete_all-folup ps h)
        refl

  -- A one step Sync message goes out through each port that is not blocked, and then for each of them a Follow_Up message that takes along the identification and the origin's time of the Sync message and is corrected by the residence time of it there, from its ingress time stamp to the one of its transmission, put forward by the port's offset; the ports are as they were. Each port that is not blocked has room for a descriptor, no message that would match, sends both messages and has the time stamp of the first.
  pub tc_fwd_sync-one_step :
      (ps : List TcPort)
      → All IsReady ps
      → msg.two_step ≡ false
      → tc_fwd_sync medium true now q ps msg ≡ some (q, ps, syncs ps ++ fups ps)
  unfolding tc_fwd_sync tc_fwd_event tc_fwd_folup
  tc_fwd_sync-one_step ps h one = simp (
    one,
    send_all-syncs ps h,
    complete_all-event ps h,
    complete_all-folup ps h,
    append-nil (syncs ps),
  )
