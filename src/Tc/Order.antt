-- ===== src/Tc/Order.antt =====
-- A Sync message and its Follow_Up message meet in a transparent clock, in whichever order.
-- A Sync message and the Follow_Up message that belongs to it.

use lyp_lyl.Prelude.{◌==◌, ℕ, ◌+◌, ◌%◌, ◌^◌, ◌≡◌, refl, true, some, List, [], ◌∷◌, ◌++◌, arith}
use lyp_lyl.Tmv.{Tmv, tmv_zero, tmv_to_TimeInterval}
use lyp_lyl.Tc.{
  sync_type, follow_up_type, tc_match_syfup, try_send, send_fup, tc_complete_syfup, Frame, TcPort,
  sync_fup, fup_sync, Action, transmit, release, Medium,
}
use lyp_lyl.Tc.Stash.{
  Unmatched, Fresh, first_match-snoc, first_match-Unmatched, remove_txd-snoc, kept,
  tc_complete_request-stored,
}

pub record Belong (sync fup : Frame) : Type 0 where
  pub sync_kind : sync.message_type ≡ sync_type
  pub fup_kind : fup.message_type ≡ follow_up_type
  pub sequence : sync.sequence_id ≡ fup.sequence_id
  pub sender : sync.source ≡ fup.source

module _ (medium : Medium) (q p : TcPort) (sync fup : Frame) (belong : Belong sync fup) where
  -- A port with room for either message, at which neither has come before.
  pub record Awaits (slot : ℕ) : Type 0 where
    pub room_sync : medium.tc_allocate p.portnum sync ≡ some slot
    pub room_fup : medium.tc_allocate p.portnum fup ≡ some slot
    pub fresh : Fresh slot p.tc_transmitted
    pub no_sync : Unmatched (tc_match_syfup q.portnum fup) p.tc_transmitted
    pub no_fup : Unmatched (tc_match_syfup q.portnum sync) p.tc_transmitted

  abbrev pub corrected_fup : Tmv → Frame
  corrected_fup residence =
      let c1 = (fup.correction + tmv_to_TimeInterval residence) % 2 ^ 64 in
      let c2 = (c1 + tmv_to_TimeInterval q.peer_delay) % 2 ^ 64 in
      record fup { correction = (c2 + q.asymmetry) % 2 ^ 64 }

  sync_then_fup :
      (residence : Tmv) (slot : ℕ)
      → tc_match_syfup q.portnum fup (kept q sync residence slot) ≡ sync_fup
  unfolding tc_match_syfup
  sync_then_fup residence slot =
      let port : (q.portnum == q.portnum) ≡ true = ground arith in
      let sequence : (fup.sequence_id == sync.sequence_id) ≡ true =
        ground (arith, belong.sequence) in
      let sender : (fup.source == sync.source) ≡ true = ground (arith, belong.sender) in
      rw (port, sequence, sender, belong.sync_kind, belong.fup_kind) refl

  fup_then_sync :
      (residence : Tmv) (slot : ℕ)
      → tc_match_syfup q.portnum sync (kept q fup residence slot) ≡ fup_sync
  unfolding tc_match_syfup
  fup_then_sync residence slot =
      let port : (q.portnum == q.portnum) ≡ true = ground arith in
      let sequence : (sync.sequence_id == fup.sequence_id) ≡ true =
        ground (arith, belong.sequence) in
      let sender : (sync.source == fup.source) ≡ true = ground (arith, belong.sender) in
      rw (port, sequence, sender, belong.sync_kind, belong.fup_kind) refl

  module _ (slot : ℕ) (ready : Awaits slot) (residence : Tmv) where
    abbrev pub sync_first : TcPort × List Action
    sync_first =
        tc_complete_syfup medium q (tc_complete_syfup medium q p sync residence).0 fup tmv_zero

    abbrev pub fup_first : TcPort × List Action
    fup_first =
        tc_complete_syfup medium q (tc_complete_syfup medium q p fup tmv_zero).0 sync residence

    abbrev done : Frame → TcPort × List Action
    done m = (p, transmit p.portnum (corrected_fup residence) ∷ release m ∷ [])

    pub stored :
        (m : Frame)
        → medium.tc_allocate p.portnum m ≡ some slot
        → Unmatched (tc_match_syfup q.portnum m) p.tc_transmitted
        → (r : Tmv)
        → tc_complete_syfup medium q p m r
          ≡ (record p { tc_transmitted = p.tc_transmitted ++ (kept q m r slot ∷ []) }, [])
    unfolding tc_complete_syfup
    stored m room alone r =
        rw (first_match-Unmatched (tc_match_syfup q.portnum m) p.tc_transmitted alone)
          (tc_complete_request-stored medium q p m slot r room)

    sent_lem :
        (m : Frame) (r : Tmv)
        → medium.transport_send p.portnum (corrected_fup residence) ≡ true
        → send_fup medium q
            (record p { tc_transmitted = p.tc_transmitted ++ (kept q m r slot ∷ []) })
            fup
            residence
            (kept q m r slot)
          ≡ done m
    unfolding send_fup try_send
    sent_lem m r sent =
        rw (sent, remove_txd-snoc p.tc_transmitted (kept q m r slot) ready.fresh) refl

    pub fup_meets :
        medium.transport_send p.portnum (corrected_fup residence) ≡ true
        → tc_complete_syfup medium q
            (record p { tc_transmitted = p.tc_transmitted ++ (kept q sync residence slot ∷ []) })
            fup
            tmv_zero
          ≡ done sync
    unfolding tc_complete_syfup
    fup_meets sent =
        rw
          (first_match-snoc (tc_match_syfup q.portnum fup) p.tc_transmitted
            (kept q sync residence slot) sync_fup ready.no_sync (sync_then_fup residence slot))
          (sent_lem sync residence sent)

    sync_meets :
        medium.transport_send p.portnum (corrected_fup residence) ≡ true
        → tc_complete_syfup medium q
            (record p { tc_transmitted = p.tc_transmitted ++ (kept q fup tmv_zero slot ∷ []) })
            sync
            residence
          ≡ done fup
    unfolding tc_complete_syfup
    sync_meets sent =
        rw
          (first_match-snoc (tc_match_syfup q.portnum sync) p.tc_transmitted
            (kept q fup tmv_zero slot) fup_sync ready.no_fup (fup_then_sync tmv_zero slot))
          (sent_lem fup tmv_zero sent)

    -- Where the port can send it, the Follow_Up message leaves with the residence time of the Sync message, the delay of the ingress port and its asymmetry in its correction field, whichever of the two messages came first, and the port keeps neither of them.
    pub tc_complete_syfup-either_order :
        medium.transport_send p.portnum (corrected_fup residence) ≡ true
        → (sync_first ≡ (p, transmit p.portnum (corrected_fup residence) ∷ release sync ∷ []))
          × (fup_first ≡ (p, transmit p.portnum (corrected_fup residence) ∷ release fup ∷ []))
    tc_complete_syfup-either_order sent = (
      rw (stored sync ready.room_sync ready.no_fup residence) (fup_meets sent),
      rw (stored fup ready.room_fup ready.no_sync tmv_zero) (sync_meets sent),
    )
