-- ===== src/Port/SyncFup/Order.antt =====
-- A Sync message and its Follow_Up message in either order.

use lyp_lyl.Prelude.{
  Bool-cases, ℕ, ◌≡◌, refl, sym, ap, subst, ◌∙◌, inl, inr, true, false, not, ◌&&◌, ◌||◌, arith,
}
use lyp_lyl.Prelude.Int.{ltb_ℤ, eq_ℤ, ℤ, pos, negsuc}
use lyp_lyl.Tmv.{tmv_add, tmv_is_zero, correction_to_tmv, timestamp_to_tmv}
use lyp_lyl.Port.State.{Machine, Surroundings}
use lyp_lyl.Port.SyncFup.{
  fup_sync_ok, is_client, msg_get, check_source_identity, pair_up, long_gap, corrected,
  watch_interval, adopt_interval, process_sync, process_follow_up, SyfuState, sf_empty,
  sf_have_sync, sf_have_fup, Message, ClockCalls, Syncing,
}
use lyp_lyl.Port.SyncFup.Told.{
  restarts, is_stable, run_events, reset_if, pair_told, pair_up-clock, pair_up-port,
}
use lyp_lyl.Port.SyncFup.Pairs.{
  prepare, prepare-Prepared, process_sync-waits, process_sync-pairs, process_follow_up-waits,
  process_follow_up-pairs,
}

-- The calls of process_sync into the clock do not change the clock's master.
pub record KeepsParent {C : Type 0} (k : ClockCalls C) : Type 0 where
  pub reset :
      (c : C) → k.clock_parent_identity (k.clock_request_servo_reset c) ≡ k.clock_parent_identity c
  pub interval :
      (c : C) (i : ℤ)
      → k.clock_parent_identity (k.clock_sync_interval c i) ≡ k.clock_parent_identity c

module _ {C : Type 0} (k : ClockCalls C) where
  -- The port with another message waiting.
  abbrev with_last : Syncing C → (ℕ → ℤ) → Message → SyfuState → Syncing C
  with_last p refs last syfu = record p { refs = refs; last_syncfup = last; syfu = syfu }

  module _ (refs : ℕ → ℤ) (last : Message) (syfu : SyfuState) where
    watch-with_last :
        (p : Syncing C) (m : Message)
        → watch_interval k (with_last p refs last syfu) m
          ≡ with_last (watch_interval k p m) refs last syfu
    unfolding watch_interval
    watch-with_last p m = elim (Bool-cases (tmv_is_zero m.hwts)) [
      | inl e ↦ rw e refl
      | inr e ↦ elim (Bool-cases (tmv_is_zero p.last_sync_recv_time)) [
        | inl z ↦ rw e (rw z refl)
        | inr z ↦ elim (Bool-cases (long_gap p.last_sync_recv_time m.hwts)) [
          | inl g ↦ rw e (rw z (rw g refl))
          | inr g ↦ rw e (rw z (rw g refl))
        ]
      ]
    ]

    adopt-with_last :
        (p : Syncing C) (m : Message)
        → adopt_interval k (with_last p refs last syfu) m
          ≡ with_last (adopt_interval k p m) refs last syfu
    unfolding adopt_interval
    adopt-with_last p m =
        let said = m.log_message_interval in
        elim (Bool-cases (not m.unicast && not (eq_ℤ said p.log_sync_interval))) [
          | inl e ↦ elim (Bool-cases (ltb_ℤ said (negsuc 9) || ltb_ℤ (pos 22) said)) [
            | inl b ↦ rw e (rw b refl)
            | inr b ↦ rw e (rw b refl)
          ]
          | inr e ↦ rw e refl
        ]

    prepare-with_last :
        (p : Syncing C) (m : Message)
        → prepare k (with_last p refs last syfu) m ≡ with_last (prepare k p m) refs last syfu
    prepare-with_last p m =
        ap (λ q. adopt_interval k q m) (watch-with_last p m)
        ∙ adopt-with_last (watch_interval k p m) m

  module _ (keeps : KeepsParent k) where
    watch-parent :
        (p : Syncing C) (m : Message)
        → k.clock_parent_identity (watch_interval k p m).clock ≡ k.clock_parent_identity p.clock
    unfolding watch_interval
    watch-parent p m = ground (arith, keeps.reset p.clock)

    adopt-parent :
        (p : Syncing C) (m : Message)
        → k.clock_parent_identity (adopt_interval k p m).clock ≡ k.clock_parent_identity p.clock
    unfolding adopt_interval
    adopt-parent p m = ground (arith, keeps.interval p.clock m.log_message_interval)

    prepare-source :
        (p : Syncing C) (m u : Message)
        → check_source_identity k (prepare k p m) u ≡ check_source_identity k p u
    unfolding check_source_identity
    prepare-source p m u =
        rw (prepare-Prepared k p m).ignores
          (rw (adopt-parent (watch_interval k p m) m) (rw (watch-parent p m) refl))

  -- What a pair comes to: the clock has been synchronized once, by the two messages' time stamps
  -- and corrections; the port's state machine has been told what `told` says; the servo was reset
  -- where a stable one restarts; and no message waits.
  pub record Paired (f : Machine) (w : Surroundings) (q : Syncing C) (sync fup : Message)
      (r : Syncing C) : Type 0 where
    pub clock : r.clock ≡ (
        let answer = k.clock_synchronize q.clock sync.hwts (
          tmv_add
            (timestamp_to_tmv fup.pdu_sec fup.pdu_nsec)
            (tmv_add (correction_to_tmv sync.correction) (correction_to_tmv fup.correction))) in
        reset_if k f w
          (is_stable k f w answer.1
            && restarts k f w q.intervals (k.clock_servo_state q.clock) sync.log_message_interval)
          answer.0)
    pub port :
        r.port ≡ run_events k f w q.port (pair_told k f w q sync fup sync.log_message_interval)
    pub syfu : r.syfu ≡ sf_empty

  pair_up-Paired :
      (f : Machine) (w : Surroundings) (q : Syncing C) (refs : ℕ → ℤ) (last sync fup : Message)
      (s : SyfuState) (i : ℤ)
      → i ≡ sync.log_message_interval
      → Paired f w q sync fup (pair_up k f w (with_last q refs last s) sync fup i)
  pair_up-Paired f w q refs last sync fup s i e =
      subst (λ j. Paired f w q sync fup (pair_up k f w (with_last q refs last s) sync fup j))
        (sym e)
        (record {
          clock = pair_up-clock k f w (with_last q refs last s) sync fup sync.log_message_interval;
          port = pair_up-port k f w (with_last q refs last s) sync fup sync.log_message_interval;
          syfu = refl;
        })

  -- On a client port where no message waits, which reads no Follow_Up information, a two-step Sync
  -- message and a Follow_Up message from the master with the same sequence id and message interval
  -- have the same outcome in either order, provided the Follow_Up message is not older by the
  -- software's time stamps: after the watch over the intervals, the clock is synchronized once with
  -- the time stamps and corrections of the two. The port's state machine is told of a fault where
  -- the servo is then unlocked or jumps, and of the selected clock where it is locked. Where it is
  -- stable, a port that requests intervals and whose servo was locked before is told twice of the
  -- selected clock; one whose servo was not, and whose interval is not the operational one, resets
  -- the servo and is told of a fault first.
  pub process_sync-process_follow_up :
      (f : Machine) (w : Surroundings) (p : Syncing C) (s u : Message)
      → KeepsParent k
      → is_client p.port.state ≡ true
      → p.syfu ≡ sf_empty
      → p.follow_up_info ≡ false
      → check_source_identity k p s ≡ true
      → check_source_identity k p u ≡ true
      → s.two_step ≡ true
      → s.sequence_id ≡ u.sequence_id
      → s.log_message_interval ≡ u.log_message_interval
      → fup_sync_ok u s ≡ true
      → (let q = prepare k p s in
          let s' = corrected q s in
          Paired f w q s' u (process_follow_up k f w (process_sync k f w p s) u)
          × Paired f w q s' u (process_sync k f w (process_follow_up k f w p u) s))
  unfolding check_source_identity
  process_sync-process_follow_up f w p s u keeps c e n i i' t same period o =
      let q = prepare k p s in
      let s' = corrected q s in
      let kept = prepare-Prepared k p s in
      let x = record (msg_get q s') { last_syncfup = s'; syfu = sf_have_sync } in
      let y = record (msg_get p u) { last_syncfup = u; syfu = sf_have_fup } in
      let client : is_client x.port.state ≡ true = ap (λ r. is_client r.state) kept.port ∙ c in
      let source : check_source_identity k x u ≡ true = prepare-source keeps p s u ∙ i' in
      let first =
        ap (λ r. process_follow_up k f w r u) (process_sync-waits k f w p s c i t e)
        ∙ process_follow_up-pairs k f w x u client source (kept.informs ∙ n) refl same in
      let second =
        ap (λ r. process_sync k f w r s) (process_follow_up-waits k f w p u c i' n e)
        ∙ process_sync-pairs k f w y s c i t refl o (sym same) in
      (
        subst (Paired f w q s' u) (sym first)
            (pair_up-Paired f w q x.refs s' s' u sf_have_sync u.log_message_interval (sym period)),
        subst (Paired f w q s' u) (sym second) (
            subst
              (λ r.
                Paired f w q s' u
                  (pair_up k f w r (corrected r s) r.last_syncfup s.log_message_interval))
              (sym (prepare-with_last y.refs u sf_have_fup p s))
              (pair_up-Paired f w q y.refs u s' u sf_have_fup s.log_message_interval refl)),
      )
