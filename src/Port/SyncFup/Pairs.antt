-- ===== src/Port/SyncFup/Pairs.antt =====
-- Which messages wait and which are paired.

use lyp_lyl.Prelude.{◌==◌, ◌≡◌, refl, ap, ◌∙◌, true, false, not, ◌&&◌, arith}
use lyp_lyl.Port.State.{Machine, Surroundings}
use lyp_lyl.Port.SyncFup.{
  fup_sync_ok, is_client, msg_get, check_source_identity, pair_up, port_syfufsm, corrected,
  watch_interval, adopt_interval, process_sync, process_follow_up, sf_empty, sf_have_sync,
  sf_have_fup, Message, ClockCalls, Syncing,
}

module _ {C : Type 0} where
  -- The fields that the work before the pairing leaves alone.
  pub record Prepared (p q : Syncing C) : Type 0 where
    pub port : q.port ≡ p.port
    pub syfu : q.syfu ≡ p.syfu
    pub last : q.last_syncfup ≡ p.last_syncfup
    pub refs : q.refs ≡ p.refs
    pub asymmetry : q.asymmetry ≡ p.asymmetry
    pub ignores : q.ignore_source_id ≡ p.ignore_source_id
    pub informs : q.follow_up_info ≡ p.follow_up_info

module _ {C : Type 0} (k : ClockCalls C) where
  -- The work of process_sync before the pairing.
  abbrev pub prepare : Syncing C → Message → Syncing C
  prepare p m = adopt_interval k (watch_interval k p m) m

  watch_interval-Prepared : (p : Syncing C) (m : Message) → Prepared p (watch_interval k p m)
  unfolding watch_interval
  watch_interval-Prepared p m = record {
    port = ground arith;
    syfu = ground arith;
    last = ground arith;
    refs = ground arith;
    asymmetry = ground arith;
    ignores = ground arith;
    informs = ground arith;
  }

  adopt_interval-Prepared : (p : Syncing C) (m : Message) → Prepared p (adopt_interval k p m)
  unfolding adopt_interval
  adopt_interval-Prepared p m = record {
    port = ground arith;
    syfu = ground arith;
    last = ground arith;
    refs = ground arith;
    asymmetry = ground arith;
    ignores = ground arith;
    informs = ground arith;
  }

  pub prepare-Prepared : (p : Syncing C) (m : Message) → Prepared p (prepare p m)
  prepare-Prepared p m =
      let a = adopt_interval-Prepared (watch_interval k p m) m in
      let b = watch_interval-Prepared p m in
      record {
        port = a.port ∙ b.port;
        syfu = a.syfu ∙ b.syfu;
        last = a.last ∙ b.last;
        refs = a.refs ∙ b.refs;
        asymmetry = a.asymmetry ∙ b.asymmetry;
        ignores = a.ignores ∙ b.ignores;
        informs = a.informs ∙ b.informs;
      }

  module _ (f : Machine) (w : Surroundings) where
    -- A Sync message that waits, and one that finds its Follow_Up message.
    pub process_sync-waits :
        (p : Syncing C) (m : Message)
        → is_client p.port.state ≡ true
        → check_source_identity k p m ≡ true
        → m.two_step ≡ true
        → p.syfu ≡ sf_empty
        → process_sync k f w p m ≡ (
            let q = prepare p m in
            record (msg_get q (corrected q m)) {
              last_syncfup = corrected q m;
              syfu = sf_have_sync;
            })
    unfolding process_sync port_syfufsm
    process_sync-waits p m c i t s =
        let q = prepare p m in
        let s' : q.syfu ≡ sf_empty = (prepare-Prepared p m).syfu ∙ s in
        let two : (not p.assume_two_step && not m.two_step) ≡ false = ground (arith, t) in
        rw c (rw i (rw two (rw s' refl)))

    pub process_sync-pairs :
        (p : Syncing C) (m : Message)
        → is_client p.port.state ≡ true
        → check_source_identity k p m ≡ true
        → m.two_step ≡ true
        → p.syfu ≡ sf_have_fup
        → fup_sync_ok p.last_syncfup m ≡ true
        → p.last_syncfup.sequence_id ≡ m.sequence_id
        → process_sync k f w p m ≡ (
            let q = prepare p m in
            pair_up k f w q (corrected q m) q.last_syncfup m.log_message_interval)
    unfolding process_sync port_syfufsm fup_sync_ok
    process_sync-pairs p m c i t s o n =
        let q = prepare p m in
        let kept = prepare-Prepared p m in
        let s' : q.syfu ≡ sf_have_fup = kept.syfu ∙ s in
        let two : (not p.assume_two_step && not m.two_step) ≡ false = ground (arith, t) in
        let fresh : fup_sync_ok q.last_syncfup (corrected q m) ≡ true =
          ap (λ l. fup_sync_ok l m) kept.last ∙ o in
        let same : (q.last_syncfup.sequence_id == m.sequence_id) ≡ true =
          ap (λ l. l.sequence_id == m.sequence_id) kept.last ∙ ground (arith, n) in
        rw c (rw i (rw two (rw s' (rw fresh (rw same refl)))))

    pub process_follow_up-waits :
        (p : Syncing C) (m : Message)
        → is_client p.port.state ≡ true
        → check_source_identity k p m ≡ true
        → p.follow_up_info ≡ false
        → p.syfu ≡ sf_empty
        → process_follow_up k f w p m
          ≡ record (msg_get p m) { last_syncfup = m; syfu = sf_have_fup }
    unfolding process_follow_up port_syfufsm
    process_follow_up-waits p m c i n s = rw c (rw i (rw n (rw s refl)))

    pub process_follow_up-pairs :
        (p : Syncing C) (m : Message)
        → is_client p.port.state ≡ true
        → check_source_identity k p m ≡ true
        → p.follow_up_info ≡ false
        → p.syfu ≡ sf_have_sync
        → p.last_syncfup.sequence_id ≡ m.sequence_id
        → process_follow_up k f w p m ≡ pair_up k f w p p.last_syncfup m m.log_message_interval
    unfolding process_follow_up port_syfufsm
    process_follow_up-pairs p m c i n s e =
        let same : (p.last_syncfup.sequence_id == m.sequence_id) ≡ true = ground arith in
        rw c (rw i (rw n (rw s (rw same refl))))
