-- ===== src/Port/SyncFup/Release.antt =====
-- The references that are left when a pair has synchronized the clock.

use lyp_lyl.Prelude.{
  ◌==◌, if◌then◌else◌, Bool-cases, ℕ, ◌≡◌, refl, sym, ap, subst, ◌∙◌, inl, inr, Bool, true, false,
  ◌&&◌, ◌||◌, List, [], ◌∷◌, ◌++◌, arith,
}
use lyp_lyl.Prelude.Int.{◌+ℤ◌, ℤ, pos, negsuc}
use lyp_lyl.Prelude.Memory.{write}
use lyp_lyl.Fsm.{FsmEvent}
use lyp_lyl.Port.State.{Machine, port_state_update, Surroundings, Port}
use lyp_lyl.Port.SyncFup.{
  is_client, flushes, msg_put, flush_last_sync, port_dispatch, check_source_identity,
  port_synchronize, pair_up, process_follow_up, SyfuState, sf_empty, sf_have_sync, Message,
  ClockCalls, Syncing,
}
use lyp_lyl.Port.SyncFup.Told.{pair_answer, run_events, on_servo-told, told-port, pair_told}
use lyp_lyl.Port.SyncFup.Pairs.{process_follow_up-pairs}
use lyp_lyl.Port.SyncFup.Waiting.{waits, held, put-held, Balanced}

put-twice :
    (refs : ℕ → ℤ) (b : ℕ)
    → ((a : ℕ) → refs a ≡ held b a)
    → (a : ℕ)
    → (let once = write refs b (refs b +ℤ negsuc 0) in write once b (once b +ℤ negsuc 0) a)
      ≡ (if b == a then negsuc 0 else pos 0)
unfolding ◌+ℤ◌
put-twice refs b h a =
    let own : (b == b) ≡ true = ground arith in
    elim (Bool-cases (b == a)) [
      | inl e ↦ rw e (rw own (rw (h b) (rw own refl)))
      | inr e ↦ rw e (h a ∙ rw e refl)
    ]

module _ {C : Type 0} (k : ClockCalls C) (f : Machine) (w : Surroundings) where
  -- Whether one of the events moves the port to a state on whose entry it flushes.
  abbrev pub flushes_in : Port → List FsmEvent → Bool
  flushes_in port [] = false
  flushes_in port (e ∷ es) =
      let updated = port_state_update f w port e false in
      updated.1 && flushes updated.0.state || flushes_in updated.0 es

  -- Whether what a pair tells the port flushes it.
  abbrev pub flushed_by : Syncing C → Message → Message → Bool
  flushed_by p sync fup = flushes_in p.port (pair_told k f w p sync fup fup.log_message_interval)

  flushes_in-snoc :
      (es : List FsmEvent) (port : Port) (e : FsmEvent)
      → flushes_in port (es ++ (e ∷ [])) ≡ (
          flushes_in port es
          || (let updated = port_state_update f w (run_events k f w port es) e false in
              updated.1 && flushes updated.0.state))
  flushes_in-snoc [] port e = ground arith
  flushes_in-snoc (e' ∷ es) port e =
      ground (arith, flushes_in-snoc es (port_state_update f w port e' false).0 e)

  -- The references with one to the message released.
  abbrev released : (ℕ → ℤ) → ℕ → ℕ → ℤ
  released refs b = write refs b (refs b +ℤ negsuc 0)

  abbrev refs_if : Bool → (ℕ → ℤ) → ℕ → ℕ → ℤ
  refs_if true refs b = released refs b
  refs_if false refs b = refs

  abbrev syfu_if : Bool → SyfuState
  syfu_if true = sf_empty
  syfu_if false = sf_have_sync

  -- The port `p`, where a Sync message waits, after these events.
  record After (p : Syncing C) (es : List FsmEvent) (x : Syncing C) : Type 0 where
    port : x.port ≡ run_events k f w p.port es
    last : x.last_syncfup ≡ p.last_syncfup
    refs : x.refs ≡ refs_if (flushes_in p.port es) p.refs p.last_syncfup.address
    syfu : x.syfu ≡ syfu_if (flushes_in p.port es)

  flush-waiting :
      (p : Syncing C)
      → p.syfu ≡ sf_have_sync
      → flush_last_sync p ≡ record (msg_put p p.last_syncfup) { syfu = sf_empty }
  unfolding flush_last_sync
  flush-waiting p e = rw e refl

  flush-empty : (x : Syncing C) → x.syfu ≡ sf_empty → flush_last_sync x ≡ x
  unfolding flush_last_sync
  flush-empty x e = rw e refl

  -- Entering a state that flushes releases the message that waits, and a second one releases
  -- nothing.
  flush-once :
      (x : Syncing C) (before now : Bool) (refs : ℕ → ℤ) (last : Message)
      → x.last_syncfup ≡ last
      → x.refs ≡ refs_if before refs last.address
      → x.syfu ≡ syfu_if before
      → (let r = if now then flush_last_sync x else x in
          (r.last_syncfup ≡ last)
          × (r.refs ≡ refs_if (before || now) refs last.address)
          × (r.syfu ≡ syfu_if (before || now)))
  unfolding flush_last_sync
  flush-once x true true refs last l h s =
      subst
        (λ (r : Syncing C).
          (r.last_syncfup ≡ last) × (r.refs ≡ released refs last.address) × (r.syfu ≡ sf_empty))
        (sym (flush-empty x s)) (l, h, s)
  flush-once x true false refs last l h s = (l, h, s)
  flush-once x false true refs last l h s =
      subst
        (λ (r : Syncing C).
          (r.last_syncfup ≡ last) × (r.refs ≡ released refs last.address) × (r.syfu ≡ sf_empty))
        (sym (flush-waiting x s))
        (
          l,
          ap (λ (t : Message). released x.refs t.address) l
              ∙ ap (λ (t : ℕ → ℤ). released t last.address) h,
          refl,
        )
  flush-once x false false refs last l h s = (l, h, s)

  dispatch-After :
      (p : Syncing C) (es : List FsmEvent) (x : Syncing C) (e : FsmEvent)
      → After p es x
      → After p (es ++ (e ∷ [])) (port_dispatch f w x e)
  unfolding port_dispatch
  dispatch-After p es x e h =
      let entered = λ (t : Port).
        let updated = port_state_update f w t e false in updated.1 && flushes updated.0.state in
      let before = flushes_in p.port es in
      let once =
        flush-once (record x { port = (port_state_update f w x.port e false).0 }) before
          (entered x.port) p.refs p.last_syncfup h.last h.refs h.syfu in
      let all : (before || entered x.port) ≡ flushes_in p.port (es ++ (e ∷ [])) =
        ap (λ (t : Port). before || entered t) h.port ∙ sym (flushes_in-snoc es p.port e) in
      record {
        port = told-port k f w p.port es x e h.port;
        last = once.0;
        refs = once.1 ∙ ap (λ t. refs_if t p.refs p.last_syncfup.address) all;
        syfu = once.2 ∙ ap syfu_if all;
      }

  pair_up-references :
      (p : Syncing C) (m : Message)
      → p.syfu ≡ sf_have_sync
      → ((a : ℕ) → p.refs a ≡ held p.last_syncfup.address a)
      → (a : ℕ)
      → (pair_up k f w p p.last_syncfup m m.log_message_interval).refs a
        ≡ (if flushed_by p p.last_syncfup m && p.last_syncfup.address == a then negsuc 0 else pos 0)
  unfolding port_synchronize
  pair_up-references p m s h a =
      let answer = pair_answer k f w p p.last_syncfup m in
      let b = p.last_syncfup.address in
      let fl = flushed_by p p.last_syncfup m in
      let done =
        port_synchronize k f w p p.last_syncfup.hwts m.pdu_sec m.pdu_nsec p.last_syncfup.correction
          m.correction m.log_message_interval in
      let after : After p (pair_told k f w p p.last_syncfup m m.log_message_interval) done =
        on_servo-told k f w (After p) (dispatch-After p)
          (λ es x c i t. record { port = t.port; last = t.last; refs = t.refs; syfu = t.syfu })
          (record p { clock = answer.0 }) (k.clock_servo_state p.clock) answer.1
          m.log_message_interval (record { port = refl; last = refl; refs = refl; syfu = s }) in
      let shown = λ (t : Bool). if t && b == a then negsuc 0 else pos 0 in
      let one_less : released done.refs done.last_syncfup.address a
          ≡ released (refs_if fl p.refs b) b a =
        ap (λ (t : Message). released done.refs t.address a) after.last
        ∙ ap (λ (t : ℕ → ℤ). released t b a) after.refs in
      one_less ∙ elim (Bool-cases fl) [
        | inl e ↦
            ap (λ t. released (refs_if t p.refs b) b a) e
            ∙ put-twice p.refs b h a
            ∙ sym (ap shown e)
        | inr e ↦
            ap (λ t. released (refs_if t p.refs b) b a) e ∙ put-held p.refs b h a ∙ sym (ap shown e)
      ]

  -- A Follow_Up message with the sequence id of the waiting Sync message ends the wait. Of the
  -- references, none is left, unless an event that the synchronization tells the port moves it to a
  -- state on whose entry it flushes the waiting message: then that message has been released
  -- twice. The port is a client, reads no Follow_Up information, and has held the one reference.
  pub process_follow_up-references :
      (p : Syncing C) (m : Message)
      → is_client p.port.state ≡ true
      → check_source_identity k p m ≡ true
      → p.follow_up_info ≡ false
      → p.syfu ≡ sf_have_sync
      → p.last_syncfup.sequence_id ≡ m.sequence_id
      → Balanced p
      → ((process_follow_up k f w p m).syfu ≡ sf_empty)
        × ((a : ℕ)
            → (process_follow_up k f w p m).refs a ≡ (
                if flushed_by p p.last_syncfup m && p.last_syncfup.address == a
                then negsuc 0
                else pos 0))
  process_follow_up-references p m c i n s e h =
      let paired = process_follow_up-pairs k f w p m c i n s e in
      let owns : (a : ℕ) → p.refs a ≡ held p.last_syncfup.address a =
        λ a. h a ∙ ap (λ t. if waits t then held p.last_syncfup.address a else pos 0) s in
      (ap (λ r. r.syfu) paired, λ a. ap (λ r. r.refs a) paired ∙ pair_up-references p m s owns a)
