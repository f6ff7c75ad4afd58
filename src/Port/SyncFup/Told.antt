-- ===== src/Port/SyncFup/Told.antt =====
-- What a synchronization tells the port's state machine and the servo.
use lyp_lyl.Prelude.{
  ◌==◌, if◌then◌else◌, Bool-cases, ◌≡◌, refl, sym, ap, subst, ◌∙◌, ◌⊎◌, inl, inr, Bool, true, false,
  not, ◌&&◌, List, [], ◌∷◌, ◌++◌, arith,
}
use lyp_lyl.Prelude.Int.{eq_ℤ, ℤ}
use lyp_lyl.Tmv.{tmv_add, correction_to_tmv, timestamp_to_tmv}
use lyp_lyl.Fsm.{FsmEvent, synchronization_fault, master_clock_selected}
use lyp_lyl.Servo.{ServoState, unlocked, jump, locked, locked_stable, Servo}
use lyp_lyl.Port.State.{Machine, port_state_update, Surroundings, Port}
use lyp_lyl.Port.SyncFup.{
  signal_set_initial, flushes, is_locked, request_intervals, flush_last_sync, port_dispatch,
  message_interval_request, initial_interval_request, on_servo, port_synchronize, pair_up, Message,
  ClockCalls, Intervals, Syncing,
}

module _ {C : Type 0} (k : ClockCalls C) (f : Machine) (w : Surroundings) where
  -- The answer of the clock to a pair.
  abbrev pub pair_answer : Syncing C → Message → Message → C × lyp_lyl.Servo.ServoState
  pair_answer p sync fup = k.clock_synchronize p.clock sync.hwts (
      tmv_add (timestamp_to_tmv fup.pdu_sec fup.pdu_nsec)
        (tmv_add (correction_to_tmv sync.correction) (correction_to_tmv fup.correction)))

  flush-clock : (p : Syncing C) → (flush_last_sync p).clock ≡ p.clock
  unfolding flush_last_sync
  flush-clock p = ground arith

  flush-port : (p : Syncing C) → (flush_last_sync p).port ≡ p.port
  unfolding flush_last_sync
  flush-port p = ground arith

  dispatch-clock : (p : Syncing C) (e : FsmEvent) → (port_dispatch f w p e).clock ≡ p.clock
  unfolding port_dispatch
  dispatch-clock p e =
      let updated = port_state_update f w p.port e false in
      elim (Bool-cases (updated.1 && flushes updated.0.state)) [
        | inl e ↦ rw e (flush-clock (record p { port = updated.0 }))
        | inr e ↦ rw e refl
      ]

  dispatch-port :
      (p : Syncing C) (e : FsmEvent)
      → (port_dispatch f w p e).port ≡ (port_state_update f w p.port e false).0
  unfolding port_dispatch
  dispatch-port p e =
      let updated = port_state_update f w p.port e false in
      elim (Bool-cases (updated.1 && flushes updated.0.state)) [
        | inl e ↦ rw e (flush-port (record p { port = updated.0 }))
        | inr e ↦ rw e refl
      ]

  -- Whether a stable servo that was not locked before meets an interval that the port has not
  -- asked for.
  abbrev pub restarts : Intervals → ServoState → ℤ → Bool
  restarts i last_state sync_interval =
      i.msg_interval_request
      && not (is_locked last_state)
      && not (eq_ℤ sync_interval i.oper_log_sync_interval)

  -- What a synchronization tells the port's state machine, in turn.
  abbrev pub told : Intervals → ServoState → ServoState → ℤ → List FsmEvent
  told i last_state unlocked sync_interval = synchronization_fault ∷ []
  told i last_state jump sync_interval = synchronization_fault ∷ []
  told i last_state locked sync_interval = master_clock_selected ∷ []
  told i last_state locked_stable sync_interval =
      if restarts i last_state sync_interval
      then synchronization_fault ∷ master_clock_selected ∷ []
      else if i.msg_interval_request && is_locked last_state
      then master_clock_selected ∷ master_clock_selected ∷ []
      else master_clock_selected ∷ []

  abbrev pub is_stable : ServoState → Bool
  is_stable locked_stable = true
  is_stable s = false

  -- The port's state machine after a list of events.
  abbrev pub run_events : Port → List FsmEvent → Port
  run_events port [] = port
  run_events port (e ∷ es) = run_events (port_state_update f w port e false).0 es

  initial-split :
      (p : Syncing C) (i : ℤ)
      → (initial_interval_request k f w p i ≡ p)
        ⊎ (initial_interval_request k f w p i ≡ record p {
          intervals =
              request_intervals p.intervals p.intervals.initial_log_sync_interval
                p.intervals.log_min_pdelay_req_interval signal_set_initial;
        })
  unfolding initial_interval_request
  initial-split p i =
      elim (Bool-cases (
        not (k.servo_offset_threshold p.clock == 0)
        && not (eq_ℤ i p.intervals.initial_log_sync_interval))) [
          | inl e ↦ inr (rw e refl)
          | inr e ↦ inl (rw e refl)
        ]

  -- What holds of a port and the events that it was told so far stays true of it and what the
  -- synchronization tells it, where it does after one event more, and does not depend on the
  -- clock and the intervals.
  module _ (Q : List FsmEvent → Syncing C → Type 0)
      (step : (es : List FsmEvent) (x : Syncing C) (e : FsmEvent)
        → Q es x
        → Q (es ++ (e ∷ [])) (port_dispatch f w x e))
      (keep : (es : List FsmEvent) (x : Syncing C) (c : C) (i : Intervals)
        → Q es x
        → Q es (record x { clock = c; intervals = i })) where
    initial-told :
        (es : List FsmEvent) (p : Syncing C) (i : ℤ)
        → Q es p
        → Q es (initial_interval_request k f w p i)
    initial-told es p i q = elim (initial-split p i) [
      | inl e ↦ subst (Q es) (sym e) q
      | inr e ↦ subst (Q es) (sym e) (keep es p p.clock _ q)
    ]

    stable-told :
        (p : Syncing C) (l : ServoState) (i : ℤ)
        → Q [] p
        → Q (told p.intervals l locked_stable i) (on_servo k f w p l locked_stable i)
    unfolding message_interval_request
    stable-told p l i q = elim (Bool-cases p.intervals.msg_interval_request) [
      | inr e ↦ rw e (step [] _ master_clock_selected (keep [] p p.clock _ q))
      | inl e ↦ elim (Bool-cases (is_locked l)) [
        | inl b ↦
            rw (e, b)
              (step (master_clock_selected ∷ []) _ master_clock_selected
                (step [] _ master_clock_selected (keep [] p p.clock _ q)))
        | inr b ↦ elim (Bool-cases (eq_ℤ i p.intervals.oper_log_sync_interval)) [
          | inl t ↦ rw (e, b, t) (step [] _ master_clock_selected (keep [] p p.clock _ q))
          | inr t ↦
              rw (e, b, t)
                (step (synchronization_fault ∷ []) _ master_clock_selected
                  (step [] _ synchronization_fault (keep [] p (k.servo_reset p.clock) _ q)))
        ]
      ]
    ]

    pub on_servo-told :
        (p : Syncing C) (l s : ServoState) (i : ℤ)
        → Q [] p
        → Q (told p.intervals l s i) (on_servo k f w p l s i)
    on_servo-told p l unlocked i q =
        initial-told (synchronization_fault ∷ []) _ i (step [] p synchronization_fault q)
    on_servo-told p l jump i q = step [] p synchronization_fault q
    on_servo-told p l locked i q = step [] p master_clock_selected q
    on_servo-told p l locked_stable i q = stable-told p l i q

  pub run_events-snoc :
      (es : List FsmEvent) (port : Port) (e : FsmEvent)
      → run_events port (es ++ (e ∷ [])) ≡ (port_state_update f w (run_events port es) e false).0
  run_events-snoc [] port e = refl
  run_events-snoc (e' ∷ es) port e = run_events-snoc es (port_state_update f w port e' false).0 e

  pub told-port :
      (port : Port) (es : List FsmEvent) (x : Syncing C) (e : FsmEvent)
      → x.port ≡ run_events port es
      → (port_dispatch f w x e).port ≡ run_events port (es ++ (e ∷ []))
  told-port port es x e q =
      dispatch-port x e
      ∙ ap (λ (t : Port). (port_state_update f w t e false).0) q
      ∙ sym (run_events-snoc es port e)

  on_servo-port :
      (p : Syncing C) (l s : ServoState) (i : ℤ)
      → (on_servo k f w p l s i).port ≡ run_events p.port (told p.intervals l s i)
  on_servo-port p l s i =
      on_servo-told (λ es x. x.port ≡ run_events p.port es) (told-port p.port) (λ es x c j q. q) p l
        s i refl

  -- The clock after the servo's answer.
  abbrev pub reset_if : Bool → C → C
  reset_if true c = k.servo_reset c
  reset_if false c = c

  initial-clock : (p : Syncing C) (i : ℤ) → (initial_interval_request k f w p i).clock ≡ p.clock
  initial-clock p i = elim (initial-split p i) [
    | inl e ↦ ap (λ (x : Syncing C). x.clock) e
    | inr e ↦ ap (λ (x : Syncing C). x.clock) e
  ]

  on_servo-clock :
      (p : Syncing C) (l s : ServoState) (i : ℤ)
      → (on_servo k f w p l s i).clock ≡ reset_if (is_stable s && restarts p.intervals l i) p.clock
  unfolding message_interval_request
  on_servo-clock p l unlocked i =
      initial-clock (port_dispatch f w p synchronization_fault) i
      ∙ dispatch-clock p synchronization_fault
  on_servo-clock p l jump i = dispatch-clock p synchronization_fault
  on_servo-clock p l locked i = dispatch-clock p master_clock_selected
  on_servo-clock p l locked_stable i =
      dispatch-clock (message_interval_request k f w p l i) master_clock_selected
      ∙ elim (Bool-cases p.intervals.msg_interval_request) [
        | inr e ↦ rw e refl
        | inl e ↦ elim (Bool-cases (is_locked l)) [
          | inl b ↦ rw (e, b) (dispatch-clock _ master_clock_selected)
          | inr b ↦ elim (Bool-cases (eq_ℤ i p.intervals.oper_log_sync_interval)) [
            | inl t ↦ rw (e, b, t) refl
            | inr t ↦ rw (e, b, t) (dispatch-clock _ synchronization_fault)
          ]
        ]
      ]

  -- What a pair tells the port, and whether it restarts the servo.
  abbrev pub pair_told : Syncing C → Message → Message → ℤ → List FsmEvent
  pair_told p sync fup i =
      told p.intervals (k.clock_servo_state p.clock) (pair_answer p sync fup).1 i

  abbrev pub pair_restarts : Syncing C → Message → Message → ℤ → Bool
  pair_restarts p sync fup i =
      is_stable (pair_answer p sync fup).1 && restarts p.intervals (k.clock_servo_state p.clock) i

  pub pair_up-clock :
      (p : Syncing C) (sync fup : Message) (i : ℤ)
      → (pair_up k f w p sync fup i).clock
        ≡ reset_if (pair_restarts p sync fup i) (pair_answer p sync fup).0
  unfolding port_synchronize
  pair_up-clock p sync fup i =
      on_servo-clock (record p { clock = (pair_answer p sync fup).0 }) (k.clock_servo_state p.clock)
        (pair_answer p sync fup).1 i

  pub pair_up-port :
      (p : Syncing C) (sync fup : Message) (i : ℤ)
      → (pair_up k f w p sync fup i).port ≡ run_events p.port (pair_told p sync fup i)
  unfolding port_synchronize
  pair_up-port p sync fup i =
      on_servo-port (record p { clock = (pair_answer p sync fup).0 }) (k.clock_servo_state p.clock)
        (pair_answer p sync fup).1 i
