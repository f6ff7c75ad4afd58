-- ===== src/Port/Roles.antt =====
-- The role of a port after any list of updates (port_state_update of port.c over fsm.c and
-- designated_fsm.c).
use lyp_lyl.Prelude.{
  if◌then◌else◌, Bool-cases, ◌≡◌, refl, sym, subst, ◌≢◌, ◌⊎◌, inl, inr, Bool, true, false, not,
  ◌&&◌, some, List, [], ◌∷◌, arith,
}
use lyp_lyl.Fsm.{
  ptp_fsm, ptp_slave_fsm, designated_master_fsm, designated_slave_fsm, PortState, initializing,
  faulty, disabled, listening, master, slave, FsmEvent, fault_cleared, fault_detected,
  init_complete,
}
use lyp_lyl.Fsm.Ptp.{Demoted}
use lyp_lyl.Port.State.{
  Machine, clear_fault_asap, clear_fault, skip_initializing, port_state_update, run, opened,
  select_machine, update-state, Surroundings, Port, Update, Options,
}

-- A port with a configured role stays among these states.
abbrev pub Serves : PortState → PortState → Type 0
Serves role s = (s ≡ initializing) ⊎ (s ≡ faulty) ⊎ (s ≡ role)

-- What an update may do to the state, for any machine: a property that the machine's steps keep
-- is kept by the update.
module _ {ℓ} (P : PortState → Type ℓ) (f : Machine)
    (keep : (s : PortState) (e : FsmEvent) (m : Bool) → P s → P (f s e m)) where
  clear_fault-keeps : (w : Surroundings) (s : PortState) → P s → P (clear_fault f w s)
  clear_fault-keeps w faulty h = elim (Bool-cases (w.link_up && clear_fault_asap w.fault)) [
    | inl e ↦ rw e (keep faulty fault_cleared false h)
    | inr e ↦ rw e h
  ]
  clear_fault-keeps w s h = h

  skip-keeps : (w : Surroundings) (s : PortState) → P s → P (skip_initializing f w s)
  skip-keeps w initializing h = elim (Bool-cases w.init_fails) [
    | inl e ↦ rw e (keep initializing fault_detected false h)
    | inr e ↦ rw e (keep initializing init_complete false h)
  ]
  skip-keeps w s h = h

  update-keeps :
      (w : Surroundings) (p : Port) (e : FsmEvent) (m : Bool)
      → P p.state
      → P (port_state_update f w p e m).0.state
  update-keeps w p e m h =
      subst P (sym (update-state f w p e m))
        (skip-keeps w _ (clear_fault-keeps w _ (keep p.state e m h)))

  run-keeps : (p : Port) (us : List Update) → P p.state → P (run f p us).state
  unfolding run
  run-keeps p [] h = h
  run-keeps p (u ∷ us) h =
      run-keeps (port_state_update f u.world p u.event u.mdiff).0 us
        (update-keeps u.world p u.event u.mdiff h)

module _ (s : PortState) (e : FsmEvent) (m : Bool) where
  slave_fsm-Demoted : Demoted s → Demoted (ptp_slave_fsm s e m)
  unfolding ptp_slave_fsm
  slave_fsm-Demoted h = ground arith

  designated_master_fsm-Serves : Serves master s → Serves master (designated_master_fsm s e m)
  unfolding designated_master_fsm
  designated_master_fsm-Serves h = ground arith

  designated_slave_fsm-Serves : Serves slave s → Serves slave (designated_slave_fsm s e m)
  unfolding designated_slave_fsm
  designated_slave_fsm-Serves h = ground arith

-- What the options promise of a port's state: a port with a fixed role is initializing, faulty or
-- in that role; a slave-only port is never a (pre-)master, grand master or passive.
abbrev pub InRole : Options → PortState → Type 0
InRole o s =
    ((o.bmca_noop ≡ true) × (o.is_uds ≡ false) × (o.master_only ≡ true) → Serves master s)
    × ((o.bmca_noop ≡ true) × (o.is_uds ≡ false) × (o.master_only ≡ false) → Serves slave s)
    × (((o.bmca_noop ≡ false) ⊎ (o.is_uds ≡ true)) × (o.slave_only ≡ true) → Demoted s)

-- After any list of updates in any surroundings, a port that was opened with the machine of its
-- options is in a state that the options allow: with the BMCA off, initializing, faulty or the
-- configured role; with the BMCA on and a slave-only clock, no state that serves time.
pub run-InRole :
    (o : Options) {f : Machine} (us : List Update)
    → select_machine o ≡ some f
    → InRole o (run f opened us).state
unfolding select_machine opened
run-InRole o {f} us h = elim (Bool-cases (o.bmca_noop && not o.is_uds)) [
  | inl noop ↦ elim (Bool-cases o.master_only) [
    | inl m ↦
        let e : f ≡ designated_master_fsm = ground arith in
        let r : Serves master (run f opened us).state =
          rw e (run-keeps (Serves master) _ designated_master_fsm-Serves opened us (inl refl)) in
        ground arith
    | inr m ↦
        let e : f ≡ designated_slave_fsm = ground arith in
        let r : Serves slave (run f opened us).state =
          rw e (run-keeps (Serves slave) _ designated_slave_fsm-Serves opened us (inl refl)) in
        ground arith
  ]
  | inr bmca ↦ elim (Bool-cases o.slave_only) [
    | inl s ↦
        let e : f ≡ ptp_slave_fsm = ground arith in
        let r : Demoted (run f opened us).state =
          rw e (run-keeps Demoted _ slave_fsm-Demoted opened us refl) in
        ground arith
    | inr s ↦ ground arith
  ]
]

-- Whatever the event and the surroundings, no update leaves a port with one of the four machines
-- initializing: the initialization is done, and the port goes on with its outcome.
pub update-ne-initializing :
    (o : Options) {f : Machine} (w : Surroundings) (p : Port) (e : FsmEvent) (m : Bool)
    → select_machine o ≡ some f
    → (port_state_update f w p e m).0.state ≢ initializing
unfolding select_machine ptp_fsm ptp_slave_fsm designated_master_fsm designated_slave_fsm
update-ne-initializing o w p e m h = rw (update-state _ w p e m) (ground arith)

-- A fault on an ordinary port that is not disabled: where the link is up and the fault interval
-- asks for an immediate clear, the port is initialized and listens, or is faulty if that fails;
-- in other surroundings it is faulty.
pub update-fault_detected :
    (w : Surroundings) (p : Port) (m : Bool)
    → p.state ≢ disabled
    → (port_state_update ptp_fsm w p fault_detected m).0.state
      ≡ (if w.link_up && (clear_fault_asap w.fault && not w.init_fails) then listening else faulty)
unfolding ptp_fsm
update-fault_detected w p m h = rw (update-state _ w p fault_detected m) (ground arith)
