-- ===== src/Port/SyncFup/Waiting.antt =====
-- The message that waits for its partner: what does not match synchronizes nothing, and which
-- references the port holds.

use lyp_lyl.Prelude.{
  ◌==◌, if◌then◌else◌, Bool-cases, ℕ, ◌+◌, ◌≡◌, refl, sym, ap, subst, ◌∙◌, inl, inr, Bool, true,
  false, not, ◌&&◌, arith,
}
use lyp_lyl.Prelude.Int.{◌+ℤ◌, ℤ, pos, negsuc}
use lyp_lyl.Prelude.Memory.{write}
use lyp_lyl.Port.State.{Machine, Surroundings}
use lyp_lyl.Port.SyncFup.{
  fup_sync_ok, is_have_sync, is_have_fup, is_client, msg_put, check_source_identity, replace_last,
  on_syfu, port_syfufsm, corrected, process_sync, take_follow_up, process_follow_up, SyfuState,
  sf_empty, sf_have_sync, sf_have_fup, sync_mismatch, fup_mismatch, Message, ClockCalls, Syncing,
}
use lyp_lyl.Port.SyncFup.Pairs.{prepare, prepare-Prepared}

abbrev pub waits : SyfuState → Bool
waits sf_empty = false
waits s = true

-- The references of a port that holds `b`.
abbrev pub held : ℕ → ℕ → ℤ
held b a = if b == a then pos 1 else pos 0

get-held :
    (refs : ℕ → ℤ) (b : ℕ)
    → ((a : ℕ) → refs a ≡ pos 0)
    → (a : ℕ) → write refs b (refs b +ℤ pos 1) a ≡ held b a
unfolding ◌+ℤ◌
get-held refs b h a = elim (Bool-cases (b == a)) [
  | inl e ↦ rw e (rw (h b) refl)
  | inr e ↦ rw e (h a)
]

pub put-held :
    (refs : ℕ → ℤ) (b : ℕ)
    → ((a : ℕ) → refs a ≡ held b a)
    → (a : ℕ) → write refs b (refs b +ℤ negsuc 0) a ≡ pos 0
unfolding ◌+ℤ◌
put-held refs b h a = elim (Bool-cases (b == a)) [
  | inl e ↦ let own : (b == b) ≡ true = ground arith in rw e (rw (h b) (rw own refl))
  | inr e ↦ rw e (h a ∙ rw e refl)
]

module _ {C : Type 0} where
  -- The port holds one reference to the message that waits, and none to any other.
  abbrev pub Balanced : Syncing C → Type 0
  Balanced p = (a : ℕ) → p.refs a ≡ (if waits p.syfu then held p.last_syncfup.address a else pos 0)

  -- The message in hand waits from now on, as what the state says, and nothing is synchronized.
  pub record Postponed (p : Syncing C) (m : Message) (s : SyfuState) (r : Syncing C) : Type 0 where
    pub clock : r.clock ≡ p.clock
    pub port : r.port ≡ p.port
    pub state : r.syfu ≡ s
    pub last : r.last_syncfup ≡ m
    pub references : Balanced p → Balanced r

module _ {C : Type 0} (k : ClockCalls C) (f : Machine) (w : Surroundings) where
  replaced-Postponed :
      (p : Syncing C) (m : Message) (s : SyfuState) (n n' : ℕ)
      → waits p.syfu ≡ true
      → waits s ≡ true
      → Postponed p m s
          (record (replace_last k f w p m s) { sync_mismatches = n; followup_mismatches = n' })
  replaced-Postponed p m s n n' b b' = record {
    clock = refl;
    port = refl;
    state = refl;
    last = refl;
    references = λ h a.
        let owns : (a : ℕ) → p.refs a ≡ held p.last_syncfup.address a =
          λ a. h a ∙ ap (λ t. if t then held p.last_syncfup.address a else pos 0) b in
        get-held (msg_put p p.last_syncfup).refs m.address
          (put-held p.refs p.last_syncfup.address owns) a
        ∙ sym (ap (λ t. if t then held m.address a else pos 0) b');
  }

  on-sync_mismatch :
      (p : Syncing C) (m : Message) (s : SyfuState)
      → p.syfu ≡ s
      → Postponed p m sf_have_sync (on_syfu k f w p m s sync_mismatch)
  on-sync_mismatch p m sf_empty e = record {
    clock = refl;
    port = refl;
    state = refl;
    last = refl;
    references = λ h.
        get-held p.refs m.address
          (λ a. h a ∙ ap (λ t. if waits t then held p.last_syncfup.address a else pos 0) e);
  }
  on-sync_mismatch p m sf_have_sync e =
      replaced-Postponed p m sf_have_sync (p.sync_mismatches + 1) p.followup_mismatches (ap waits e)
        refl
  on-sync_mismatch p m sf_have_fup e =
      replaced-Postponed p m sf_have_sync (p.sync_mismatches + 1) p.followup_mismatches (ap waits e)
        refl

  on-fup_mismatch :
      (p : Syncing C) (m : Message) (s : SyfuState)
      → p.syfu ≡ s
      → Postponed p m sf_have_fup (on_syfu k f w p m s fup_mismatch)
  on-fup_mismatch p m sf_empty e = record {
    clock = refl;
    port = refl;
    state = refl;
    last = refl;
    references = λ h.
        get-held p.refs m.address
          (λ a. h a ∙ ap (λ t. if waits t then held p.last_syncfup.address a else pos 0) e);
  }
  on-fup_mismatch p m sf_have_sync e =
      replaced-Postponed p m sf_have_fup p.sync_mismatches (p.followup_mismatches + 1) (ap waits e)
        refl
  on-fup_mismatch p m sf_have_fup e =
      replaced-Postponed p m sf_have_fup p.sync_mismatches (p.followup_mismatches + 1) (ap waits e)
        refl

  -- A Follow_Up message that a client port accepts, and which is not the partner of a waiting Sync
  -- message, leaves the clock and the port's state alone and waits as a Follow_Up message; the message that waited is
  -- given up, and exactly the references of the new one are held. The port reads no Follow_Up
  -- information here.
  pub process_follow_up-Postponed :
      (p : Syncing C) (m : Message)
      → is_client p.port.state ≡ true
      → check_source_identity k p m ≡ true
      → p.follow_up_info ≡ false
      → (is_have_sync p.syfu && p.last_syncfup.sequence_id == m.sequence_id) ≡ false
      → Postponed p m sf_have_fup (process_follow_up k f w p m)
  unfolding process_follow_up port_syfufsm
  process_follow_up-Postponed p m c i n e =
      let taken : process_follow_up k f w p m ≡ take_follow_up k f w p m =
        rw c (rw i (rw n refl)) in
      let missed : take_follow_up k f w p m ≡ on_syfu k f w p m p.syfu fup_mismatch = rw e refl in
      subst (Postponed p m sf_have_fup) (sym (taken ∙ missed)) (on-fup_mismatch p m p.syfu refl)

  -- A two-step Sync message that a client port accepts, and which is not the partner of a waiting
  -- Follow_Up message, or is newer than it by the software's time stamps, only waits, as a Sync message: after the
  -- watch over the intervals the clock and the port's state stay as they are.
  pub process_sync-Postponed :
      (p : Syncing C) (m : Message)
      → is_client p.port.state ≡ true
      → check_source_identity k p m ≡ true
      → m.two_step ≡ true
      → (is_have_fup p.syfu
          && fup_sync_ok p.last_syncfup m
          && p.last_syncfup.sequence_id == m.sequence_id)
        ≡ false
      → (let q = prepare k p m in Postponed q (corrected q m) sf_have_sync (process_sync k f w p m))
  unfolding process_sync port_syfufsm fup_sync_ok
  process_sync-Postponed p m c i t e =
      let q = prepare k p m in
      let kept = prepare-Prepared k p m in
      let two : (not p.assume_two_step && not m.two_step) ≡ false = ground (arith, t) in
      let e' : (is_have_fup q.syfu
            && fup_sync_ok q.last_syncfup m
            && q.last_syncfup.sequence_id == m.sequence_id)
          ≡ false =
        rw kept.syfu (rw kept.last e) in
      rw c (rw i (rw two (rw e' (on-sync_mismatch q (corrected q m) q.syfu refl))))
