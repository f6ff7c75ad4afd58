-- ===== src/Port/Foreign/Invariant.antt =====
-- The list of foreign masters stays in order, whatever announce messages come.

use lyp_lyl.Prelude.{
  ltb, leb, ◌==◌, Bool-cases, length, length-append, All, ℕ, ◌+◌, ◌-◌, ◌≤◌, ◌≡◌, refl, sym, ap,
  subst, ◌∙◌, ◌≢◌, inl, inr, Bool, true, false, Option, none, some, List, [], ◌∷◌, ◌++◌, map, arith,
}
use lyp_lyl.Tmv.{Timespec}
use lyp_lyl.Fsm.{
  PortState, initializing, faulty, disabled, listening, pre_master, master, passive, uncalibrated,
  slave, grand_master,
}
use lyp_lyl.Port.Foreign.{
  foreign_master_threshold, msg_current, trim, drop_old, fc_prune, hear, hear_again, hear_best,
  after_head, on_sender, or_new, add_foreign_master, update_current_master, by_state,
  process_announce, Announce, ForeignClock, Limits,
}

-- The count is that of the messages, which are from the clock and at most three.
pub record Tidy (fc : ForeignClock) : Type 0 where
  pub counted : fc.n_messages ≡ length fc.messages
  pub few : fc.n_messages ≤ foreign_master_threshold + 1
  pub own : All (λ (m : Announce). m.source ≡ fc.sender) fc.messages

abbrev pub senders : List ForeignClock → List ℕ
senders = map (λ (fc : ForeignClock). fc.sender)

abbrev pub Distinct : List ℕ → Type 0
Distinct [] = Unit {0}
Distinct (x ∷ xs) = All (λ (y : ℕ). x ≢ y) xs × Distinct xs

pub record IsValid (fcs : List ForeignClock) : Type 0 where
  pub tidy : All Tidy fcs
  pub distinct : Distinct (senders fcs)

module _ (P : Announce → Type 0) where
  trim_lem :
      (ms : List Announce) (n : ℕ)
      → n ≡ length ms
      → All P ms
      → ((trim ms n).1 ≡ length (trim ms n).0)
        × ((trim ms n).1 ≤ foreign_master_threshold)
        × All P (trim ms n).0
  unfolding trim
  trim_lem [] n e h = (e, omega arith, tt)
  trim_lem (m ∷ ms) n e h = elim (Bool-cases (ltb foreign_master_threshold n)) [
    | inl more ↦ rw more (trim_lem ms (n - 1) (omega arith) h.1)
    | inr few ↦ rw few (e, ground arith, h)
  ]

  drop_old_lem :
      (now : Timespec) (ms : List Announce) (n : ℕ)
      → n ≡ length ms
      → All P ms
      → ((drop_old now ms n).1 ≡ length (drop_old now ms n).0)
        × ((drop_old now ms n).1 ≤ n)
        × All P (drop_old now ms n).0
  unfolding drop_old
  drop_old_lem now [] n e h = (e, omega arith, tt)
  drop_old_lem now (m ∷ ms) n e h = elim (Bool-cases (msg_current m now)) [
    | inl keep ↦ rw keep (e, omega arith, h)
    | inr old ↦
        let ih = drop_old_lem now ms (n - 1) (omega arith) h.1 in rw old (ih.0, omega arith, ih.2)
  ]

-- A pruned clock has at most two messages.
pub fc_prune-Tidy :
    (now : Timespec) (fc : ForeignClock)
    → Tidy fc
    → Tidy (fc_prune now fc) × ((fc_prune now fc).n_messages ≤ foreign_master_threshold)
unfolding fc_prune
fc_prune-Tidy now fc t =
    let own = λ (m : Announce). m.source ≡ fc.sender in
    let trimmed = trim_lem own fc.messages fc.n_messages t.counted t.own in
    let cut = trim fc.messages fc.n_messages in
    let kept = drop_old_lem own now cut.0 cut.1 trimmed.0 trimmed.2 in
    (record { counted = kept.0; few = omega arith; own = kept.2 }, omega arith)

All-snoc :
    (P : Announce → Type 0) (ms : List Announce) (m : Announce)
    → All P ms
    → P m
    → All P (ms ++ (m ∷ []))
All-snoc P [] m h p = (p, tt)
All-snoc P (x ∷ ms) m h p = (h.0, All-snoc P ms m h.1 p)

hear-Tidy :
    (fc : ForeignClock) (m : Announce)
    → Tidy fc
    → fc.n_messages ≤ foreign_master_threshold
    → m.source ≡ fc.sender
    → Tidy (hear fc m)
hear-Tidy fc m t few own = record {
  counted = omega (arith, t.counted, length-append fc.messages (m ∷ []));
  few = omega arith;
  own = All-snoc (λ (x : Announce). x.source ≡ fc.sender) fc.messages m t.own own;
}

hear-pruned-Tidy :
    (now : Timespec) (fc : ForeignClock) (m : Announce)
    → Tidy fc
    → m.source ≡ fc.sender
    → Tidy (hear (fc_prune now fc) m)
hear-pruned-Tidy now fc m t own =
    let pruned = fc_prune-Tidy now fc t in
    hear-Tidy (fc_prune now fc) m pruned.0 pruned.1 (unfold fc_prune in own)

pub sender_kept :
    (now : Timespec)
    → (m : Announce) → (fc : ForeignClock) → (hear (fc_prune now fc) m).sender ≡ fc.sender
unfolding fc_prune
sender_kept now m fc = refl

-- What `f` does to the clock of the sender.
module _ (source : ℕ) (f : ForeignClock → ForeignClock × Bool)
    (tidies : (fc : ForeignClock) → Tidy fc → source ≡ fc.sender → Tidy (f fc).0)
    (keeps : (fc : ForeignClock) → (f fc).0.sender ≡ fc.sender) where
  abbrev Handled : List ForeignClock → Option (List ForeignClock × Bool) → Type 0
  Handled fcs none = All (λ (x : ℕ). source ≢ x) (senders fcs)
  Handled fcs (some answer) = All Tidy answer.0 × (senders answer.0 ≡ senders fcs)

  after_head-Handled :
      (fc : ForeignClock) (fcs : List ForeignClock) (r : Option (List ForeignClock × Bool))
      → Tidy fc
      → source ≢ fc.sender
      → Handled fcs r
      → Handled (fc ∷ fcs) (after_head fc r)
  after_head-Handled fc fcs none t n h = (n, h)
  after_head-Handled fc fcs (some (gs, b)) t n h = ((t, h.0), ap (λ x. fc.sender ∷ x) h.1)

  on_sender-Handled :
      (fcs : List ForeignClock) → All Tidy fcs → Handled fcs (on_sender source f fcs)
  unfolding on_sender
  on_sender-Handled [] h = tt
  on_sender-Handled (fc ∷ fcs) h = elim (Bool-cases (source == fc.sender)) [
    | inl e ↦ rw e ((tidies fc h.0 (ground arith), h.1), ap (λ x. x ∷ senders fcs) (keeps fc))
    | inr e ↦ rw e (after_head-Handled fc fcs _ h.0 (ground arith) (on_sender-Handled fcs h.1))
  ]

  or_new-IsValid :
      (welcome : Bool) (fcs : List ForeignClock)
      → IsValid fcs
      → (r : Option (List ForeignClock × Bool)) → Handled fcs r
      → IsValid (or_new welcome source fcs r).0
  or_new-IsValid welcome fcs v (some answer) h = record {
    tidy = h.0;
    distinct = subst Distinct (sym h.1) v.distinct;
  }
  or_new-IsValid true fcs v none h = record {
    tidy = (record { counted = refl; few = omega arith; own = tt }, v.tidy);
    distinct = (h, v.distinct);
  }
  or_new-IsValid false fcs v none h = v

module _ (welcome : Bool) (now : Timespec) (fcs : List ForeignClock) (m : Announce)
    (v : IsValid fcs) where
  heard-IsValid :
      (f : ForeignClock → ForeignClock × Bool)
      → (ready : Bool) → (same : (fc : ForeignClock) → (f fc).0 ≡ hear (fc_prune now fc) m)
      → IsValid (or_new ready m.source fcs (on_sender m.source f fcs)).0
  heard-IsValid f ready same =
      let tidies = λ (fc : ForeignClock) (t : Tidy fc) (e : m.source ≡ fc.sender).
        subst Tidy (sym (same fc)) (hear-pruned-Tidy now fc m t e) in
      let keeps = λ (fc : ForeignClock).
        ap (λ (x : ForeignClock). x.sender) (same fc) ∙ sender_kept now m fc in
      or_new-IsValid m.source f tidies keeps ready fcs v _
        (on_sender-Handled m.source f tidies keeps fcs v.tidy)

  pub add_foreign_master-IsValid : IsValid (add_foreign_master welcome now fcs m).0
  unfolding add_foreign_master hear_again
  add_foreign_master-IsValid = heard-IsValid (λ fc. hear_again now fc m) welcome (λ fc. refl)

  pub update_current_master-IsValid :
      (best : Option ℕ) → IsValid (update_current_master welcome now best fcs m).0
  unfolding update_current_master hear_best
  update_current_master-IsValid none = add_foreign_master-IsValid
  update_current_master-IsValid (some best) = elim (Bool-cases (m.source == best)) [
    | inl e ↦
        let same : m.source ≡ best = ground arith in
        rw (e, sym same) (heard-IsValid (λ fc. hear_best now fc m) false (λ fc. refl))
    | inr e ↦ rw e add_foreign_master-IsValid
  ]

by_state-IsValid :
    (welcome : Bool) (now : Timespec) (fcs : List ForeignClock) (m : Announce)
    → IsValid fcs
    → (best : Option ℕ) → (state : PortState) → IsValid (by_state state welcome now best fcs m).0
by_state-IsValid welcome now fcs m v best initializing = v
by_state-IsValid welcome now fcs m v best faulty = v
by_state-IsValid welcome now fcs m v best disabled = v
by_state-IsValid welcome now fcs m v best listening = add_foreign_master-IsValid welcome now fcs m v
by_state-IsValid welcome now fcs m v best pre_master =
    add_foreign_master-IsValid welcome now fcs m v
by_state-IsValid welcome now fcs m v best master = add_foreign_master-IsValid welcome now fcs m v
by_state-IsValid welcome now fcs m v best passive =
    update_current_master-IsValid welcome now fcs m v best
by_state-IsValid welcome now fcs m v best uncalibrated =
    update_current_master-IsValid welcome now fcs m v best
by_state-IsValid welcome now fcs m v best slave =
    update_current_master-IsValid welcome now fcs m v best
by_state-IsValid welcome now fcs m v best grand_master =
    add_foreign_master-IsValid welcome now fcs m v

-- Whatever the state of the port, an announce message leaves the clocks of the list distinct, each with the exact count of its messages, at most three, all of them from it.
pub process_announce-IsValid :
    (limits : Limits) (state : PortState) (welcome : Bool) (now : Timespec) (best : Option ℕ)
    (fcs : List ForeignClock) (m : Announce)
    → IsValid fcs
    → IsValid (process_announce limits state welcome now best fcs m).0
unfolding process_announce
process_announce-IsValid limits state welcome now best fcs m v =
    elim (Bool-cases (leb limits.max_steps_removed m.steps_removed)) [
      | inl far ↦ rw far v
      | inr near ↦ rw near (elim (Bool-cases (ltb limits.clock_class_threshold m.clock_class)) [
        | inl poor ↦ rw poor v
        | inr fair ↦ rw fair (by_state-IsValid welcome now fcs m v best state)
      ])
    ]
