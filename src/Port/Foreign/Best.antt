-- ===== src/Port/Foreign/Best.antt =====
-- The choice of the best foreign master.
-- The data set comparison is a strict order: that some pairs are level is allowed.
use lyp_lyl.Prelude.{
  ltb, if◌then◌else◌, Bool-cases, length, All, ℕ, ◌+◌, ◌-◌, ◌≡◌, refl, sym, ap, subst, ◌∙◌, ◌⊎◌,
  inl, inr, Bool, true, false, Option, none, some, List, [], ◌∷◌, arith,
}
use lyp_lyl.Prelude.Int.{ltb_ℤ, ℤ, pos}
use lyp_lyl.Tmv.{Timespec}
use lyp_lyl.Port.Foreign.{
  foreign_master_threshold, announce_to_dataset, host_ns, announce_timeout, msg_current, trim,
  drop_old, fc_prune, newest, appraise, better, compete, consider, best_loop, port_compute_best,
  Announce, ClockDataset, ForeignClock,
}
use mathlib.Core.List.{Memᴰ}
use mathlib.Core.List.Memᴰ.{head, tail}

pub record IsStrict (dscmp : ClockDataset → ClockDataset → ℤ) : Type 0 where
  pub irreflexive : (d : ClockDataset) → ltb_ℤ (pos 0) (dscmp d d) ≡ false
  pub transitive :
      (d e f : ClockDataset)
      → ltb_ℤ (pos 0) (dscmp d e) ≡ true
      → ltb_ℤ (pos 0) (dscmp e f) ≡ true
      → ltb_ℤ (pos 0) (dscmp d f) ≡ true

module _ (dscmp : ClockDataset → ClockDataset → ℤ) (local_priority port_identity : ℕ)
    (now : Timespec) where
  -- The message came less than four of its intervals ago.
  abbrev young : Announce → Bool
  young m = ltb (host_ns now) (host_ns m.host + announce_timeout m.log_message_interval)

  -- A clock with the two messages that are its last, by the second of which it is described.
  abbrev with_last : ForeignClock → Announce → Announce → ForeignClock
  with_last fc m last = record {
    sender = fc.sender;
    messages = m ∷ last ∷ [];
    n_messages = 2;
    dataset = some (record {
      priority1 = last.priority1;
      identity = last.grandmaster;
      clock_class = last.clock_class;
      clock_accuracy = last.clock_accuracy;
      variance = last.variance;
      priority2 = last.priority2;
      local_priority = local_priority;
      steps_removed = last.steps_removed;
      sender = last.source;
      receiver = port_identity;
    });
  }

  -- The clock of these messages, where there are two and the second last is young.
  unfoldable pub contender : ForeignClock → List Announce → Option ForeignClock
  contender fc [] = none
  contender fc (m ∷ []) = none
  contender fc (m ∷ last ∷ []) = if young m then some (with_last fc m last) else none
  contender fc (m ∷ m' ∷ last ∷ ms) = contender fc (m' ∷ last ∷ ms)

  abbrev with_contender : Option ForeignClock → List ForeignClock → List ForeignClock
  with_contender none cs = cs
  with_contender (some c) cs = c ∷ cs

  -- The clocks that may be the best.
  unfoldable pub contenders : List ForeignClock → List ForeignClock
  contenders [] = []
  contenders (fc ∷ fcs) = with_contender (contender fc fc.messages) (contenders fcs)

  -- The comparison puts the first clock before the second.
  abbrev outranks : Option ClockDataset → Option ClockDataset → Bool
  outranks (some d) (some e) = ltb_ℤ (pos 0) (dscmp d e)
  outranks d e = false

  abbrev beats : ForeignClock → ForeignClock → Bool
  beats a b = outranks a.dataset b.dataset

  better-outranks :
      (d e : Option ClockDataset) → better dscmp local_priority port_identity now d e ≡ outranks d e
  better-outranks none none = refl
  better-outranks none (some e) = refl
  better-outranks (some d) none = refl
  better-outranks (some d) (some e) = refl

  -- The clock with these messages, and their number.
  abbrev counted : ForeignClock → List Announce → ForeignClock
  counted fc ms = record fc { messages = ms; n_messages = length ms }

  -- The clock after its newest message was read, if it is still in the choice.
  abbrev appraised : ForeignClock → List Announce → Option Announce → Option ForeignClock
  appraised fc ms none = none
  appraised fc ms (some m) =
      let fc' = appraise dscmp local_priority port_identity now (counted fc ms) m in
      if ltb fc'.n_messages foreign_master_threshold then none else some fc'

  trim-over :
      (m : Announce) (ms : List Announce) (n : ℕ)
      → ltb 2 n ≡ true
      → trim (m ∷ ms) n ≡ trim ms (n - 1)
  unfolding trim
  trim-over m ms n h = rw h refl

  trim-third :
      (m m' m'' : Announce) (ms : List Announce)
      → trim (m ∷ m' ∷ m'' ∷ ms) (length (m ∷ m' ∷ m'' ∷ ms))
        ≡ trim (m' ∷ m'' ∷ ms) (length (m' ∷ m'' ∷ ms))
  trim-third m m' m'' ms =
      let many : ltb 2 (length (m ∷ m' ∷ m'' ∷ ms)) ≡ true = ground arith in
      let fewer : length (m ∷ m' ∷ m'' ∷ ms) - 1 ≡ length (m' ∷ m'' ∷ ms) = omega arith in
      trim-over m (m' ∷ m'' ∷ ms) (length (m ∷ m' ∷ m'' ∷ ms)) many
      ∙ ap (trim (m' ∷ m'' ∷ ms)) fewer

  appraised-third :
      (fc : ForeignClock) (m m' m'' : Announce) (ms : List Announce) (o : Option Announce)
      → appraised fc (m ∷ m' ∷ m'' ∷ ms) o ≡ appraised fc (m' ∷ m'' ∷ ms) o
  unfolding fc_prune
  appraised-third fc m m' m'' ms none = refl
  appraised-third fc m m' m'' ms (some x) = rw (trim-third m m' m'' ms) refl

  appraised-two :
      (fc : ForeignClock) (m last : Announce)
      → appraised fc (m ∷ last ∷ []) (some last) ≡ contender fc (m ∷ last ∷ [])
  unfolding contender fc_prune trim drop_old msg_current announce_to_dataset
  appraised-two fc m last = elim (Bool-cases (young m)) [
    | inl e ↦ rw e refl
    | inr e ↦ elim (Bool-cases (young last)) [ inl e' ↦ rw (e, e') refl | inr e' ↦ rw (e, e') refl ]
  ]

  appraised-one : (fc : ForeignClock) (m : Announce) → appraised fc (m ∷ []) (some m) ≡ none
  unfolding fc_prune trim drop_old
  appraised-one fc m = elim (Bool-cases (msg_current m now)) [
    | inl e ↦ rw e refl
    | inr e ↦ rw e refl
  ]

  appraised-contender :
      (fc : ForeignClock) (ms : List Announce) → appraised fc ms (newest ms) ≡ contender fc ms
  unfolding contender newest
  appraised-contender fc [] = refl
  appraised-contender fc (m ∷ []) = appraised-one fc m
  appraised-contender fc (m ∷ last ∷ []) = appraised-two fc m last
  appraised-contender fc (m ∷ m' ∷ last ∷ ms) =
      appraised-third fc m m' last ms (newest (last ∷ ms)) ∙ appraised-contender fc (m' ∷ last ∷ ms)

  -- What is chosen among the clocks `cs`: none beats it.
  abbrev pub IsBest : List ForeignClock → Option ForeignClock → Type 0
  IsBest cs none = cs ≡ []
  IsBest cs (some x) = Memᴰ x cs × All (λ (c : ForeignClock). beats c x ≡ false) cs

  -- What the loop makes of the best clock so far and the clocks that it has still to look at.
  abbrev Follows : Option ForeignClock → List ForeignClock → Option ForeignClock → Type 0
  Follows none cs r = IsBest cs r
  Follows (some y) cs none = ⊥
  Follows (some y) cs (some x) =
      Memᴰ x (y ∷ cs)
      × ((x ≡ y) ⊎ (beats x y ≡ true))
      × All (λ (c : ForeignClock). beats c x ≡ false) cs

  module _ (strict : IsStrict dscmp) where
    irreflexive : (o : Option ClockDataset) → outranks o o ≡ false
    irreflexive none = refl
    irreflexive (some d) = strict.irreflexive d

    transitive :
        (o o' o'' : Option ClockDataset)
        → outranks o o' ≡ true
        → outranks o' o'' ≡ true
        → outranks o o'' ≡ true
    transitive none none _ h k = absurd (cc h)
    transitive none (some e) _ h k = absurd (cc h)
    transitive (some d) none _ h k = absurd (cc h)
    transitive (some d) (some e) none h k = absurd (cc k)
    transitive (some d) (some e) (some f) h k = strict.transitive d e f h k

    -- A clock that does not beat the one before does not beat the one that took its place.
    still_behind :
        (c y x : ForeignClock)
        → beats c y ≡ false
        → (x ≡ y) ⊎ (beats x y ≡ true)
        → beats c x ≡ false
    still_behind c y x h (inl e) = rw e h
    still_behind c y x h (inr k) = elim (Bool-cases (beats c x)) [
      | inl b ↦
          let no : true ≡ false = rw (sym (transitive c.dataset x.dataset y.dataset b k)) h in cc no
      | inr n ↦ n
    ]

    through :
        (x y z : ForeignClock) → (x ≡ y) ⊎ (beats x y ≡ true) → beats y z ≡ true → beats x z ≡ true
    through x y z (inl e) k = rw e k
    through x y z (inr h) k = transitive x.dataset y.dataset z.dataset h k

    after_first :
        {x y c : ForeignClock} {cs : List ForeignClock} → Memᴰ x (y ∷ cs) → Memᴰ x (y ∷ c ∷ cs)
    after_first (head e) = head e
    after_first (tail m) = tail (tail m)

    won :
        (c : ForeignClock) (best : Option ForeignClock) (cs : List ForeignClock)
        (r : Option ForeignClock)
        → Follows (compete dscmp local_priority port_identity now c best).1 cs r
        → Follows best (c ∷ cs) r
    won c none cs none h = absurd h
    won c none cs (some x) h = (h.0, (still_behind c c x (irreflexive c.dataset) h.1, h.2))
    won c (some y) cs r h =
        let same = better-outranks c.dataset y.dataset in
        elim (Bool-cases (better dscmp local_priority port_identity now c.dataset y.dataset)) [
          | inl e ↦ won_over c y cs r (sym same ∙ e) (rw e at h)
          | inr e ↦ lost_to c y cs r (sym same ∙ e) (rw e at h)
        ]
      where
        won_over :
            (c y : ForeignClock) (cs : List ForeignClock) (r : Option ForeignClock)
            → beats c y ≡ true
            → Follows (some c) cs r
            → Follows (some y) (c ∷ cs) r
        won_over c y cs none e h = absurd h
        won_over c y cs (some x) e h = (
          tail h.0,
          inr (through x c y h.1 e),
          (still_behind c c x (irreflexive c.dataset) h.1, h.2),
        )

        lost_to :
            (c y : ForeignClock) (cs : List ForeignClock) (r : Option ForeignClock)
            → beats c y ≡ false
            → Follows (some y) cs r
            → Follows (some y) (c ∷ cs) r
        lost_to c y cs none e h = absurd h
        lost_to c y cs (some x) e h = (after_first h.0, h.1, (still_behind c y x e h.1, h.2))

    considered :
        (fc : ForeignClock) (ms : List Announce) (o : Option Announce) (best : Option ForeignClock)
        (cs : List ForeignClock) (r : Option ForeignClock)
        → Follows (consider dscmp local_priority port_identity now (counted fc ms) o best).1 cs r
        → Follows best (with_contender (appraised fc ms o) cs) r
    considered fc ms none best cs r h = h
    considered fc ms (some m) best cs r h =
        let fc' = appraise dscmp local_priority port_identity now (counted fc ms) m in
        elim (Bool-cases (ltb fc'.n_messages foreign_master_threshold)) [
          | inl e ↦ rw e (rw e at h)
          | inr e ↦ rw e (won fc' best cs r (rw e at h))
        ]

    loop_lem :
        (fcs : List ForeignClock) (best : Option ForeignClock)
        → All (λ (fc : ForeignClock). fc.n_messages ≡ length fc.messages) fcs
        → Follows best
            (contenders fcs)
            (best_loop dscmp local_priority port_identity now fcs best).1
    unfolding best_loop contenders
    loop_lem [] none h = refl
    loop_lem [] (some y) h = (head refl, inl refl, tt)
    loop_lem (fc ∷ fcs) best h =
        let looked = λ (g : ForeignClock).
          consider dscmp local_priority port_identity now g (newest fc.messages) best in
        let rest = λ (g : ForeignClock).
          (best_loop dscmp local_priority port_identity now fcs (looked g).1).1 in
        let same : counted fc fc.messages ≡ fc =
          ap (λ (n : ℕ). record fc { n_messages = n }) (sym h.0) in
        subst (λ g. Follows best (contenders (fc ∷ fcs)) (rest g)) same
          (subst
            (λ o. Follows best (with_contender o (contenders fcs)) (rest (counted fc fc.messages)))
            (appraised-contender fc fc.messages)
            (considered fc fc.messages (newest fc.messages) best (contenders fcs) _
              (loop_lem fcs (looked (counted fc fc.messages)).1 h.1)))

    -- Where the comparison is a strict order, the count of each clock's messages is right and the port is not only a master, the clocks that may be chosen are those with two messages or more of which the second last came less than four of its intervals ago, each with its last two messages and the data set of the last one. The chosen clock is one of them, and the comparison puts none of them before it; none is chosen where there is none.
    pub port_compute_best-IsBest :
        (fcs : List ForeignClock)
        → All (λ (fc : ForeignClock). fc.n_messages ≡ length fc.messages) fcs
        → IsBest
            (contenders fcs)
            (port_compute_best dscmp local_priority port_identity now false fcs).1
    unfolding port_compute_best
    port_compute_best-IsBest fcs h = loop_lem fcs none h
