-- ===== src/Pqueue/Down.antt =====
-- The removal's way down: an entry out of order at the top of a heap sinks until its children
-- stand behind it.
use lyp_lyl.Prelude.{
  ltb, ◌==◌, if◌then◌else◌, Bool-cases, ℕ, zero, suc, ◌+◌, ◌≤◌, ◌<◌, ◌≡◌, refl, ap, subst, ◌∙◌, ◌≢◌,
  ◌⊎◌, inl, inr, Bool, ◌&&◌, arith,
}
use lyp_lyl.Prelude.Int.{ℤ}
use lyp_lyl.Pqueue.{parent, left, right, exchange, pq_greater, choose_left, choose, heapify}
use lyp_lyl.Pqueue.Order.{IsHeap, Ranks}
use lyp_lyl.Prelude.Memory.{write}
use lyp_lyl.Pqueue.Count.{tally, tally-write}

module _ {A : Type 0} (rank : A → ℕ) where
  -- A heap, but the entry at `index` may stand before its children's turn.
  pub record Sinking (cells : ℕ → A) (len index : ℕ) : Type 0 where
    pub edges :
        (c : ℕ) → 0 < c → c < len → parent c ≢ index → rank (cells (parent c)) ≤ rank (cells c)
    pub bridge :
        (c : ℕ)
        → 0 < c
        → c < len
        → parent c ≡ index
        → 0 < index
        → rank (cells (parent index)) ≤ rank (cells c)

  -- What the choice of the greatest entry promises.
  pub record Chosen (cells : ℕ → A) (len index m : ℕ) : Type 0 where
    pub own : rank (cells m) ≤ rank (cells index)
    pub children : (c : ℕ) → 0 < c → c < len → parent c ≡ index → rank (cells m) ≤ rank (cells c)
    pub moves : m ≢ index → index < m
    pub inside : m ≢ index → m < len
    pub child : m ≢ index → parent m ≡ index

  -- One of the two tests: `m` is the candidate or the best so far.
  record Picked (cells : ℕ → A) (len candidate best m : ℕ) : Type 0 where
    best_above : rank (cells m) ≤ rank (cells best)
    candidate_above : candidate < len → rank (cells m) ≤ rank (cells candidate)
    origin : (m ≡ best) ⊎ ((m ≡ candidate) × (candidate < len))

  module _ (cmp : A → A → ℤ) (ranks : Ranks cmp rank) where
    pick-Picked :
        (cells : ℕ → A) (len candidate best : ℕ)
        → Picked cells len candidate best
            (if ltb candidate len && pq_greater cmp cells candidate best then candidate else best)
    pick-Picked cells len candidate best =
        elim (Bool-cases (ltb candidate len && pq_greater cmp cells candidate best)) [
          | inl e ↦ rw e (record {
            best_above = ground (arith, ranks.positive (cells candidate) (cells best));
            candidate_above = λ l. omega arith;
            origin = inr (refl, ground arith);
          })
          | inr e ↦ rw e (record {
            best_above = omega arith;
            candidate_above = λ l. ground (arith, ranks.positive (cells candidate) (cells best));
            origin = inl refl;
          })
        ]

    choose-Chosen :
        (cells : ℕ → A) (len index : ℕ) → Chosen cells len index (choose cmp cells len index)
    choose-Chosen cells len index =
        let first = pick-Picked cells len (left index) index in
        let second = pick-Picked cells len (right index) (choose_left cmp cells len index) in
        record {
          own = omega (arith, first.best_above, second.best_above);
          children = λ c p q e. ground (
            arith, first.best_above, second.best_above, first.candidate_above,
            second.candidate_above,
          );
          moves = λ n. ground (arith, first.origin, second.origin);
          inside = λ n. ground (arith, first.origin, second.origin);
          child = λ n. ground (arith, first.origin, second.origin);
        }

  stop-IsHeap :
      (cells : ℕ → A) (len index : ℕ)
      → Sinking cells len index
      → Chosen cells len index index
      → IsHeap rank cells len
  stop-IsHeap cells len index s m c p q = ground (arith, s.edges c p q, m.children c p q)

  sink-Sinking :
      (cells : ℕ → A) (len index m : ℕ)
      → Sinking cells len index
      → Chosen cells len index m
      → m ≢ index
      → Sinking (exchange cells index m) len m
  sink-Sinking cells len index m s g n = record {
    edges = λ c a b e. ground (
      arith,
      g.moves n,
      g.inside n,
      g.child n,
      g.own,
      g.children c a b,
      s.edges c a b,
      s.bridge m,
    );
    bridge = λ c a b e u.
        let down : index < m = g.moves n in
        let p : parent c ≢ index = ground arith in
        ground (arith, g.moves n, g.child n, s.edges c a b p, ap cells e);
  }

  module _ (cmp : A → A → ℤ) (ranks : Ranks cmp rank) where
    pub heapify-IsHeap :
        (fuel : ℕ) (cells : ℕ → A) (len index : ℕ)
        → len < fuel + index
        → Sinking cells len index
        → IsHeap rank (heapify cmp fuel cells len index) len
    unfolding heapify
    heapify-IsHeap zero cells len index f s = λ c p q. s.edges c p q (ground arith)
    heapify-IsHeap (suc fuel) cells len index f s =
        let m = choose cmp cells len index in
        let chosen = choose-Chosen cmp ranks cells len index in
        elim (Bool-cases (m == index)) [
          | inl e ↦
              let same : m ≡ index = ground arith in
              rw e (stop-IsHeap cells len index s (subst (Chosen cells len index) same chosen))
          | inr e ↦
              let n : m ≢ index = ground arith in
              let down : index < m = chosen.moves n in
              rw e (
                heapify-IsHeap fuel (exchange cells index m) len m (omega arith)
                  (sink-Sinking cells len index m s chosen n))
        ]

    tally-exchange :
        (p : A → Bool) (cells : ℕ → A) (len a b : ℕ)
        → a < len
        → b < len
        → a ≢ b
        → tally p (exchange cells a b) len ≡ tally p cells len
    tally-exchange p cells len a b l l' n =
        let once = tally-write p cells len a (cells b) l in
        let twice = tally-write p (write cells a (cells b)) len b (cells a) l' in
        let kept : write cells a (cells b) b ≡ cells b = ground arith in
        omega (arith, once, rw kept at twice)

    pub tally-heapify :
        (p : A → Bool) (fuel : ℕ) (cells : ℕ → A) (len index : ℕ)
        → tally p (heapify cmp fuel cells len index) len ≡ tally p cells len
    unfolding heapify
    tally-heapify p zero cells len index = refl
    tally-heapify p (suc fuel) cells len index =
        let m = choose cmp cells len index in
        let chosen = choose-Chosen cmp ranks cells len index in
        elim (Bool-cases (m == index)) [
          | inl e ↦ rw e refl
          | inr e ↦
              let n : m ≢ index = ground arith in
              let down : index < m = chosen.moves n in
              let inside : m < len = chosen.inside n in
              rw e (
                tally-heapify p fuel (exchange cells index m) len m
                ∙ tally-exchange p cells len index m (omega arith) inside (ground arith))
        ]
