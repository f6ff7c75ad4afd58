-- ===== src/Pqueue/Up.antt =====
-- The insertion: the loop moves entries down into a hole until the new one fits.
use lyp_lyl.Prelude.{
  ltb, Bool-cases, ℕ, zero, suc, ◌+◌, ◌≤◌, ◌<◌, ◌≡◌, ◌≢◌, inl, inr, Bool, ◌&&◌, arith,
}
use lyp_lyl.Prelude.Int.{ltb_ℤ, ℤ, pos}
use lyp_lyl.Prelude.Memory.{write}
use lyp_lyl.Pqueue.{parent, sift_up}
use lyp_lyl.Pqueue.Count.{indicator, tally, tally-write}
use lyp_lyl.Pqueue.Order.{IsHeap, Ranks}

module _ {A : Type 0} (rank : A → ℕ) where
  -- A heap but for the hole at `index`, whose children stand behind the new entry and behind the
  -- parent of the hole.
  pub record Hole (cells : ℕ → A) (len index : ℕ) (d : A) : Type 0 where
    pub edges :
        (c : ℕ)
        → 0 < c
        → c < len
        → c ≢ index
        → parent c ≢ index
        → rank (cells (parent c)) ≤ rank (cells c)
    pub children : (c : ℕ) → 0 < c → c < len → parent c ≡ index → rank d ≤ rank (cells c)
    pub bridge :
        (c : ℕ)
        → 0 < c
        → c < len
        → parent c ≡ index
        → 0 < index
        → rank (cells (parent index)) ≤ rank (cells c)

  fill-IsHeap :
      (cells : ℕ → A) (len index : ℕ) (d : A)
      → Hole cells len index d
      → (0 < index → rank (cells (parent index)) ≤ rank d)
      → IsHeap rank (write cells index d) len
  fill-IsHeap cells len index d h fits c p q = ground (arith, h.edges c p q, h.children c p q, fits)

  move-Hole :
      (cells : ℕ → A) (len index : ℕ) (d : A)
      → Hole cells len index d
      → 0 < index
      → index < len
      → rank d < rank (cells (parent index))
      → Hole (write cells index (cells (parent index))) len (parent index) d
  move-Hole cells len index d h p l less = record {
    edges = λ c a b n m. ground (arith, h.edges c a b, h.bridge c a b);
    children = λ c a b e. ground (arith, h.edges c a b);
    bridge = λ c a b e u. ground (arith, h.edges c a b, h.edges (parent index) u);
  }

  module _ (cmp : A → A → ℤ) (ranks : Ranks cmp rank) where
    pub sift_up-IsHeap :
        (fuel : ℕ) (cells : ℕ → A) (len index : ℕ) (d : A)
        → index ≤ fuel
        → index < len
        → Hole cells len index d
        → IsHeap rank (sift_up cmp fuel cells index d) len
    unfolding sift_up
    sift_up-IsHeap zero cells len index d f l h =
        fill-IsHeap cells len index d h (λ p. absurd (omega arith))
    sift_up-IsHeap (suc fuel) cells len index d f l h =
        elim (Bool-cases (ltb 0 index && ltb_ℤ (cmp (cells (parent index)) d) (pos 0))) [
          | inl e ↦
              let p : 0 < index = ground arith in
              let less : rank d < rank (cells (parent index)) =
                ground (arith, ranks.negative (cells (parent index)) d) in
              rw e (
                sift_up-IsHeap fuel (write cells index (cells (parent index))) len (parent index) d
                  (omega arith) (omega arith) (move-Hole cells len index d h p l less))
          | inr e ↦ rw e (
              fill-IsHeap cells len index d h
                (λ p. ground (arith, ranks.negative (cells (parent index)) d)))
        ]

  -- The hole's entry leaves the array and the new one enters it.
  pub tally-sift_up :
      (cmp : A → A → ℤ) (p : A → Bool) (fuel : ℕ) (cells : ℕ → A) (len index : ℕ) (d : A)
      → index < len
      → tally p (sift_up cmp fuel cells index d) len + indicator (p (cells index))
        ≡ tally p cells len + indicator (p d)
  unfolding sift_up
  tally-sift_up cmp p zero cells len index d l = tally-write p cells len index d l
  tally-sift_up cmp p (suc fuel) cells len index d l =
      elim (Bool-cases (ltb 0 index && ltb_ℤ (cmp (cells (parent index)) d) (pos 0))) [
        | inl e ↦
            let up = write cells index (cells (parent index)) in
            let kept : up (parent index) ≡ cells (parent index) = ground arith in
            let ih = tally-sift_up cmp p fuel up len (parent index) d (omega arith) in
            rw e
              (omega (arith, rw kept at ih, tally-write p cells len index (cells (parent index)) l))
        | inr e ↦ rw e (tally-write p cells len index d l)
      ]
