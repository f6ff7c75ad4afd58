-- ===== src/Pqueue/Laws.antt =====
-- What the queue promises: an insertion adds one entry, a removal takes the one with the least
-- number, and the array stays a heap.
use lyp_lyl.Pqueue.Down.{heapify-IsHeap, tally-heapify, Sinking}
use lyp_lyl.Prelude.Memory.{write}
use lyp_lyl.Prelude.{
  ltb, leb, ◌==◌, Bool-cases, ℕ, zero, suc, ◌+◌, ◌-◌, ◌*◌, ◌≤◌, ◌<◌, ◌≡◌, refl, sym, ap, subst, ◌∙◌,
  ◌⊎◌, inl, inr, Bool, true, false, some, arith,
}
use lyp_lyl.Prelude.Int.{ℤ}
use lyp_lyl.Pqueue.{pqueue_extract, sift_up, pqueue_insert, pqueue_peek, pqueue_create, Pqueue}
use lyp_lyl.Pqueue.Count.{indicator, tally, tally-end, tally-write, tally-none, none-tally}
use lyp_lyl.Pqueue.Order.{IsHeap, root_least, Ranks}
use lyp_lyl.Pqueue.Up.{sift_up-IsHeap, tally-sift_up, Hole}

module _ {A : Type 0} (rank : A → ℕ) where
  pub record IsValid (q : Pqueue A) : Type 0 where
    pub heap : IsHeap rank q.cells q.len
    pub fits : q.len ≤ q.max
    pub room : 0 < q.max

  -- `q'` holds the entries of `q` and `d`.
  pub record Adds (q : Pqueue A) (d : A) (q' : Pqueue A) : Type 0 where
    pub valid : IsValid q'
    pub longer : q'.len ≡ q.len + 1
    pub entries : (p : A → Bool) → tally p q'.cells q'.len ≡ tally p q.cells q.len + indicator (p d)

module _ {A : Type 0} (rank : A → ℕ) (cmp : A → A → ℤ) (ranks : Ranks cmp rank) where
  end-Hole :
      (cells : ℕ → A) (len : ℕ) (d : A) → IsHeap rank cells len → Hole rank cells (len + 1) len d
  end-Hole cells len d h = record {
    edges = λ c a b n m. h c a (ground arith);
    children = λ c a b e. absurd (omega arith);
    bridge = λ c a b e u. absurd (omega arith);
  }

  added-Adds :
      (q : Pqueue A) (d : A) (max : ℕ)
      → IsValid rank q
      → q.len < max
      → Adds rank q d
          (record q { len = q.len + 1; max = max; cells = sift_up cmp q.len q.cells q.len d })
  added-Adds q d max v l = record {
    valid = record {
      heap =
          sift_up-IsHeap rank cmp ranks q.len q.cells (q.len + 1) q.len d (omega arith)
            (omega arith) (end-Hole q.cells q.len d v.heap);
      fits = omega arith;
      room = omega arith;
    };
    longer = refl;
    entries = λ p.
        let swapped = tally-sift_up rank cmp p q.len q.cells (q.len + 1) q.len d (omega arith) in
        omega (arith, swapped, tally-end p q.cells q.len);
  }

  -- An insertion into a valid queue either returns 0 and adds exactly the new entry, and the queue
  -- is valid again, or fails, which happens only when the queue is full and realloc fails, and
  -- leaves the queue as it was.
  pub pqueue_insert-Adds :
      (grows : Bool) (q : Pqueue A) (d : A)
      → IsValid rank q
      → ((pqueue_insert cmp grows q d).1 ≡ true × Adds rank q d ((pqueue_insert cmp grows q d).0))
        ⊎ (pqueue_insert cmp grows q d ≡ (q, false) × (grows ≡ false × q.len ≡ q.max))
  unfolding pqueue_insert
  pqueue_insert-Adds grows q d v = elim (Bool-cases (leb q.max q.len)) [
    | inl e ↦
        let full : q.len ≡ q.max = ground (arith, v.fits) in
        elim (Bool-cases grows) [
          | inl g ↦
              rw e (rw g (inl (refl, added-Adds q d (q.max * 2) v (omega (arith, full, v.room)))))
          | inr g ↦ rw e (rw g (inr (refl, (refl, full))))
        ]
    | inr e ↦ rw e (inl (refl, added-Adds q d q.max v (ground arith)))
  ]

  pub pqueue_insert-IsValid :
      (grows : Bool) (q : Pqueue A) (d : A)
      → IsValid rank q
      → IsValid rank ((pqueue_insert cmp grows q d).0)
  pqueue_insert-IsValid grows q d v = elim (pqueue_insert-Adds grows q d v) [
    | inl h ↦ h.1.valid
    | inr h ↦ subst (λ r. IsValid rank r.0) (sym h.0) v
  ]

  moved-Sinking :
      (q : Pqueue A)
      → IsValid rank q
      → 0 < q.len
      → Sinking rank (write q.cells 0 (q.cells (q.len - 1))) (q.len - 1) 0
  moved-Sinking q v l = record {
    edges = λ c a b n. ground (arith, v.heap c a);
    bridge = λ c a b e u. absurd (omega arith);
  }

  tally-moved :
      (p : A → Bool) (cells : ℕ → A) (n : ℕ)
      → tally p (write cells 0 (cells n)) n + indicator (p (cells 0)) ≡ tally p cells (n + 1)
  unfolding tally
  tally-moved p cells zero = sym (tally-end p cells 0)
  tally-moved p cells (suc n) =
      tally-write p cells (suc n) 0 (cells (suc n)) (omega arith) ∙ sym (tally-end p cells (suc n))

  -- `q'` holds the entries of `q` but for `d`.
  pub record Removes (q : Pqueue A) (d : A) (q' : Pqueue A) : Type 0 where
    pub valid : IsValid rank q'
    pub shorter : q'.len + 1 ≡ q.len
    pub entries : (p : A → Bool) → tally p q'.cells q'.len + indicator (p d) ≡ tally p q.cells q.len

  -- A removal from a valid queue that is not empty answers the entry that pqueue_peek shows, which
  -- has the least number of all, and takes exactly that entry out of the queue, which is valid
  -- again.
  pub pqueue_extract-Removes :
      (q : Pqueue A)
      → IsValid rank q
      → 0 < q.len
      → ((pqueue_extract cmp q).1 ≡ pqueue_peek cmp q)
        × ((pqueue_peek cmp q ≡ some (q.cells 0))
            × (((i : ℕ) → i < q.len → rank (q.cells 0) ≤ rank (q.cells i))
                × Removes q (q.cells 0) ((pqueue_extract cmp q).0)))
  unfolding pqueue_extract pqueue_peek
  pqueue_extract-Removes q v l =
      let n = q.len - 1 in
      let some_left : (q.len == 0) ≡ false = ground arith in
      let size : q.len ≡ n + 1 = omega arith in
      rw some_left (
        refl,
        (
          refl,
          (
            λ i h. root_least rank q.cells q.len i v.heap h,
            record {
              valid = record {
                heap =
                    heapify-IsHeap rank cmp ranks (n + 1) (write q.cells 0 (q.cells n)) n 0
                      (omega arith) (moved-Sinking q v l);
                fits = omega (arith, v.fits);
                room = v.room;
              };
              shorter = omega arith;
              entries = λ p.
                  let kept =
                    tally-heapify rank cmp ranks p (n + 1) (write q.cells 0 (q.cells n)) n 0 in
                  let traded = tally-moved p q.cells n in
                  let all : tally p q.cells q.len ≡ tally p q.cells (n + 1) =
                    ap (tally p q.cells) size in
                  omega (arith, kept, traded, all);
            },
          ),
        ),
      )

  -- Two removals in a row from a valid queue answer two entries, the second with no lesser number
  -- than the first.
  pub pqueue_extract-in_order :
      (q : Pqueue A)
      → IsValid rank q
      → 1 < q.len
      → (a : A) × ((b : A) × (((pqueue_extract cmp q).1 ≡ some a)
            × (((pqueue_extract cmp ((pqueue_extract cmp q).0)).1 ≡ some b) × (rank a ≤ rank b))))
  pqueue_extract-in_order q v l =
      let first = pqueue_extract-Removes q v (omega arith) in
      let rest = (pqueue_extract cmp q).0 in
      let gone : Removes q (q.cells 0) rest = first.1.1.1 in
      let second = pqueue_extract-Removes rest gone.valid (omega (arith, gone.shorter)) in
      let before = λ (d : A). ltb (rank d) (rank (q.cells 0)) in
      let nobody : tally before q.cells q.len ≡ 0 =
        tally-none before q.cells q.len (λ i h. ground (arith, first.1.1.0 i h)) in
      let still : tally before rest.cells rest.len ≡ 0 =
        omega (arith, gone.entries before, nobody) in
      let later = none-tally before rest.cells rest.len 0 still (omega (arith, gone.shorter)) in
      (
        q.cells 0,
        (rest.cells 0, (first.0 ∙ first.1.0, (second.0 ∙ second.1.0, ground (arith, later)))),
      )

-- A new queue with room for at least one entry is valid.
pub pqueue_create-IsValid :
    {A : Type 0} (rank : A → ℕ) (cmp : A → A → ℤ) (max : ℕ) (null : A)
    → 0 < max
    → IsValid rank (pqueue_create cmp max null)
unfolding pqueue_create
pqueue_create-IsValid rank cmp max null h = record {
  heap = λ c p q. absurd (omega arith);
  fits = omega arith;
  room = h;
}
