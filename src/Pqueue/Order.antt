-- ===== src/Pqueue/Order.antt =====
-- The order of a queue: the comparison reads a number off each entry, and the entry with the least
-- number is the first to leave.
use lyp_lyl.Prelude.{ltb, ◌==◌, Bool-cases, ℕ, zero, suc, ◌≤◌, ◌<◌, ◌≡◌, inl, inr, arith}
use lyp_lyl.Prelude.Int.{ltb_ℤ, ℤ, pos}
use lyp_lyl.Pqueue.{parent}

-- cmp a b is positive exactly when a's number is below b's, and negative when it is above.
pub record Ranks {A : Type 0} (cmp : A → A → ℤ) (rank : A → ℕ) : Type 0 where
  pub positive : (a b : A) → ltb_ℤ (pos 0) (cmp a b) ≡ ltb (rank a) (rank b)
  pub negative : (a b : A) → ltb_ℤ (cmp a b) (pos 0) ≡ ltb (rank b) (rank a)

module _ {A : Type 0} (rank : A → ℕ) where
  -- Every entry stands behind its parent.
  abbrev pub IsHeap : (ℕ → A) → ℕ → Type 0
  IsHeap cells len = (c : ℕ) → 0 < c → c < len → rank (cells (parent c)) ≤ rank (cells c)

  root_below :
      (bound : ℕ) (cells : ℕ → A) (len i : ℕ)
      → IsHeap cells len
      → i < bound
      → i < len
      → rank (cells 0) ≤ rank (cells i)
  root_below zero cells len i h b l = absurd (omega arith)
  root_below (suc bound) cells len i h b l = elim (Bool-cases (i == 0)) [
    | inl e ↦ let z : i ≡ 0 = ground arith in rw z (omega arith)
    | inr e ↦
        let pos : 0 < i = ground arith in
        omega
          (arith, h i pos l, root_below bound cells len (parent i) h (omega arith) (omega arith))
  ]

  -- The root of a heap has the least number.
  pub root_least :
      (cells : ℕ → A) (len i : ℕ) → IsHeap cells len → i < len → rank (cells 0) ≤ rank (cells i)
  root_least cells len i h l = root_below (suc i) cells len i h (omega arith) l
