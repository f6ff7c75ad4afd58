-- ===== src/Pqueue.antt =====
-- pqueue.c: a priority queue, a binary heap in an array that grows. The array is a function of the
-- index; the code reads and writes entries below `len` only, and `len` is at most `max`. The ints
-- have no overflow here: a queue holds far fewer than 2 ^ 30 entries.
pub mod Count
pub mod Order
pub mod Up
pub mod Down
pub mod Laws
use lyp_lyl.Prelude.{
  ltb, leb, ◌==◌, if◌then◌else◌, ℕ, zero, suc, ◌+◌, ◌-◌, ◌*◌, ◌/◌, Bool, true, false, ◌&&◌, Option,
  none, some,
}
use lyp_lyl.Prelude.Int.{ltb_ℤ, ℤ, pos}
use lyp_lyl.Prelude.Memory.{write}

-- The macros.
abbrev pub parent : ℕ → ℕ
parent x = (1 + x) / 2 - 1

abbrev pub left : ℕ → ℕ
left x = (1 + x) * 2 - 1

abbrev pub right : ℕ → ℕ
right x = (1 + x) * 2

-- struct pqueue, without the function pointer `cmp`, which is an argument.
pub record Pqueue (A : Type 0) : Type 0 where
  pub len : ℕ
  pub max : ℕ
  pub cells : ℕ → A

abbrev pub exchange : {A : Type 0} → (ℕ → A) → ℕ → ℕ → ℕ → A
exchange cells a b = write (write cells a (cells b)) b (cells a)

module _ {A : Type 0} (cmp : A → A → ℤ) where
  abbrev pub pq_greater : (ℕ → A) → ℕ → ℕ → Bool
  pq_greater cells a b = ltb_ℤ (pos 0) (cmp (cells a) (cells b))

  -- The index of the greatest of an entry and its children.
  abbrev pub choose_left : (ℕ → A) → ℕ → ℕ → ℕ
  choose_left cells len index =
      if ltb (left index) len && pq_greater cells (left index) index then left index else index

  abbrev pub choose : (ℕ → A) → ℕ → ℕ → ℕ
  choose cells len index =
      let i_max = choose_left cells len index in
      if ltb (right index) len && pq_greater cells (right index) i_max then right index else i_max

  -- The recursion goes down one level in each round: a fuel above the number of entries from the
  -- index on is enough.
  unfoldable pub heapify : ℕ → (ℕ → A) → ℕ → ℕ → ℕ → A
  heapify zero cells len index = cells
  heapify (suc fuel) cells len index =
      let i_max = choose cells len index in
      let rest = heapify fuel (exchange cells index i_max) len i_max in
      if i_max == index then cells else rest

  -- The answer is `none` for NULL.
  unfoldable pub pqueue_extract : Pqueue A → Pqueue A × Option A
  pqueue_extract q =
      let len' = q.len - 1 in
      let moved = write q.cells 0 (q.cells len') in
      if q.len == 0
      then (q, none)
      else (record q { len = len'; cells = heapify (len' + 1) moved len' 0 }, some (q.cells 0))

  -- The loop of pqueue_insert and the write after it; the index halves in each round.
  unfoldable pub sift_up : ℕ → (ℕ → A) → ℕ → A → ℕ → A
  sift_up zero cells index d = write cells index d
  sift_up (suc fuel) cells index d =
      let rest = sift_up fuel (write cells index (cells (parent index))) (parent index) d in
      if ltb 0 index && ltb_ℤ (cmp (cells (parent index)) d) (pos 0)
      then rest
      else write cells index d

  -- `grows` is the success of realloc. The second part is true for the return value 0.
  unfoldable pub pqueue_insert : Bool → Pqueue A → A → Pqueue A × Bool
  pqueue_insert grows q d =
      let added = λ (max : ℕ). record q {
        len = q.len + 1;
        max = max;
        cells = sift_up q.len q.cells q.len d;
      } in
      if leb q.max q.len
      then if grows then (added (q.max * 2), true) else (q, false)
      else (added q.max, true)

  unfoldable pub pqueue_peek : Pqueue A → Option A
  pqueue_peek q = if q.len == 0 then none else some (q.cells 0)

  unfoldable pub pqueue_length : Pqueue A → ℕ
  pqueue_length q = q.len

  -- A new queue, whose array calloc has filled with null pointers.
  unfoldable pub pqueue_create : ℕ → A → Pqueue A
  pqueue_create max_length null = record { len = 0; max = max_length; cells = λ i. null }
