-- ===== src/Filter/Mmedian/Window.antt =====
-- A sample keeps the order of the moving median filter.
-- The next index, modulo the length of the arrays.

use lyp_lyl.Prelude.{
  ltb, ◌==◌, Bool-cases, length, take, drop, All, ℕ, suc, ◌+◌, ◌/◌, ◌%◌, ◌^◌, ◌≤◌, ◌<◌, ◌≡◌, ◌∙◌,
  ◌≢◌, inl, inr, true, List, arith,
}
use lyp_lyl.Prelude.Int.{◌≤ℤ◌}
use lyp_lyl.Prelude.Memory.{write}
use lyp_lyl.Tmv.{Tmv, value}
use lyp_lyl.Filter.Mmedian.{remove_index, insert_index, mmedian_sample, Mmedian}
use lyp_lyl.Filter.Mmedian.Sorted.{
  Pairwise, Before, All-imp, length-remove_index, All-remove_index, Pairwise-remove_index, absent,
  Pairwise-write, insert_index-Inserted, All-insert_index, IsValid,
}
use native.Mathlib.Nat.{mod-eq_of_lt}

next_index : (i n : ℕ) → i < n → (1 + i) % n < n
next_index i n h = ground arith

next_unwrapped : (i n : ℕ) → 1 + i < n → (1 + i) % n ≡ i + 1
next_unwrapped i n h = mod-eq_of_lt h ∙ omega arith

module _ (m : Mmedian) (sample : Tmv) (v : IsValid m) (small : sample < 2 ^ 64) where
  abbrev new_samples : ℕ → Tmv
  new_samples = write m.samples m.index sample

  new_fits : (i : ℕ) → new_samples i < 2 ^ 64
  new_fits i = elim (Bool-cases (m.index == i)) [ inl e ↦ rw e small | inr e ↦ rw e (v.fits i) ]

  -- The new index goes into a list in order that it is not in.
  inserted-IsValid :
      (others : List ℕ) (cnt : ℕ)
      → cnt ≡ length others + 1
      → cnt ≤ m.len
      → m.index < cnt
      → (cnt < m.len → m.index + 1 ≡ cnt)
      → All (λ (x : ℕ). x < cnt) others
      → All (λ (x : ℕ). x ≢ m.index) others
      → Pairwise (Before m.samples) others
      → IsValid (record {
        cnt = cnt;
        len = m.len;
        index = (1 + m.index) % m.len;
        order = insert_index new_samples m.index others;
        samples = new_samples;
      })
  inserted-IsValid others cnt c room i next used absent h =
      let kept = Pairwise-write m.samples m.index sample others absent h in
      let done = insert_index-Inserted new_samples m.index new_fits others absent kept in
      record {
        counted = omega (arith, done.0);
        room = room;
        inside = next_index m.index m.len v.inside;
        next = λ more. next_unwrapped m.index m.len (omega (arith, next more)) ∙ next more;
        used = All-insert_index new_samples m.index new_fits (λ (x : ℕ). x < cnt) others i used;
        sorted = done.1;
        fits = new_fits;
      }

  apart : (x : ℕ) → x < m.cnt → ltb m.cnt m.len ≡ true → x ≢ m.index
  apart x h growing = let at_end : m.index ≡ m.cnt = v.next (ground arith) in λ e. omega arith

  -- The indices of the order differ, are as many as the samples in the window, below their number and sorted by the values of the samples, whatever sample comes.
  pub mmedian_sample-IsValid : IsValid (mmedian_sample m sample).0
  unfolding mmedian_sample
  mmedian_sample-IsValid = elim (Bool-cases (ltb m.cnt m.len)) [
    | inl growing ↦ rw growing (
        inserted-IsValid m.order (m.cnt + 1) (omega (arith, v.counted)) (ground arith)
          (ground (arith, v.next)) (λ more. ground (arith, v.next))
          (All-imp m.order (λ x h. omega (arith, h)) v.used)
          (All-imp m.order (λ x h. apart x h growing) v.used) v.sorted)
    | inr full ↦ rw full (
        inserted-IsValid (remove_index m.index m.order) m.cnt
          (ground (arith, v.counted, v.room, v.inside, length-remove_index m.index m.order)) v.room
          (ground (arith, v.room, v.inside)) (λ more. ground arith)
          (All-remove_index m.index (λ (x : ℕ). x < m.cnt) m.order v.used)
          (absent m.index m.samples m.order v.sorted)
          (Pairwise-remove_index m.index (Before m.samples) m.order v.sorted))
  ]

-- The time value is in the middle of the window: as many samples stand before it, none above it, as behind it, none below it.
pub record IsMiddle (m : Mmedian) (t : Tmv) : Type 0 where
  pub halves : length (take (m.cnt / 2) m.order) ≡ length (drop (suc (m.cnt / 2)) m.order)
  pub below : All (λ (x : ℕ). value (m.samples x) ≤ℤ value t) (take (m.cnt / 2) m.order)
  pub above : All (λ (x : ℕ). value t ≤ℤ value (m.samples x)) (drop (suc (m.cnt / 2)) m.order)

-- The window of `m` with one sample more: it stands at the index of `m`, the samples elsewhere are
-- the ones of `m`, the window grows until it is as long as the filter, the index goes round, and
-- the order lists the indices of the window.
pub record Entered (m : Mmedian) (sample : Tmv) (m' : Mmedian) : Type 0 where
  pub newest : m'.samples m.index ≡ sample
  pub others : (i : ℕ) → i ≢ m.index → m'.samples i ≡ m.samples i
  pub grows : m.cnt < m.len → m'.cnt ≡ m.cnt + 1
  pub slides : m.cnt ≡ m.len → m'.cnt ≡ m.len
  pub advances : m.index + 1 < m.len → m'.index ≡ m.index + 1
  pub wraps : m.index + 1 ≡ m.len → m'.index ≡ 0
  pub ordered : IsValid m'
