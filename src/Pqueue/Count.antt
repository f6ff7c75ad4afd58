-- ===== src/Pqueue/Count.antt =====
-- The entries of an array as a multiset: how many of the first `n` satisfy a test.
use lyp_lyl.Prelude.{
  ◌==◌, if◌then◌else◌, Bool-cases, ℕ, zero, suc, ◌+◌, ◌≤◌, ◌<◌, ◌≡◌, refl, ap, inl, inr, Bool,
  false, arith,
}
use lyp_lyl.Prelude.Memory.{write}

abbrev pub indicator : Bool → ℕ
indicator b = if b then 1 else 0

module _ {A : Type 0} (p : A → Bool) where
  unfoldable pub tally : (ℕ → A) → ℕ → ℕ
  tally cells zero = 0
  tally cells (suc n) = tally cells n + indicator (p (cells n))

  pub tally-end :
      (cells : ℕ → A) (n : ℕ) → tally cells (n + 1) ≡ tally cells n + indicator (p (cells n))
  unfolding tally
  tally-end cells n = let after : n + 1 ≡ suc n = omega arith in ap (tally cells) after

  tally-write_above :
      (cells : ℕ → A) (n i : ℕ) (v : A) → n ≤ i → tally (write cells i v) n ≡ tally cells n
  unfolding tally
  tally-write_above cells zero i v h = refl
  tally-write_above cells (suc n) i v h = ground (arith, tally-write_above cells n i v)

  -- A write trades the old entry for the new one.
  pub tally-write :
      (cells : ℕ → A) (n i : ℕ) (v : A)
      → i < n
      → tally (write cells i v) n + indicator (p (cells i)) ≡ tally cells n + indicator (p v)
  unfolding tally
  tally-write cells zero i v h = absurd (omega arith)
  tally-write cells (suc n) i v h = elim (Bool-cases (i == n)) [
    | inl e ↦
        let i-n : i ≡ n = ground arith in
        let below : tally (write cells i v) n ≡ tally cells n =
          tally-write_above cells n i v (omega arith) in
        let now : write cells i v n ≡ v = ground arith in
        let old : cells i ≡ cells n = ap cells i-n in rw below (rw now (rw old (omega arith)))
    | inr e ↦ ground (arith, tally-write cells n i v)
  ]

  pub tally-none :
      (cells : ℕ → A) (n : ℕ) → ((i : ℕ) → i < n → p (cells i) ≡ false) → tally cells n ≡ 0
  unfolding tally
  tally-none cells zero h = refl
  tally-none cells (suc n) h = ground (arith, h n, tally-none cells n (λ i l. h i (omega arith)))

  pub none-tally : (cells : ℕ → A) (n i : ℕ) → tally cells n ≡ 0 → i < n → p (cells i) ≡ false
  unfolding tally
  none-tally cells zero i h l = absurd (omega arith)
  none-tally cells (suc n) i h l = elim (Bool-cases (i == n)) [
    | inl e ↦ let same : i ≡ n = ground arith in rw same (ground arith)
    | inr e ↦ none-tally cells n i (omega arith) (ground arith)
  ]
