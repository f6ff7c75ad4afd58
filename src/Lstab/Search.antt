-- ===== src/Lstab/Search.antt =====
-- The search of lstab_utc2tai, for any table.
use lyp_lyl.Prelude.{
  leb, ◌==◌, leb→le, Bool-cases, ℕ, zero, suc, ◌≤◌, ◌<◌, ◌≡◌, refl, subst, ◌↔◌, inl, inr, none,
  some, arith,
}
use lyp_lyl.Lstab.{search_epoch, EpochMarker}

-- The UTC times of the first `n` epochs rise.
abbrev pub Rising : (ℕ → EpochMarker) → ℕ → Type 0
Rising lstab n = (i j : ℕ) → i < j → j < n → (lstab i).utc < (lstab j).utc

-- The time lies in the epoch: from its UTC time on, and before the next epoch's if there is one.
abbrev pub InEpoch : (ℕ → EpochMarker) → ℕ → ℕ → ℕ → Type 0
InEpoch lstab n t k = (k < n) × ((lstab k).utc ≤ t) × (suc k < n → t < (lstab (suc k)).utc)

module _ (lstab : ℕ → EpochMarker) (t : ℕ) where
  found_below :
      (n k : ℕ)
      → search_epoch lstab n t ≡ some k
      → (k < n) × ((lstab k).utc ≤ t) × ((j : ℕ) → k < j → j < n → t < (lstab j).utc)
  unfolding search_epoch
  found_below zero k h = cc
  found_below (suc n) k h = elim (Bool-cases (leb (lstab n).utc t)) [
    | inl e ↦
        let k-n : k ≡ n = ground arith in (omega arith, rw k-n (leb→le _ _ e), λ j p q. omega arith)
    | inr e ↦
        let ih = found_below n k (rw e at h) in
        (omega (arith, ih.0), ih.1, λ j p q. ground (arith, ih.2 j))
  ]

  found_first :
      (n k : ℕ)
      → k < n
      → (lstab k).utc ≤ t
      → ((j : ℕ) → k < j → j < n → t < (lstab j).utc)
      → search_epoch lstab n t ≡ some k
  unfolding search_epoch
  found_first zero k h le later = absurd (omega arith)
  found_first (suc n) k h le later = ground (arith, later n, found_first n k)

  -- In a table of rising epochs the search answers with an epoch exactly when the time lies in it.
  pub search_epoch-InEpoch :
      (n k : ℕ) → Rising lstab n → (search_epoch lstab n t ≡ some k) ↔ InEpoch lstab n t k
  search_epoch-InEpoch n k rise = (
    λ h. let f = found_below n k h in (f.0, f.1, λ p. f.2 (suc k) (omega arith) p),
    λ h. found_first n k h.0 h.1 (later h),
  )
    where
      later : InEpoch lstab n t k → (j : ℕ) → k < j → j < n → t < (lstab j).utc
      later h j p q = elim (Bool-cases (suc k == j)) [
        | inl e ↦
            let s : suc k ≡ j = ground arith in subst (λ x. t < (lstab x).utc) s (h.2 (omega arith))
        | inr e ↦ omega (arith, rise (suc k) j (ground arith) q, h.2 (ground arith))
      ]

  none_before : (n : ℕ) → search_epoch lstab n t ≡ none → (j : ℕ) → j < n → t < (lstab j).utc
  unfolding search_epoch
  none_before zero h j p = absurd (omega arith)
  none_before (suc n) h j p = elim (Bool-cases (j == n)) [
    | inl e ↦ let s : j ≡ n = ground arith in rw s (ground arith)
    | inr e ↦ none_before n (ground arith) j (ground arith)
  ]

  none_first : (n : ℕ) → ((j : ℕ) → j < n → t < (lstab j).utc) → search_epoch lstab n t ≡ none
  unfolding search_epoch
  none_first zero h = refl
  none_first (suc n) h = ground (arith, h n, none_first n (λ j p. h j (omega arith)))

  -- The search fails exactly when the time lies before every epoch.
  pub search_epoch-none :
      (n : ℕ) → (search_epoch lstab n t ≡ none) ↔ ((j : ℕ) → j < n → t < (lstab j).utc)
  search_epoch-none n = (none_before n, none_first n)
