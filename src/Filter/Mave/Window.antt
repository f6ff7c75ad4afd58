-- ===== src/Filter/Mave/Window.antt =====
-- The buffer of the moving average, read from its index on, is the window of the last samples, and
-- the running sum is the window's total.
use lyp_lyl.Prelude.{
  ◌==◌, ==_iff, Bool-cases, length, set, get_or, take, drop, length-set, All, ℕ, zero, suc, ◌+◌,
  ◌%◌, ◌^◌, ◌≤◌, ◌<◌, ◌≡◌, refl, sym, ap, ◌∙◌, inl, inr, false, List, [], ◌∷◌, ◌++◌, arith,
}
use lyp_lyl.Tmv.{Tmv, tmv_add, tmv_sub}
use lyp_lyl.Filter.Mave.{mave_accumulate, Mave}
use mathlib.Core.List.{append_assoc, append-nil}
use native.Mathlib.Nat.{mod-eq_of_lt}

unfoldable pub total : List ℕ → ℕ
total [] = 0
total (x ∷ xs) = x + total xs

total-append : (xs ys : List ℕ) → total (xs ++ ys) ≡ total xs + total ys
unfolding total
total-append [] ys = omega arith
total-append (x ∷ xs) ys = omega (arith, total-append xs ys)

abbrev IsWord : ℕ → Type 0
IsWord x = x < 2 ^ 64

module _ {A : Type 0} where
  drop-set : (xs : List A) (i : ℕ) (v : A) → drop (suc i) (set xs i v) ≡ drop (suc i) xs
  drop-set [] i v = refl
  drop-set (x ∷ xs) zero v = refl
  drop-set (x ∷ xs) (suc i) v = drop-set xs i v

  take-set :
      (xs : List A) (i : ℕ) (v : A)
      → i < length xs
      → take (suc i) (set xs i v) ≡ take i xs ++ v ∷ []
  take-set [] i v h = absurd (omega arith)
  take-set (x ∷ xs) zero v h = refl
  take-set (x ∷ xs) (suc i) v h = ap (◌∷◌ x) (take-set xs i v (omega arith))

  drop-get_or :
      (xs : List A) (i : ℕ) (d : A) → i < length xs → drop i xs ≡ get_or xs i d ∷ drop (suc i) xs
  drop-get_or [] i d h = absurd (omega arith)
  drop-get_or (x ∷ xs) zero d h = refl
  drop-get_or (x ∷ xs) (suc i) d h = drop-get_or xs i d (omega arith)

  take_all : (xs : List A) (n : ℕ) → length xs ≤ n → take n xs ≡ xs
  take_all [] zero h = refl
  take_all [] (suc n) h = refl
  take_all (x ∷ xs) zero h = absurd (omega arith)
  take_all (x ∷ xs) (suc n) h = ap (◌∷◌ x) (take_all xs n (omega arith))

  drop_all : (xs : List A) (n : ℕ) → length xs ≤ n → drop n xs ≡ []
  drop_all [] zero h = refl
  drop_all [] (suc n) h = refl
  drop_all (x ∷ xs) zero h = absurd (omega arith)
  drop_all (x ∷ xs) (suc n) h = drop_all xs n (omega arith)

-- The samples in the buffer, oldest first.
abbrev pub ring : Mave → List Tmv
ring m = drop m.index m.val ++ take m.index m.val

pub record IsValid (m : Mave) : Type 0 where
  pub sized : length m.val ≡ m.len
  pub inside : m.index < m.len
  pub words : All (λ x. x < 2 ^ 64) m.val
  pub summed : m.sum ≡ total (ring m) % 2 ^ 64

All-set : (xs : List ℕ) (i v : ℕ) → All IsWord xs → v < 2 ^ 64 → All IsWord (set xs i v)
All-set [] i v h p = h
All-set (x ∷ xs) zero v h p = (p, h.1)
All-set (x ∷ xs) (suc i) v h p = (h.0, All-set xs i v h.1 p)

get_or-IsWord : (xs : List ℕ) (i : ℕ) → All IsWord xs → get_or xs i 0 < 2 ^ 64
get_or-IsWord [] i h = omega arith
get_or-IsWord (x ∷ xs) zero h = h.0
get_or-IsWord (x ∷ xs) (suc i) h = get_or-IsWord xs i h.1

wrap_zero : (i len : ℕ) → suc i ≡ len → (1 + i) % len ≡ 0
wrap_zero i len e = grind arith

wrap_next : (i len : ℕ) → i < len → (suc i == len) ≡ false → (1 + i) % len ≡ suc i
wrap_next i len h more = let lt : 1 + i < len = ground arith in mod-eq_of_lt lt ∙ omega arith

-- The oldest sample leaves the window and the new one enters it.
ring-step :
    (val : List ℕ) (i v len : ℕ)
    → length val ≡ len
    → i < len
    → drop ((1 + i) % len) (set val i v) ++ take ((1 + i) % len) (set val i v)
      ≡ (drop (suc i) val ++ take i val) ++ v ∷ []
ring-step val i v len e h = elim (Bool-cases (suc i == len)) [
  | inl last ↦
      let z : (1 + i) % len ≡ 0 = wrap_zero i len ((==_iff (suc i) len).0 last) in
      let t : take (suc i) (set val i v) ≡ set val i v =
        take_all (set val i v) (suc i)
          (omega (arith, length-set val i v, (==_iff (suc i) len).0 last)) in
      let d : drop (suc i) val ≡ [] =
        drop_all val (suc i) (omega (arith, (==_iff (suc i) len).0 last)) in
      rw (z, d, append-nil, ← take-set val i v (omega arith)) (sym t)
  | inr more ↦
      let s : (1 + i) % len ≡ suc i = wrap_next i len h more in
      rw (s, drop-set val i v, take-set val i v (omega arith))
        (sym (append_assoc (drop (suc i) val) (take i val) (v ∷ [])))
]

module _ (m : Mave) (v : Tmv) (ok : IsValid m) (word : v < 2 ^ 64) where
  pub ring-mave_accumulate :
      ring (mave_accumulate m v).0 ≡ (drop (suc m.index) m.val ++ take m.index m.val) ++ v ∷ []
  unfolding mave_accumulate
  ring-mave_accumulate = ring-step m.val m.index v m.len ok.sized ok.inside

  pub oldest : ring m ≡ get_or m.val m.index 0 ∷ (drop (suc m.index) m.val ++ take m.index m.val)
  oldest = rw (drop-get_or m.val m.index 0 (omega (arith, ok.sized, ok.inside)))

  sum-mave_accumulate : (mave_accumulate m v).0.sum ≡ total (ring (mave_accumulate m v).0) % 2 ^ 64
  sum-mave_accumulate =
      let rest = drop (suc m.index) m.val ++ take m.index m.val in
      let old : total (ring m) ≡ get_or m.val m.index 0 + total rest =
        rw oldest (unfold total in refl) in
      let new : total (rest ++ v ∷ []) ≡ total rest + v =
        total-append rest (v ∷ []) ∙ (unfold total in omega arith) in
      rw (ring-mave_accumulate, new)
        (unfold mave_accumulate tmv_add tmv_sub in
          omega (arith, ok.summed, old, get_or-IsWord m.val m.index ok.words))

  pub mave_accumulate-IsValid : IsValid (mave_accumulate m v).0
  mave_accumulate-IsValid = record {
    sized = unfold mave_accumulate in length-set m.val m.index v ∙ ok.sized;
    inside = unfold mave_accumulate in omega (arith, ok.inside);
    words = unfold mave_accumulate in All-set m.val m.index v ok.words word;
    summed = sum-mave_accumulate;
  }
