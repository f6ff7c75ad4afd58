-- ===== src/Filter/Mmedian/Sorted.antt =====
-- The order of the moving median filter lists each sample of the window once, by its value.

use lyp_lyl.Prelude.{
  ◌==◌, Bool-cases, length, All, ℕ, ◌+◌, ◌-◌, ◌^◌, ◌≤◌, ◌<◌, ◌≡◌, refl, sym, ◌∙◌, ◌≢◌, inl, inr,
  true, false, Option, none, some, List, [], ◌∷◌, arith,
}
use lyp_lyl.Prelude.Int.{◌≤ℤ◌, leb_ℤ, ℤ, pos}
use lyp_lyl.Prelude.Memory.{write}
use lyp_lyl.Tmv.{Tmv, value, tmv_cmp}
use lyp_lyl.Tmv.Laws.{tmv_cmp-le}
use lyp_lyl.Filter.Mmedian.{remove_index, place_here, place, or_first, insert_index, Mmedian}

abbrev pub Pairwise : (ℕ → ℕ → Type 0) → List ℕ → Type 0
Pairwise R [] = Unit {0}
Pairwise R (x ∷ xs) = All (R x) xs × Pairwise R xs

-- The indices differ, and their values are in order.
abbrev pub Before : (ℕ → Tmv) → ℕ → ℕ → Type 0
Before samples x y = (x ≢ y) × (value (samples x) ≤ℤ value (samples y))

pub record IsValid (m : Mmedian) : Type 0 where
  pub counted : length m.order ≡ m.cnt
  pub room : m.cnt ≤ m.len
  pub inside : m.index < m.len
  pub next : m.cnt < m.len → m.index ≡ m.cnt
  pub used : All (λ (x : ℕ). x < m.cnt) m.order
  pub sorted : Pairwise (Before m.samples) m.order
  pub fits : (i : ℕ) → m.samples i < 2 ^ 64

pub All-imp : {P Q : ℕ → Type 0} (xs : List ℕ) → ((x : ℕ) → P x → Q x) → All P xs → All Q xs
All-imp [] f h = tt
All-imp (x ∷ xs) f h = (f x h.0, All-imp xs f h.1)

All-and : (P Q : ℕ → Type 0) (xs : List ℕ) → All P xs → All Q xs → All (λ (x : ℕ). P x × Q x) xs
All-and P Q [] h g = tt
All-and P Q (x ∷ xs) h g = ((h.0, g.0), All-and P Q xs h.1 g.1)

-- What holds after the index is taken out.
module _ (index : ℕ) where
  pub length-remove_index : (xs : List ℕ) → length (remove_index index xs) ≡ length xs - 1
  unfolding remove_index
  length-remove_index [] = refl
  length-remove_index (x ∷ []) = refl
  length-remove_index (x ∷ y ∷ ys) = elim (Bool-cases (x == index)) [
    | inl e ↦ rw e (omega arith)
    | inr e ↦ rw e (omega (arith, length-remove_index (y ∷ ys)))
  ]

  pub All-remove_index : (P : ℕ → Type 0) (xs : List ℕ) → All P xs → All P (remove_index index xs)
  unfolding remove_index
  All-remove_index P [] h = tt
  All-remove_index P (x ∷ []) h = tt
  All-remove_index P (x ∷ y ∷ ys) h = elim (Bool-cases (x == index)) [
    | inl e ↦ rw e h.1
    | inr e ↦ rw e (h.0, All-remove_index P (y ∷ ys) h.1)
  ]

  pub Pairwise-remove_index :
      (R : ℕ → ℕ → Type 0) (xs : List ℕ) → Pairwise R xs → Pairwise R (remove_index index xs)
  unfolding remove_index
  Pairwise-remove_index R [] h = tt
  Pairwise-remove_index R (x ∷ []) h = tt
  Pairwise-remove_index R (x ∷ y ∷ ys) h = elim (Bool-cases (x == index)) [
    | inl e ↦ rw e h.1
    | inr e ↦ rw e (All-remove_index (R x) (y ∷ ys) h.0, Pairwise-remove_index R (y ∷ ys) h.1)
  ]

  pub absent :
      (samples : ℕ → Tmv) (xs : List ℕ)
      → Pairwise (Before samples) xs
      → All (λ (x : ℕ). x ≢ index) (remove_index index xs)
  unfolding remove_index
  absent samples [] h = tt
  absent samples (x ∷ []) h = tt
  absent samples (x ∷ y ∷ ys) h = elim (Bool-cases (x == index)) [
    | inl e ↦
        let same : x ≡ index = ground arith in
        rw e (All-imp (y ∷ ys) (λ z b. λ e. b.0 (same ∙ sym e)) h.0)
    | inr e ↦ rw e (ground arith, absent samples (y ∷ ys) h.1)
  ]

written :
    (samples : ℕ → Tmv) (index : ℕ) (sample : Tmv) (x y : ℕ)
    → x ≢ index
    → y ≢ index
    → value (samples x) ≤ℤ value (samples y)
    → value (write samples index sample x) ≤ℤ value (write samples index sample y)
written samples index sample x y n o h =
    let away : (index == x) ≡ false = ground arith in
    let away' : (index == y) ≡ false = ground arith in rw (away, away') h

-- A value at an index that is not in the list makes no difference.
pub Pairwise-write :
    (samples : ℕ → Tmv) (index : ℕ) (sample : Tmv) (xs : List ℕ)
    → All (λ (x : ℕ). x ≢ index) xs
    → Pairwise (Before samples) xs
    → Pairwise (Before (write samples index sample)) xs
Pairwise-write samples index sample [] a h = tt
Pairwise-write samples index sample (x ∷ xs) a h = (
  All-imp xs (λ y both. (both.0.0, written samples index sample x y a.0 both.1 both.0.1))
      (All-and (Before samples x) (λ (y : ℕ). y ≢ index) xs h.0 a.1),
  Pairwise-write samples index sample xs a.1 h.1,
)

module _ (samples : ℕ → Tmv) (index : ℕ) (fits : (i : ℕ) → samples i < 2 ^ 64) where
  abbrev at : ℕ → ℤ
  at i = value (samples i)

  abbrev AllPlaced : (ℕ → Type 0) → Option (List ℕ) → Type 0
  AllPlaced P none = Unit {0}
  AllPlaced P (some ys) = All P ys

  All-place_here :
      (P : ℕ → Type 0) (x : ℕ) (xs : List ℕ) (o : Option (List ℕ))
      → P index
      → All P (x ∷ xs)
      → AllPlaced P o
      → AllPlaced P (place_here samples index x xs o)
  All-place_here P x xs (some ys) p h g = (h.0, g)
  All-place_here P x xs none p h g =
      elim (Bool-cases (leb_ℤ (tmv_cmp (samples x) (samples index)) (pos 0))) [
        | inl e ↦ rw e (h.0, (p, h.1))
        | inr e ↦ rw e tt
      ]

  All-place :
      (P : ℕ → Type 0) (xs : List ℕ) → P index → All P xs → AllPlaced P (place samples index xs)
  unfolding place
  All-place P [] p h = tt
  All-place P (x ∷ xs) p h = All-place_here P x xs _ p h (All-place P xs p h.1)

  -- What the place of the new index says of the entries.
  record Placed (xs ys : List ℕ) : Type 0 where
    counted : length ys ≡ length xs + 1
    above : (z : ℤ) → All (λ (x : ℕ). z ≤ℤ at x) xs → z ≤ℤ at index
    sorted : Pairwise (Before samples) ys

  abbrev Place : List ℕ → Option (List ℕ) → Type 0
  Place xs none = All (λ (x : ℕ). at index ≤ℤ at x) xs
  Place xs (some ys) = Placed xs ys

  no_more : (x : ℕ) → leb_ℤ (tmv_cmp (samples x) (samples index)) (pos 0) ≡ true → at x ≤ℤ at index
  no_more x e = (tmv_cmp-le (samples x) (samples index) (fits x) (fits index)).0 e

  more : (x : ℕ) → leb_ℤ (tmv_cmp (samples x) (samples index)) (pos 0) ≡ false → at index ≤ℤ at x
  more x e = elim (Bool-cases (leb_ℤ (at index) (at x))) [
    | inl le ↦ ground arith
    | inr gt ↦
        let other : at x ≤ℤ at index = ground arith in
        let no : leb_ℤ (tmv_cmp (samples x) (samples index)) (pos 0) ≡ true =
          (tmv_cmp-le (samples x) (samples index) (fits x) (fits index)).1 other in
        let absurdity : true ≡ false = sym no ∙ e in cc absurdity
  ]

  behind :
      (xs : List ℕ)
      → All (λ (y : ℕ). y ≢ index) xs
      → All (λ (y : ℕ). at index ≤ℤ at y) xs
      → All (Before samples index) xs
  behind [] a p = tt
  behind (x ∷ xs) a p = ((λ e. a.0 (sym e), p.0), behind xs a.1 p.1)

  at_trans : (x y z : ℤ) → x ≤ℤ y → y ≤ℤ z → x ≤ℤ z
  at_trans x y z h k = omega arith

  place_here-Place :
      (x : ℕ) (xs : List ℕ) (o : Option (List ℕ))
      → All (λ (y : ℕ). y ≢ index) (x ∷ xs)
      → Pairwise (Before samples) (x ∷ xs)
      → ((P : ℕ → Type 0) → P index → All P xs → AllPlaced P o)
      → Place xs o
      → Place (x ∷ xs) (place_here samples index x xs o)
  place_here-Place x xs (some ys) a h m p =
      let below = p.above (at x) (All-imp xs (λ y b. b.1) h.0) in
      record {
        counted = omega (arith, p.counted);
        above = λ z r. p.above z r.1;
        sorted = (m (Before samples x) (a.0, below) h.0, p.sorted);
      }
  place_here-Place x xs none a h m p =
      elim (Bool-cases (leb_ℤ (tmv_cmp (samples x) (samples index)) (pos 0))) [
        | inl e ↦ rw e (record {
          counted = omega arith;
          above = λ z r. at_trans z (at x) (at index) r.0 (no_more x e);
          sorted = (((a.0, no_more x e), h.0), (behind xs a.1 p, h.1));
        })
        | inr e ↦ rw e (more x e, p)
      ]

  place-Place :
      (xs : List ℕ)
      → All (λ (y : ℕ). y ≢ index) xs
      → Pairwise (Before samples) xs
      → Place xs (place samples index xs)
  unfolding place
  place-Place [] a h = tt
  place-Place (x ∷ xs) a h =
      place_here-Place x xs _ a h (λ P. All-place P xs) (place-Place xs a.1 h.1)

  abbrev pub Inserted : List ℕ → List ℕ → Type 0
  Inserted xs ys = (length ys ≡ length xs + 1) × Pairwise (Before samples) ys

  or_first-Inserted :
      (xs : List ℕ) (o : Option (List ℕ))
      → All (λ (y : ℕ). y ≢ index) xs
      → Pairwise (Before samples) xs
      → Place xs o
      → Inserted xs (or_first samples index xs o)
  or_first-Inserted xs none a h p = (omega arith, (behind xs a p, h))
  or_first-Inserted xs (some ys) a h p = (p.counted, p.sorted)

  All-or_first :
      (P : ℕ → Type 0) (xs : List ℕ) (o : Option (List ℕ))
      → P index
      → All P xs
      → AllPlaced P o
      → All P (or_first samples index xs o)
  All-or_first P xs none p h g = (p, h)
  All-or_first P xs (some ys) p h g = g

  pub insert_index-Inserted :
      (xs : List ℕ)
      → All (λ (y : ℕ). y ≢ index) xs
      → Pairwise (Before samples) xs
      → Inserted xs (insert_index samples index xs)
  unfolding insert_index
  insert_index-Inserted xs a h = or_first-Inserted xs _ a h (place-Place xs a h)

  pub All-insert_index :
      (P : ℕ → Type 0) (xs : List ℕ) → P index → All P xs → All P (insert_index samples index xs)
  unfolding insert_index
  All-insert_index P xs p h = All-or_first P xs _ p h (All-place P xs p h)
