-- ===== src/Filter/Mmedian.antt =====
-- mmedian.c: the moving median filter. The array `order` is the list of its `cnt` entries in use,
-- and the array of the samples is a function of the index. Allocation does not fail.
pub mod Sorted
pub mod Window
use lyp_lyl.Prelude.{
  ltb, ◌==◌, if◌then◌else◌, length, get_or, ℕ, ◌+◌, ◌-◌, ◌*◌, ◌/◌, ◌%◌, Option, none, some, List,
  [], ◌∷◌,
}
use lyp_lyl.Prelude.Int.{leb_ℤ, pos}
use lyp_lyl.Prelude.Memory.{write}
use lyp_lyl.Tmv.{Tmv, tmv_add, tmv_div, tmv_cmp, tmv_zero}

-- struct mmedian
pub record Mmedian : Type 0 where
  pub cnt : ℕ
  pub len : ℕ
  pub index : ℕ
  pub order : List ℕ
  pub samples : ℕ → Tmv

-- The two loops that take the index of the replaced value out. The last entry goes where the index
-- is not found.
unfoldable pub remove_index : ℕ → List ℕ → List ℕ
remove_index index [] = []
remove_index index (x ∷ []) = []
remove_index index (x ∷ y ∷ ys) =
    let rest = remove_index index (y ∷ ys) in if x == index then y ∷ ys else x ∷ rest

-- The loop that looks from the end for an entry whose value is not greater; the new index comes
-- behind it.
module _ (samples : ℕ → Tmv) (index : ℕ) where
  abbrev pub place_here : ℕ → List ℕ → Option (List ℕ) → Option (List ℕ)
  place_here x xs (some placed) = some (x ∷ placed)
  place_here x xs none =
      if leb_ℤ (tmv_cmp (samples x) (samples index)) (pos 0) then some (x ∷ index ∷ xs) else none

  unfoldable pub place : List ℕ → Option (List ℕ)
  place [] = none
  place (x ∷ xs) = place_here x xs (place xs)

  abbrev pub or_first : List ℕ → Option (List ℕ) → List ℕ
  or_first xs none = index ∷ xs
  or_first xs (some placed) = placed

  unfoldable pub insert_index : List ℕ → List ℕ
  insert_index xs = or_first xs (place xs)

-- An entry of `order`.
abbrev pub entry : List ℕ → ℕ → ℕ
entry order i = get_or order i 0

unfoldable pub median : Mmedian → Tmv
median m =
    if m.cnt % 2 == 1
    then m.samples (entry m.order (m.cnt / 2))
    else tmv_div
        (tmv_add (m.samples (entry m.order (m.cnt / 2 - 1)))
          (m.samples (entry m.order (m.cnt / 2))))
        2

unfoldable pub mmedian_sample : Mmedian → Tmv → Mmedian × Tmv
mmedian_sample m sample =
    let samples = write m.samples m.index sample in
    let growing = ltb m.cnt m.len in
    let others = if growing then m.order else remove_index m.index m.order in
    let m' : Mmedian = record {
      cnt = if growing then m.cnt + 1 else m.cnt;
      len = m.len;
      index = (1 + m.index) % m.len;
      order = insert_index samples m.index others;
      samples = samples;
    } in
    (m', median m')

unfoldable pub mmedian_reset : Mmedian → Mmedian
mmedian_reset m = record m { cnt = 0; index = 0; order = [] }

unfoldable pub mmedian_create : ℕ → Option Mmedian
mmedian_create length =
    if ltb length 1
    then none
    else some (record { cnt = 0; len = length; index = 0; order = []; samples = λ i. tmv_zero })
