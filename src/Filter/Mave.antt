-- ===== src/Filter/Mave.antt =====
-- mave.c: the moving average over a circular buffer `val` of `len` samples, with a running sum.
-- A sample is a Tmv, the bit pattern of 64 bits. Allocation failures of mave_create are left out.
pub mod Window
pub mod Mean
use lyp_lyl.Prelude.{
  ltb, if◌then◌else◌, length, set, get_or, replicate, ℕ, ◌+◌, ◌*◌, ◌%◌, List, [], ◌∷◌,
}
use lyp_lyl.Tmv.{Tmv, tmv_add, tmv_div, tmv_sub, tmv_zero}

-- struct mave
pub record Mave : Type 0 where
  pub cnt : ℕ
  pub len : ℕ
  pub index : ℕ
  pub sum : Tmv
  pub val : List Tmv

unfoldable pub mave_create : ℕ → Mave
mave_create length = record { cnt = 0; len = length; index = 0; sum = 0; val = replicate length 0 }

unfoldable pub mave_accumulate : Mave → Tmv → Mave × Tmv
mave_accumulate m v =
    let sum' = tmv_add (tmv_sub m.sum (get_or m.val m.index 0)) v in
    let cnt' = if ltb m.cnt m.len then m.cnt + 1 else m.cnt in
    (
      record m { cnt = cnt'; index = (1 + m.index) % m.len; sum = sum'; val = set m.val m.index v },
      tmv_div sum' cnt',
    )

unfoldable pub mave_reset : Mave → Mave
mave_reset m = record m { cnt = 0; index = 0; sum = tmv_zero; val = replicate m.len 0 }

-- The filter after a list of samples.
unfoldable pub feed : Mave → List Tmv → Mave
feed m [] = m
feed m (v ∷ vs) = feed (mave_accumulate m v).0 vs
