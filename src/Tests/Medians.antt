-- ===== src/Tests/Medians.antt =====
-- mmedian.c: a window of three samples that is full.

use lyp_lyl.Prelude.{ℕ, zero, suc, ◌^◌, ◌<◌, ◌≡◌, refl, [], ◌∷◌, arith}
use lyp_lyl.Tmv.{Tmv, tmv_cmp}
use lyp_lyl.Filter.Mmedian.{remove_index, place, insert_index, median, mmedian_sample, Mmedian}
use lyp_lyl.Filter.Mmedian.Sorted.{IsValid}
use lyp_lyl.Filter.Mmedian.Window.{mmedian_sample-IsValid}

abbrev samples_3 : ℕ → Tmv
samples_3 zero = 50
samples_3 (suc zero) = 10
samples_3 (suc (suc i)) = 30

abbrev full : Mmedian
full = record { cnt = 3; len = 3; index = 0; order = 1 ∷ 2 ∷ 0 ∷ []; samples = samples_3 }

samples_3_small : (i : ℕ) → samples_3 i < 2 ^ 64
samples_3_small zero = omega arith
samples_3_small (suc zero) = omega arith
samples_3_small (suc (suc i)) = omega arith

full-IsValid : IsValid full
full-IsValid = record {
  counted = refl;
  room = omega arith;
  inside = omega arith;
  next = λ more. absurd (omega arith);
  used = (omega arith, (omega arith, (omega arith, tt)));
  sorted = (
    ((omega arith, omega arith), ((omega arith, omega arith), tt)),
    (((omega arith, omega arith), tt), (tt, tt)),
  );
  fits = samples_3_small;
}

mmedian_sample-IsValid_test : IsValid (mmedian_sample full 20).0
mmedian_sample-IsValid_test = mmedian_sample-IsValid full 20 full-IsValid (omega arith)

-- The sample 20 takes the place of 50.
median_20 : ((mmedian_sample full 20).1 ≡ 20) × ((mmedian_sample full 20).0.order ≡ 1 ∷ 0 ∷ 2 ∷ [])
unfolding mmedian_sample median remove_index insert_index place tmv_cmp
median_20 = (refl, refl)
