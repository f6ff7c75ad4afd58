-- ===== src/Filter/Choice.antt =====
-- filter.c: the choice between the two filters.
-- enum filter_type
use lyp_lyl.Prelude.{length, ℕ, Option, none, some}
use lyp_lyl.Tmv.{Tmv}
use lyp_lyl.Filter.Mave.{mave_create, mave_accumulate, mave_reset, Mave}
use lyp_lyl.Filter.Mmedian.{mmedian_sample, mmedian_reset, mmedian_create, Mmedian}

pub data FilterType : Type 0 where
  moving_average moving_median : FilterType

-- struct filter, with the functions that it points to.
pub data Filter : Type 0 where
  by_average : Mave → Filter
  by_median : Mmedian → Filter

abbrev pub as_median : Option Mmedian → Option Filter
as_median none = none
as_median (some m) = some (by_median m)

unfoldable pub filter_create : FilterType → ℕ → Option Filter
filter_create moving_average length = some (by_average (mave_create length))
filter_create moving_median length = as_median (mmedian_create length)

unfoldable pub filter_sample : Filter → Tmv → Filter × Tmv
filter_sample (by_average m) sample =
    let done = mave_accumulate m sample in (by_average done.0, done.1)
filter_sample (by_median m) sample =
    let done = mmedian_sample m sample in (by_median done.0, done.1)

unfoldable pub filter_reset : Filter → Filter
filter_reset (by_average m) = by_average (mave_reset m)
filter_reset (by_median m) = by_median (mmedian_reset m)
