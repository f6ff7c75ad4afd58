-- ===== src/Tsproc.antt =====
-- tsproc.c: the path delay and the offset from four time stamps. The ratio of the clock rates and
-- the weight are doubles, of which the operations that are used are parameters.
pub mod Symmetric
pub mod Answers
use lyp_lyl.Prelude.{if◌then◌else◌, ℕ, ◌*◌, Bool, true, false, not, ◌&&◌, ◌||◌, Option, none, some}
use lyp_lyl.Prelude.Int.{ltb_ℤ, pos}
use lyp_lyl.Tmv.{Tmv, tmv_add, tmv_div, tmv_sign, tmv_is_zero, tmv_sub, tmv_zero}
use lyp_lyl.Filter.Choice.{filter_create, filter_sample, filter_reset, FilterType, Filter}

-- enum tsproc_mode
pub data TsprocMode : Type 0 where
  filter raw filter_weight raw_weight : TsprocMode

-- What is done with doubles: `scale` is the conversion, product and conversion back of a time
-- value, `quotient` that of two converted time values.
pub record Doubles (D : Type 0) : Type 0 where
  pub one : D
  pub is_one : D → Bool
  pub scale : D → Tmv → Tmv
  pub quotient : Tmv → Tmv → D
  pub above_one : D → Bool

-- struct tsproc
pub record Tsproc (D : Type 0) : Type 0 where
  pub mode : TsprocMode
  pub clock_rate_ratio : D
  pub t1 : Tmv
  pub t2 : Tmv
  pub t3 : Tmv
  pub t4 : Tmv
  pub filtered_delay : Tmv
  pub filtered_delay_valid : Bool
  pub delay_filter : Filter

abbrev pub weighting : TsprocMode → Bool
weighting filter = false
weighting raw = false
weighting filter_weight = true
weighting raw_weight = true

module _ {D : Type 0} (k : Doubles D) where
  abbrev pub with_filter : TsprocMode → Option Filter → Option (Tsproc D)
  with_filter mode none = none
  with_filter mode (some f) = some (record {
    mode = mode;
    clock_rate_ratio = k.one;
    t1 = tmv_zero;
    t2 = tmv_zero;
    t3 = tmv_zero;
    t4 = tmv_zero;
    filtered_delay = tmv_zero;
    filtered_delay_valid = false;
    delay_filter = f;
  })

  unfoldable pub tsproc_create : TsprocMode → FilterType → ℕ → Option (Tsproc D)
  tsproc_create mode delay_filter filter_length =
      with_filter mode (filter_create delay_filter filter_length)

  unfoldable pub tsproc_down_ts : Tsproc D → Tmv → Tmv → Tsproc D
  tsproc_down_ts p remote_ts local_ts = record p { t1 = remote_ts; t2 = local_ts }

  unfoldable pub tsproc_up_ts : Tsproc D → Tmv → Tmv → Tsproc D
  tsproc_up_ts p local_ts remote_ts = record p { t3 = local_ts; t4 = remote_ts }

  unfoldable pub tsproc_set_clock_rate_ratio : Tsproc D → D → Tsproc D
  tsproc_set_clock_rate_ratio p clock_rate_ratio = record p { clock_rate_ratio = clock_rate_ratio }

  unfoldable pub tsproc_set_delay : Tsproc D → Tmv → Tsproc D
  tsproc_set_delay p delay = record p { filtered_delay = delay; filtered_delay_valid = true }

  unfoldable pub get_raw_delay : Tsproc D → Tmv
  get_raw_delay p =
      let measured = tmv_sub p.t2 p.t3 in
      let t23 =
        if not (k.is_one p.clock_rate_ratio)
        then k.scale p.clock_rate_ratio measured
        else measured in
      tmv_div (tmv_add t23 (tmv_sub p.t4 p.t1)) 2

  -- The delay that tsproc_update_delay hands out.
  abbrev pub chosen_delay : TsprocMode → Tmv → Tmv → Tmv
  chosen_delay filter filtered raw_delay = filtered
  chosen_delay filter_weight filtered raw_delay = filtered
  chosen_delay raw filtered raw_delay = raw_delay
  chosen_delay raw_weight filtered raw_delay = raw_delay

  -- The answer is none for -1. A caller that passes no `delay` ignores it.
  unfoldable pub tsproc_update_delay : Tsproc D → Tsproc D × Option Tmv
  tsproc_update_delay p =
      let raw_delay = get_raw_delay p in
      let sampled = filter_sample p.delay_filter raw_delay in
      if tmv_is_zero p.t2 || tmv_is_zero p.t3 then (p, none) else (
        record p {
          filtered_delay = sampled.1;
          filtered_delay_valid = true;
          delay_filter = sampled.0;
        },
        some (chosen_delay p.mode sampled.1 raw_delay),
      )

  -- The delay and the raw delay of the `switch` in tsproc_update_offset; none where it returns -1.
  abbrev pub delays : TsprocMode → Tsproc D → Option (Tmv × Tmv)
  delays filter p = if not p.filtered_delay_valid then none else some (p.filtered_delay, tmv_zero)
  delays raw p = if tmv_is_zero p.t3 then none else some (get_raw_delay p, get_raw_delay p)
  delays raw_weight p = if tmv_is_zero p.t3 then none else some (get_raw_delay p, get_raw_delay p)
  delays filter_weight p =
      if tmv_is_zero p.t3 || not p.filtered_delay_valid
      then none
      else some (p.filtered_delay, get_raw_delay p)

  abbrev pub weight_of : Tsproc D → Tmv → D
  weight_of p raw_delay =
      let weight = k.quotient p.filtered_delay raw_delay in
      if weighting p.mode
        && ltb_ℤ (pos 0) (tmv_sign p.filtered_delay)
        && ltb_ℤ (pos 0) (tmv_sign raw_delay)
      then if k.above_one weight then k.one else weight
      else k.one

  abbrev pub offset_by : Tsproc D → Option (Tmv × Tmv) → Option (Tmv × D)
  offset_by p none = none
  offset_by p (some (delay, raw_delay)) =
      some (tmv_sub (tmv_sub p.t2 p.t1) delay, weight_of p raw_delay)

  -- The offset and the weight.
  unfoldable pub tsproc_update_offset : Tsproc D → Option (Tmv × D)
  tsproc_update_offset p =
      if tmv_is_zero p.t1 || tmv_is_zero p.t2 then none else offset_by p (delays p.mode p)

  unfoldable pub tsproc_reset : Tsproc D → Bool → Tsproc D
  tsproc_reset p full =
      let cleared = record p { t1 = tmv_zero; t2 = tmv_zero; t3 = tmv_zero; t4 = tmv_zero } in
      if full
      then record cleared {
        clock_rate_ratio = k.one;
        delay_filter = filter_reset p.delay_filter;
        filtered_delay_valid = false;
      }
      else cleared
