-- ===== src/Tsproc/Answers.antt =====
-- When the time stamp processor has an answer.

use lyp_lyl.Prelude.{◌≡◌, refl, Bool, true, false, not, ◌&&◌, Option, none, some, arith}
use lyp_lyl.Tmv.{Tmv, tmv_is_zero, tmv_zero}
use lyp_lyl.Tsproc.{
  tsproc_down_ts, tsproc_update_delay, delays, offset_by, tsproc_update_offset, tsproc_reset,
  TsprocMode, filter, raw, filter_weight, raw_weight, Doubles, Tsproc,
}

-- The modes in which one pair of time stamps gives an offset.
abbrev pub one_way : TsprocMode → Bool → Bool
one_way filter known = known
one_way filter_weight known = false
one_way raw known = false
one_way raw_weight known = false

abbrev pub is_some {ℓ} : {A : Type ℓ} → Option A → Bool
is_some none = false
is_some (some a) = true

module _ {D : Type 0} (k : Doubles D) where
  -- After a reset of either kind there is neither an offset nor a delay, and asking for the delay changes nothing.
  pub tsproc_reset-No_answer :
      (p : Tsproc D) (full : Bool)
      → (tsproc_update_offset k (tsproc_reset k p full) ≡ none)
        × (tsproc_update_delay k (tsproc_reset k p full) ≡ (tsproc_reset k p full, none))
  unfolding tsproc_update_offset tsproc_reset tsproc_update_delay tmv_is_zero
  tsproc_reset-No_answer p true = (refl, refl)
  tsproc_reset-No_answer p false = (refl, refl)

  one_way-delays :
      (mode : TsprocMode) (q : Tsproc D)
      → tmv_is_zero q.t3 ≡ true
      → is_some (offset_by k q (delays k mode q)) ≡ one_way mode q.filtered_delay_valid
  one_way-delays filter q z = ground arith
  one_way-delays filter_weight q z = rw z refl
  one_way-delays raw q z = rw z refl
  one_way-delays raw_weight q z = rw z refl

  zero_is_zero : tmv_is_zero tmv_zero ≡ true
  unfolding tmv_is_zero
  zero_is_zero = refl

  -- After a reset, the time stamps of one message to the slave, which are not zero, give an offset exactly in the filter mode, where a delay is known: a full reset forgets the delay, another reset keeps it.
  pub tsproc_down_ts-after_reset :
      (p : Tsproc D) (full : Bool) (remote_ts local_ts : Tmv)
      → tmv_is_zero remote_ts ≡ false
      → tmv_is_zero local_ts ≡ false
      → is_some
          (tsproc_update_offset k (tsproc_down_ts k (tsproc_reset k p full) remote_ts local_ts))
        ≡ one_way p.mode (not full && p.filtered_delay_valid)
  unfolding tsproc_update_offset tsproc_reset tsproc_down_ts
  tsproc_down_ts-after_reset p true remote_ts local_ts zr zl =
      rw (zr, zl)
        (one_way-delays p.mode (tsproc_down_ts k (tsproc_reset k p true) remote_ts local_ts)
          zero_is_zero)
  tsproc_down_ts-after_reset p false remote_ts local_ts zr zl =
      rw (zr, zl)
        (one_way-delays p.mode (tsproc_down_ts k (tsproc_reset k p false) remote_ts local_ts)
          zero_is_zero)
