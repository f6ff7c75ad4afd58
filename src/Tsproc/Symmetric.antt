-- ===== src/Tsproc/Symmetric.antt =====
-- The delay and the offset that are measured where a message takes as long to the master as back.

use lyp_lyl.Prelude.{
  if◌then◌else◌, ◌*◌, ◌^◌, ◌<◌, ◌≡◌, refl, ap, ◌∙◌, Bool, true, false, Option, none, some, arith,
}
use lyp_lyl.Tmv.{Tmv, tmv_add, tmv_div, tmv_is_zero, tmv_sub}
use lyp_lyl.Tsproc.{
  tsproc_down_ts, tsproc_up_ts, get_raw_delay, delays, offset_by, tsproc_update_offset, TsprocMode,
  filter, raw, filter_weight, raw_weight, Doubles, Tsproc,
}

module _ where
  -- What is between the sending of one message and the reception of the other, on both sides.
  pub tmv_add-exchanged :
      (sent asked delay offset : Tmv)
      → sent < 2 ^ 64
      → asked < 2 ^ 64
      → offset < 2 ^ 64
      → delay < 2 ^ 62
      → tmv_add
          (tmv_sub (tmv_add (tmv_add sent delay) offset) asked)
          (tmv_sub (tmv_add (tmv_sub asked offset) delay) sent)
        ≡ 2 * delay
  unfolding tmv_add tmv_sub
  tmv_add-exchanged sent asked delay offset hs ha ho hd = omega arith

  pub tmv_div-twice : (delay : Tmv) → delay < 2 ^ 62 → tmv_div (2 * delay) 2 ≡ delay
  unfolding tmv_div
  tmv_div-twice delay hd = ground arith

  pub tmv_sub-received :
      (sent delay offset rest : Tmv)
      → sent < 2 ^ 64
      → rest < 2 ^ 64
      → tmv_sub (tmv_sub (tmv_add (tmv_add sent delay) offset) sent) rest
        ≡ tmv_sub (tmv_add delay offset) rest
  unfolding tmv_add tmv_sub
  tmv_sub-received sent delay offset rest hs hr = omega arith

  pub tmv_sub-delay :
      (delay offset : Tmv)
      → offset < 2 ^ 64
      → delay < 2 ^ 62
      → tmv_sub (tmv_add delay offset) delay ≡ offset
  unfolding tmv_add tmv_sub
  tmv_sub-delay delay offset ho hd = omega arith

abbrev pub uses_raw_delay : TsprocMode → Bool
uses_raw_delay filter = false
uses_raw_delay filter_weight = false
uses_raw_delay raw = true
uses_raw_delay raw_weight = true

abbrev pub offset_part {ℓ} : {D : Type ℓ} → Option (Tmv × D) → Option Tmv
offset_part none = none
offset_part (some (t, w)) = some t

module _ {D : Type 0} (k : Doubles D) where
  -- The master sends at `sent`, and the slave asks at `asked` by its own clock, which is `offset`
  -- ahead of the master's; a message is on its way for `delay`.
  abbrev pub exchanged : Tsproc D → Tmv → Tmv → Tmv → Tmv → Tsproc D
  exchanged p sent asked delay offset =
      tsproc_up_ts k (tsproc_down_ts k p sent (tmv_add (tmv_add sent delay) offset)) asked
        (tmv_add (tmv_sub asked offset) delay)

  -- Where the rates of the clocks are the same, the delay of a symmetric path is measured exactly, whatever the clocks show; the time stamps may wrap around.
  pub get_raw_delay-exchanged :
      (p : Tsproc D) (sent asked delay offset : Tmv)
      → k.is_one p.clock_rate_ratio ≡ true
      → sent < 2 ^ 64
      → asked < 2 ^ 64
      → offset < 2 ^ 64
      → delay < 2 ^ 62
      → get_raw_delay k (exchanged p sent asked delay offset) ≡ delay
  unfolding get_raw_delay tsproc_up_ts tsproc_down_ts
  get_raw_delay-exchanged p sent asked delay offset same hs ha ho hd =
      rw (same, tmv_add-exchanged sent asked delay offset hs ha ho hd) (tmv_div-twice delay hd)

  -- What is taken from the difference of the first two time stamps, by the mode.
  pub delays-known :
      (mode : TsprocMode) (q : Tsproc D) (delay : Tmv)
      → tmv_is_zero q.t3 ≡ false
      → q.filtered_delay_valid ≡ true
      → get_raw_delay k q ≡ delay
      → offset_part (offset_by k q (delays k mode q))
        ≡ some
            (tmv_sub (tmv_sub q.t2 q.t1) (if uses_raw_delay mode then delay else q.filtered_delay))
  delays-known filter q delay asked known measured = rw known refl
  delays-known raw q delay asked known measured = rw (asked, measured) refl
  delays-known raw_weight q delay asked known measured = rw (asked, measured) refl
  delays-known filter_weight q delay asked known measured = rw (asked, known) refl

  -- The two cases of the offset.
  pub tmv_sub-by_mode :
      (by_raw : Bool) (sent delay offset filtered : Tmv)
      → sent < 2 ^ 64
      → offset < 2 ^ 64
      → delay < 2 ^ 62
      → filtered < 2 ^ 64
      → tmv_sub
          (tmv_sub (tmv_add (tmv_add sent delay) offset) sent)
          (if by_raw then delay else filtered)
        ≡ (if by_raw then offset else tmv_sub (tmv_add delay offset) filtered)
  tmv_sub-by_mode true sent delay offset filtered hs ho hd hf =
      tmv_sub-received sent delay offset delay hs (omega arith) ∙ tmv_sub-delay delay offset ho hd
  tmv_sub-by_mode false sent delay offset filtered hs ho hd hf =
      tmv_sub-received sent delay offset filtered hs hf

  -- The offset that is measured over a path that takes `delay` both ways, where the rates of the clocks are the same, no time stamp of the exchange is zero and a filtered delay is known: in the raw modes it is exactly the offset of the clock, and in the filtered modes it is off by what the filtered delay differs from the delay. All time stamps may wrap around.
  pub tsproc_update_offset-exchanged :
      (p : Tsproc D) (sent asked delay offset : Tmv)
      → k.is_one p.clock_rate_ratio ≡ true
      → p.filtered_delay_valid ≡ true
      → sent < 2 ^ 64
      → asked < 2 ^ 64
      → offset < 2 ^ 64
      → delay < 2 ^ 62
      → p.filtered_delay < 2 ^ 64
      → tmv_is_zero sent ≡ false
      → tmv_is_zero asked ≡ false
      → tmv_is_zero (tmv_add (tmv_add sent delay) offset) ≡ false
      → offset_part (tsproc_update_offset k (exchanged p sent asked delay offset))
        ≡ some (
            if uses_raw_delay p.mode
            then offset
            else tmv_sub (tmv_add delay offset) p.filtered_delay)
  unfolding tsproc_update_offset tsproc_up_ts tsproc_down_ts
  tsproc_update_offset-exchanged p sent asked delay offset same known hs ha ho hd hf zs za zr =
      let measured = get_raw_delay-exchanged p sent asked delay offset same hs ha ho hd in
      let q = exchanged p sent asked delay offset in
      rw (zs, zr)
        (delays-known p.mode q delay za known measured
          ∙ ap some (
              tmv_sub-by_mode (uses_raw_delay p.mode) sent delay offset p.filtered_delay hs ho hd
                hf))
