-- ===== src/Util/Leaps.antt =====
-- What a leap second and the UTC offset have to do with each other.

use lyp_lyl.Prelude.{zero, suc, ◌≡◌, refl, true, arith}
use lyp_lyl.Prelude.Int.{◌+ℤ◌, ℤ, pos, negsuc}
use lyp_lyl.Util.{is_zero, Leap}

is_zero-pos : (i : ℤ) → is_zero i ≡ true → i ≡ pos 0
is_zero-pos (pos zero) h = refl
is_zero-pos (pos (suc n)) h = absurd (ground (arith, h))
is_zero-pos (negsuc n) h = absurd (ground (arith, h))

abbrev Consistent : ℤ → Leap → Leap → Type 0
Consistent s l l' =
    (l'.utc_offset +ℤ l'.leap ≡ l.utc_offset +ℤ l.leap) × (is_zero l'.leap ≡ is_zero s)
