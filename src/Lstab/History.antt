-- ===== src/Lstab/History.antt =====
-- The built-in table of lstab_init, and the conversion by it.
use lyp_lyl.Prelude.{
  ltb, ◌==◌, if◌then◌else◌, ltb→lt, ℕ, zero, suc, ◌+◌, ◌-◌, ◌<◌, ◌≡◌, refl, ap, ◌∙◌, Bool, true,
  false, ◌&&◌, some, arith,
}
use lyp_lyl.Prelude.Int.{pos_part, neg_part, pos}
use lyp_lyl.Lstab.{
  epoch_marker_init, update_leapsecond_table, search_epoch, lookup_epoch, lstab_utc2tai, init_loop,
  lstab_init, EpochMarker, Lstab, LeapFile, Result, valid, expired, ambiguous,
}
use lyp_lyl.Lstab.Search.{Rising, InEpoch, search_epoch-InEpoch}

-- A test of the table's entries, from the last one down.
abbrev tested : (ℕ → Bool) → ℕ → Bool
tested ok zero = true
tested ok (suc k) = if ok k then tested ok k else false

tested_entry : (ok : ℕ → Bool) (size i : ℕ) → i < size → tested ok size ≡ true → ok i ≡ true
tested_entry ok (suc k) i below pass = ground (arith, tested_entry ok k i)
tested_entry ok zero i below pass = absurd (omega arith)

abbrev marker : ℕ → EpochMarker
marker = lstab_init.lstab

abbrev rises : ℕ → Bool
rises j = tested (λ i. ltb (marker i).utc (marker j).utc) j

rising_table : tested rises 28 ≡ true
unfolding lstab_init init_loop epoch_marker_init
rising_table = refl

-- The epochs of the built-in table are in the order of time.
pub lstab_init-Rising : Rising lstab_init.lstab 28
lstab_init-Rising i j p q =
    let row = λ (k : ℕ). ltb (marker k).utc (marker j).utc in
    ltb→lt _ _ (tested_entry row j i p (tested_entry rises 28 j q rising_table))

abbrev agrees : ℕ → Bool
agrees k =
    (pos_part (marker k).offset == 10 + k)
    && (neg_part (marker k).offset == 0)
    && ((marker k).tai == (marker k).utc + (10 + k))

offset_entries : tested agrees 28 ≡ true
unfolding lstab_init init_loop epoch_marker_init
offset_entries = refl

offset_marker : (k : ℕ) → k < 28 → (marker k).offset ≡ pos (10 + k)
offset_marker k h = ground (arith, tested_entry agrees 28 k h offset_entries)

module _ (file : LeapFile) (t : ℕ) where
  builtin : lstab_utc2tai file lstab_init t ≡ (lstab_init, lookup_epoch lstab_init t)
  unfolding lstab_utc2tai update_leapsecond_table lstab_init
  builtin = refl

-- What the built-in table is to answer for a time in its k-th epoch: the offset 10 + k, marked as
-- ambiguous in the second before the next epoch, and as expired after 1735344000,
-- which is midnight of 28 December 2024.
abbrev pub answer : ℕ → ℕ → Result
answer k t =
    if ltb (suc k) 28 && t == (lstab_init.lstab (suc k)).utc - 1
    then ambiguous (pos (10 + k))
    else if ltb 1735344000 t
    then expired (pos (10 + k))
    else valid (pos (10 + k))

lookup_found :
    (tab : Lstab) (t k : ℕ)
    → search_epoch tab.lstab tab.length t ≡ some k
    → lookup_epoch tab t ≡ (
        if ltb (k + 1) tab.length && t == (tab.lstab (k + 1)).utc - 1
        then ambiguous (tab.lstab k).offset
        else if ltb tab.expiration_utc t
        then expired (tab.lstab k).offset
        else valid (tab.lstab k).offset)
unfolding lookup_epoch
lookup_found tab t k e = rw (e, lookup_epoch)

expiration_date : lstab_init.expiration_utc ≡ 1735344000
unfolding lstab_init
expiration_date = refl

size : lstab_init.length ≡ 28
unfolding lstab_init
size = refl

lookup-answer :
    (t k : ℕ) → k < 28 → search_epoch marker 28 t ≡ some k → lookup_epoch lstab_init t ≡ answer k t
lookup-answer t k h e =
    let e' : search_epoch marker lstab_init.length t ≡ some k = rw size e in
    let n : k + 1 ≡ suc k = omega arith in
    lookup_found lstab_init t k e' ∙ rw (size, expiration_date, offset_marker k h, n)

-- For every time in the k-th epoch of the built-in table, and whatever files there are, the
-- conversion gives the table's offset, 10 + k, and reports the second before the next leap second
-- as ambiguous and any other time after the table's expiration as expired.
pub lstab_utc2tai-history :
    (file : LeapFile) (t k : ℕ)
    → InEpoch lstab_init.lstab 28 t k
    → lstab_utc2tai file lstab_init t ≡ (lstab_init, answer k t)
lstab_utc2tai-history file t k h =
    builtin file t
    ∙ ap (λ (r : Result). (lstab_init, r))
        (lookup-answer t k h.0 ((search_epoch-InEpoch marker t 28 k lstab_init-Rising).1 h))
