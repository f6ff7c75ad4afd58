-- ===== src/Tests/Tables.antt =====
-- The hash table, the leap second table and the comparison of datasets.
use lyp_lyl.Prelude.{
  leb, if◌then◌else◌, ℕ, ◌+◌, ◌*◌, ◌≡◌, refl, ◌↔◌, ◌⊎◌, Bool, true, false, not, ◌&&◌, none, some,
  List, [], ◌∷◌, arith,
}
use lyp_lyl.Prelude.Int.{pos}
use lyp_lyl.Hash.{Key, key_eq, hash_create, is_some, hash_insert, hash_lookup}
use lyp_lyl.Hash.Laws.{hash_lookup-hash_insert, hash_insert-refused}
use lyp_lyl.Lstab.{
  epoch_marker_init, read_loop, lstab_read, update_leapsecond_table, search_epoch, lookup_epoch,
  lstab_utc2tai, init_loop, lstab_init, EpochMarker, Lstab, Line, expiration, leap, other, LeapFile,
  valid, unknown,
}
use lyp_lyl.Lstab.Search.{InEpoch, search_epoch-InEpoch}
use lyp_lyl.Lstab.History.{answer, lstab_utc2tai-history}
use lyp_lyl.Lstab.Update.{read_loop-entries, lstab_utc2tai-failed}
use lyp_lyl.Telecom.{memcmp, telecom_dscmp, Dataset, Sign, less, equal, greater, Bmc}
use lyp_lyl.Telecom.Laws.{opposite, criteria, telecom_dscmp-criteria, telecom_dscmp-swap}

abbrev eth0 : Key
eth0 = b'e' ∷ b't' ∷ b'h' ∷ b'0' ∷ []

abbrev eth1 : Key
eth1 = b'e' ∷ b't' ∷ b'h' ∷ b'1' ∷ []

hash_lookup-hash_insert_example :
    hash_lookup (hash_insert {A = ℕ} true hash_create eth0 7).0 eth1 ≡ (
      if key_eq eth0 eth1 && not (is_some (hash_lookup {A = ℕ} hash_create eth0))
      then some 7
      else hash_lookup {A = ℕ} hash_create eth1)
hash_lookup-hash_insert_example = hash_lookup-hash_insert {A = ℕ} hash_create eth0 7 eth1

hash_insert-refused_test :
    ((hash_insert {A = ℕ} false hash_create eth0 7).1 ≡ false)
    ↔ ((is_some (hash_lookup {A = ℕ} hash_create eth0) ≡ true) ⊎ (◌≡◌ {A = Bool} false false))
hash_insert-refused_test = hash_insert-refused {A = ℕ} hash_create eth0 7 false

abbrev two_epochs : ℕ → EpochMarker
two_epochs i = record { offset = pos i; ntp = 0; tai = 0; utc = 100 * i }

search_epoch-InEpoch_test : (search_epoch two_epochs 2 150 ≡ some 1) ↔ InEpoch two_epochs 2 150 1
search_epoch-InEpoch_test = search_epoch-InEpoch two_epochs 150 2 1 (λ i j p q. omega arith)

abbrev no_file : LeapFile
no_file = record { mtime = none; lines = none }

-- Noon of 1 January 2017, in the last epoch of the table.
lstab_utc2tai-history_example :
    lstab_utc2tai no_file lstab_init 1483272000 ≡ (lstab_init, answer 27 1483272000)
unfolding lstab_init init_loop epoch_marker_init
lstab_utc2tai-history_example =
    lstab_utc2tai-history no_file 1483272000 27 (omega arith, omega arith, omega arith)

noon_2017 : (lstab_utc2tai no_file lstab_init 1483272000).1 ≡ valid (pos 37)
unfolding lstab_utc2tai update_leapsecond_table lookup_epoch search_epoch lstab_init init_loop
    epoch_marker_init
noon_2017 = refl

abbrev lines_2017 : List Line
lines_2017 =
    other ∷ expiration 3944332800 ∷ leap 3644697600 (pos 36) ∷ leap 3692217600 (pos 37) ∷ []

read_loop-entries_test :
    (read_loop lines_2017 0 lstab_init).0.lstab (0 + 1) ≡ epoch_marker_init 3692217600 (pos 37)
read_loop-entries_test =
    read_loop-entries lines_2017 0 lstab_init 1 (omega arith) 3692217600 (pos 37) refl

abbrev from_file : Lstab
from_file = record {
  lstab = two_epochs;
  expiration_utc = 500;
  leapfile = true;
  lsfile_mtime = 1;
  length = 2;
}

abbrev unreadable : LeapFile
unreadable = record { mtime = some 2; lines = none }

lstab_utc2tai-failed_test :
    ((lstab_utc2tai unreadable from_file 150).1 ≡ unknown)
    × ((lstab_utc2tai unreadable from_file 150).0.length ≡ 0)
unfolding lstab_read
lstab_utc2tai-failed_test =
    lstab_utc2tai-failed unreadable from_file 2 150 refl refl (omega arith) refl

abbrev plain : Bmc Sign
plain = record { same = equal; a_better = less; b_better = greater; dscmp2 = λ p q. equal }

abbrev clocks : ℕ → Dataset
clocks p = record {
  clock_class = 6;
  clock_accuracy = 33;
  offset_scaled_log_variance = 20061;
  priority2 = 128;
  local_priority = p;
  identity = p ∷ [];
}

telecom_dscmp-criteria_example :
    telecom_dscmp plain clocks (some 1) (some 2)
    ≡ elim (memcmp (criteria (clocks 1)) (criteria (clocks 2))) [
      | less ↦ plain.a_better
      | greater ↦ plain.b_better
      | equal ↦
          if leb (clocks 1).clock_class 127
          then plain.dscmp2 1 2
          else elim (memcmp (clocks 1).identity (clocks 2).identity) [
            | less ↦ plain.a_better
            | greater ↦ plain.b_better
            | equal ↦ plain.dscmp2 1 2
          ]
    ]
telecom_dscmp-criteria_example = telecom_dscmp-criteria plain clocks 1 2 (omega arith)

telecom_dscmp-swap_test :
    telecom_dscmp plain clocks (some 2) (some 1)
    ≡ opposite (telecom_dscmp plain clocks (some 1) (some 2))
telecom_dscmp-swap_test =
    telecom_dscmp-swap plain clocks opposite refl refl refl (λ p q. refl) (λ p q. refl) (some 1)
      (some 2)
