-- ===== src/Telecom.antt =====
-- telecom.c: the dataset comparison of the telecom profiles (the alternate BMCA of ITU-T G.8275).
-- A dataset is passed by pointer: `none` is NULL, an address is a number, and `mem` holds the
-- dataset at each address. dscmp2 and the result constants come from bmc.c and bmc.h, which are
-- not in the repository: they are the parameters.
pub mod Laws
use lyp_lyl.Prelude.{ltb, leb, ◌==◌, if◌then◌else◌, ℕ, ◌*◌, Option, none, some, List, [], ◌∷◌}

-- The fields of struct dataset (ds.h) that telecom_dscmp reads.
pub record Dataset : Type 0 where
  pub clock_class : ℕ
  pub clock_accuracy : ℕ
  pub offset_scaled_log_variance : ℕ
  pub priority2 : ℕ
  pub local_priority : ℕ
  pub identity : List ℕ

-- memcmp of two byte strings of one length: less, equal or greater.
pub data Sign : Type 0 where
  less equal greater : Sign

unfoldable pub memcmp : List ℕ → List ℕ → Sign
memcmp [] b = equal
memcmp (x ∷ a) [] = equal
memcmp (x ∷ a) (y ∷ b) = if ltb x y then less else if ltb y x then greater else memcmp a b

-- What bmc.h and bmc.c give: the results, and the comparison of the paths.
pub record Bmc (R : Type 0) : Type 0 where
  pub same : R
  pub a_better : R
  pub b_better : R
  pub dscmp2 : ℕ → ℕ → R

module _ {R : Type 0} (bmc : Bmc R) (mem : ℕ → Dataset) where
  open bmc use {same, a_better, b_better, dscmp2}

  -- One rung of the ladder: the smaller value wins.
  abbrev rung : ℕ → ℕ → R → R
  rung x y rest = if ltb x y then a_better else if ltb y x then b_better else rest

  compare_identity : ℕ → ℕ → R
  compare_identity p q = elim (memcmp (mem p).identity (mem q).identity) [
    | equal ↦ dscmp2 p q
    | less ↦ a_better
    | greater ↦ b_better
  ]

  compare_datasets : ℕ → ℕ → R
  compare_datasets p q =
      let a = mem p in
      let b = mem q in
      rung a.clock_class b.clock_class (
        rung a.clock_accuracy b.clock_accuracy (
          rung a.offset_scaled_log_variance b.offset_scaled_log_variance (
            rung a.priority2 b.priority2 (
              rung a.local_priority b.local_priority
                (if leb a.clock_class 127 then dscmp2 p q else compare_identity p q)))))

  -- The tests on the pointers come first.
  unfoldable pub telecom_dscmp : Option ℕ → Option ℕ → R
  unfolding compare_datasets compare_identity
  telecom_dscmp none none = same
  telecom_dscmp (some p) none = a_better
  telecom_dscmp none (some q) = b_better
  telecom_dscmp (some p) (some q) = if p == q then same else compare_datasets p q
