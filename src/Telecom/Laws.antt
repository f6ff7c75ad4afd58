-- ===== src/Telecom/Laws.antt =====
-- The comparison is antisymmetric, and orders by the list of its criteria.
use lyp_lyl.Prelude.{
  leb, if◌then◌else◌, length, ℕ, ◌≡◌, refl, sym, ◌≢◌, Option, none, some, List, [], ◌∷◌, arith,
}
use lyp_lyl.Telecom.{memcmp, telecom_dscmp, Dataset, Sign, less, equal, greater, Bmc}

-- The order read from the other side.
abbrev pub opposite : Sign → Sign
opposite less = greater
opposite equal = equal
opposite greater = less

memcmp-opposite : (a b : List ℕ) → length a ≡ length b → memcmp b a ≡ opposite (memcmp a b)
unfolding memcmp
memcmp-opposite [] [] h = refl
memcmp-opposite [] (y ∷ b) h = absurd (omega arith)
memcmp-opposite (x ∷ a) [] h = absurd (omega arith)
memcmp-opposite (x ∷ a) (y ∷ b) h =
    let rest : memcmp b a ≡ opposite (memcmp a b) = memcmp-opposite a b (omega arith) in
    ground arith

-- The criteria of the comparison in their order, up to the identity.
abbrev pub criteria : Dataset → List ℕ
criteria d =
    d.clock_class ∷ d.clock_accuracy ∷ d.offset_scaled_log_variance ∷ d.priority2 ∷ d.local_priority
    ∷ []

module _ {R : Type 0} (bmc : Bmc R) (mem : ℕ → Dataset) where
  -- Two datasets at different addresses are compared by their criteria in lexicographic order, the
  -- smaller being the better; if all agree, by the paths when the class is at most 127, and by the
  -- identity and then the paths when it is above.
  pub telecom_dscmp-criteria :
      (p q : ℕ)
      → p ≢ q
      → telecom_dscmp bmc mem (some p) (some q)
        ≡ elim (memcmp (criteria (mem p)) (criteria (mem q))) [
          | less ↦ bmc.a_better
          | greater ↦ bmc.b_better
          | equal ↦
              if leb (mem p).clock_class 127
              then bmc.dscmp2 p q
              else elim (memcmp (mem p).identity (mem q).identity) [
                | less ↦ bmc.a_better
                | greater ↦ bmc.b_better
                | equal ↦ bmc.dscmp2 p q
              ]
        ]
  unfolding telecom_dscmp memcmp
  telecom_dscmp-criteria p q n = ground arith

  -- If the paths are compared antisymmetrically, so are the datasets, by whatever pointers: with
  -- the arguments swapped, the result is the mirrored one.
  pub telecom_dscmp-swap :
      (flip : R → R)
      → flip bmc.same ≡ bmc.same
      → flip bmc.a_better ≡ bmc.b_better
      → flip bmc.b_better ≡ bmc.a_better
      → ((p q : ℕ) → bmc.dscmp2 q p ≡ flip (bmc.dscmp2 p q))
      → ((p q : ℕ) → length (mem p).identity ≡ length (mem q).identity)
      → (a b : Option ℕ) → telecom_dscmp bmc mem b a ≡ flip (telecom_dscmp bmc mem a b)
  unfolding telecom_dscmp
  telecom_dscmp-swap flip fs fa fb paths sized none none = sym fs
  telecom_dscmp-swap flip fs fa fb paths sized none (some q) = sym fb
  telecom_dscmp-swap flip fs fa fb paths sized (some p) none = sym fa
  telecom_dscmp-swap flip fs fa fb paths sized (some p) (some q) =
      ground (arith, paths p q, memcmp-opposite (mem p).identity (mem q).identity (sized p q))
