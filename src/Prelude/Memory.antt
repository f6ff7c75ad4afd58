-- ===== src/Prelude/Memory.antt =====
-- An array of the program as a function from indices, with a write at one index.
use Prim.Native.Nat.{ℕ}
use lyp_lyl.Prelude.Tests.{◌==◌, if◌then◌else◌}

abbrev pub write {ℓ} : {A : Type ℓ} → (ℕ → A) → ℕ → A → ℕ → A
write f i v j = if i == j then v else f j
