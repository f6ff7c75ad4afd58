-- ===== src/Util/Arrays.antt =====
-- The room of the growing arrays.

use lyp_lyl.Prelude.{
  ltb, if◌then◌else◌, Bool-cases, if-both, length, length-append, ℕ, zero, suc, ◌+◌, ◌*◌, ◌≤◌, ◌<◌,
  ◌≡◌, refl, sym, subst, ◌∙◌, inl, inr, true, false, List, ◌++◌, arith,
}
use lyp_lyl.Util.{double_until, parray_extend}

-- The fuel is enough where it makes up for what is missing.
double_until-enough :
    (fuel alloced needed : ℕ)
    → 0 < alloced
    → needed ≤ alloced + fuel
    → needed ≤ double_until fuel alloced needed
unfolding double_until
double_until-enough zero alloced needed p h = omega (arith, h)
double_until-enough (suc fuel) alloced needed p h =
    if-both (λ (r : ℕ). needed ≤ r) (ltb alloced needed)
      (λ l. double_until-enough fuel (alloced * 2) needed (omega (arith, p)) (omega (arith, p, h)))
      (λ l. ground (arith, l))

-- The fuel does not matter where it is enough.
double_until-fuel :
    (f g alloced needed : ℕ)
    → 0 < alloced
    → needed ≤ alloced + f
    → needed ≤ alloced + g
    → double_until f alloced needed ≡ double_until g alloced needed
unfolding double_until
double_until-fuel zero zero alloced needed p hf hg = refl
double_until-fuel zero (suc g) alloced needed p hf hg =
    let e : ltb alloced needed ≡ false = ground (arith, hf) in rw e refl
double_until-fuel (suc f) zero alloced needed p hf hg =
    let e : ltb alloced needed ≡ false = ground (arith, hg) in rw e refl
double_until-fuel (suc f) (suc g) alloced needed p hf hg = elim (Bool-cases (ltb alloced needed)) [
  | inl e ↦ rw e (
      double_until-fuel f g (alloced * 2) needed (omega (arith, p)) (omega (arith, p, hf))
        (omega (arith, p, hg)))
  | inr e ↦ rw e refl
]

one_doubling :
    (g alloced needed : ℕ)
    → 0 < alloced
    → alloced < needed
    → needed ≤ alloced + g
    → double_until g (alloced * 2) needed ≡ double_until g alloced needed
unfolding double_until
one_doubling zero alloced needed p l h = absurd (omega (arith, l, h))
one_doubling (suc g) alloced needed p l h =
    let e : ltb alloced needed ≡ true = ground (arith, l) in
    rw e (
      double_until-fuel (suc g) g (alloced * 2) needed (omega (arith, p)) (omega (arith, p, h))
        (omega (arith, p, h)))

-- Doubling up to a length and on to a larger one is doubling up to the larger one.
double_until-twice :
    (f g alloced len needed : ℕ)
    → 0 < alloced
    → len ≤ alloced + f
    → len ≤ needed
    → needed ≤ alloced + g
    → double_until g (double_until f alloced len) needed ≡ double_until g alloced needed
unfolding double_until
double_until-twice zero g alloced len needed p hf l hg = refl
double_until-twice (suc f) g alloced len needed p hf l hg = elim (Bool-cases (ltb alloced len)) [
  | inl e ↦
      let less : alloced < needed = ground (arith, e, l) in
      rw e (
        double_until-twice f g (alloced * 2) len needed (omega (arith, p)) (omega (arith, p, hf)) l
          (omega (arith, p, hg))
        ∙ one_doubling g alloced needed p less hg)
  | inr e ↦ rw e refl
]

not_less :
    (f alloced needed : ℕ) → ltb alloced needed ≡ false → double_until f alloced needed ≡ alloced
unfolding double_until
not_less zero alloced needed e = refl
not_less (suc f) alloced needed e = rw e refl

-- The room of parray_extend, of a length to a larger one.
abbrev room : ℕ → ℕ → ℕ
room len needed =
    let alloced = double_until len 1 len in
    if ltb alloced needed then double_until needed alloced needed else alloced

room-double_until :
    (len more : ℕ) → room len (len + more) ≡ double_until (len + more) 1 (len + more)
room-double_until len more =
    let alloced = double_until len 1 len in
    let needed = len + more in
    let twice =
      double_until-twice len needed 1 len needed (omega arith) (omega arith) (omega arith)
        (omega arith) in
    elim (Bool-cases (ltb alloced needed)) [
      | inl e ↦ rw e twice
      | inr e ↦ rw e (sym (not_less needed alloced needed e) ∙ twice)
    ]

-- The room that a call leaves is what the next call takes it to be, from the length alone, and it is enough for the entries and for the NULL behind them.
pub parray_extend-room :
    {A : Type 0} (a ps : List A)
    → let done = parray_extend a ps in
      let len = length done.0 + 1 in (done.1 ≡ double_until len 1 len) × (len ≤ done.1)
unfolding parray_extend
parray_extend-room a ps =
    let len = length a + 1 in
    let e : length (a ++ ps) + 1 ≡ len + length ps = omega (arith, length-append a ps) in
    let enough =
      double_until-enough (len + length ps) 1 (len + length ps) (omega arith) (omega arith) in
    let done = room-double_until len (length ps) in
    rw e (done, subst (λ r. len + length ps ≤ r) (sym done) enough)
