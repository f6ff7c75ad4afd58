-- ===== src/Wire/Laws.antt =====
-- Fields and bytes correspond one to one.
use lyp_lyl.Prelude.{
  length, take, drop, length-append, All, take-append, drop-append, length-take, length-drop,
  take_add, All-take, All-drop, ℕ, zero, suc, ◌+◌, ◌*◌, ◌/◌, ◌%◌, ◌^◌, ◌≤◌, ◌<◌, ◌≡◌, refl, sym, ap,
  subst, ◌∙◌, List, [], ◌∷◌, ◌++◌, arith,
}
use mathlib.Core.List.{append_assoc}
use native.Mathlib.Nat.{
  add-mul-div_left, div-eq_of_lt, one-le-pow, pow-suc, div-add-mod, mod-lt, add-mul-mod_self_left,
  mod-eq_of_lt,
}
use lyp_lyl.Wire.{to_bytes, of_bytes, Layout, size_of, read_fields, write_fields}

abbrev pub IsByte : ℕ → Type 0
IsByte b = b < 256

-- Each number fits its field, and there is one for each field.
abbrev pub Fit : Layout → List ℕ → Type 0
Fit [] [] = Unit {0}
Fit [] (v ∷ vs) = ⊥
Fit (w ∷ ws) [] = ⊥
Fit (w ∷ ws) (v ∷ vs) = (v < 256 ^ w) × Fit ws vs

pub length-to_bytes : (w v : ℕ) → length (to_bytes w v) ≡ w
unfolding to_bytes
length-to_bytes zero v = refl
length-to_bytes (suc w) v = ap suc (length-to_bytes w v)

pub to_bytes-IsByte : (w v : ℕ) → All IsByte (to_bytes w v)
unfolding to_bytes
to_bytes-IsByte zero v = tt
to_bytes-IsByte (suc w) v = (omega arith, to_bytes-IsByte w v)

power_pos : (w : ℕ) → 0 < 256 ^ w
power_pos w = one-le-pow w 256 (omega arith)

spread : (k t s r : ℕ) → k * (256 * t + s) + r ≡ s * k + r + k * 256 * t
spread k t s r = grind arith

-- The digit above `k`, and what is below it.
digit_mod : (k v : ℕ) → 0 < k → v % (k * 256) ≡ v / k % 256 * k + v % k
digit_mod k v h =
    let q = v / k in
    let x = q % 256 * k + v % k in
    let parts : v ≡ x + k * 256 * (q / 256) =
      sym (div-add-mod v k)
      ∙ (ap (λ t. k * t + v % k) (sym (div-add-mod q 256))
          ∙ spread k (q / 256) (q % 256) (v % k)) in
    let small : x < k * 256 = grind (arith, mod-lt v h, mod-lt q {m = 256}) in
    ap (λ t. t % (k * 256)) parts
    ∙ (add-mul-mod_self_left x (k * 256) (q / 256) ∙ mod-eq_of_lt small)

of_bytes-to_bytes_mod : (w v : ℕ) → of_bytes (to_bytes w v) ≡ v % 256 ^ w
unfolding to_bytes of_bytes
of_bytes-to_bytes_mod zero v = omega arith
of_bytes-to_bytes_mod (suc w) v = rw (length-to_bytes w v) (
    rw (of_bytes-to_bytes_mod w v) (rw (pow-suc 256 w) (sym (digit_mod (256 ^ w) v (power_pos w)))))

pub of_bytes-to_bytes : (w v : ℕ) → v < 256 ^ w → of_bytes (to_bytes w v) ≡ v
of_bytes-to_bytes w v h = of_bytes-to_bytes_mod w v ∙ mod-eq_of_lt h

pub of_bytes-lt : (bs : List ℕ) → All IsByte bs → of_bytes bs < 256 ^ length bs
unfolding of_bytes
of_bytes-lt [] h = omega arith
of_bytes-lt (b ∷ bs) h = rw (pow-suc 256 (length bs)) (grind (arith, h.0, of_bytes-lt bs h.1))

regroup : (a k v : ℕ) → a * (k * 256) + v ≡ v + k * (256 * a)
regroup a k v = grind arith

swap_sum : (b k r : ℕ) → b * k + r ≡ r + k * b
swap_sum b k r = grind arith

-- Bytes above those that are read do not matter.
to_bytes-above : (w v a : ℕ) → to_bytes w (a * 256 ^ w + v) ≡ to_bytes w v
unfolding to_bytes
to_bytes-above zero v a = refl
to_bytes-above (suc w) v a =
    let k = 256 ^ w in
    let there : a * 256 ^ suc w + v ≡ v + k * (256 * a) =
      ap (λ t. a * t + v) (pow-suc 256 w) ∙ regroup a k v in
    let here : v + k * (256 * a) ≡ 256 * a * k + v = omega arith in
    let digit : (v + k * (256 * a)) / k % 256 ≡ v / k % 256 =
      ap (λ t. t % 256) (add-mul-div_left v (256 * a) (power_pos w)) ∙ omega arith in
    rw there
      (rw digit (ap (λ t. v / k % 256 ∷ t) (ap (to_bytes w) here ∙ to_bytes-above w v (256 * a))))

pub to_bytes-of_bytes : (bs : List ℕ) → All IsByte bs → to_bytes (length bs) (of_bytes bs) ≡ bs
unfolding to_bytes of_bytes
to_bytes-of_bytes [] h = refl
to_bytes-of_bytes (b ∷ bs) h =
    let k = 256 ^ length bs in
    let rest = of_bytes bs in
    let low : rest < k = of_bytes-lt bs h.1 in
    let top : (b * k + rest) / k % 256 ≡ b =
      ap (λ t. t / k % 256) (swap_sum b k rest)
      ∙ (ap (λ t. t % 256)
            (add-mul-div_left rest b (power_pos (length bs)) ∙ ap (λ t. t + b) (div-eq_of_lt low))
          ∙ omega (arith, h.0)) in
    rw top (rw (to_bytes-above (length bs) rest b) (rw (to_bytes-of_bytes bs h.1) refl))

pub length-write_fields :
    (ws : Layout) (vs : List ℕ) → Fit ws vs → length (write_fields ws vs) ≡ size_of ws
unfolding write_fields size_of
length-write_fields [] [] h = refl
length-write_fields [] (v ∷ vs) h = refl
length-write_fields (w ∷ ws) [] h = absurd h
length-write_fields (w ∷ ws) (v ∷ vs) h =
    length-append (to_bytes w v) (write_fields ws vs)
    ∙ omega (arith, length-to_bytes w v, length-write_fields ws vs h.1)

-- What is written is read again, whatever follows it.
pub read_fields-write_fields :
    (ws : Layout) (vs rest : List ℕ) → Fit ws vs → read_fields ws (write_fields ws vs ++ rest) ≡ vs
unfolding read_fields write_fields
read_fields-write_fields [] [] rest h = refl
read_fields-write_fields [] (v ∷ vs) rest h = absurd h
read_fields-write_fields (w ∷ ws) [] rest h = absurd h
read_fields-write_fields (w ∷ ws) (v ∷ vs) rest h =
    let bytes = to_bytes w v in
    let after = write_fields ws vs ++ rest in
    let joined : (bytes ++ write_fields ws vs) ++ rest ≡ bytes ++ after =
      append_assoc bytes (write_fields ws vs) rest in
    let wide : length bytes ≡ w = length-to_bytes w v in
    let first : take w (bytes ++ after) ≡ bytes =
      subst (λ n. take n (bytes ++ after) ≡ bytes) wide (take-append bytes after) in
    let others : drop w (bytes ++ after) ≡ after =
      subst (λ n. drop n (bytes ++ after) ≡ after) wide (drop-append bytes after) in
    rw joined (
      rw first (
        rw others (
          rw (of_bytes-to_bytes w v h.0)
            (ap (λ t. v ∷ t) (read_fields-write_fields ws vs rest h.1)))))

-- What is read is what the bytes spell.
pub write_fields-read_fields :
    (ws : Layout) (bs : List ℕ)
    → All IsByte bs
    → size_of ws ≤ length bs
    → write_fields ws (read_fields ws bs) ≡ take (size_of ws) bs
unfolding read_fields write_fields size_of
write_fields-read_fields [] bs h l = refl
write_fields-read_fields (w ∷ ws) bs h l =
    let first = take w bs in
    let wide : length first ≡ w = length-take w bs (omega arith) in
    let again : to_bytes w (of_bytes first) ≡ first =
      subst (λ n. to_bytes n (of_bytes first) ≡ first) wide
        (to_bytes-of_bytes first (All-take IsByte w bs h)) in
    let others =
      write_fields-read_fields ws (drop w bs) (All-drop IsByte w bs h)
        (omega (arith, length-drop w bs)) in
    rw again (rw others (sym (take_add w (size_of ws) bs)))

pub read_fields-Fit :
    (ws : Layout) (bs : List ℕ)
    → All IsByte bs
    → size_of ws ≤ length bs
    → Fit ws (read_fields ws bs)
unfolding read_fields size_of
read_fields-Fit [] bs h l = tt
read_fields-Fit (w ∷ ws) bs h l =
    let wide : length (take w bs) ≡ w = length-take w bs (omega arith) in
    (
      subst (λ n. of_bytes (take w bs) < 256 ^ n) wide
          (of_bytes-lt (take w bs) (All-take IsByte w bs h)),
      read_fields-Fit ws (drop w bs) (All-drop IsByte w bs h) (omega (arith, length-drop w bs)),
    )
