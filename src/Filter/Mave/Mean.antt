-- ===== src/Filter/Mave/Mean.antt =====
-- The result of the moving average after any samples.
use lyp_lyl.Prelude.{
  length, take, drop, replicate, length-replicate, All, ℕ, zero, suc, ◌+◌, ◌-◌, ◌%◌, ◌^◌, ◌≤◌, ◌<◌,
  ◌≡◌, refl, sym, ap, ap₂, ◌∙◌, List, [], ◌∷◌, ◌++◌, arith,
}
use lyp_lyl.Tmv.{Tmv, tmv_div}
use lyp_lyl.Filter.Mave.{mave_create, mave_accumulate, feed, Mave}
use lyp_lyl.Filter.Mave.Window.{
  total, ring, ring-mave_accumulate, oldest, mave_accumulate-IsValid, IsValid,
}
use mathlib.Core.List.{append_assoc, append-nil}
use Prim.Native.Nat.{min}

total-pad : (k n : ℕ) (xs : List ℕ) → total (drop k (replicate n 0 ++ xs)) ≡ total (drop (k - n) xs)
total-pad k zero xs = let e : k - 0 ≡ k = omega arith in rw e
total-pad zero (suc n) xs =
    let e : 0 - suc n ≡ 0 - n = omega arith in
    rw (e, ← total-pad zero n xs) (unfold total in omega arith)
total-pad (suc k) (suc n) xs =
    let e : suc k - suc n ≡ k - n = omega arith in rw (e, ← total-pad k n xs)

All-replicate : (n : ℕ) → All (λ x. x < 2 ^ 64) (replicate n 0)
All-replicate zero = tt
All-replicate (suc n) = (omega arith, All-replicate n)

total-replicate : (n : ℕ) → total (replicate n 0) ≡ 0
unfolding total
total-replicate zero = refl
total-replicate (suc n) = omega (arith, total-replicate n)

mave_create-IsValid : (len : ℕ) → 0 < len → IsValid (mave_create len)
unfolding mave_create
mave_create-IsValid len h = record {
  sized = length-replicate len 0;
  inside = h;
  words = All-replicate len;
  summed = rw (append-nil {A = ℕ} (replicate len 0), total-replicate len);
}

ring-feed :
    (vs : List Tmv) (m : Mave)
    → IsValid m
    → All (λ x. x < 2 ^ 64) vs
    → ring (feed m vs) ≡ drop (length vs) (ring m ++ vs)
unfolding feed
ring-feed [] m ok h = sym (append-nil (ring m))
ring-feed (v ∷ vs) m ok h =
    let rest = drop (suc m.index) m.val ++ take m.index m.val in
    rw (
      ring-feed vs (mave_accumulate m v).0 (mave_accumulate-IsValid m v ok h.0) h.1,
      ring-mave_accumulate m v ok h.0,
      oldest m v ok h.0,
      append_assoc rest (v ∷ []) vs,
    )

feed-IsValid :
    (vs : List Tmv) (m : Mave) → IsValid m → All (λ x. x < 2 ^ 64) vs → IsValid (feed m vs)
unfolding feed
feed-IsValid [] m ok h = ok
feed-IsValid (v ∷ vs) m ok h =
    feed-IsValid vs (mave_accumulate m v).0 (mave_accumulate-IsValid m v ok h.0) h.1

cnt-feed :
    (vs : List Tmv) (m : Mave) → m.cnt ≤ m.len → (feed m vs).cnt ≡ min (m.cnt + length vs) m.len
unfolding feed mave_accumulate
cnt-feed [] m h = omega arith
cnt-feed (v ∷ vs) m h = ground (arith, cnt-feed vs (mave_accumulate m v).0)

feed-append :
    (vs : List Tmv) (v : Tmv) (m : Mave) → feed m (vs ++ v ∷ []) ≡ (mave_accumulate (feed m vs) v).0
unfolding feed
feed-append [] v m = refl
feed-append (u ∷ vs) v m = feed-append vs v (mave_accumulate m u).0

-- The samples of which the filter is to give the mean: the last `len` of the list, or all of them.
abbrev pub last : ℕ → List Tmv → List Tmv
last len vs = drop (length vs - len) vs

-- The filter gives the mean of its last samples: fed any samples after its creation with a
-- positive length, its answer to one more is the 64 bit sum of the last `len` of them, or of all
-- while they are fewer, divided by their number.
pub mave_accumulate-mean :
    (len : ℕ) (vs : List Tmv) (v : Tmv)
    → 0 < len
    → All (λ x. x < 2 ^ 64) (vs ++ v ∷ [])
    → (mave_accumulate (feed (mave_create len) vs) v).1
      ≡ tmv_div (total (last len (vs ++ v ∷ [])) % 2 ^ 64) (min (length (vs ++ v ∷ [])) len)
mave_accumulate-mean len vs v pos words =
    let m = mave_create len in
    let ws = vs ++ v ∷ [] in
    let ok = mave_create-IsValid len pos in
    let at : (mave_accumulate (feed m vs) v).1 ≡ tmv_div (feed m ws).sum (feed m ws).cnt =
      rw (feed-append vs v m) (unfold mave_accumulate in refl) in
    let n : (feed m ws).cnt ≡ min (length ws) len =
      unfold mave_create in (cnt-feed ws m (omega arith) ∙ omega arith) in
    let s : (feed m ws).sum ≡ total (last len ws) % 2 ^ 64 =
      (feed-IsValid ws m ok words).summed
      ∙ ap (λ (l : List ℕ). total l % 2 ^ 64) (ring-feed ws m ok words)
      ∙ (unfold mave_create in
          rw (append-nil {A = ℕ} (replicate len 0), total-pad (length ws) len ws)) in
    at ∙ ap₂ tmv_div s n
