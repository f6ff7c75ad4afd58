-- ===== src/Msg/Suffix.antt =====
-- The TLVs behind a message, from bytes and back.

use lyp_lyl.Prelude.{
  ltb, ◌==◌, Bool-cases, length, take, drop, length-append, All, take-append, drop-append,
  length-take, length-drop, take_add, All-take, All-drop, ℕ, zero, suc, ◌+◌, ◌%◌, ◌^◌, ◌≤◌, ◌<◌,
  ◌≡◌, refl, sym, ap, ap₂, subst, ◌∙◌, ◌⊎◌, inl, inr, true, false, List, [], ◌∷◌, ◌++◌, arith,
}
use lyp_lyl.Wire.{to_bytes}
use lyp_lyl.Wire.Laws.{IsByte, of_bytes-to_bytes, of_bytes-lt, to_bytes-of_bytes}
use lyp_lyl.Tlv.{u16, Tlv}
use lyp_lyl.Tlv.Management.{tlv_post_recv}
use lyp_lyl.Msg.{suffix_len, attach, suffix_post_recv, suffix_pre_send, Result, ok, err}
use mathlib.Core.List.{append_assoc}

-- A field that can be sent, and is accepted.
pub record Attachable (t : Tlv) : Type 0 where
  pub type : t.type < 256 ^ 2
  pub short : length t.value < 256 ^ 2
  pub even : length t.value % 2 ≡ 0
  pub bytes : All IsByte t.value
  pub accepted : tlv_post_recv t ≡ true

module _ (t : Tlv) (rest : List ℕ) where
  -- The bytes of one field with what follows.
  abbrev framed : List ℕ
  framed = to_bytes 2 t.type ++ (to_bytes 2 (length t.value) ++ (t.value ++ rest))

  framed-type : t.type < 256 ^ 2 → u16 framed 0 ≡ t.type
  unfolding to_bytes
  framed-type h = of_bytes-to_bytes 2 t.type h

  framed-size : length t.value < 256 ^ 2 → u16 framed 2 ≡ length t.value
  unfolding to_bytes
  framed-size h = of_bytes-to_bytes 2 (length t.value) h

  framed-rest : drop 4 framed ≡ t.value ++ rest
  unfolding to_bytes
  framed-rest = refl

  length-framed : length framed ≡ 4 + length t.value + length rest
  unfolding to_bytes
  length-framed = omega (arith, length-append t.value rest)

  -- One round of the loop takes one field.
  suffix_post_recv-framed :
      (rounds : ℕ)
      → Attachable t
      → suffix_post_recv (suc rounds) framed ≡ attach t (suffix_post_recv rounds rest)
  unfolding suffix_post_recv
  suffix_post_recv-framed rounds a =
      let long : ltb (length framed) 4 ≡ false = ground (arith, length-framed) in
      let even : (length t.value % 2 == 1) ≡ false = ground (arith, a.even) in
      let fits : ltb (length (t.value ++ rest)) (length t.value) ≡ false =
        ground (arith, length-append t.value rest) in
      rw (framed-type a.type) (
        rw (framed-size a.short) (
          rw framed-rest (
            rw (take-append t.value rest)
              (rw (drop-append t.value rest) (rw long (rw even (rw fits (rw a.accepted refl))))))))

-- Sent fields are received again; up to three bytes may follow.
pub suffix_post_recv-suffix_pre_send :
    (ts : List Tlv) (rounds : ℕ) (pad : List ℕ)
    → All Attachable ts
    → length ts ≤ rounds
    → length pad < 4
    → suffix_post_recv rounds (suffix_pre_send ts ++ pad) ≡ ok ts
unfolding suffix_pre_send
suffix_post_recv-suffix_pre_send [] zero pad a n p = unfold suffix_post_recv in refl
suffix_post_recv-suffix_pre_send [] (suc rounds) pad a n p =
    let few : ltb (length pad) 4 ≡ true = ground arith in unfold suffix_post_recv in rw few refl
suffix_post_recv-suffix_pre_send (t ∷ ts) zero pad a n p = absurd (omega arith)
suffix_post_recv-suffix_pre_send (t ∷ ts) (suc rounds) pad a n p =
    let regroup : suffix_pre_send (t ∷ ts) ++ pad ≡ framed t (suffix_pre_send ts ++ pad) =
      simp append_assoc in
    ap (suffix_post_recv (suc rounds)) regroup
    ∙ (suffix_post_recv-framed t (suffix_pre_send ts ++ pad) rounds a.0
        ∙ ap (attach t) (suffix_post_recv-suffix_pre_send ts rounds pad a.1 (omega arith) p))

pub length-suffix_pre_send : (ts : List Tlv) → length (suffix_pre_send ts) ≡ suffix_len ts
unfolding suffix_pre_send suffix_len
length-suffix_pre_send [] = refl
length-suffix_pre_send (t ∷ ts) =
    omega (arith, length-framed t (suffix_pre_send ts), length-suffix_pre_send ts)

-- What a suffix that was accepted consists of.
pub record Suffix (bs : List ℕ) (ts : List Tlv) : Type 0 where
  pub attachable : All Attachable ts
  pub inside : suffix_len ts ≤ length bs
  pub rest : length bs < suffix_len ts + 4
  pub packet : take (suffix_len ts) bs ≡ suffix_pre_send ts

ok_injective : (xs ys : List Tlv) → ◌≡◌ {A = Result (List Tlv)} (ok xs) (ok ys) → xs ≡ ys
ok_injective xs ys e = cc

attach_ok :
    (t : Tlv) (r : Result (List Tlv)) (ts : List Tlv)
    → attach t r ≡ ok ts
    → (others : List Tlv) × (r ≡ ok others) × (ts ≡ t ∷ others)
attach_ok t (ok others) ts e = (others, refl, cc)
attach_ok t (err x) ts e = cc

empty-Suffix : (bs : List ℕ) → length bs < 4 → Suffix bs []
unfolding suffix_len suffix_pre_send
empty-Suffix bs h = record {
  attachable = tt;
  inside = omega arith;
  rest = omega arith;
  packet = refl;
}

regroup : (a b : ℕ) → 4 + a + b ≡ 4 + (a + b)
regroup a b = omega arith

module _ (bs : List ℕ) (h : All IsByte bs) (long : 4 ≤ length bs) where
  abbrev size : ℕ
  size = u16 bs 2

  abbrev body : List ℕ
  body = drop 4 bs

  abbrev first : Tlv
  first = record { type = u16 bs 0; value = take size body }

  two_bytes : (off : ℕ) → off ≤ 2 → to_bytes 2 (u16 bs off) ≡ take 2 (drop off bs)
  two_bytes off o =
      let wide = length-take 2 (drop off bs) (omega (arith, length-drop off bs)) in
      subst (λ n. to_bytes n (u16 bs off) ≡ take 2 (drop off bs)) wide
        (to_bytes-of_bytes (take 2 (drop off bs)) (All-take IsByte 2 _ (All-drop IsByte off bs h)))

  two_bytes-lt : (off : ℕ) → off ≤ 2 → u16 bs off < 256 ^ 2
  two_bytes-lt off o =
      let wide = length-take 2 (drop off bs) (omega (arith, length-drop off bs)) in
      subst (λ n. u16 bs off < 256 ^ n) wide
        (of_bytes-lt (take 2 (drop off bs)) (All-take IsByte 2 _ (All-drop IsByte off bs h)))

  head_bytes : take 4 bs ≡ to_bytes 2 (u16 bs 0) ++ to_bytes 2 size
  head_bytes =
      take_add 2 2 bs
      ∙ ap₂ (λ x y. x ++ y) (sym (two_bytes 0 (omega arith))) (sym (two_bytes 2 (omega arith)))

  first-Attachable :
      size % 2 ≡ 0 → size ≤ length body → tlv_post_recv first ≡ true → Attachable first
  first-Attachable even fits accepted =
      let wide = length-take size body fits in
      record {
        type = two_bytes-lt 0 (omega arith);
        short = omega (arith, wide, two_bytes-lt 2 (omega arith));
        even = ap (λ n. n % 2) wide ∙ even;
        bytes = All-take IsByte size body (All-drop IsByte 4 bs h);
        accepted = accepted;
      }

  -- The field and what follows it make up the suffix.
  first-Suffix :
      (others : List Tlv)
      → Attachable first
      → size ≤ length body
      → Suffix (drop size body) others
      → Suffix bs (first ∷ others)
  unfolding suffix_len suffix_pre_send
  first-Suffix others a fits s =
      let wide : length (take size body) ≡ size = length-take size body fits in
      let left = length-drop size body in
      let whole = length-drop 4 bs in
      record {
        attachable = (a, s.attachable);
        inside = omega (arith, wide, left, whole, s.inside);
        rest = omega (arith, wide, left, whole, s.rest);
        packet =
            let parts : take (4 + size + suffix_len others) bs
                ≡ take 4 bs ++ take (size + suffix_len others) body =
              ap (λ n. take n bs) (regroup size (suffix_len others))
              ∙ take_add 4 (size + suffix_len others) bs in
            let tail : take (size + suffix_len others) body
                ≡ take size body ++ suffix_pre_send others =
              take_add size (suffix_len others) body ∙ ap (λ x. take size body ++ x) s.packet in
            rw wide (
              parts
              ∙ (ap₂ (λ x y. x ++ y) head_bytes tail
                  ∙ append_assoc (to_bytes 2 (u16 bs 0)) (to_bytes 2 size) _));
      }

round_cases :
    (rounds : ℕ) (bs : List ℕ) (ts : List Tlv)
    → suffix_post_recv (suc rounds) bs ≡ ok ts
    → ((length bs < 4) × (ts ≡ []))
      ⊎ ((4 ≤ length bs)
          × (u16 bs 2 % 2 ≡ 0)
          × (u16 bs 2 ≤ length (drop 4 bs))
          × (let t : Tlv = record { type = u16 bs 0; value = take (u16 bs 2) (drop 4 bs) } in
              (tlv_post_recv t ≡ true)
              × (attach t (suffix_post_recv rounds (drop (u16 bs 2) (drop 4 bs))) ≡ ok ts)))
unfolding suffix_post_recv
round_cases rounds bs ts e = elim (Bool-cases (ltb (length bs) 4)) [
  | inl few ↦ inl (ground arith, sym (ok_injective [] ts (rw few at e)))
  | inr long ↦ elim (Bool-cases (u16 bs 2 % 2 == 1)) [
    | inl odd ↦ cc (rw odd at (rw long at e))
    | inr even ↦ elim (Bool-cases (ltb (length (drop 4 bs)) (u16 bs 2))) [
      | inl short ↦ cc (rw short at (rw even at (rw long at e)))
      | inr fits ↦
          let t : Tlv = record { type = u16 bs 0; value = take (u16 bs 2) (drop 4 bs) } in
          let e' = rw fits at (rw even at (rw long at e)) in
          elim (Bool-cases (tlv_post_recv t)) [
            | inl good ↦ inr (ground arith, ground arith, ground arith, (good, (rw good at e')))
            | inr bad ↦ cc (rw bad at e')
          ]
    ]
  ]
]

-- The loop accepts no more than it can read.
pub suffix_post_recv-Suffix :
    (rounds : ℕ) (bs : List ℕ) (ts : List Tlv)
    → All IsByte bs
    → length bs ≤ rounds
    → suffix_post_recv rounds bs ≡ ok ts
    → Suffix bs ts
suffix_post_recv-Suffix zero bs ts h n e =
    let none_left : [] ≡ ts = ok_injective [] ts (unfold suffix_post_recv in e) in
    subst (Suffix bs) none_left (empty-Suffix bs (omega arith))
suffix_post_recv-Suffix (suc rounds) bs ts h n e = elim (round_cases rounds bs ts e) [
  | inl (few, none_left) ↦ subst (Suffix bs) (sym none_left) (empty-Suffix bs few)
  | inr (long, even, fits, (accepted, more)) ↦
      let after = drop (u16 bs 2) (drop 4 bs) in
      let shorter : length after ≤ rounds =
        omega (arith, length-drop (u16 bs 2) (drop 4 bs), length-drop 4 bs) in
      let (others, taken, all) = attach_ok _ _ ts more in
      let ih =
        suffix_post_recv-Suffix rounds after others
          (All-drop IsByte (u16 bs 2) _ (All-drop IsByte 4 bs h)) shorter taken in
      subst (Suffix bs) (sym all)
        (first-Suffix bs h long others (first-Attachable bs h long even fits accepted) fits ih)
]
