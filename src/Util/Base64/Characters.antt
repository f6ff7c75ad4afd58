-- ===== src/Util/Base64/Characters.antt =====
-- An encoder, and how its characters are read.

use lyp_lyl.Prelude.{
  ltb, ◌==◌, if◌then◌else◌, ==_iff, Bool-cases, replicate, All, ℕ, zero, suc, ◌+◌, ◌-◌, ◌*◌, ◌/◌,
  ◌%◌, ◌<◌, ◌≡◌, refl, sym, ap, inl, inr, Bool, true, false, ◌&&◌, Option, none, some, List, [],
  ◌∷◌, ◌++◌, arith,
}
use lyp_lyl.Util.Base64.{b64, parse_b64, put, byte_0, byte_1, byte_2, digits, last_digits}

-- RFC 4648: the character of a digit.
abbrev pub character : ℕ → ℕ
character d =
    if ltb d 26
    then 65 + d
    else if ltb d 52
    then 71 + d
    else if ltb d 62
    then d - 4
    else if d == 62
    then 43
    else 47

abbrev pub pads : Bool → ℕ → List ℕ
pads true n = replicate n 61
pads false n = []

-- RFC 4648: three bytes become four characters; what is left of them is filled up with '=', or
-- not, as `padded` says.
unfoldable pub encode : Bool → List ℕ → List ℕ
encode padded [] = []
encode padded (a ∷ []) = character (a / 4) ∷ character (a % 4 * 16) ∷ pads padded 2
encode padded (a ∷ b ∷ []) =
    character (a / 4) ∷ character (a % 4 * 16 + b / 16) ∷ character (b % 16 * 4) ∷ pads padded 1
encode padded (a ∷ b ∷ c ∷ bs) =
    character (a / 4)
    ∷ character (a % 4 * 16 + b / 16)
    ∷ character (b % 16 * 4 + c / 64)
    ∷ character (c % 64)
    ∷ encode padded bs

abbrev pub all_below : (ℕ → Bool) → ℕ → Bool
all_below p zero = true
all_below p (suc n) = p n && all_below p n

pub all_below-at : (p : ℕ → Bool) (n k : ℕ) → all_below p n ≡ true → k < n → p k ≡ true
all_below-at p zero k h l = absurd (omega arith)
all_below-at p (suc n) k h l = elim (Bool-cases (k == n)) [
  | inl e ↦ rw ((==_iff k n).0 e) (ground (arith, h))
  | inr e ↦ all_below-at p n k (ground (arith, h)) (ground (arith, l, e))
]

abbrev pub is_digit : ℕ → Option ℕ → Bool
is_digit d none = false
is_digit d (some e) = d == e

pub is_digit-some : (d : ℕ) (o : Option ℕ) → is_digit d o ≡ true → o ≡ some d
is_digit-some d none h = absurd (ground (arith, h))
is_digit-some d (some e) h = ap some (sym ((==_iff d e).0 h))

pub check : all_below (λ d. is_digit d (parse_b64 (character d))) 64 ≡ true
unfolding parse_b64 b64
check = refl

pub parse_b64-character : (d : ℕ) → d < 64 → parse_b64 (character d) ≡ some d
parse_b64-character d h =
    is_digit-some d (parse_b64 (character d))
      (all_below-at (λ d. is_digit d (parse_b64 (character d))) 64 d check h)

pub character-no_pad : (d : ℕ) → (character d == 61) ≡ false
character-no_pad d = ground arith

module _ (x : ℕ) (small : x < 256) where
  pub lead : parse_b64 (character (x / 4)) ≡ some (x / 4)
  lead = parse_b64-character (x / 4) (omega (arith, small))

  pub lead_pad : parse_b64 (character (x % 4 * 16)) ≡ some (x % 4 * 16)
  lead_pad = parse_b64-character (x % 4 * 16) (omega arith)

  pub middle_pad : parse_b64 (character (x % 16 * 4)) ≡ some (x % 16 * 4)
  middle_pad = parse_b64-character (x % 16 * 4) (omega arith)

  pub last : parse_b64 (character (x % 64)) ≡ some (x % 64)
  last = parse_b64-character (x % 64) (omega arith)

  pub second : (a : ℕ) → parse_b64 (character (a % 4 * 16 + x / 16)) ≡ some (a % 4 * 16 + x / 16)
  second a = parse_b64-character (a % 4 * 16 + x / 16) (omega (arith, small))

  pub third : (b : ℕ) → parse_b64 (character (b % 16 * 4 + x / 64)) ≡ some (b % 16 * 4 + x / 64)
  third b = parse_b64-character (b % 16 * 4 + x / 64) (omega (arith, small))

pub put-room : (b : ℕ) (out : List ℕ) (k : ℕ) → put b (out, suc k) ≡ (out ++ b ∷ [], k)
put-room b out k = ground arith

pub first_byte : (a b : ℕ) → a < 256 → b < 256 → byte_0 (a / 4) (a % 4 * 16 + b / 16) ≡ a
first_byte a b ha hb = omega arith

pub first_byte_pad : (a : ℕ) → a < 256 → byte_0 (a / 4) (a % 4 * 16) ≡ a
first_byte_pad a ha = omega arith

pub second_byte :
    (a b c : ℕ) → b < 256 → c < 256 → byte_1 (a % 4 * 16 + b / 16) (b % 16 * 4 + c / 64) ≡ b
second_byte a b c hb hc = omega arith

pub second_byte_pad : (a b : ℕ) → b < 256 → byte_1 (a % 4 * 16 + b / 16) (b % 16 * 4) ≡ b
second_byte_pad a b hb = omega arith

pub third_byte : (b c : ℕ) → c < 256 → byte_2 (b % 16 * 4 + c / 64) (c % 64) ≡ c
third_byte b c hc = omega arith

pub digits-group :
    (a b c : ℕ)
    → a < 256
    → b < 256
    → c < 256
    → digits (
        character (a / 4)
        ∷ character (a % 4 * 16 + b / 16)
        ∷ character (b % 16 * 4 + c / 64)
        ∷ character (c % 64)
        ∷ [])
      ≡ some ((a / 4) ∷ (a % 4 * 16 + b / 16) ∷ (b % 16 * 4 + c / 64) ∷ (c % 64) ∷ [])
digits-group a b c ha hb hc = rw (lead a ha, second b hb a, third c hc b, last c hc) refl

pub last_digits-group :
    (a b c : ℕ) (out : List ℕ) (k : ℕ)
    → a < 256
    → b < 256
    → c < 256
    → last_digits
        ((a / 4) ∷ (a % 4 * 16 + b / 16) ∷ (b % 16 * 4 + c / 64) ∷ (c % 64) ∷ [])
        (out, suc (suc (suc k)))
      ≡ some (((out ++ a ∷ []) ++ b ∷ []) ++ c ∷ [], k)
last_digits-group a b c out k ha hb hc =
    rw
      (
        first_byte a b ha hb,
        second_byte a b c hb hc,
        third_byte b c hc,
        put-room,
        put-room,
        put-room,
      )
      refl

pub append-three :
    (out bs : List ℕ) (a b c : ℕ)
    → (((out ++ a ∷ []) ++ b ∷ []) ++ c ∷ []) ++ bs ≡ out ++ a ∷ b ∷ c ∷ bs
append-three [] bs a b c = refl
append-three (o ∷ out) bs a b c = ap (λ t. o ∷ t) (append-three out bs a b c)

pub append-two : (out : List ℕ) (a b : ℕ) → (out ++ a ∷ []) ++ b ∷ [] ≡ out ++ a ∷ b ∷ []
append-two [] a b = refl
append-two (o ∷ out) a b = ap (λ t. o ∷ t) (append-two out a b)

pub encode-cons :
    (padded : Bool) (x : ℕ) (xs : List ℕ)
    → (cs : List ℕ) × (encode padded (x ∷ xs) ≡ character (x / 4) ∷ cs)
unfolding encode
encode-cons padded x [] = (_, refl)
encode-cons padded x (y ∷ []) = (_, refl)
encode-cons padded x (y ∷ z ∷ xs) = (_, refl)

abbrev pub Bytes : List ℕ → Type 0
Bytes bs = All (λ b. b < 256) bs
