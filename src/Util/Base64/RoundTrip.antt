-- ===== src/Util/Base64/RoundTrip.antt =====
-- The round trip of the decoder and an encoder.

use lyp_lyl.Prelude.{
  length, All, ℕ, suc, ◌+◌, ◌-◌, ◌*◌, ◌/◌, ◌%◌, ◌≤◌, ◌<◌, ◌≡◌, refl, sym, ap, subst, ◌∙◌, Bool,
  true, false, Option, some, List, [], ◌∷◌, ◌++◌, arith,
}
use lyp_lyl.Util.Base64.{Writing, ◌>>=◌, digits, last_digits, decode_from, written, base64_decode}
use lyp_lyl.Util.Base64.Characters.{
  character, encode, character-no_pad, lead, lead_pad, middle_pad, second, put-room, first_byte,
  first_byte_pad, second_byte_pad, digits-group, last_digits-group, append-three, append-two,
  encode-cons, Bytes,
}

last_digits-pair :
    (a b : ℕ) (out : List ℕ) (k : ℕ)
    → a < 256
    → b < 256
    → last_digits ((a / 4) ∷ (a % 4 * 16 + b / 16) ∷ (b % 16 * 4) ∷ []) (out, suc (suc k))
      ≡ some ((out ++ a ∷ []) ++ b ∷ [], k)
last_digits-pair a b out k ha hb =
    rw (first_byte a b ha hb, second_byte_pad a b hb, put-room, put-room) refl

digits-pair :
    (a b : ℕ)
    → a < 256
    → b < 256
    → digits (character (a / 4) ∷ character (a % 4 * 16 + b / 16) ∷ character (b % 16 * 4) ∷ [])
      ≡ some ((a / 4) ∷ (a % 4 * 16 + b / 16) ∷ (b % 16 * 4) ∷ [])
digits-pair a b ha hb = rw (lead a ha, second b hb a, middle_pad b hb) refl

-- One group of four characters, with more behind it.
decode_from-group :
    (a b c : ℕ) (rest : (c4 : ℕ) × List ℕ) (out : List ℕ) (k : ℕ)
    → a < 256
    → b < 256
    → c < 256
    → decode_from
        (character (a / 4)
          ∷ character (a % 4 * 16 + b / 16)
          ∷ character (b % 16 * 4 + c / 64)
          ∷ character (c % 64)
          ∷ rest.0
          ∷ rest.1)
        (out, suc (suc (suc k)))
      ≡ decode_from (rest.0 ∷ rest.1) (((out ++ a ∷ []) ++ b ∷ []) ++ c ∷ [], k)
unfolding decode_from
decode_from-group a b c rest out k ha hb hc = rw (digits-group a b c ha hb hc) (
    ap (λ (o : Option Writing). o >>= λ w. decode_from (rest.0 ∷ rest.1) w)
      (last_digits-group a b c out k ha hb hc))

append-group :
    (out : List ℕ) (a b c : ℕ) → ((out ++ a ∷ []) ++ b ∷ []) ++ c ∷ [] ≡ out ++ a ∷ b ∷ c ∷ []
append-group [] a b c = refl
append-group (o ∷ out) a b c = ap (λ t. o ∷ t) (append-group out a b c)

decode_pair :
    (padded : Bool) (a b : ℕ) (out : List ℕ) (k : ℕ)
    → a < 256
    → b < 256
    → decode_from (encode padded (a ∷ b ∷ [])) (out, suc (suc k))
      ≡ some ((out ++ a ∷ []) ++ b ∷ [], k)
unfolding decode_from encode
decode_pair true a b out k ha hb =
    rw (character-no_pad (b % 16 * 4), digits-pair a b ha hb) (last_digits-pair a b out k ha hb)
decode_pair false a b out k ha hb =
    rw (character-no_pad (b % 16 * 4), digits-pair a b ha hb) (last_digits-pair a b out k ha hb)

decode_triple :
    (padded : Bool) (a b c : ℕ) (out : List ℕ) (k : ℕ)
    → a < 256
    → b < 256
    → c < 256
    → decode_from (encode padded (a ∷ b ∷ c ∷ [])) (out, suc (suc (suc k)))
      ≡ some (((out ++ a ∷ []) ++ b ∷ []) ++ c ∷ [], k)
unfolding decode_from encode
decode_triple padded a b c out k ha hb hc =
    rw (character-no_pad (c % 64), digits-group a b c ha hb hc)
      (last_digits-group a b c out k ha hb hc)

decode_one :
    (padded : Bool) (a : ℕ) (out : List ℕ) (k : ℕ)
    → a < 256
    → decode_from (encode padded (a ∷ [])) (out, suc k) ≡ some (out ++ a ∷ [], k)
unfolding decode_from encode
decode_one true a out k ha = rw (lead a ha, lead_pad a ha, first_byte_pad a ha, put-room) refl
decode_one false a out k ha = rw (lead a ha, lead_pad a ha, first_byte_pad a ha, put-room) refl

-- Group by group, what was encoded is written behind what is there already.
decode_from-encode :
    (padded : Bool) (x : ℕ) (xs out : List ℕ) (k : ℕ)
    → Bytes (x ∷ xs)
    → decode_from (encode padded (x ∷ xs)) (out, length (x ∷ xs) + k) ≡ some (out ++ x ∷ xs, k)
unfolding encode
decode_from-encode padded a [] out k h =
    let e : length (a ∷ []) + k ≡ suc k = omega arith in rw e (decode_one padded a out k h.0)
decode_from-encode padded a (b ∷ []) out k h =
    let e : length (a ∷ b ∷ []) + k ≡ suc (suc k) = omega arith in
    rw e (decode_pair padded a b out k h.0 h.1.0 ∙ ap (λ o. some (o, k)) (append-two out a b))
decode_from-encode padded a (b ∷ c ∷ []) out k h =
    let e : length (a ∷ b ∷ c ∷ []) + k ≡ suc (suc (suc k)) = omega arith in
    rw e (
      decode_triple padded a b c out k h.0 h.1.0 h.1.1.0
      ∙ ap (λ o. some (o, k)) (append-group out a b c))
decode_from-encode padded a (b ∷ c ∷ x ∷ xs) out k h =
    let bytes = h.1.1.1 in
    let e : length (a ∷ b ∷ c ∷ x ∷ xs) + k ≡ suc (suc (suc (length (x ∷ xs) + k))) = omega arith in
    let out' = ((out ++ a ∷ []) ++ b ∷ []) ++ c ∷ [] in
    let tail = encode-cons padded x xs in
    let step =
      decode_from-group a b c (character (x / 4), tail.0) out (length (x ∷ xs) + k) h.0 h.1.0
        h.1.1.0 in
    let whole = decode_from-encode padded x xs out' k bytes in
    let joined =
      subst
        (λ rest.
          decode_from
            (character (a / 4)
              ∷ character (a % 4 * 16 + b / 16)
              ∷ character (b % 16 * 4 + c / 64)
              ∷ character (c % 64)
              ∷ rest)
            (out, suc (suc (suc (length (x ∷ xs) + k))))
          ≡ decode_from rest (out', length (x ∷ xs) + k))
        (sym tail.1) step in
    rw e (joined ∙ (whole ∙ ap (λ o. some (o, k)) (append-three out (x ∷ xs) a b c)))

encode_nonempty :
    (padded : Bool) (x : ℕ) (xs : List ℕ) (room : ℕ)
    → base64_decode (encode padded (x ∷ xs)) room
      ≡ written (decode_from (encode padded (x ∷ xs)) ([], room))
unfolding base64_decode
encode_nonempty padded x xs room = rw (encode-cons padded x xs).1 refl

-- Whatever bytes were encoded, with or without the '=' at the end, are decoded again where there is room for them.
pub base64_decode-encode :
    (padded : Bool) (bs : List ℕ) (room : ℕ)
    → All (λ b. b < 256) bs
    → length bs ≤ room
    → base64_decode (encode padded bs) room ≡ some bs
unfolding base64_decode encode
base64_decode-encode padded [] room h l = refl
base64_decode-encode padded (x ∷ xs) room h l =
    let rest = room - length (x ∷ xs) in
    let e : room ≡ length (x ∷ xs) + rest = omega (arith, l) in
    encode_nonempty padded x xs room
    ∙ subst (λ r. written (decode_from (encode padded (x ∷ xs)) ([], r)) ≡ some (x ∷ xs)) (sym e)
        (ap written (decode_from-encode padded x xs [] rest h))
