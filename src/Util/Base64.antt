-- ===== src/Util/Base64.antt =====
-- util.c: base64.

pub mod Characters
pub mod RoundTrip
-- The table runs from '+' to 'z'; none is -1.
use lyp_lyl.Prelude.{
  ltb, ◌==◌, if◌then◌else◌, length, get_or, replicate, ℕ, zero, suc, ◌+◌, ◌-◌, ◌*◌, ◌/◌, ◌%◌, ◌||◌,
  Option, none, some, List, [], ◌∷◌, ◌++◌,
}

abbrev pub digits_from : ℕ → ℕ → List (Option ℕ)
digits_from n zero = []
digits_from n (suc k) = some n ∷ digits_from (n + 1) k

unfoldable pub b64 : List (Option ℕ)
b64 =
    some 62
    ∷ none
    ∷ none
    ∷ none
    ∷ some 63
    ∷ (digits_from 52 10
        ++ (replicate 7 none ++ (digits_from 0 26 ++ (replicate 6 none ++ digits_from 26 26))))

unfoldable pub parse_b64 : ℕ → Option ℕ
parse_b64 c = if ltb c 43 || ltb 122 c then none else get_or b64 (c - 43) none

-- Where the length is given as 0, it is that of the string. The characters '=' are 61.
abbrev pub is_pad : ℕ → ℕ
is_pad c = if c == 61 then 1 else 0

unfoldable pub base64_len : List ℕ → ℕ
base64_len str =
    let len = length str in
    if ltb len 2
    then 0
    else if len % 4 == 0
    then len / 4 * 3 - is_pad (get_or str (len - 1) 0) - is_pad (get_or str (len - 2) 0)
    else len / 4 * 3 + (if ltb 2 (len % 4) then 2 else 1)

-- What is written, and how much room is left.
abbrev pub Writing : Type 0
Writing = List ℕ × ℕ

abbrev pub put : ℕ → Writing → Writing
put b w = if w.1 == 0 then w else (w.0 ++ b ∷ [], w.1 - 1)

abbrev pub byte_0 : ℕ → ℕ → ℕ
byte_0 d0 d1 = d0 * 4 % 256 + d1 / 16 % 4

abbrev pub byte_1 : ℕ → ℕ → ℕ
byte_1 d1 d2 = d1 * 16 % 256 + d2 / 4 % 16

abbrev pub byte_2 : ℕ → ℕ → ℕ
byte_2 d2 d3 = d2 * 64 % 256 + d3 % 64

infixl 5 ◌>>=◌
abbrev pub ◌>>=◌ : {A B : Type 0} → Option A → (A → Option B) → Option B
none >>= f = none
some a >>= f = f a

abbrev pub digits : List ℕ → Option (List ℕ)
digits [] = some []
digits (c ∷ cs) = do d ← parse_b64 c; ds ← digits cs; some (d ∷ ds)

-- The last characters, without the '=' at their end.
abbrev pub last_digits : List ℕ → Writing → Option Writing
last_digits (d0 ∷ d1 ∷ []) w = some (put (byte_0 d0 d1) w)
last_digits (d0 ∷ d1 ∷ d2 ∷ []) w = some (put (byte_1 d1 d2) (put (byte_0 d0 d1) w))
last_digits (d0 ∷ d1 ∷ d2 ∷ d3 ∷ []) w =
    some (put (byte_2 d2 d3) (put (byte_1 d1 d2) (put (byte_0 d0 d1) w)))
last_digits ds w = none

abbrev pub strip_3 : ℕ → ℕ → ℕ → List ℕ
strip_3 c0 c1 c2 = if c2 == 61 then c0 ∷ c1 ∷ [] else c0 ∷ c1 ∷ c2 ∷ []

abbrev pub strip : List ℕ → List ℕ
strip (c0 ∷ c1 ∷ c2 ∷ []) = strip_3 c0 c1 c2
strip (c0 ∷ c1 ∷ c2 ∷ c3 ∷ []) = if c3 == 61 then strip_3 c0 c1 c2 else c0 ∷ c1 ∷ c2 ∷ c3 ∷ []
strip cs = cs

-- The loop over groups of four, while more than four characters are left, and what follows it.
unfoldable pub decode_from : List ℕ → Writing → Option Writing
decode_from (c0 ∷ c1 ∷ c2 ∷ c3 ∷ c4 ∷ cs) w = do
  ds ← digits (c0 ∷ c1 ∷ c2 ∷ c3 ∷ [])
  w' ← last_digits ds w
  decode_from (c4 ∷ cs) w'
decode_from cs w = do ds ← digits (strip cs); last_digits ds w

abbrev pub written : Option Writing → Option (List ℕ)
written none = none
written (some w) = some w.0

-- What is in `out` up to the new *out_len; none for false, after which `out` may hold some bytes.
-- `room` is the *out_len of the caller; the pointers are not NULL.
unfoldable pub base64_decode : List ℕ → ℕ → Option (List ℕ)
base64_decode [] room = some []
base64_decode (c ∷ cs) room = written (decode_from (c ∷ cs) ([], room))
