-- ===== src/Tests/Utilities.antt =====
-- util.c: texts in base64, the leap second at the end of a day, and a growing array.

use lyp_lyl.Prelude.{ℕ, ◌≤◌, ◌≡◌, refl, true, none, some, List, [], ◌∷◌, arith}
use lyp_lyl.Prelude.Int.{◌-ℤ◌, pos}
use lyp_lyl.Util.{leap_second_status, double_until, parray_extend, Leap}
use lyp_lyl.Util.Base64.{b64, parse_b64, base64_len, decode_from, base64_decode}
use lyp_lyl.Util.Base64.Characters.{encode}
use lyp_lyl.Util.Base64.RoundTrip.{base64_decode-encode}
use lyp_lyl.Util.Arrays.{parray_extend-room}

-- "Man" and "Ma".
base64_decode-encode_example :
    base64_decode (encode true (77 ∷ 97 ∷ 110 ∷ 77 ∷ 97 ∷ [])) 6
    ≡ some (77 ∷ 97 ∷ 110 ∷ 77 ∷ 97 ∷ [])
base64_decode-encode_example =
    base64_decode-encode true (77 ∷ 97 ∷ 110 ∷ 77 ∷ 97 ∷ []) 6
      (omega arith, (omega arith, (omega arith, (omega arith, (omega arith, tt))))) (omega arith)

-- "TWFu" is "Man", of which two bytes have room.
decode_run : base64_decode (84 ∷ 87 ∷ 70 ∷ 117 ∷ []) 2 ≡ some (77 ∷ 97 ∷ [])
unfolding base64_decode decode_from parse_b64 b64
decode_run = refl

bad_character_run : base64_decode (84 ∷ 87 ∷ 33 ∷ 117 ∷ []) 9 ≡ none
unfolding base64_decode decode_from parse_b64 b64
bad_character_run = refl

len_run : base64_len (84 ∷ 87 ∷ 69 ∷ 61 ∷ []) ≡ 2
unfolding base64_len
len_run = refl

abbrev no_leap : Leap
no_leap = record { leap = pos 0; utc_offset = pos 37 }

leap_run :
    leap_second_status 43200000000000 (pos 1) no_leap
    ≡ (pos 1, record { leap = pos 1; utc_offset = pos 36 })
unfolding leap_second_status ◌-ℤ◌
leap_run = refl

abbrev held : List ℕ
held = 1 ∷ 2 ∷ []

abbrev added : List ℕ
added = 3 ∷ 4 ∷ 5 ∷ []

parray_extend-room_example :
    ((parray_extend held added).1 ≡ double_until 6 1 6) × (6 ≤ (parray_extend held added).1)
unfolding parray_extend
parray_extend-room_example = parray_extend-room held added
