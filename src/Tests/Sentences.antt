-- ===== src/Tests/Sentences.antt =====
-- The parser of NMEA sentences.

use lyp_lyl.Prelude.{◌≡◌, refl, none, some, [], ◌∷◌, ◌++◌, arith}
use lyp_lyl.Prelude.Int.{pos}
use lyp_lyl.Nmea.{
  nmea_reset, store, parse_loop, nmea_parse, have_body, have_penultimate, Parser, CLibrary,
}
use lyp_lyl.Nmea.Invariant.{xor_below, nmea_parse-IsValid, IsValid}
use lyp_lyl.Nmea.Frame.{loaded, deliver, given, nmea_parse-sentence, nmea_parse-overlong}

-- A C library that accepts every sentence.
abbrev lenient : CLibrary
lenient = record {
  scan_hex = λ msb lsb. some 0;
  scan_time_msec = λ s. none;
  scan_time = λ s. none;
  scan_date = λ s i. none;
  mktime = λ t. pos 0;
  scale_msec = λ m. m;
}

nmea_parse-IsValid_example : IsValid (nmea_parse lenient nmea_reset (b'$' ∷ b'G' ∷ b'P' ∷ [])).0
unfolding xor_below
nmea_parse-IsValid_example =
    nmea_parse-IsValid lenient nmea_reset (b'$' ∷ b'G' ∷ b'P' ∷ [])
      (record { fits = omega arith; terminated = λ i h. refl; summed = refl })

nmea_parse-sentence_example :
    nmea_parse lenient nmea_reset
      (b'$' ∷ b'G' ∷ b'P' ∷ b'R' ∷ (b'M' ∷ []) ++ b'*' ∷ b'0' ∷ b'0' ∷ 13 ∷ 10 ∷ [])
    ≡ deliver lenient (given nmea_reset (b'G' ∷ b'P' ∷ b'R' ∷ b'M' ∷ []) b'0' b'0') [] 10
nmea_parse-sentence_example =
    nmea_parse-sentence lenient nmea_reset b'P' b'R' b'0' b'0' (b'M' ∷ []) [] refl (omega arith)
      (omega arith)

-- A parser whose text is as long as it can be.
abbrev filled : Parser
filled = record nmea_reset { state = have_body; offset = 256 }

nmea_parse-overlong_test :
    let given =
      loaded (store nmea_reset b'A') (b'G' ∷ b'P' ∷ b'R' ∷ b'M' ∷ []) b'0' b'0' have_penultimate in
    (parse_loop lenient filled
        (b'A' ∷ b'$' ∷ b'G' ∷ b'P' ∷ b'R' ∷ ((b'M' ∷ []) ++ b'*' ∷ b'0' ∷ b'0' ∷ 13 ∷ 10 ∷ []))
        0
      ≡ deliver lenient given [] 11)
    × (given.sentence 0 ≡ b'A')
    × (given.sentence 1 ≡ b'G')
nmea_parse-overlong_test =
    nmea_parse-overlong lenient filled b'A' b'P' b'R' b'0' b'0' (b'M' ∷ []) [] refl refl
      (omega arith) (omega arith) (omega arith)
