-- ===== src/Nmea/Frame.antt =====
-- A whole sentence, from its dollar sign to its line feed.
use lyp_lyl.Prelude.{
  ltb, leb, if◌then◌else◌, length, get_or, All, ℕ, zero, suc, ◌+◌, ◌-◌, ◌≤◌, ◌<◌, ◌≡◌, refl, ap,
  ◌∙◌, ◌≢◌, true, false, ◌&&◌, Option, none, some, List, [], ◌∷◌, ◌++◌, arith,
}
use lyp_lyl.Nmea.{
  nmea_char_min, nmea_char_max, nmea_max_length, nmea_reset, store, nmea_accumulate,
  nmea_parse_symbol, nmea_scan_rmc, parse_loop, nmea_parse, NmeaState, idle, have_dollar,
  have_startg, have_startx, have_body, have_csuma, have_csum_msb, have_csum_lsb, have_penultimate,
  Parser, NmeaRmc, CLibrary,
}
use Prim.Native.Nat.{bit_xor}

-- A character of a sentence's text.
abbrev pub IsText : ℕ → Type 0
IsText c = (nmea_char_min ≤ c) × (c ≤ nmea_char_max) × (c ≢ b'*')

-- The characters of a text stored one after another.
unfoldable pub store_all : Parser → List ℕ → Parser
store_all np [] = np
store_all np (c ∷ cs) = store_all (store np c) cs

-- The parser with its text and the characters of its checksum read.
abbrev pub loaded : Parser → List ℕ → ℕ → ℕ → NmeaState → Parser
loaded np text h l s = record (store_all np text) { state = s; csum_msb = h; csum_lsb = l }

nmea_accumulate-store :
    (np : Parser) (c : ℕ)
    → nmea_char_min ≤ c
    → c ≤ nmea_char_max
    → np.offset < nmea_max_length
    → nmea_accumulate np c ≡ store np c
unfolding nmea_accumulate
nmea_accumulate-store np c lo hi room = ground arith

step :
    (lib : CLibrary) (np np' : Parser) (c : ℕ) (cs : List ℕ) (count : ℕ)
    → nmea_parse_symbol np c ≡ (np', false)
    → parse_loop lib np (c ∷ cs) count ≡ parse_loop lib np' cs (count + 1)
unfolding parse_loop
step lib np np' c cs count e = rw (parse_loop, e)

body-symbol :
    (np : Parser) (c : ℕ)
    → np.state ≡ have_body
    → IsText c
    → np.offset < nmea_max_length
    → nmea_parse_symbol np c ≡ (store np c, false)
unfolding nmea_parse_symbol
body-symbol np c s text room = ground (arith, nmea_accumulate-store np c)

-- The text in the body of a sentence is stored as it comes.
parse_loop-body :
    (lib : CLibrary) (text : List ℕ) (np : Parser) (rest : List ℕ) (count : ℕ)
    → np.state ≡ have_body
    → All IsText text
    → np.offset + length text ≤ nmea_max_length
    → parse_loop lib np (text ++ rest) count
      ≡ parse_loop lib (store_all np text) rest (count + length text)
unfolding store_all
parse_loop-body lib [] np rest count s all room = let n : count + 0 ≡ count = omega arith in rw n
parse_loop-body lib (c ∷ text) np rest count s all room =
    let n : count + 1 + length text ≡ count + suc (length text) = omega arith in
    step lib np (store np c) c (text ++ rest) count (body-symbol np c s all.0 (omega arith))
    ∙ parse_loop-body lib text (store np c) rest (count + 1) s all.1 (omega arith)
    ∙ rw n

store_all-state :
    (text : List ℕ) (np : Parser) (s : NmeaState)
    → store_all (record np { state = s }) text ≡ record (store_all np text) { state = s }
unfolding store_all
store_all-state [] np s = refl
store_all-state (c ∷ text) np s = store_all-state text (store np c) s

-- The end of a sentence: the result of the scan, or the next sentence.
abbrev pub deliver : CLibrary → Parser → List ℕ → ℕ → Parser × Option NmeaRmc × ℕ
deliver lib np rest count = elim (nmea_scan_rmc lib np) [
  | some r ↦ (nmea_reset, some r, count)
  | none ↦ parse_loop lib nmea_reset rest count
]

whole :
    (lib : CLibrary) (np np' : Parser) (c : ℕ) (cs : List ℕ) (count : ℕ)
    → nmea_parse_symbol np c ≡ (np', true)
    → parse_loop lib np (c ∷ cs) count ≡ deliver lib np' cs (count + 1)
unfolding parse_loop
whole lib np np' c cs count e = ground (arith, e)

-- The parser with another state.
abbrev as_state : Parser → NmeaState → Parser
as_state np s = record np { state = s }

begin :
    (lib : CLibrary) (np : Parser) (x y : ℕ) (cs : List ℕ) (count : ℕ)
    → np.state ≡ idle
    → IsText x × IsText y
    → np.offset + 3 ≤ nmea_max_length
    → parse_loop lib np (b'$' ∷ b'G' ∷ x ∷ y ∷ cs) count
      ≡ parse_loop lib
          (as_state (store_all np (b'G' ∷ x ∷ y ∷ [])) have_body)
          cs
          (count + 1 + 1 + 1 + 1)
unfolding nmea_parse_symbol store_all
begin lib np x y cs count start text room =
    let p₁ = as_state np have_dollar in
    let p₂ = store (as_state np have_startg) b'G' in
    let p₃ = store (as_state p₂ have_startx) x in
    let p₄ = store (as_state p₃ have_body) y in
    step lib np p₁ b'$' (b'G' ∷ x ∷ y ∷ cs) count (ground (arith, start))
    ∙ step lib p₁ p₂ b'G' (x ∷ y ∷ cs) (count + 1) (
        rw (
          nmea_accumulate-store (as_state np have_startg) b'G' (omega arith) (omega arith)
            (omega arith)))
    ∙ step lib p₂ p₃ x (y ∷ cs) (count + 1 + 1)
        (rw (nmea_accumulate-store (as_state p₂ have_startx) x text.0.0 text.0.1 (omega arith)))
    ∙ step lib p₃ p₄ y cs (count + 1 + 1 + 1)
        (rw (nmea_accumulate-store (as_state p₃ have_body) y text.1.0 text.1.1 (omega arith)))

ending :
    (lib : CLibrary) (np : Parser) (h l : ℕ) (rest : List ℕ) (count : ℕ)
    → parse_loop lib (as_state np have_body) (b'*' ∷ h ∷ l ∷ 13 ∷ 10 ∷ rest) count
      ≡ deliver lib
          (record np { state = have_penultimate; csum_msb = h; csum_lsb = l })
          rest
          (count + 1 + 1 + 1 + 1 + 1)
unfolding nmea_parse_symbol
ending lib np h l rest count =
    let p₁ = as_state np have_csuma in
    let p₂ = record np { state = have_csum_msb; csum_msb = h } in
    let p₃ = record np { state = have_csum_lsb; csum_msb = h; csum_lsb = l } in
    let p₄ = record np { state = have_penultimate; csum_msb = h; csum_lsb = l } in
    step lib (as_state np have_body) p₁ b'*' (h ∷ l ∷ 13 ∷ 10 ∷ rest) count refl
    ∙ step lib p₁ p₂ h (l ∷ 13 ∷ 10 ∷ rest) (count + 1) refl
    ∙ step lib p₂ p₃ l (13 ∷ 10 ∷ rest) (count + 1 + 1) refl
    ∙ step lib p₃ p₄ 13 (10 ∷ rest) (count + 1 + 1 + 1) refl
    ∙ whole lib p₄ p₄ 10 rest (count + 1 + 1 + 1 + 1) refl

parse_loop-sentence :
    (lib : CLibrary) (np : Parser) (x y h l : ℕ) (body rest : List ℕ) (count : ℕ)
    → np.state ≡ idle
    → All IsText (x ∷ y ∷ body)
    → np.offset + (length body + 3) ≤ nmea_max_length
    → parse_loop lib np (b'$' ∷ b'G' ∷ x ∷ y ∷ (body ++ b'*' ∷ h ∷ l ∷ 13 ∷ 10 ∷ rest)) count
      ≡ deliver lib
          (loaded np (b'G' ∷ x ∷ y ∷ body) h l have_penultimate)
          rest
          (count + (length body + 9))
parse_loop-sentence lib np x y h l body rest count start text room =
    let line = b'*' ∷ h ∷ l ∷ 13 ∷ 10 ∷ rest in
    let head = b'G' ∷ x ∷ y ∷ [] in
    let p = store_all np head in
    let k = count + 1 + 1 + 1 + 1 in
    let n : k + length body + 1 + 1 + 1 + 1 + 1 ≡ count + (length body + 9) = omega arith in
    begin lib np x y (body ++ line) count start (text.0, text.1.0) (omega arith)
    ∙ parse_loop-body lib body (as_state p have_body) line k refl text.1.1
        (unfold store_all in omega arith)
    ∙ ap (λ (q : Parser). parse_loop lib q line (k + length body))
        (store_all-state body p have_body)
    ∙ ending lib (store_all p body) h l rest (k + length body)
    ∙ (unfold store_all in
        ap (deliver lib (loaded np (b'G' ∷ x ∷ y ∷ body) h l have_penultimate) rest) n)

sentence-before :
    (text : List ℕ) (np : Parser) (i : ℕ)
    → i < np.offset
    → (store_all np text).sentence i ≡ np.sentence i
unfolding store_all
sentence-before [] np i h = refl
sentence-before (c ∷ text) np i h = ground (arith, sentence-before text (store np c) i)

sentence-stored :
    (text : List ℕ) (np : Parser) (i k : ℕ)
    → k ≡ np.offset + i
    → i < length text
    → (store_all np text).sentence k ≡ get_or text i 0
unfolding store_all
sentence-stored [] np i k e h = absurd (omega arith)
sentence-stored (c ∷ text) np zero k e h = ground (arith, sentence-before text (store np c) k)
sentence-stored (c ∷ text) np (suc i) k e h =
    let e' : k ≡ np.offset + 1 + i = omega arith in
    sentence-stored text (store np c) i k e' (omega arith)

sentence-behind :
    (text : List ℕ) (np : Parser) (k : ℕ)
    → np.offset + length text ≤ k
    → (store_all np text).sentence k ≡ np.sentence k
unfolding store_all
sentence-behind [] np k h = refl
sentence-behind (c ∷ text) np k h = ground (arith, sentence-behind text (store np c) k)

-- The exclusive or of a number with all the characters of a text.
unfoldable pub xor_of : ℕ → List ℕ → ℕ
xor_of sum [] = sum
xor_of sum (c ∷ cs) = xor_of (bit_xor sum c) cs

-- The characters of an array, from an index on replaced by a text.
abbrev pub laid_at : ℕ → List ℕ → (ℕ → ℕ) → ℕ → ℕ
laid_at offset text s k =
    if leb offset k && ltb k (offset + length text) then get_or text (k - offset) 0 else s k

-- The parser with the text behind its own, the characters of the checksum, and the checksum of all
-- characters.
abbrev pub given : Parser → List ℕ → ℕ → ℕ → Parser
given np text h l = record {
  sentence = laid_at np.offset text np.sentence;
  csum_msb = h;
  csum_lsb = l;
  state = have_penultimate;
  checksum = xor_of np.checksum text;
  offset = np.offset + length text;
}

store_all-checksum :
    (text : List ℕ) (np : Parser) → (store_all np text).checksum ≡ xor_of np.checksum text
unfolding store_all xor_of
store_all-checksum [] np = refl
store_all-checksum (c ∷ text) np = store_all-checksum text (store np c)

store_all-offset :
    (text : List ℕ) (np : Parser) → (store_all np text).offset ≡ np.offset + length text
unfolding store_all
store_all-offset [] np = omega arith
store_all-offset (c ∷ text) np = omega (arith, store_all-offset text (store np c))

store_all-sentence :
    (text : List ℕ) (np : Parser) (k : ℕ)
    → (store_all np text).sentence k ≡ laid_at np.offset text np.sentence k
store_all-sentence text np k = ground (
  arith,
  sentence-before text np k,
  sentence-stored text np (k - np.offset) k,
  sentence-behind text np k,
)

loaded-given :
    (np : Parser) (text : List ℕ) (h l : ℕ)
    → loaded np text h l have_penultimate ≡ given np text h l
loaded-given np text h l = λ i. record {
  sentence = λ k. store_all-sentence text np k i;
  csum_msb = h;
  csum_lsb = l;
  state = have_penultimate;
  checksum = store_all-checksum text np i;
  offset = store_all-offset text np i;
}

-- A whole sentence that an idle parser with room for it reads, `$G`, two characters and the body
-- of its text, `*`, the two characters of its checksum and the line's end, is handed to the scan
-- as the parser's earlier text followed by the sentence's text, from the `G` on, with the
-- exclusive or of the parser's checksum and all these characters to compare with. If the scan
-- succeeds its result is returned with the count of the bytes and a reset parser; if not, the
-- parser is reset and the next sentence is read.
pub nmea_parse-sentence :
    (lib : CLibrary) (np : Parser) (x y h l : ℕ) (body rest : List ℕ)
    → np.state ≡ idle
    → All IsText (x ∷ y ∷ body)
    → np.offset + (length body + 3) ≤ nmea_max_length
    → nmea_parse lib np (b'$' ∷ b'G' ∷ x ∷ y ∷ (body ++ b'*' ∷ h ∷ l ∷ 13 ∷ 10 ∷ rest))
      ≡ deliver lib (given np (b'G' ∷ x ∷ y ∷ body) h l) rest (length body + 9)
unfolding nmea_parse
nmea_parse-sentence lib np x y h l body rest start text room =
    let n : 0 + (length body + 9) ≡ length body + 9 = omega arith in
    parse_loop-sentence lib np x y h l body rest 0 start text room
    ∙ ap (deliver lib (loaded np (b'G' ∷ x ∷ y ∷ body) h l have_penultimate) rest) n
    ∙ ap (λ (p : Parser). deliver lib p rest (length body + 9))
        (loaded-given np (b'G' ∷ x ∷ y ∷ body) h l)

overflow-symbol :
    (np : Parser) (c : ℕ)
    → np.state ≡ have_body
    → IsText c
    → np.offset ≡ nmea_max_length
    → nmea_parse_symbol np c ≡ (store nmea_reset c, false)
unfolding nmea_parse_symbol nmea_accumulate
overflow-symbol np c s text full = ground arith

-- A text that is one character too long spoils the sentence after it: that character is the first
-- of the text that the scan is given for the next whole sentence, in front of the `G` that the
-- sentence begins with.
pub nmea_parse-overlong :
    (lib : CLibrary) (np : Parser) (c x y h l : ℕ) (body rest : List ℕ)
    → np.state ≡ have_body
    → np.offset ≡ nmea_max_length
    → IsText c
    → All IsText (x ∷ y ∷ body)
    → length body + 4 ≤ nmea_max_length
    → let given = loaded (store nmea_reset c) (b'G' ∷ x ∷ y ∷ body) h l have_penultimate in
      (parse_loop lib np (c ∷ b'$' ∷ b'G' ∷ x ∷ y ∷ (body ++ b'*' ∷ h ∷ l ∷ 13 ∷ 10 ∷ rest)) 0
        ≡ deliver lib given rest (length body + 10))
      × (given.sentence 0 ≡ c)
      × (given.sentence 1 ≡ b'G')
nmea_parse-overlong lib np c x y h l body rest s full tc text room =
    let start = store nmea_reset c in
    let frame = b'$' ∷ b'G' ∷ x ∷ y ∷ (body ++ b'*' ∷ h ∷ l ∷ 13 ∷ 10 ∷ rest) in
    (
      step lib np start c frame 0 (overflow-symbol np c s tc full)
          ∙ parse_loop-sentence lib start x y h l body rest (0 + 1) refl text (omega arith)
          ∙ ap (deliver lib (loaded start (b'G' ∷ x ∷ y ∷ body) h l have_penultimate) rest)
              (omega arith),
      sentence-before (b'G' ∷ x ∷ y ∷ body) start 0 (omega arith),
      sentence-stored (b'G' ∷ x ∷ y ∷ body) start 0 1 (omega arith) (omega arith),
    )
