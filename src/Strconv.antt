-- ===== src/Strconv.antt =====
-- What the program uses of Go's strconv, fmt and strings: `ParseInt(s, 10, bits)`, the verb `%d`,
-- `ToUpper`, `HasSuffix(s, "%")` with `TrimSuffix`, and the UTF-8 bytes of a string.
pub mod RoundTrip
use Prim.Native.Char.{Char, code, char}
use Prim.Native.String.{◌++◌ as append}
use app_autoscaler.Prelude.{
  ℕ, zero, suc, ◌+◌, ◌-◌, ◌*◌, ◌/◌, ◌%◌, ◌^◌, String, Bool, true, false, ◌&&◌, ◌||◌, Option, none,
  some, List, [], ◌∷◌, ◌++◌, ltb, leb, ◌==◌, if◌then◌else◌, map, arith, ◌≡◌, refl,
}
use app_autoscaler.Prelude.Int.{ℤ, pos, negsuc, sub_ℕ, ltb_ℤ}

abbrev pub codes : String → List ℕ
codes String.[] = []
codes (String.◌∷◌ c s) = code c ∷ codes s

infixr 66 ◌⧺◌
abbrev pub ◌⧺◌ : String → String → String
s ⧺ t = append s t

-- The bytes of a code point in UTF-8.
pub utf8 : ℕ → List ℕ
utf8 c =
    if ltb c 0x80
    then c ∷ []
    else if ltb c 0x800
    then (0xc0 + c / 64) ∷ (0x80 + c % 64) ∷ []
    else if ltb c 0x10000
    then (0xe0 + c / 4096) ∷ (0x80 + c / 64 % 64) ∷ (0x80 + c % 64) ∷ []
    else (0xf0 + c / 262144) ∷ (0x80 + c / 4096 % 64) ∷ (0x80 + c / 64 % 64) ∷ (0x80 + c % 64) ∷ []

concat_utf8 : List ℕ → List ℕ
unfolding utf8
concat_utf8 [] = []
concat_utf8 (c ∷ cs) = utf8 c ++ concat_utf8 cs

-- []byte(s)
unfoldable pub bytes : String → List ℕ
unfolding concat_utf8
bytes s = concat_utf8 (codes s)

-- The decimal digits of a text, behind the value `n` of the digits before them.
scan : List ℕ → ℕ → Option ℕ
scan [] n = some n
scan (c ∷ s) n =
    let rest = scan s (n * 10 + (c - b'0')) in if ltb c b'0' || ltb b'9' c then none else rest

scan_digits : List ℕ → Option ℕ
unfolding scan
scan_digits [] = none
scan_digits (c ∷ s) = scan (c ∷ s) 0

-- The magnitude is unbounded here, and the test of the range comes last: a value that overflows
-- uint64 on the way fails the same test.
in_range : ℕ → Bool → Option ℕ → Option ℤ
in_range cutoff negative none = none
in_range cutoff false (some n) = if ltb n cutoff then some (pos n) else none
in_range cutoff true (some n) = if leb n cutoff then some (sub_ℕ 0 n) else none

parse_signed : ℕ → List ℕ → Option ℤ
unfolding scan_digits in_range
parse_signed cutoff [] = none
parse_signed cutoff (c ∷ s) =
    if c == b'+'
    then in_range cutoff false (scan_digits s)
    else if c == b'-'
    then in_range cutoff true (scan_digits s)
    else in_range cutoff false (scan_digits (c ∷ s))

-- strconv.ParseInt(s, 10, bits); `none` is an error.
unfoldable pub parse_int : ℕ → String → Option ℤ
unfolding parse_signed
parse_int bits s = parse_signed (2 ^ (bits - 1)) (codes s)

-- The digits of a text for ParseUint: it stops at the first value above `top`.
pub data Digits : Type 0 where
  not_digits too_large : Digits
  value : ℕ → Digits

scan_up_to : ℕ → List ℕ → ℕ → Digits
scan_up_to top [] n = value n
scan_up_to top (c ∷ s) n =
    let rest = scan_up_to top s (n * 10 + (c - b'0')) in
    if ltb c b'0' || ltb b'9' c
    then not_digits
    else if ltb top (n * 10 + (c - b'0'))
    then too_large
    else rest

scan_uint : ℕ → List ℕ → Digits
unfolding scan_up_to
scan_uint top [] = not_digits
scan_uint top (c ∷ s) = scan_up_to top (c ∷ s) 0

clamp_positive : ℕ → Digits → ℤ
clamp_positive cutoff not_digits = pos 0
clamp_positive cutoff too_large = pos (cutoff - 1)
clamp_positive cutoff (value n) = if ltb n cutoff then pos n else pos (cutoff - 1)

clamp_negative : ℕ → Digits → ℤ
clamp_negative cutoff not_digits = pos 0
clamp_negative cutoff too_large = sub_ℕ 0 cutoff
clamp_negative cutoff (value n) = if leb n cutoff then sub_ℕ 0 n else sub_ℕ 0 cutoff

clamp_signed : ℕ → List ℕ → ℤ
unfolding scan_uint clamp_positive clamp_negative
clamp_signed cutoff [] = pos 0
clamp_signed cutoff (c ∷ s) =
    if c == b'+'
    then clamp_positive cutoff (scan_uint (2 * cutoff - 1) s)
    else if c == b'-'
    then clamp_negative cutoff (scan_uint (2 * cutoff - 1) s)
    else clamp_positive cutoff (scan_uint (2 * cutoff - 1) (c ∷ s))

-- The value of ParseInt(s, 10, bits) where its error is dropped: 0, or the bound that is passed.
unfoldable pub parse_int_value : ℕ → String → ℤ
unfolding clamp_signed
parse_int_value bits s = clamp_signed (2 ^ (bits - 1)) (codes s)

digit : ℕ → String
digit zero = "0"
digit (suc zero) = "1"
digit (suc (suc zero)) = "2"
digit (suc (suc (suc zero))) = "3"
digit (suc (suc (suc (suc zero)))) = "4"
digit (suc (suc (suc (suc (suc zero))))) = "5"
digit (suc (suc (suc (suc (suc (suc zero)))))) = "6"
digit (suc (suc (suc (suc (suc (suc (suc zero))))))) = "7"
digit (suc (suc (suc (suc (suc (suc (suc (suc zero)))))))) = "8"
digit _ = "9"

-- The digits of `n`, on fuel; `suc n` rounds are enough, since each divides `n` by ten.
emit : ℕ → ℕ → String
unfolding digit
emit zero n = ""
emit (suc f) n = let more = emit f (n / 10) ⧺ digit (n % 10) in if ltb n 10 then digit n else more

-- fmt.Sprintf("%d", z)
unfoldable pub format_int : ℤ → String
unfolding emit
format_int (pos n) = emit (suc n) n
format_int (negsuc n) = "-" ⧺ emit (suc (suc n)) (suc n)

-- The upper case of ASCII letters; `ToUpper` maps other letters too, and none of them to an ASCII
-- letter but U+0131 and U+017F.
upper_code : ℕ → ℕ
upper_code c =
    if leb b'a' c && leb c b'z'
    then c - 32
    else if c == 0x131
    then b'I'
    else if c == 0x17f
    then b'S'
    else c

same_codes : List ℕ → List ℕ → Bool
same_codes [] [] = true
same_codes (a ∷ s) (b ∷ t) = let rest = same_codes s t in if a == b then rest else false
same_codes _ _ = false

-- strings.ToUpper(s) == t, for a text t of ASCII letters
unfoldable pub eq_upper : String → String → Bool
unfolding upper_code same_codes
eq_upper s t = same_codes (map upper_code (codes s)) (codes t)

-- The lower case of ASCII letters; of the others, only U+0130 and U+212A are mapped to an ASCII letter.
lower_code : ℕ → ℕ
lower_code c =
    if leb b'A' c && leb c b'Z'
    then c + 32
    else if c == 0x130
    then b'i'
    else if c == 0x212a
    then b'k'
    else c

-- strings.ToLower(s) == t, for a text t of ASCII letters
unfoldable pub eq_lower : String → String → Bool
unfolding lower_code same_codes
eq_lower s t = same_codes (map lower_code (codes s)) (codes t)

-- The text before a final '%', if it has one: HasSuffix and TrimSuffix.
unfoldable pub trim_percent : String → Option String
trim_percent String.[] = none
trim_percent (String.◌∷◌ c String.[]) = if code c == b'%' then some "" else none
trim_percent (String.◌∷◌ c (String.◌∷◌ d s)) = elim (trim_percent (String.◌∷◌ d s)) [
  | none ↦ none
  | some t ↦ some (String.◌∷◌ c t)
]

parses :
    (parse_int 64 "-12" ≡ some (negsuc 11))
    × (parse_int 64 "9223372036854775808" ≡ none)
    × (format_int (negsuc 119) ≡ "-120")
    × (eq_upper "Started" "STARTED" ≡ true)
    × (parse_int_value 32 "-12" ≡ negsuc 11)
    × (parse_int_value 32 "2147483648" ≡ pos 2147483647)
    × (parse_int_value 32 "12a" ≡ pos 0)
    × (trim_percent "12%" ≡ some "12")
    × (trim_percent "12" ≡ none)
unfolding parse_int parse_int_value format_int eq_upper trim_percent
parses = (refl, refl, refl, refl, refl, refl, refl, refl, refl)
