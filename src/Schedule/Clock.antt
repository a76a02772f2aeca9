-- ===== src/Schedule/Clock.antt =====
-- Civil time as `schedule.go` reads it off `time.Time`, the parser of "HH:MM", and the date text.
use gaty.Prelude.{
  ℕ, ◌+◌, ◌-◌, ◌*◌, ◌/◌, ◌%◌, ◌^◌, ◌<◌, ◌≤◌, String, Option, none, some, List, [], ◌∷◌, Bool, true,
  false, ◌&&◌, ◌||◌, ℤ, pos, negsuc, pos_part, ltb_ℤ, leb, ltb, ◌==◌, codes, if◌then◌else◌,
}
use gaty.Prelude.Options.{◌>>=◌}

-- The fields of a `time.Time` in its location: `Weekday()` counts from Sunday = 0, `Month()` from
-- January = 1.
pub record Now : Type 0 where
  pub year : ℕ
  pub month : ℕ
  pub day : ℕ
  pub weekday : ℕ
  pub hour : ℕ
  pub minute : ℕ

-- What the standard library promises of these fields, for the years that print with four digits.
pub record IsCivil (now : Now) : Type 0 where
  pub year_lt : now.year < 10000
  pub month_pos : 1 ≤ now.month
  pub month_le : now.month ≤ 12
  pub day_pos : 1 ≤ now.day
  pub day_le : now.day ≤ 31
  pub weekday_lt : now.weekday < 7
  pub hour_lt : now.hour < 24
  pub minute_lt : now.minute < 60

-- The digits of `strconv.Atoi`, after its sign.
digits : ℕ → List ℕ → Option ℕ
digits acc [] = some acc
digits acc (c ∷ s) =
    let rest = digits (acc * 10 + (c - b'0')) s in if leb b'0' c && leb c b'9' then rest else none

unsigned : List ℕ → Option ℕ
unfolding digits
unsigned [] = none
unsigned (c ∷ s) = digits 0 (c ∷ s)

-- A value outside `int` (64 bits) is an error.
positive : ℕ → Option ℤ
positive n = if ltb n (2 ^ 63) then some (pos n) else none

negative : ℕ → Option ℤ
negative n = if n == 0 then some (pos 0) else if leb n (2 ^ 63) then some (negsuc (n - 1)) else none

-- `strconv.Atoi`
unfoldable pub atoi : List ℕ → Option ℤ
unfolding unsigned positive negative
atoi [] = none
atoi (c ∷ s) =
    if c == b'-'
    then unsigned s >>= negative
    else if c == b'+'
    then unsigned s >>= positive
    else unsigned (c ∷ s) >>= positive

-- `strings.SplitN(s, ":", 2)`, with `none` where there are not two parts
unfoldable pub split_colon : List ℕ → Option (List ℕ × List ℕ)
split_colon [] = none
split_colon (c ∷ s) =
    let rest = split_colon s in
    if c == b':' then some ([], s) else do (before, after) ← rest; some (c ∷ before, after)

-- the range test of `parseHHMM`
unfoldable pub hour_minute : ℤ → ℤ → Option (ℕ × ℕ)
hour_minute h m =
    if ltb_ℤ h (pos 0) || ltb_ℤ (pos 23) h || ltb_ℤ m (pos 0) || ltb_ℤ (pos 59) m
    then none
    else some (pos_part h, pos_part m)

unfoldable pub parse_parts : List ℕ × List ℕ → Option (ℕ × ℕ)
unfolding atoi hour_minute
parse_parts parts = do h ← atoi parts.0; m ← atoi parts.1; hour_minute h m

-- `parseHHMM`: `none` is `ok = false`
unfoldable pub parse_hhmm_codes : List ℕ → Option (ℕ × ℕ)
unfolding split_colon parse_parts
parse_hhmm_codes s = split_colon s >>= parse_parts

unfoldable pub parse_hhmm : String → Option (ℕ × ℕ)
unfolding parse_hhmm_codes
parse_hhmm s = parse_hhmm_codes (codes s)

abbrev pub digit : ℕ → ℕ
digit d = b'0' + d % 10

-- `now.Format("2006-01-02")`
unfoldable pub format_date : ℕ → ℕ → ℕ → List ℕ
format_date y m d =
    digit (y / 1000)
    ∷ digit (y / 100)
    ∷ digit (y / 10)
    ∷ digit y
    ∷ b'-'
    ∷ digit (m / 10)
    ∷ digit m
    ∷ b'-'
    ∷ digit (d / 10)
    ∷ digit d
    ∷ []

-- Go's `<=` on strings: lexicographic by bytes, which is the order by code points.
unfoldable pub lex_leb : List ℕ → List ℕ → Bool
lex_leb [] t = true
lex_leb (c ∷ s) [] = false
lex_leb (c ∷ s) (d ∷ t) = ltb c d || c == d && lex_leb s t
