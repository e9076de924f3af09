-- ===== src/Python.antt =====
-- What the program calls of Python's own library and does not implement: text folding and
-- formatting, `difflib.SequenceMatcher` and ISO dates. They are fields of one record, which the
-- model takes as a parameter; `IsLawful` states the documented behaviour that theorems rely on.
--
-- A score is a `float` between 0 and 1, held as a whole number of millionths, rounded down. The
-- thresholds are written with at most six decimals, so `>=` and `<` against them give the same
-- answer as on the exact ratio.
use kyc_agent_nordvik.Prelude.{
  ℕ, ◌+◌, ◌*◌, ◌/◌, ◌%◌, ◌≤◌, String, ◌≡◌, Option, some, List, ltb, leb, if◌then◌else◌, Bool, ◌||◌,
  ◌&&◌, arith,
}

abbrev pub Score : Type 0
Score = ℕ

-- 1.0
abbrev pub unit : Score
unit = 1000000

-- n / 100
abbrev pub percent : ℕ → Score
percent n = n * 10000

-- round(x, 4): to a whole number of ten-thousandths, a tie to the even one.
unfoldable pub round4 : Score → Score
round4 x =
    let q = x / 100 in
    let r = x % 100 in 100 * (if ltb r 50 then q else if ltb 50 r then q + 1 else q + q % 2)

-- datetime.date, compared by year, month and day.
pub record Date : Type 0 where
  pub year : ℕ
  pub month : ℕ
  pub day : ℕ

-- a >= b
unfoldable pub date_ge : Date → Date → Bool
date_ge a b =
    ltb b.year a.year
    || (leb b.year a.year && leb a.year b.year)
      && (ltb b.month a.month || (leb b.month a.month && leb a.month b.month) && leb b.day a.day)

pub record Python : Type 0 where
  -- s.casefold()
  pub casefold : String → String
  -- SequenceMatcher(None, a, b).ratio()
  pub ratio : String → String → Score
  -- f"{s!r}"
  pub repr : String → String
  -- f"{x:.2f}"
  pub fixed2 : Score → String
  -- f"{n}" of a number of things, and of an amount in euros
  pub int_str : ℕ → String
  pub decimal_str : ℕ → String
  -- d.isoformat() and date.fromisoformat(s), where `none` is its ValueError
  pub isoformat : Date → String
  pub fromisoformat : String → Option Date
  -- s.strip() and s.upper()
  pub strip : String → String
  pub upper : String → String
  -- float(s) of a number of percent, and date(int(y), int(m), int(d)), where `none` is a ValueError
  pub to_float : String → Option ℕ
  pub make_date : (year month day : String) → Option Date

-- The patterns that the program gives to `re`, by what they match.
pub record Patterns : Type 0 where
  -- re.search(rf"^{re.escape(label)}\s*:\s*(?P<value>.+)$", text, …).group("value")
  pub label_value : (label text : String) → Option String
  -- re.fullmatch(r"(\d{4})-(\d{2})-(\d{2})", raw).groups() and r"(\d{2})\.(\d{2})\.(\d{4})"
  pub year_first : String → Option (String × String × String)
  pub day_first : String → Option (String × String × String)
  -- _OWNER_RE.finditer(text): the groups name, dob and pct
  pub owner_lines : String → List (String × String × String)
  -- _GLITCH_RE.finditer(text): the groups field and value; _GLITCH_RE.sub(" ", text)
  pub glitches : String → List (String × String)
  pub without_glitches : String → String

-- A date that is printed is read back.
pub record PrintsDates (py : Python) : Type 0 where
  pub fromisoformat-isoformat : (d : Date) → py.fromisoformat (py.isoformat d) ≡ some d

-- A text matches itself fully.
pub record IsLawful (py : Python) : Type 0 where
  pub ratio_self : (a : String) → py.ratio a a ≡ unit

-- A rounded score of at most 1.0 is at most 1.0.
pub round4-le-unit : (x : Score) → x ≤ unit → round4 x ≤ unit
unfolding round4
round4-le-unit x h = ground arith

-- A score with at most four decimals is its own rounding.
pub round4-of_multiple : (n : ℕ) → round4 (100 * n) ≡ 100 * n
unfolding round4
round4-of_multiple n = ground arith
