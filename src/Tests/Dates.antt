-- ===== src/Tests/Dates.antt =====
-- A printer of dates that is read back, for the tests: as many marks as the year, the month and the
-- day count.
use Prim.Native.Char.{Char, code}
use native.Mathlib.Numerals.{unary_clauses}
use Prim.Native.String as Text
use kyc_agent_nordvik.Prelude.{
  ℕ, zero, suc, String, ◌≡◌, refl, ap, Bool, true, false, ◌&&◌, leb, some, ◌+◌, if◌then◌else◌,
  arith,
}
use kyc_agent_nordvik.Python.{Python, Date, PrintsDates}
use kyc_agent_nordvik.Samples.{plain_python}

abbrev same : Char → Char → Bool
same a b = leb (code a) (code b) && leb (code b) (code a)

marks : Char → ℕ → String → String
marks ch zero rest = rest
marks ch (suc n) rest = Text.◌∷◌ ch (marks ch n rest)

count : Char → String → ℕ
count ch Text.[] = 0
count ch (Text.◌∷◌ c rest) = (if same ch c then 1 else 0) + count ch rest

count-marks-same :
    (a b : Char) (n : ℕ) (rest : String)
    → same a b ≡ true
    → count a (marks b n rest) ≡ n + count a rest
unfolding marks count
count-marks-same a b zero rest h = omega arith
count-marks-same a b (suc n) rest h = rw (h, count-marks-same a b n rest h) (omega arith)

count-marks-other :
    (a b : Char) (n : ℕ) (rest : String)
    → same a b ≡ false
    → count a (marks b n rest) ≡ count a rest
unfolding marks count
count-marks-other a b zero rest h = omega arith
count-marks-other a b (suc n) rest h = rw (h, count-marks-other a b n rest h) (omega arith)

pub print_date : Date → String
unfolding marks
print_date d = marks "y" d.year (marks "m" d.month (marks "d" d.day ""))

pub read_date : String → Date
unfolding count
read_date s = record { year = count "y" s; month = count "m" s; day = count "d" s }

read_date-print_date : (d : Date) → read_date (print_date d) ≡ d
unfolding read_date print_date count
read_date-print_date d =
    rw
      (
        count-marks-same "y" "y" d.year _ refl,
        count-marks-other "y" "m" d.month _ refl,
        count-marks-other "y" "d" d.day _ refl,
        count-marks-other "m" "y" d.year _ refl,
        count-marks-same "m" "m" d.month _ refl,
        count-marks-other "m" "d" d.day _ refl,
        count-marks-other "d" "y" d.year _ refl,
        count-marks-other "d" "m" d.month _ refl,
        count-marks-same "d" "d" d.day _ refl,
      )
      (simp unary_clauses refl)

abbrev pub dated_python : Python
dated_python = record plain_python {
  isoformat = print_date;
  fromisoformat = λ s. some (read_date s);
}

pub dated-PrintsDates : PrintsDates dated_python
dated-PrintsDates = record { fromisoformat-isoformat = λ d. ap some (read_date-print_date d) }
