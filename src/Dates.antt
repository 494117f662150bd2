-- ===== src/Dates.antt =====
-- The date helpers of docs/accounting/reference-books/build.py. A `dt.date` is its
-- proleptic Gregorian ordinal, by which Python orders and subtracts dates; `year_of`, `month_of` and
-- `day_of` are the civil fields of the standard library.
pub mod Branch
mod Tests
use rukka_folio.Prelude.{
  ℕ, zero, suc, ◌+◌, ◌-◌, ◌*◌, ◌/◌, ◌%◌, Bool, not, ◌&&◌, ◌||◌, List, [], ◌∷◌, ◌++◌, ltb, leb, ◌==◌,
  if◌then◌else◌, Text, txt, pad2, str_of,
}

abbrev pub Date : Type 0
Date = ℕ

-- The days before month m, counted from 1 March, and the ordinal of a civil day.
abbrev pub shifted_year : ℕ → ℕ → ℕ
shifted_year y m = if ltb m 3 then y - 1 else y

abbrev pub shifted_month : ℕ → ℕ
shifted_month m = if ltb m 3 then m + 9 else m - 3

-- `dt.date(y, m, d)`: 0001-01-01 is day 1.
unfoldable pub D : ℕ → ℕ → ℕ → Date
D y m d =
    let s = shifted_year y m in
    s * 365 + s / 4 - s / 100 + s / 400 + (153 * shifted_month m + 2) / 5 + d - 306

-- The 400-year cycle of a date, counted from 1 March of year 0.
abbrev pub day_of_cycle : Date → ℕ
day_of_cycle t = (t + 305) % 146097

abbrev pub year_of_cycle : Date → ℕ
year_of_cycle t = let e = day_of_cycle t in (e - e / 1460 + e / 36524 - e / 146096) / 365

abbrev pub day_of_year : Date → ℕ
day_of_year t = let y = year_of_cycle t in day_of_cycle t - (365 * y + y / 4 - y / 100)

abbrev pub march_month : Date → ℕ
march_month t = (5 * day_of_year t + 2) / 153

-- `t.day`, `t.month` and `t.year`
unfoldable pub day_of : Date → ℕ
day_of t = day_of_year t - (153 * march_month t + 2) / 5 + 1

unfoldable pub month_of : Date → ℕ
month_of t = if ltb (march_month t) 10 then march_month t + 3 else march_month t - 9

unfoldable pub year_of : Date → ℕ
unfolding month_of
year_of t =
    let y = (t + 305) / 146097 * 400 + year_of_cycle t in if ltb (month_of t) 3 then y + 1 else y

-- `t.weekday()`: 0 is Monday, 6 is Sunday.
unfoldable pub weekday : Date → ℕ
weekday t = (t + 6) % 7

unfoldable pub fy_start : Date
unfolding D
fy_start = D 2025 4 1

unfoldable pub fy_end : Date
unfolding D
fy_end = D 2026 3 31

-- `d in BANK_HOLIDAYS`
unfoldable pub is_holiday : Date → Bool
unfolding D
is_holiday d = (d == D 2025 8 15) || (d == D 2025 10 2) || (d == D 2026 1 26)

unfoldable pub branch_open : Date → Bool
unfolding weekday day_of is_holiday
branch_open d =
    let rank = (day_of d - 1) / 7 in
    not (weekday d == 6)
    && (not ((weekday d == 5) && ((rank == 1) || (rank == 3))) && not (is_holiday d))

-- `while not branch_open(d): d += timedelta(days=1)`, on fuel. `next_branch_day` gives it four
-- rounds, of which the last is never needed.
unfoldable pub walk_to_branch : ℕ → Date → Date
walk_to_branch zero d = d
walk_to_branch (suc fuel) d =
    let later = walk_to_branch fuel (d + 1) in if branch_open d then d else later

unfoldable pub next_branch_day : Date → Date
unfolding walk_to_branch
next_branch_day = walk_to_branch 4

abbrev pub month_abbr : ℕ → Text
month_abbr m =
    if m == 1
    then txt "Jan"
    else if m == 2
    then txt "Feb"
    else if m == 3
    then txt "Mar"
    else if m == 4
    then txt "Apr"
    else if m == 5
    then txt "May"
    else if m == 6
    then txt "Jun"
    else if m == 7
    then txt "Jul"
    else if m == 8
    then txt "Aug"
    else if m == 9
    then txt "Sep"
    else if m == 10
    then txt "Oct"
    else if m == 11
    then txt "Nov"
    else txt "Dec"

abbrev pub month_full : ℕ → Text
month_full m =
    if m == 1
    then txt "January"
    else if m == 2
    then txt "February"
    else if m == 3
    then txt "March"
    else if m == 4
    then txt "April"
    else if m == 5
    then txt "May"
    else if m == 6
    then txt "June"
    else if m == 7
    then txt "July"
    else if m == 8
    then txt "August"
    else if m == 9
    then txt "September"
    else if m == 10
    then txt "October"
    else if m == 11
    then txt "November"
    else txt "December"

-- `d.strftime("%d %b %Y")`, for years of four digits.
unfoldable pub fdate : Date → Text
unfolding day_of month_of year_of pad2 str_of txt
fdate d =
    pad2 (day_of d) ++ (txt " " ++ (month_abbr (month_of d) ++ (txt " " ++ str_of (year_of d))))

unfoldable pub month_name : ℕ → ℕ → Text
unfolding str_of txt
month_name y m = month_full m ++ (txt " " ++ str_of y)

unfoldable pub month_end : ℕ → ℕ → Date
unfolding D
month_end y m = if m == 12 then D y 12 31 else D y (m + 1) 1 - 1

-- The loop of `fy_months`, from (y, m), for the rounds that are left.
unfoldable pub months_from : ℕ → ℕ → ℕ → List (ℕ × ℕ)
months_from zero y m = []
months_from (suc left) y m =
    (y, m) ∷ (if (m + 1) == 13 then months_from left (y + 1) 1 else months_from left y (m + 1))

unfoldable pub fy_months : List (ℕ × ℕ)
unfolding months_from
fy_months = months_from 12 2025 4
