-- ===== src/Dates/Tests.antt =====
-- Dates at known days.
use rukka_folio.Prelude.{◌≡◌, refl, txt}
use rukka_folio.Dates.{D, branch_open, fdate, month_end, next_branch_day}

ordinal_of_fy_start : D 2025 4 1 ≡ 739342
unfolding D
ordinal_of_fy_start = refl

fdate_leap_day : fdate (D 2024 2 29) ≡ txt "29 Feb 2024"
unfolding fdate D
fdate_leap_day = refl

-- Friday 15 August 2025 is a holiday, the 16th the third Saturday.
after_holiday : next_branch_day (D 2025 8 15) ≡ D 2025 8 16
unfolding next_branch_day branch_open D
after_holiday = refl

march_end : month_end 2026 2 ≡ D 2026 2 28
unfolding month_end D
march_end = refl
