-- ===== src/Dates/Branch.antt =====
-- `next_branch_day` finds the first day on which the branch is open.
use rukka_folio.Prelude.{
  ℕ, suc, ◌+◌, ◌%◌, ◌≤◌, ◌<◌, ◌≡◌, true, false, leb, leb→le, ◌==◌, inl, inr, ◌⊎◌, Bool-cases, arith,
}
use rukka_folio.Dates.{Date, D, weekday, is_holiday, branch_open, walk_to_branch, next_branch_day}

-- A weekend, or one of the three holidays.
abbrev Idle : Date → Type 0
Idle t = (5 ≤ (t + 6) % 7) ⊎ ((t ≡ 739478) ⊎ ((t ≡ 739526) ⊎ (t ≡ 739642)))

idle_holiday : (t : Date) → is_holiday t ≡ true → (t ≡ 739478) ⊎ ((t ≡ 739526) ⊎ (t ≡ 739642))
unfolding is_holiday D
idle_holiday t h = ground arith

work_day : (t : Date) → (t + 6) % 7 < 5 → is_holiday t ≡ false → branch_open t ≡ true
unfolding branch_open weekday
work_day t h k =
    let six : ((t + 6) % 7 == 6) ≡ false = ground arith in
    let five : ((t + 6) % 7 == 5) ≡ false = ground arith in rw (six, five, k)

-- A day on which the branch is shut.
shut-Idle : (t : Date) → branch_open t ≡ false → Idle t
shut-Idle t h = elim (Bool-cases (is_holiday t)) [
  | inl k ↦ inr (idle_holiday t k)
  | inr k ↦ elim (Bool-cases (leb 5 ((t + 6) % 7))) [
    | inl e ↦ inl (leb→le _ _ e)
    | inr e ↦ let working : branch_open t ≡ true = work_day t (ground arith) k in cc
  ]
]

-- No four days on end are shut.
not_four : (t : Date) → Idle t → Idle (t + 1) → Idle (t + 1 + 1) → Idle (t + 1 + 1 + 1) → ⊥
not_four t a b c d = omega arith

abbrev pub FirstOpen : Date → Date → Type 0
FirstOpen d e =
    (branch_open e ≡ true) × (d ≤ e) × ((t : Date) → d ≤ t → t < e → branch_open t ≡ false)

open-FirstOpen : (d : Date) → branch_open d ≡ true → FirstOpen d d
open-FirstOpen d h = (h, omega arith, λ t p q. absurd (omega arith))

shut-FirstOpen : (d e : Date) → branch_open d ≡ false → FirstOpen (d + 1) e → FirstOpen d e
shut-FirstOpen d e h (o, p, f) = (
  o,
  omega arith,
  λ t q r. elim (Bool-cases (leb (d + 1) t)) [
    | inl k ↦ f t (leb→le _ _ k) r
    | inr k ↦ let same_day : t ≡ d = ground arith in rw same_day h
  ],
)

-- A walk on fuel that meets an open day.
walk-FirstOpen :
    (fuel : ℕ) (d : Date)
    → (branch_open d ≡ false → FirstOpen (d + 1) (walk_to_branch fuel (d + 1)))
    → FirstOpen d (walk_to_branch (suc fuel) d)
unfolding walk_to_branch
walk-FirstOpen fuel d h = elim (Bool-cases (branch_open d)) [
  | inl e ↦ rw e (open-FirstOpen d e)
  | inr e ↦ rw e (shut-FirstOpen d (walk_to_branch fuel (d + 1)) e (h e))
]

-- From every day, `next_branch_day` gives the first day, that day or later, on which the branch is open.
pub next_branch_day-FirstOpen : (d : Date) → FirstOpen d (next_branch_day d)
unfolding next_branch_day
next_branch_day-FirstOpen d = walk-FirstOpen 3 d λ a. walk-FirstOpen 2 (d + 1) λ b.
    walk-FirstOpen 1 (d + 1 + 1) λ c.
      walk-FirstOpen 0 (d + 1 + 1 + 1)
        λ e. absurd (not_four d (shut-Idle _ a) (shut-Idle _ b) (shut-Idle _ c) (shut-Idle _ e))
