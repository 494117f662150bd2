-- ===== src/Kinds.antt =====
-- The chart's kinds of account and the voucher types of docs/accounting/reference-books/build.py:
-- the tables `KIND`, `PLAIN_VTYPE` and `APP_VERB`, and the tuples of kinds.
use rukka_folio.Prelude.{ℕ, Bool, false, not, ◌||◌, List, [], ◌∷◌, ◌==◌, Text, txt}

-- A key of `KIND`.
pub data Kind : Type 0 where
  cash gollak bank wallet card cc party link stake advance loanto retention fixed deppaid invest
        loan deposit fund capital drawings shareout partner pcapital pcurrent income expense :
      Kind

-- The place of a kind in the table, by which kinds are compared.
abbrev pub tag : Kind → ℕ
tag cash = 0
tag gollak = 1
tag bank = 2
tag wallet = 3
tag card = 4
tag cc = 5
tag party = 6
tag link = 7
tag stake = 8
tag advance = 9
tag loanto = 10
tag retention = 11
tag fixed = 12
tag deppaid = 13
tag invest = 14
tag loan = 15
tag deposit = 16
tag fund = 17
tag capital = 18
tag drawings = 19
tag shareout = 20
tag partner = 21
tag pcapital = 22
tag pcurrent = 23
tag income = 24
tag expense = 25

abbrev pub is_kind : Kind → Kind → Bool
is_kind k j = tag k == tag j

-- `k in kinds`
abbrev pub in_kinds : List Kind → Kind → Bool
in_kinds [] k = false
in_kinds (j ∷ js) k = is_kind k j || in_kinds js k

-- A row of `KIND`.
pub record KindInfo : Type 0 where
  pub std_type : Text
  pub trad : Text
  pub natural : Text
  pub dr_col : Text
  pub cr_col : Text
  pub word : Text

abbrev info : Text → Text → Text → Text → Text → Text → KindInfo
info s t n d c w = record { std_type = s; trad = t; natural = n; dr_col = d; cr_col = c; word = w }

unfoldable pub kind_info : Kind → KindInfo
unfolding txt
kind_info cash =
    info (txt "Asset") (txt "Real") (txt "Dr") (txt "Money in (Dr)") (txt "Money out (Cr)")
      (txt "Cash")
kind_info gollak =
    info (txt "Asset") (txt "Real") (txt "Dr") (txt "Counted in (Dr)") (txt "Emptied (Cr)")
      (txt "Gollak")
kind_info bank =
    info (txt "Asset") (txt "Personal") (txt "Dr") (txt "Money in (Dr)") (txt "Money out (Cr)")
      (txt "Bank")
kind_info wallet =
    info (txt "Asset") (txt "Personal") (txt "Dr") (txt "Money in (Dr)") (txt "Money out (Cr)")
      (txt "Wallet")
kind_info card =
    info (txt "Liability (by balance)") (txt "Personal") (txt "Cr") (txt "Paid in (Dr)")
      (txt "Spent on the card (Cr)") (txt "Credit card")
kind_info cc =
    info (txt "Liability (by balance)") (txt "Personal") (txt "Cr") (txt "Paid in (Dr)")
      (txt "Drawn / charged (Cr)") (txt "KCC loan")
kind_info party =
    info (txt "Asset / Liability (by balance)") (txt "Personal") (txt "by sign")
      (txt "You will get (Dr)") (txt "You will give (Cr)") (txt "Person / shop")
kind_info link =
    info (txt "Asset / Liability (by balance)") (txt "Personal") (txt "by sign") (txt "Given (Dr)")
      (txt "Received (Cr)") (txt "Other book")
kind_info stake =
    info (txt "Asset") (txt "Personal") (txt "Dr") (txt "Put in (Dr)") (txt "Taken out (Cr)")
      (txt "Money in a business")
kind_info advance =
    info (txt "Asset") (txt "Personal") (txt "Dr") (txt "Given as advance (Dr)")
      (txt "Settled / returned (Cr)") (txt "Advance")
kind_info loanto =
    info (txt "Asset") (txt "Personal") (txt "Dr") (txt "Lent (Dr)")
      (txt "Paid back / written off (Cr)") (txt "Loan given")
kind_info retention =
    info (txt "Asset") (txt "Personal") (txt "Dr") (txt "Held back (Dr)") (txt "Released (Cr)")
      (txt "Retention held")
kind_info fixed =
    info (txt "Asset") (txt "Real") (txt "Dr") (txt "Bought / received (Dr)")
      (txt "Sold / gone (Cr)") (txt "Thing owned")
kind_info deppaid =
    info (txt "Asset") (txt "Personal") (txt "Dr") (txt "Paid (Dr)") (txt "Got back / set off (Cr)")
      (txt "Deposit paid")
kind_info invest =
    info (txt "Asset") (txt "Personal") (txt "Dr") (txt "Kept aside / interest added (Dr)")
      (txt "Taken back (Cr)") (txt "Deposit")
kind_info loan =
    info (txt "Liability") (txt "Personal") (txt "Cr") (txt "Paid back (Dr)") (txt "Taken (Cr)")
      (txt "Loan")
kind_info deposit =
    info (txt "Liability") (txt "Personal") (txt "Cr") (txt "Returned / set off (Dr)")
      (txt "Received (Cr)") (txt "Deposit held")
kind_info fund =
    info (txt "Capital (fund for a purpose)") (txt "Personal") (txt "Cr") (txt "Spent from it (Dr)")
      (txt "Added to it (Cr)") (txt "Fund")
kind_info capital =
    info (txt "Capital") (txt "Personal") (txt "Cr") (txt "Taken out (Dr)")
      (txt "Put in / added (Cr)") (txt "Own money")
kind_info drawings =
    info (txt "Capital (contra)") (txt "Personal") (txt "Dr") (txt "Taken out (Dr)")
      (txt "Put back / closed to own money (Cr)") (txt "Drawings")
kind_info shareout =
    info (txt "Capital (contra)") (txt "Personal") (txt "Dr") (txt "Shared out (Dr)")
      (txt "Put back / closed to own money (Cr)") (txt "Share-out")
kind_info partner =
    info (txt "Capital") (txt "Personal") (txt "Cr") (txt "Taken out (Dr)")
      (txt "Put in / added (Cr)") (txt "Partner")
kind_info pcapital =
    info (txt "Capital") (txt "Personal") (txt "Cr") (txt "Taken out (Dr)")
      (txt "Put in / added (Cr)") (txt "Partner's capital")
kind_info pcurrent =
    info (txt "Capital") (txt "Personal") (txt "by sign") (txt "Taken out (Dr)")
      (txt "Put in / added (Cr)") (txt "Partner's current")
kind_info income =
    info (txt "Income") (txt "Nominal") (txt "Cr") (txt "Taken off / closed (Dr)")
      (txt "Income (Cr)") (txt "Income")
kind_info expense =
    info (txt "Expense") (txt "Nominal") (txt "Dr") (txt "Spent (Dr)")
      (txt "Got back / closed (Cr)") (txt "Expense")

abbrev pub money_kinds : List Kind
money_kinds = cash ∷ gollak ∷ bank ∷ wallet ∷ card ∷ cc ∷ []

abbrev pub nonneg_money : List Kind
nonneg_money = cash ∷ gollak ∷ bank ∷ wallet ∷ []

abbrev pub equity_kinds : List Kind
equity_kinds = capital ∷ drawings ∷ shareout ∷ partner ∷ pcapital ∷ pcurrent ∷ []

abbrev pub have_kinds : List Kind
have_kinds =
    cash ∷ gollak ∷ bank ∷ wallet ∷ card ∷ cc ∷ advance ∷ fixed ∷ invest ∷ stake ∷ deppaid ∷ loanto
    ∷ retention ∷ []

abbrev pub contra_kinds : List Kind
contra_kinds = cash ∷ gollak ∷ bank ∷ cc ∷ []

-- `acct.is_money`, `acct.is_equity` and `acct.is_bs`
unfoldable pub is_money_kind : Kind → Bool
is_money_kind k = in_kinds money_kinds k

unfoldable pub is_equity_kind : Kind → Bool
is_equity_kind k = in_kinds equity_kinds k

unfoldable pub is_bs_kind : Kind → Bool
is_bs_kind k = not (in_kinds (income ∷ expense ∷ []) k)
