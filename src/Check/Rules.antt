-- ===== src/Check/Rules.antt =====
-- The first rule of an entry's type in `parse_book` of docs/accounting/reference-books/check_md.py: what
-- the `if`, `elif`, `else` over `vtype` gives to `ok`. The rules of single types that stand behind it are
-- in Rules/Further. `drs` and `crs` are the lines that were read from the two cells.
pub mod Agreed
pub mod Passes
pub mod Shapes
pub mod Words
pub mod Further
pub mod Checked
pub mod Accepted
use rukka_folio.Prelude.{
  ℕ, ◌+◌, Bool, true, false, not, ◌&&◌, ◌||◌, ◌==◌, List, [], ◌∷◌, ◌++◌, if◌then◌else◌, length,
  every, some_of, keep, ℤ, pos, eqb_ℤ, sum_by, Text, txt, same, mem,
}
use rukka_folio.Fault.{Result, ok, err, ◌>>=◌}
use rukka_folio.Book.{Line}
use rukka_folio.Check.Book.{Head, head_of}

-- `MONEY` and `MIXED_OK`
unfoldable pub money_words : List Text
unfolding txt
money_words =
    txt "Cash" ∷ txt "Gollak" ∷ txt "Bank" ∷ txt "Wallet" ∷ txt "Credit card" ∷ txt "KCC loan" ∷ []

unfoldable pub mixed_words : List Text
unfolding txt
mixed_words = txt "Advance" ∷ txt "Loan" ∷ []

unfoldable pub income_words : List Text
unfolding txt
income_words = txt "Income" ∷ []

unfoldable pub fund_words : List Text
unfolding txt
fund_words = txt "Fund" ∷ []

unfoldable pub charged_words : List Text
unfolding txt
charged_words = txt "Fund" ∷ txt "Expense" ∷ txt "Thing owned" ∷ []

module _ (heads : List Head) where
  -- `bk.type[n] in words`
  unfoldable pub type_in : List Text → Text → Result Bool
  unfolding head_of mem
  type_in words n = do h ← head_of n heads; ok (mem h.word words)

  -- `n in bk.money`
  abbrev pub money_head : Result Head → Bool
  money_head (err e) = false
  money_head (ok h) = mem h.word money_words

  unfoldable pub in_money : Line → Bool
  unfolding head_of money_words mem
  in_money l = money_head (head_of l.0 heads)

  -- `all(p(n) for n, _ in lines)`, for a test that may raise.
  unfoldable pub all_lines : (Line → Result Bool) → List Line → Result Bool
  all_lines p [] = ok true
  all_lines p (l ∷ ls) =
      let rest = all_lines p ls in do holds ← p l; if holds then rest else ok false

  -- `[(n, a) for n, a in lines if p(n)]`
  unfoldable pub pick_lines : (Line → Result Bool) → List Line → Result (List Line)
  pick_lines p [] = ok []
  pick_lines p (l ∷ ls) =
      let rest = pick_lines p ls in
      do holds ← p l; more ← rest; ok (if holds then l ∷ more else more)

  abbrev pub first_amount : List Line → ℤ
  first_amount [] = pos 0
  first_amount (l ∷ ls) = l.1

  abbrev pub mixed_ok : Line → Result Bool
  mixed_ok l = if in_money l then ok true else type_in mixed_words l.0

  abbrev pub other_than_income : Line → Result Bool
  other_than_income l = do t ← type_in income_words l.0; ok (not t)

  -- `Paid from a fund`
  unfoldable pub fund_rule : List Line → List Line → Result Bool
  unfolding type_in in_money all_lines pick_lines
  fund_rule drs crs = do
    fd ← pick_lines (λ l. type_in fund_words l.0) drs
    ic ← pick_lines (λ l. type_in income_words l.0) crs
    paid ← pick_lines other_than_income crs
    charged ← all_lines (λ l. type_in charged_words l.0) drs
    ok (
        (length fd == 1)
        && ((length ic == 1)
            && (((length drs + length crs) == 4)
                && (every in_money paid
                    && (eqb_ℤ (first_amount fd) (first_amount ic)
                        && (eqb_ℤ (first_amount ic) (sum_by (λ l. l.1) (keep in_money crs))
                            && charged))))))

  -- The `if`, `elif` and `else` over the type.
  unfoldable pub type_rule : Text → List Line → List Line → Result Bool
  unfolding fund_rule in_money all_lines type_in txt same
  type_rule vtype drs crs =
      let touched = some_of in_money (drs ++ crs) in
      if same vtype (txt "Transfer")
      then ok ((length drs == 1) && ((length crs == 1) && touched))
      else if same vtype (txt "Money in")
      then ok (every in_money drs)
      else if same vtype (txt "Money out")
      then (do
        mixed ← all_lines mixed_ok crs
        ok (mixed && (some_of in_money crs && not (some_of in_money drs))))
      else if same vtype (txt "Paid from a fund")
      then fund_rule drs crs
      else ok (not touched)
