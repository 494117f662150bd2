-- ===== src/Queries/Finalized.antt =====
-- What holds of a book that `finalize` returns.
use rukka_folio.Prelude.{sym, ◌≡◌, true, ℤ, pos, sum_by, eqb_ℤ, All, ◌∙◌, arith, List}
use rukka_folio.Dates.{Date}
use rukka_folio.Fault.{ok, >>=-eq-ok, guard->>-eq-ok}
use rukka_folio.Book.{Book, Voucher}
use rukka_folio.Book.Changed.{ok-injective}
use rukka_folio.Entry.{validate_vouchers}
use rukka_folio.Posting.{
  finalize, post, validate_balances, opening_total, dr_total, cr_total, number_from, sort_vouchers,
  name_refs,
}
use rukka_folio.Posting.Ledger.{Running, post-IsRunning}
use rukka_folio.Queries.{balance_on}
use rukka_folio.Queries.Totals.{balances-opening_total}
use rukka_folio.Queries.Trial.{trial_balance-openings}

eqb→eq : (x y : ℤ) → eqb_ℤ x y ≡ true → x ≡ y
eqb→eq x y h = ground arith

-- The totals that `validate_balances` compares.
validate_balances-sides :
    (b : Book) → validate_balances b ≡ ok tt → dr_total b.accounts ≡ cr_total b.accounts
unfolding validate_balances
validate_balances-sides b h =
    eqb→eq _ _ (guard->>-eq-ok (eqb_ℤ (dr_total b.accounts) (cr_total b.accounts)) _ _ h).0

abbrev numbered_of : Book → List Voucher
numbered_of b = number_from b.prefix 1 (sort_vouchers b.vouchers)

-- The steps of `finalize` that returned.
finalize-parts :
    (b b' : Book)
    → finalize b ≡ ok b'
    → (vouchers : List Voucher) × (validate_vouchers b.accounts vouchers ≡ ok tt)
      × (post (record b { vouchers = vouchers }) ≡ ok b')
      × (validate_balances b' ≡ ok tt)
unfolding finalize
finalize-parts b b' h =
    let (vouchers, named, h1) = >>=-eq-ok (name_refs (numbered_of b) (numbered_of b)) _ h in
    let (u, valid, h2) = >>=-eq-ok (validate_vouchers b.accounts vouchers) _ h1 in
    let (posted, p, h3) = >>=-eq-ok (post (record b { vouchers = vouchers })) _ h2 in
    let (w, balanced, h4) = >>=-eq-ok (validate_balances posted) _ h3 in
    let e : posted ≡ b' = ok-injective h4 in (vouchers, valid, p ∙ h4, rw (sym e) balanced)

-- In every book that `finalize` returns, the balances of all accounts add up to nil on every day, and
-- each account's rows carry its running balance from its opening balance to its closing balance.
pub finalize-balances :
    (b b' : Book)
    → finalize b ≡ ok b'
    → ((d : Date) → sum_by (balance_on d) b'.accounts ≡ pos 0)
      × All (λ a. Running a.opening a.rows a.closing) b'.accounts
finalize-balances b b' h =
    let (vouchers, valid, posted, balanced) = finalize-parts b b' h in
    let entered = record b { vouchers = vouchers } in
    let openings : opening_total b.accounts ≡ pos 0 =
      (trial_balance-openings entered b' valid posted).0 (validate_balances-sides b' balanced) in
    (
      λ d. balances-opening_total entered b' d valid posted ∙ openings,
      post-IsRunning entered b' posted,
    )
