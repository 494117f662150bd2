-- ===== src/Examples/Sample.antt =====
-- A small shop: cash, a customer, the owner and three heads, with four entries of June to August
-- 2025, and two partners.
use rukka_folio.Prelude.{
  starts_with, ℤ, ℕ, ◌≡◌, refl, List, [], ◌∷◌, ◌++◌, pos, negsuc, All, Text, txt, none, some, ◌≤◌,
  arith, same, ◌+ℤ◌, ◌-ℤ◌, neg, mem,
}
use rukka_folio.Dates.{Date, D, fy_start}
use rukka_folio.Kinds.{pcapital, cash, party, capital, drawings, income, expense, is_money_kind}
use rukka_folio.Fault.{Result, ok, err}
use rukka_folio.Book.{
  Account, Book, Voucher, Line, account, Partner, new_book, business, find_account, has_account,
}
use rukka_folio.Entry.{validate_vouchers}
use rukka_folio.Kinds.{invest}
use rukka_folio.Book.{npo}
use rukka_folio.Close.Balances.{add_to}
use rukka_folio.Report.Receipts.{Flows, no_flows, flows_of, flow_voucher, flow_lines, flow_line}
use rukka_folio.Posting.{finalize, post, opening_total}
use rukka_folio.Appropriation.{Part, appropriate}

abbrev pub cash_account : Account
cash_account = account (txt "Cash A/c") cash [] (pos 50000) none none

abbrev pub customer : Account
customer = account (txt "Anil") party [] (pos 0) none none

abbrev pub owner : Account
owner = account (txt "Capital A/c") capital [] (negsuc 49999) none none

abbrev pub drawn : Account
drawn = account (txt "Drawings A/c") drawings [] (pos 0) none none

abbrev pub sales : Account
sales = account (txt "Sales A/c") income [] (pos 0) none none

abbrev pub rent : Account
rent = account (txt "Rent A/c") expense [] (pos 0) none none

abbrev pub entry : ℕ → Date → Text → List Line → Voucher
entry seq date vtype lines = record {
  date = date;
  vtype = vtype;
  narration = [];
  lines = lines;
  stmt = none;
  vid = [];
  seq = seq;
  ref = none;
}

abbrev pub sold : Voucher
sold =
    entry 0 739410 (txt "Journal (credit given)")
      ((txt "Anil", pos 30000) ∷ (txt "Sales A/c", negsuc 29999) ∷ [])

abbrev pub received : Voucher
received =
    entry 1 739430 (txt "Receipt") ((txt "Cash A/c", pos 20000) ∷ (txt "Anil", negsuc 19999) ∷ [])

abbrev pub paid_rent : Voucher
paid_rent =
    entry 2 739460 (txt "Payment") ((txt "Rent A/c", pos 8000) ∷ (txt "Cash A/c", negsuc 7999) ∷ [])

abbrev pub taken_out : Voucher
taken_out =
    entry 3 739470 (txt "Payment")
      ((txt "Drawings A/c", pos 5000) ∷ (txt "Cash A/c", negsuc 4999) ∷ [])

abbrev pub shop : Book
shop = record (new_book (txt "Shop") (txt "business book") (txt "SH") business) {
  accounts = cash_account ∷ customer ∷ owner ∷ drawn ∷ sales ∷ rent ∷ [];
  vouchers = sold ∷ received ∷ paid_rent ∷ taken_out ∷ [];
  min_count = 0;
}

-- The book after `post`.
abbrev pub posted_or : Result Book → Book
posted_or (ok b) = b
posted_or (err e) = shop

abbrev pub posted : Book
posted = posted_or (post shop)

pub shop-valid : validate_vouchers shop.accounts shop.vouchers ≡ ok tt
unfolding validate_vouchers new_book account txt ◌+ℤ◌ mem same has_account find_account
    is_money_kind
shop-valid = refl

pub shop-posted : post shop ≡ ok posted
unfolding post new_book account txt same
shop-posted = refl

pub shop-openings : opening_total shop.accounts ≡ pos 0
unfolding new_book account txt ◌+ℤ◌
shop-openings = refl

pub shop-dates : All (λ w. fy_start ≤ w.date) shop.vouchers
unfolding fy_start D new_book
shop-dates = (omega arith, (omega arith, (omega arith, (omega arith, tt))))

-- Two partners with interest at 6 % and 5 : 3 shares.
abbrev pub partner_of : Text → ℕ → Partner
partner_of name share = record {
  name = name;
  capital = some name;
  current = name ++ txt " current";
  share = share;
  ioc_bp = 600;
}

abbrev pub two_partners : List Partner
two_partners = partner_of (txt "Asha") 5 ∷ partner_of (txt "Bina") 3 ∷ []

abbrev pub capital_at : Text → ℤ → Account
capital_at name x = record (account name pcapital [] x none none) { closing = x }

abbrev pub capitals : List Account
capitals = capital_at (txt "Asha") (negsuc 999999) ∷ capital_at (txt "Bina") (negsuc 499999) ∷ []

abbrev pub part_of : Text → ℕ → ℕ → ℕ → Part
part_of name share i s = record { partner = partner_of name share; interest = i; share = s }

abbrev pub two_parts : List Part
two_parts = part_of (txt "Asha") 5 60000 70001 ∷ part_of (txt "Bina") 3 30000 42000 ∷ []

pub parts-made : appropriate capitals two_partners (pos 202001) ≡ ok two_parts
unfolding appropriate account txt same ◌-ℤ◌ neg
parts-made = refl

-- The book after `finalize`.
abbrev pub finished : Book
finished = posted_or (finalize shop)

pub shop-finished : finalize shop ≡ ok finished
unfolding finalize new_book account txt same ◌+ℤ◌ mem has_account find_account is_money_kind
shop-finished = refl

-- A trust that gets a gift and puts a part of it into a deposit.
abbrev pub trust : Book
trust = record (new_book (txt "Trust") (txt "trust book") (txt "TR") npo) {
  accounts =
      cash_account
      ∷ account (txt "Deposit A/c") invest [] (pos 0) none none
      ∷ account (txt "General Fund A/c") capital [] (negsuc 49999) none none
      ∷ account (txt "Donations A/c") income [] (pos 0) none none
      ∷ [];
  vouchers =
      entry 0 739410 (txt "Receipt")
        ((txt "Cash A/c", pos 30000) ∷ (txt "Donations A/c", negsuc 29999) ∷ [])
      ∷ entry 1 739420 (txt "Contra")
          ((txt "Deposit A/c", pos 20000) ∷ (txt "Cash A/c", negsuc 19999) ∷ [])
      ∷ [];
  min_count = 0;
}

abbrev pub trust_or : Result Book → Book
trust_or (ok b) = b
trust_or (err e) = trust

abbrev pub trust_posted : Book
trust_posted = trust_or (post trust)

pub trust-valid : validate_vouchers trust.accounts trust.vouchers ≡ ok tt
unfolding validate_vouchers new_book account txt ◌+ℤ◌ mem same has_account find_account
    is_money_kind
trust-valid = refl

pub trust-posted : post trust ≡ ok trust_posted
unfolding post new_book account txt same
trust-posted = refl

abbrev pub flows_or : Result Flows → Flows
flows_or (ok s) = s
flows_or (err e) = no_flows

abbrev pub trust_flows : Flows
trust_flows = flows_or (flows_of trust_posted.accounts trust_posted.vouchers no_flows)

pub trust-counted : flows_of trust_posted.accounts trust_posted.vouchers no_flows ≡ ok trust_flows
unfolding flows_of post new_book account txt same find_account is_money_kind add_to ◌+ℤ◌
    flow_voucher starts_with flow_lines flow_line
trust-counted = refl
