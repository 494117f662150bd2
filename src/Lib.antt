-- ===== src/Lib.antt =====
-- The ledger engine of the reference books.
--
-- docs/accounting/reference-books/build.py writes five reference books: ledgers of the year 2025-26
-- that are the target output of the app. A book is built by `add` and by the shorthands over `v`, then
-- `finalize` sorts and numbers its entries, checks them, posts them to the accounts and checks the
-- balances. The reports only query the posted book. At the year's end the book closes itself by
-- entries of its own. All amounts are whole paise, + for Dr.
--
-- The files, each with the part of build.py that it models:
--   Prelude            shared names, lists, the integers over the native numbers, and text
--   Dates, Money       `branch_open` to `fy_months`; `R`, `fmt`, `half_up`
--   Kinds, Vtypes      the tables `KIND`, `PLAIN_VTYPE`, `APP_VERB` and the tuples of kinds
--   Fault              the exceptions, one for each assertion, and the results that carry them
--   Book               `Account`, `Voucher`, `Book`, `add`, `balance_opening_into`, `v`, `pay` to `fix`
--   Entry              `validate_vouchers` and `formal_vtype`
--   Posting            `finalize`, `post`, `validate_balances`
--   Queries            `balance_at`, `movement`, `result_to`, `equity_parts`
--   Appropriation      `appropriation`
--   Close              `close_entries`, `close_posts`; Close/Balances `post_close_balances`
--   Report             `table` to `side_cell`, `ledger_table`, `sec_ledgers`, `statement_table`,
--                      `natural_line`, `sec_statements`, `sec_bank_extract`, `sec_daybook`,
--                      `cash_book`, `sec_books`, `fifo_open_items`, `sec_ageing`, `place`,
--                      `position_table`, `foot_notes`, `sec_chart`, `sec_closing` with the sections
--                      that it puts together, `int_or`, `carry_rows`, `render_book_sections`;
--                      Report/Family `link_pairs`, `pair_section`, `sec_family_summary`;
--                      Report/EntryKinds `entry_kinds`
--   Check              the checker check_md.py: `clean`, `paise`, `signed`, `bal_paise` in Check/Cells,
--                      `cells`, `read_tables`, `block` in Check/Tables, `pdate`, `split_cell` and the
--                      reading of the Day Book in Check/Entries, `bk.post`, `bal_at`, `mov`,
--                      `equity_parts`, `result_to` in Check/Book, the rules of an entry's type in
--                      Check/Rules and its child Further, `fmt_in` in Check/Amounts, the open items of
--                      `check_ageing` in Check/Ageing
--   Examples           a small shop, its posting, and the theorems at it
-- The children of a file hold its further parts and the proofs about it.
--
-- How the code is modelled. A method that changes the book returns the book that it leaves; an
-- assertion that fails, a `KeyError` and a division by zero are values of `Fault`. `accounts` with
-- `order` is one list of accounts, in the order in which they were added; a dictionary of balances is
-- an association list. Text is a list of character codes, and a date is its proleptic Gregorian
-- ordinal, which Python's dates are ordered and subtracted by. Integers are unbounded, as in Python.
--
-- The builder and the checker meet in what is printed. The builder prints the Day Book of a posted
-- book; the checker reads its lines, rows and cells back to entries, posts these by itself, and asks
-- its own queries. A regular expression of the checker is a function on the text that it matches; a
-- text that it does not match raises `value_error`, or `not_named`. `pdate` reads the form in which the
-- pages print a date.
--
-- Fuel. `next_branch_day` walks at most four days, since no four days on end are shut. `settle_items`
-- gets two rounds more than there are open items, since each round but the last two removes one.
-- `digits_on` gets a number's value and one more, `strip_zeros` its value, `head_groups` and
-- `replace_on` the length of their text; so do `pairs_from` and `without_tagged`. `settle_oldest` gets
-- what `settle_items` gets.
--
-- Not modelled: the rendering to HTML and PDF, and the five books' own data. Of check_md.py, the
-- checks that `ok` counts on the ledgers and the reports, and on the entries all but the rules of the
-- type, from `if vtype == "Transfer"` on. The builder knows no rule like the further ones of the types
-- Correction, Written off, Deposit set off, Deposit forfeited and Retention released: Examples/Rules
-- has an entry that it accepts and that fails one. The `counts` of a book, which the sections note
-- figures on, are left out, and so are `sources` and `gaps`. An index out of range and an unpacking of
-- None are `key_error` here; in the checker, `few_cells`.
pub mod Prelude
pub mod Dates
pub mod Money
pub mod Kinds
pub mod Vtypes
pub mod Fault
pub mod Book
pub mod Entry
pub mod Posting
pub mod Queries
pub mod Appropriation
pub mod Close
pub mod Report
pub mod Check
mod Examples
