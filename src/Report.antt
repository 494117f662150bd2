-- ===== src/Report.antt =====
-- The report sections of docs/accounting/reference-books/build.py: the pages that a
-- finalized book prints, as lines of markdown.
pub mod Markdown
pub mod Chart
pub mod Daybook
pub mod Month
pub mod LedgerTable
pub mod Ledgers
pub mod Statement
pub mod BalanceSheet
pub mod YearStatement
pub mod CarryForward
pub mod Trial
pub mod CloseEntries
pub mod Receipts
pub mod Ageing
pub mod CashBook
pub mod BankExtract
pub mod Statements
pub mod Position
pub mod EntryKinds
pub mod Family
pub mod AppropriationPage
pub mod Closing
