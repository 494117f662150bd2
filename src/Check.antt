-- ===== src/Check.antt =====
-- The checker docs/accounting/reference-books/check_md.py: it reads the printed books back, and derives
-- their figures again from the entries of the Day Book.
pub mod Book
pub mod Cells
pub mod Plain
pub mod Groups
pub mod ReadBack
pub mod Tables
pub mod Entries
pub mod DatesRead
pub mod NamesRead
pub mod Figures
pub mod SidesRead
pub mod SidesTotal
pub mod EntryRead
pub mod Rules
pub mod Amounts
pub mod Ageing
pub mod DayBookRead
pub mod Rows
pub mod Printed
