-- ===== src/Examples.antt =====
-- A small book of one owner, posted and closed, at which the theorems are applied.
mod Sample
mod Shop
mod Applied
mod Pages
mod Checks
mod Rules
