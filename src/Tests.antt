-- ===== src/Tests.antt =====
-- Runs on small data: a team with a top-level key and a sub-key, and each result at an example.
pub mod Data
mod Keys
mod Ledger
mod Budget
mod Poll
mod Access
mod Routes
mod Read
mod NewMigration
mod DevToken
mod Prices
mod Migrate
mod Passes
mod Admin
