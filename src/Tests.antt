-- ===== src/Tests.antt =====
-- Tests on concrete inputs.
pub mod Data
mod Reports
mod Queues
mod Manager
mod Texts
mod Accounts
mod Orders
mod Market
mod Numbers
mod Pools
