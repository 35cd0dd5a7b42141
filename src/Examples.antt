-- ===== src/Examples.antt =====
-- Concrete inputs: the theorems applied to them, and runs of the definitions on them.
pub mod Values
mod Runs
mod Settings
mod Risk
mod Ring
mod Blockers
mod Locks
mod Sql
mod Statements
mod Plans
mod Transactions
mod Replication
mod Pressure
