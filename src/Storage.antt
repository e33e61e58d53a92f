-- ===== src/Storage.antt =====
-- storage/storage.go: the keys of the state, and each record that is stored under them.
pub mod Keys
pub mod Writes
pub mod Balance
pub mod Asset
pub mod Loan
pub mod ValidatorStake
pub mod UserStake
pub mod Keeping
pub mod Ledger
pub mod Backing
pub mod Books
pub mod Transactions
