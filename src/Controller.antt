-- ===== src/Controller.antt =====
-- controller: the accounting of an accepted block, and the state manager of fees.
pub mod Accepted
pub mod StateManager
