-- ===== src/Auth.antt =====
-- auth/: the accounts of transactions. Of the signatures, those of validators.
pub mod Bls
