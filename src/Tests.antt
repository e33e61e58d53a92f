-- ===== src/Tests.antt =====
-- Runs of the model at concrete inputs, and each theorem at an input that meets its hypotheses.
mod Store
mod Packer
mod Ledgers
mod Assets
mod Accounts
mod Stakes
mod Messages
mod Staking
mod Registering
mod Fees
mod Emissions
mod Origin
