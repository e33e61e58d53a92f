-- ===== src/Actions.antt =====
-- actions/: what each transaction does to the state.
pub mod Accounts
pub mod Receipt
pub mod Staking
pub mod WarpTransfer
pub mod Transfer
pub mod MintAsset
pub mod BurnAsset
pub mod CreateAsset
pub mod ExportAsset
pub mod ImportAsset
