-- ===== src/Emission.antt =====
-- emission/emission.go: the emission balancer, which tracks supply, stakes and rewards.
pub mod State
pub mod Staking
pub mod Claims
pub mod Events
pub mod Rewards
pub mod Shares
pub mod Objects
pub mod Exits
pub mod Entries
pub mod Frame
pub mod Supply
pub mod Processed
pub mod Activation
pub mod Undelegating
pub mod Queries
