-- ===== src/Storage/Keys.antt =====
-- The keys of storage/storage.go, byte by byte: a prefix, the parts, and the number of chunks.
-- Addresses and IDs are arrays in Go, so `copy` writes each part in full.
pub mod Separate
use nuklaivm.Prelude.{ℕ, [], ◌∷◌, ◌++◌}
use nuklaivm.Bytes.{Bytes, be16}

abbrev pub tx_prefix : ℕ
tx_prefix = 0x0

abbrev pub balance_prefix : ℕ
balance_prefix = 0x0

abbrev pub height_prefix : ℕ
height_prefix = 0x1

abbrev pub timestamp_prefix : ℕ
timestamp_prefix = 0x2

abbrev pub fee_prefix : ℕ
fee_prefix = 0x3

abbrev pub incoming_warp_prefix : ℕ
incoming_warp_prefix = 0x4

abbrev pub outgoing_warp_prefix : ℕ
outgoing_warp_prefix = 0x5

abbrev pub asset_prefix : ℕ
asset_prefix = 0x6

abbrev pub loan_prefix : ℕ
loan_prefix = 0x7

abbrev pub register_validator_stake_prefix : ℕ
register_validator_stake_prefix = 0x8

abbrev pub delegate_user_stake_prefix : ℕ
delegate_user_stake_prefix = 0x9

abbrev pub balance_chunks : ℕ
balance_chunks = 1

abbrev pub asset_chunks : ℕ
asset_chunks = 5

abbrev pub loan_chunks : ℕ
loan_chunks = 1

abbrev pub register_validator_stake_chunks : ℕ
register_validator_stake_chunks = 5

abbrev pub delegate_user_stake_chunks : ℕ
delegate_user_stake_chunks = 3

unfoldable pub tx_key : Bytes → Bytes
tx_key id = tx_prefix ∷ id

unfoldable pub balance_key : Bytes → Bytes → Bytes
balance_key addr asset = balance_prefix ∷ (addr ++ (asset ++ be16 balance_chunks))

unfoldable pub asset_key : Bytes → Bytes
asset_key asset = asset_prefix ∷ (asset ++ be16 asset_chunks)

unfoldable pub loan_key : Bytes → Bytes → Bytes
loan_key asset destination = loan_prefix ∷ (asset ++ (destination ++ be16 loan_chunks))

unfoldable pub register_validator_stake_key : Bytes → Bytes
register_validator_stake_key node_id =
    register_validator_stake_prefix ∷ (node_id ++ be16 register_validator_stake_chunks)

unfoldable pub delegate_user_stake_key : Bytes → Bytes → Bytes
delegate_user_stake_key owner node_id =
    delegate_user_stake_prefix ∷ (owner ++ (node_id ++ be16 delegate_user_stake_chunks))

unfoldable pub height_key : Bytes
height_key = height_prefix ∷ []

unfoldable pub timestamp_key : Bytes
timestamp_key = timestamp_prefix ∷ []

unfoldable pub fee_key : Bytes
fee_key = fee_prefix ∷ []

unfoldable pub incoming_warp_key_prefix : Bytes → Bytes → Bytes
incoming_warp_key_prefix source_chain_id msg_id = incoming_warp_prefix ∷ (source_chain_id ++ msg_id)

unfoldable pub outgoing_warp_key_prefix : Bytes → Bytes
outgoing_warp_key_prefix tx_id = outgoing_warp_prefix ∷ tx_id
