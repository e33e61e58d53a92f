-- ===== src/Controller/StateManager/Keys.antt =====
-- Where the entries of the state are kept: the keys of controller/state_manager.go and
-- storage/storage.go together.
use nuklaivm.Prelude.{ℕ, ◌≡◌, length}
use nuklaivm.Bytes.{Bytes}
use nuklaivm.Storage.Keys.{
  balance_key, asset_key, loan_key, register_validator_stake_key, delegate_user_stake_key,
}
use nuklaivm.Controller.StateManager.{
  manager_height_key, manager_timestamp_key, manager_fee_key, manager_incoming_warp_key_prefix,
  manager_outgoing_warp_key_prefix,
}

-- The kinds of entries in the state, each with the parts of its key: those of the chain, which the
-- state manager places, and those of storage/storage.go.
pub data Entry : Type 0 where
  balance : Bytes → Bytes → Entry
  height timestamp fee : Entry
  incoming_warp : Bytes → Bytes → Entry
  outgoing_warp : Bytes → Entry
  asset : Bytes → Entry
  loan : Bytes → Bytes → Entry
  validator_stake : Bytes → Entry
  user_stake : Bytes → Bytes → Entry

abbrev pub key : Entry → Bytes
key (balance a t) = balance_key a t
key height = manager_height_key
key timestamp = manager_timestamp_key
key fee = manager_fee_key
key (incoming_warp c m) = manager_incoming_warp_key_prefix c m
key (outgoing_warp t) = manager_outgoing_warp_key_prefix t
key (asset t) = asset_key t
key (loan t d) = loan_key t d
key (validator_stake n) = register_validator_stake_key n
key (user_stake o n) = delegate_user_stake_key o n

-- The parts are arrays of these widths.
abbrev pub HasWidths : ℕ → ℕ → ℕ → Entry → Type 0
HasWidths al il nl (balance a t) = (length a ≡ al) × (length t ≡ il)
HasWidths al il nl height = Unit
HasWidths al il nl timestamp = Unit
HasWidths al il nl fee = Unit
HasWidths al il nl (incoming_warp c m) = (length c ≡ il) × (length m ≡ il)
HasWidths al il nl (outgoing_warp t) = length t ≡ il
HasWidths al il nl (asset t) = length t ≡ il
HasWidths al il nl (loan t d) = (length t ≡ il) × (length d ≡ il)
HasWidths al il nl (validator_stake n) = length n ≡ nl
HasWidths al il nl (user_stake o n) = (length o ≡ al) × (length n ≡ nl)

-- The height and the state of the fees are one entry: FeeKey answers the height's key.
abbrev pub slot : Entry → Entry
slot fee = height
slot (balance a t) = balance a t
slot height = height
slot timestamp = timestamp
slot (incoming_warp c m) = incoming_warp c m
slot (outgoing_warp t) = outgoing_warp t
slot (asset t) = asset t
slot (loan t d) = loan t d
slot (validator_stake n) = validator_stake n
slot (user_stake o n) = user_stake o n
