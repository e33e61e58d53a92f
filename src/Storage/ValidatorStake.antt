-- ===== src/Storage/ValidatorStake.antt =====
-- Validator stakes: storage/storage.go, `SetRegisterValidatorStake` to
-- `DeleteRegisterValidatorStake`.
pub mod RoundTrip
use nuklaivm.Prelude.{ℕ, ◌+◌, Option, none, some, ◌++◌, Result, ok, err, panic, M}
use nuklaivm.Prelude.Decode.{◌>>=◌}
use nuklaivm.Bytes.{Bytes, be64, of_be64}
use nuklaivm.Bytes.Slices.{slice, copy_into}
use nuklaivm.Sdk.{Sdk, Error}
use nuklaivm.Storage.Keys.{register_validator_stake_key}

-- The results of `GetRegisterValidatorStake` behind `exists`.
pub record ValidatorStake : Type 0 where
  pub stake_start_block : ℕ
  pub stake_end_block : ℕ
  pub staked_amount : ℕ
  pub delegation_fee_rate : ℕ
  pub reward_address : Bytes
  pub owner_address : Bytes

unfoldable pub encode_validator_stake : ValidatorStake → Bytes
encode_validator_stake r =
    be64 r.stake_start_block
    ++ (be64 r.stake_end_block
        ++ (be64 r.staked_amount
            ++ (be64 r.delegation_fee_rate ++ (r.reward_address ++ r.owner_address))))

-- The decoding part of innerGetRegisterValidatorStake.
unfoldable pub decode_validator_stake : ℕ → Bytes → Result Error ValidatorStake
decode_validator_stake address_len v = do
  start ← slice 0 8 v
  stake_start_block ← of_be64 start
  end_block ← slice 8 (8 + 8) v
  stake_end_block ← of_be64 end_block
  staked ← slice (8 + 8) (8 + 8 + 8) v
  staked_amount ← of_be64 staked
  rate ← slice (8 + 8 + 8) (8 + 8 + 8 + 8) v
  delegation_fee_rate ← of_be64 rate
  reward ← slice (8 + 8 + 8 + 8) (8 + 8 + 8 + 8 + address_len) v
  owner ← slice (8 + 8 + 8 + 8 + address_len) (8 + 8 + 8 + 8 + address_len + address_len) v
  ok (record {
    stake_start_block = stake_start_block;
    stake_end_block = stake_end_block;
    staked_amount = staked_amount;
    delegation_fee_rate = delegation_fee_rate;
    reward_address = copy_into address_len reward;
    owner_address = copy_into address_len owner;
  })

-- innerGetRegisterValidatorStake: `none` is `exists == false`. The source answers so on any
-- error, and returns no error.
unfoldable pub inner_get_register_validator_stake :
    ℕ → Result Error Bytes → Result Error (Option ValidatorStake)
inner_get_register_validator_stake address_len (err e) = ok none
inner_get_register_validator_stake address_len panic = panic
inner_get_register_validator_stake address_len (ok v) = do
  r ← decode_validator_stake address_len v
  ok (some r)

module _ {S : Type 0} (sdk : Sdk S) where
  open sdk use {address_len, get_value, insert, remove}

  unfoldable pub get_register_validator_stake : Bytes → S → Result Error (Option ValidatorStake)
  get_register_validator_stake node_id s =
      inner_get_register_validator_stake address_len
        (get_value s (register_validator_stake_key node_id))

  unfoldable pub set_register_validator_stake : Bytes → ValidatorStake → M S Error (Unit {0})
  set_register_validator_stake node_id r =
      insert (register_validator_stake_key node_id) (encode_validator_stake r)

  unfoldable pub delete_register_validator_stake : Bytes → M S Error (Unit {0})
  delete_register_validator_stake node_id = remove (register_validator_stake_key node_id)
