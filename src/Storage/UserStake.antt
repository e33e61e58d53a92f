-- ===== src/Storage/UserStake.antt =====
-- User stakes: storage/storage.go, `SetDelegateUserStake` to
-- `DeleteDelegateUserStake`.
pub mod RoundTrip
use nuklaivm.Prelude.{ℕ, ◌+◌, Option, none, some, ◌++◌, Result, ok, err, panic, M}
use nuklaivm.Prelude.Decode.{◌>>=◌}
use nuklaivm.Bytes.{Bytes, be64, of_be64}
use nuklaivm.Bytes.Slices.{slice, copy_into}
use nuklaivm.Sdk.{Sdk, Error}
use nuklaivm.Storage.Keys.{delegate_user_stake_key}

-- The results of `GetDelegateUserStake` behind `exists`.
pub record UserStake : Type 0 where
  pub stake_start_block : ℕ
  pub stake_end_block : ℕ
  pub staked_amount : ℕ
  pub reward_address : Bytes
  pub owner_address : Bytes

unfoldable pub encode_user_stake : UserStake → Bytes
encode_user_stake r =
    be64 r.stake_start_block
    ++ (be64 r.stake_end_block ++ (be64 r.staked_amount ++ (r.reward_address ++ r.owner_address)))

-- The decoding part of innerGetDelegateUserStake.
unfoldable pub decode_user_stake : ℕ → Bytes → Result Error UserStake
decode_user_stake address_len v = do
  start ← slice 0 8 v
  stake_start_block ← of_be64 start
  end_block ← slice 8 (8 + 8) v
  stake_end_block ← of_be64 end_block
  staked ← slice (8 + 8) (8 + 8 + 8) v
  staked_amount ← of_be64 staked
  reward ← slice (8 + 8 + 8) (8 + 8 + 8 + address_len) v
  owner ← slice (8 + 8 + 8 + address_len) (8 + 8 + 8 + address_len + address_len) v
  ok (record {
    stake_start_block = stake_start_block;
    stake_end_block = stake_end_block;
    staked_amount = staked_amount;
    reward_address = copy_into address_len reward;
    owner_address = copy_into address_len owner;
  })

-- innerGetDelegateUserStake: `none` is `exists == false`. The source answers so on any
-- error, and returns no error.
unfoldable pub inner_get_delegate_user_stake :
    ℕ → Result Error Bytes → Result Error (Option UserStake)
inner_get_delegate_user_stake address_len (err e) = ok none
inner_get_delegate_user_stake address_len panic = panic
inner_get_delegate_user_stake address_len (ok v) = do
  r ← decode_user_stake address_len v
  ok (some r)

module _ {S : Type 0} (sdk : Sdk S) where
  open sdk use {address_len, get_value, insert, remove}

  unfoldable pub get_delegate_user_stake : Bytes → Bytes → S → Result Error (Option UserStake)
  get_delegate_user_stake owner node_id s =
      inner_get_delegate_user_stake address_len
        (get_value s (delegate_user_stake_key owner node_id))

  -- The owner is stored as the owner address.
  unfoldable pub set_delegate_user_stake : Bytes → Bytes → ℕ → ℕ → ℕ → Bytes → M S Error (Unit {0})
  set_delegate_user_stake owner node_id start end_block amount reward_address =
      insert (delegate_user_stake_key owner node_id) (
        encode_user_stake (record {
          stake_start_block = start;
          stake_end_block = end_block;
          staked_amount = amount;
          reward_address = reward_address;
          owner_address = owner;
        }))

  unfoldable pub delete_delegate_user_stake : Bytes → Bytes → M S Error (Unit {0})
  delete_delegate_user_stake owner node_id = remove (delegate_user_stake_key owner node_id)
