-- ===== src/Storage/ValidatorStake/RoundTrip.antt =====
-- What SetRegisterValidatorStake stores, GetRegisterValidatorStake reads back, and
-- DeleteRegisterValidatorStake takes away.
use nuklaivm.Prelude.{
  ℕ, ◌+◌, ◌^◌, ◌<◌, ◌≡◌, ◌≢◌, refl, sym, ap, ◌∙◌, subst, none, some, [], ◌++◌, ok, arith, length,
}
use nuklaivm.Prelude.Decode.{◌>>=◌}
use nuklaivm.Bytes.{of_be64_alone, Bytes, be64, length-be64}
use nuklaivm.Bytes.Slices.{At, At-start, At-step, slice-At, copy_into_self}
use nuklaivm.Sdk.{Sdk, Error, IsLawful}
use nuklaivm.Storage.Keys.{register_validator_stake_key}
use nuklaivm.Storage.ValidatorStake.{
  ValidatorStake, encode_validator_stake, decode_validator_stake,
  inner_get_register_validator_stake, get_register_validator_stake, set_register_validator_stake,
  delete_register_validator_stake,
}
use mathlib.Core.List.{append-nil}

-- The fields have the widths of their Go types.
pub record FitsValidatorStake (address_len : ℕ) (r : ValidatorStake) : Type 0 where
  pub start : r.stake_start_block < 2 ^ 64
  pub end_block : r.stake_end_block < 2 ^ 64
  pub amount : r.staked_amount < 2 ^ 64
  pub rate : r.delegation_fee_rate < 2 ^ 64
  pub reward : length r.reward_address ≡ address_len
  pub owner : length r.owner_address ≡ address_len

module _ (address_len : ℕ) (r : ValidatorStake) (fits : FitsValidatorStake address_len r) where
  decode-encode_validator_stake :
      decode_validator_stake address_len (encode_validator_stake r) ≡ ok r
  unfolding decode_validator_stake encode_validator_stake
  decode-encode_validator_stake =
      let w5 : Bytes = r.owner_address in
      let w4 : Bytes = r.reward_address ++ w5 in
      let w3 : Bytes = be64 r.delegation_fee_rate ++ w4 in
      let w2 : Bytes = be64 r.staked_amount ++ w3 in
      let w1 : Bytes = be64 r.stake_end_block ++ w2 in
      let v : Bytes = be64 r.stake_start_block ++ w1 in
      let a1 : At 8 w1 v =
        At-step 0 8 (be64 r.stake_start_block) w1 v (At-start v)
          (length-be64 r.stake_start_block) in
      let a2 : At (8 + 8) w2 v =
        At-step 8 8 (be64 r.stake_end_block) w2 v a1 (length-be64 r.stake_end_block) in
      let a3 : At (8 + 8 + 8) w3 v =
        At-step (8 + 8) 8 (be64 r.staked_amount) w3 v a2 (length-be64 r.staked_amount) in
      let a4 : At (8 + 8 + 8 + 8) w4 v =
        At-step (8 + 8 + 8) 8 (be64 r.delegation_fee_rate) w4 v a3
          (length-be64 r.delegation_fee_rate) in
      let a5 : At (8 + 8 + 8 + 8 + address_len) w5 v =
        At-step (8 + 8 + 8 + 8) address_len r.reward_address w5 v a4 fits.reward in
      rw
        (
          slice-At {E = Error} 0 8 (be64 r.stake_start_block) w1 v (At-start v)
              (omega (arith, length-be64 r.stake_start_block)),
          of_be64_alone {E = Error} r.stake_start_block fits.start,
          slice-At {E = Error} 8 (8 + 8) (be64 r.stake_end_block) w2 v a1
              (ap (◌+◌ 8) (length-be64 r.stake_end_block)),
          of_be64_alone {E = Error} r.stake_end_block fits.end_block,
          slice-At {E = Error} (8 + 8) (8 + 8 + 8) (be64 r.staked_amount) w3 v a2
              (ap (◌+◌ 16) (length-be64 r.staked_amount)),
          of_be64_alone {E = Error} r.staked_amount fits.amount,
          slice-At {E = Error} (8 + 8 + 8) (8 + 8 + 8 + 8) (be64 r.delegation_fee_rate) w4 v a3
              (ap (◌+◌ 24) (length-be64 r.delegation_fee_rate)),
          of_be64_alone {E = Error} r.delegation_fee_rate fits.rate,
          slice-At {E = Error} (8 + 8 + 8 + 8) (8 + 8 + 8 + 8 + address_len) r.reward_address w5 v
              a4 (ap (◌+◌ 32) fits.reward),
          slice-At {E = Error} (8 + 8 + 8 + 8 + address_len)
              (8 + 8 + 8 + 8 + address_len + address_len) r.owner_address [] v
              (subst (λ w. At (8 + 8 + 8 + 8 + address_len) w v) (sym (append-nil r.owner_address))
                a5)
              (ap (◌+◌ (32 + address_len)) fits.owner),
          copy_into_self address_len r.reward_address fits.reward,
          copy_into_self address_len r.owner_address fits.owner,
        )
        refl

module _ {S : Type 0} (sdk : Sdk S) (laws : IsLawful sdk) where
  open sdk use {address_len, get_value}

  -- A stored validator stake is read back whole.
  pub get-set_register_validator_stake :
      (node_id : Bytes) (r : ValidatorStake) (s : S)
      → FitsValidatorStake address_len r
      → (set_register_validator_stake sdk node_id r s).0 ≡ ok tt
      → get_register_validator_stake sdk node_id (set_register_validator_stake sdk node_id r s).1
        ≡ ok (some r)
  unfolding get_register_validator_stake set_register_validator_stake
      inner_get_register_validator_stake
  get-set_register_validator_stake node_id r s fits h =
      ap (inner_get_register_validator_stake address_len)
        (laws.get-insert (register_validator_stake_key node_id) (encode_validator_stake r) s h)
      ∙ ap (λ t. t >>= λ b. ok (some b)) (decode-encode_validator_stake address_len r fits)

  pub get-delete_register_validator_stake :
      (node_id : Bytes) (s : S)
      → (delete_register_validator_stake sdk node_id s).0 ≡ ok tt
      → get_register_validator_stake sdk node_id (delete_register_validator_stake sdk node_id s).1
        ≡ ok none
  unfolding get_register_validator_stake delete_register_validator_stake
      inner_get_register_validator_stake
  get-delete_register_validator_stake node_id s h =
      ap (inner_get_register_validator_stake address_len)
        (laws.get-remove (register_validator_stake_key node_id) s h)

  pub set_register_validator_stake_frame :
      (node_id : Bytes) (r : ValidatorStake) (s : S) (j : Bytes)
      → j ≢ register_validator_stake_key node_id
      → get_value (set_register_validator_stake sdk node_id r s).1 j ≡ get_value s j
  unfolding set_register_validator_stake
  set_register_validator_stake_frame node_id r s j ne =
      laws.get-insert_ne (register_validator_stake_key node_id) (encode_validator_stake r) j s ne

  pub delete_register_validator_stake_frame :
      (node_id : Bytes) (s : S) (j : Bytes)
      → j ≢ register_validator_stake_key node_id
      → get_value (delete_register_validator_stake sdk node_id s).1 j ≡ get_value s j
  unfolding delete_register_validator_stake
  delete_register_validator_stake_frame node_id s j ne =
      laws.get-remove_ne (register_validator_stake_key node_id) j s ne

  -- What is under a stake's key decides the stake.
  pub get_register_validator_stake_of_same :
      (node_id : Bytes) (s t : S)
      → get_value t (register_validator_stake_key node_id)
        ≡ get_value s (register_validator_stake_key node_id)
      → get_register_validator_stake sdk node_id t ≡ get_register_validator_stake sdk node_id s
  unfolding get_register_validator_stake
  get_register_validator_stake_of_same node_id s t e =
      ap (inner_get_register_validator_stake address_len) e
