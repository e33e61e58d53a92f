-- ===== src/Storage/UserStake/RoundTrip.antt =====
-- What SetDelegateUserStake stores, GetDelegateUserStake reads back, and
-- DeleteDelegateUserStake takes away.
use nuklaivm.Prelude.{
  ℕ, ◌+◌, ◌^◌, ◌<◌, ◌≡◌, ◌≢◌, refl, sym, ap, ◌∙◌, subst, none, some, [], ◌++◌, ok, arith, length,
}
use nuklaivm.Prelude.Decode.{◌>>=◌}
use nuklaivm.Bytes.{of_be64_alone, Bytes, be64, length-be64}
use nuklaivm.Bytes.Slices.{At, At-start, At-step, slice-At, copy_into_self}
use nuklaivm.Sdk.{Sdk, Error, IsLawful}
use nuklaivm.Storage.Keys.{delegate_user_stake_key}
use nuklaivm.Storage.UserStake.{
  UserStake, encode_user_stake, decode_user_stake, inner_get_delegate_user_stake,
  get_delegate_user_stake, set_delegate_user_stake, delete_delegate_user_stake,
}
use mathlib.Core.List.{append-nil}

-- The fields have the widths of their Go types.
pub record FitsUserStake (address_len : ℕ) (r : UserStake) : Type 0 where
  pub start : r.stake_start_block < 2 ^ 64
  pub end_block : r.stake_end_block < 2 ^ 64
  pub amount : r.staked_amount < 2 ^ 64
  pub reward : length r.reward_address ≡ address_len
  pub owner : length r.owner_address ≡ address_len

module _ (address_len : ℕ) (r : UserStake) (fits : FitsUserStake address_len r) where
  decode-encode_user_stake : decode_user_stake address_len (encode_user_stake r) ≡ ok r
  unfolding decode_user_stake encode_user_stake
  decode-encode_user_stake =
      let w5 : Bytes = r.owner_address in
      let w4 : Bytes = r.reward_address ++ w5 in
      let w2 : Bytes = be64 r.staked_amount ++ w4 in
      let w1 : Bytes = be64 r.stake_end_block ++ w2 in
      let v : Bytes = be64 r.stake_start_block ++ w1 in
      let a1 : At 8 w1 v =
        At-step 0 8 (be64 r.stake_start_block) w1 v (At-start v)
          (length-be64 r.stake_start_block) in
      let a2 : At (8 + 8) w2 v =
        At-step 8 8 (be64 r.stake_end_block) w2 v a1 (length-be64 r.stake_end_block) in
      let a3 : At (8 + 8 + 8) w4 v =
        At-step (8 + 8) 8 (be64 r.staked_amount) w4 v a2 (length-be64 r.staked_amount) in
      let a5 : At (8 + 8 + 8 + address_len) w5 v =
        At-step (8 + 8 + 8) address_len r.reward_address w5 v a3 fits.reward in
      rw
        (
          slice-At {E = Error} 0 8 (be64 r.stake_start_block) w1 v (At-start v)
              (omega (arith, length-be64 r.stake_start_block)),
          of_be64_alone {E = Error} r.stake_start_block fits.start,
          slice-At {E = Error} 8 (8 + 8) (be64 r.stake_end_block) w2 v a1
              (ap (◌+◌ 8) (length-be64 r.stake_end_block)),
          of_be64_alone {E = Error} r.stake_end_block fits.end_block,
          slice-At {E = Error} (8 + 8) (8 + 8 + 8) (be64 r.staked_amount) w4 v a2
              (ap (◌+◌ 16) (length-be64 r.staked_amount)),
          of_be64_alone {E = Error} r.staked_amount fits.amount,
          slice-At {E = Error} (8 + 8 + 8) (8 + 8 + 8 + address_len) r.reward_address w5 v a3
              (ap (◌+◌ 24) fits.reward),
          slice-At {E = Error} (8 + 8 + 8 + address_len) (8 + 8 + 8 + address_len + address_len)
              r.owner_address [] v
              (subst (λ w. At (8 + 8 + 8 + address_len) w v) (sym (append-nil r.owner_address)) a5)
              (ap (◌+◌ (24 + address_len)) fits.owner),
          copy_into_self address_len r.reward_address fits.reward,
          copy_into_self address_len r.owner_address fits.owner,
        )
        refl

module _ {S : Type 0} (sdk : Sdk S) (laws : IsLawful sdk) where
  open sdk use {address_len, get_value}

  -- A stored user stake is read back whole, under the owner that it was stored for.
  pub get-set_delegate_user_stake :
      (owner node_id : Bytes) (start end_block amount : ℕ) (reward : Bytes) (s : S)
      → start < 2 ^ 64
      → end_block < 2 ^ 64
      → amount < 2 ^ 64
      → length reward ≡ address_len
      → length owner ≡ address_len
      → (set_delegate_user_stake sdk owner node_id start end_block amount reward s).0 ≡ ok tt
      → get_delegate_user_stake sdk owner node_id
          (set_delegate_user_stake sdk owner node_id start end_block amount reward s).1
        ≡ ok (
            some (record {
              stake_start_block = start;
              stake_end_block = end_block;
              staked_amount = amount;
              reward_address = reward;
              owner_address = owner;
            }))
  unfolding get_delegate_user_stake set_delegate_user_stake inner_get_delegate_user_stake
  get-set_delegate_user_stake owner node_id start end_block amount reward s p q t u w h =
      let r : UserStake = record {
        stake_start_block = start;
        stake_end_block = end_block;
        staked_amount = amount;
        reward_address = reward;
        owner_address = owner;
      } in
      ap (inner_get_delegate_user_stake address_len)
        (laws.get-insert (delegate_user_stake_key owner node_id) (encode_user_stake r) s h)
      ∙ ap (λ m. m >>= λ b. ok (some b))
          (decode-encode_user_stake address_len r
            (record { start = p; end_block = q; amount = t; reward = u; owner = w }))

  pub get-delete_delegate_user_stake :
      (owner node_id : Bytes) (s : S)
      → (delete_delegate_user_stake sdk owner node_id s).0 ≡ ok tt
      → get_delegate_user_stake sdk owner node_id (delete_delegate_user_stake sdk owner node_id s).1
        ≡ ok none
  unfolding get_delegate_user_stake delete_delegate_user_stake inner_get_delegate_user_stake
  get-delete_delegate_user_stake owner node_id s h =
      ap (inner_get_delegate_user_stake address_len)
        (laws.get-remove (delegate_user_stake_key owner node_id) s h)

  pub set_delegate_user_stake_frame :
      (owner node_id : Bytes) (start end_block amount : ℕ) (reward : Bytes) (s : S) (j : Bytes)
      → j ≢ delegate_user_stake_key owner node_id
      → get_value (set_delegate_user_stake sdk owner node_id start end_block amount reward s).1 j
        ≡ get_value s j
  unfolding set_delegate_user_stake
  set_delegate_user_stake_frame owner node_id start end_block amount reward s j ne =
      laws.get-insert_ne (delegate_user_stake_key owner node_id) _ j s ne

  pub delete_delegate_user_stake_frame :
      (owner node_id : Bytes) (s : S) (j : Bytes)
      → j ≢ delegate_user_stake_key owner node_id
      → get_value (delete_delegate_user_stake sdk owner node_id s).1 j ≡ get_value s j
  unfolding delete_delegate_user_stake
  delete_delegate_user_stake_frame owner node_id s j ne =
      laws.get-remove_ne (delegate_user_stake_key owner node_id) j s ne

  -- What is under a stake's key decides the stake.
  pub get_delegate_user_stake_of_same :
      (owner node_id : Bytes) (s t : S)
      → get_value t (delegate_user_stake_key owner node_id)
        ≡ get_value s (delegate_user_stake_key owner node_id)
      → get_delegate_user_stake sdk owner node_id t ≡ get_delegate_user_stake sdk owner node_id s
  unfolding get_delegate_user_stake
  get_delegate_user_stake_of_same owner node_id s t e =
      ap (inner_get_delegate_user_stake address_len) e
