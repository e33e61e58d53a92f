-- ===== src/Storage/Keys/Separate.antt =====
-- Keys of storage/storage.go of two kinds, or with two owners, never meet: the cases that the
-- operations need.
use nuklaivm.Prelude.{ℕ, ◌≡◌, ◌≢◌, List, ◌∷◌, ◌++◌, length, append-injective}
use nuklaivm.Bytes.{Bytes, be16}
use nuklaivm.Storage.Keys.{
  balance_key, asset_key, loan_key, register_validator_stake_key, delegate_user_stake_key,
}

pub tail_eq : {x y : ℕ} {xs ys : List ℕ} → x ∷ xs ≡ y ∷ ys → xs ≡ ys
tail_eq h = cc

pub balance_key-ne :
    (a t b u : Bytes) → length a ≡ length b → a ≢ b → balance_key a t ≢ balance_key b u
unfolding balance_key
balance_key-ne a t b u e ne h =
    ne (append-injective a (t ++ be16 1) b (u ++ be16 1) e (tail_eq h)).0

pub balance_key-ne-asset_key : (a t u : Bytes) → balance_key a t ≢ asset_key u
unfolding balance_key asset_key
balance_key-ne-asset_key a t u h = cc

pub asset_key-ne-balance_key : (a t u : Bytes) → asset_key u ≢ balance_key a t
unfolding balance_key asset_key
asset_key-ne-balance_key a t u h = cc

pub balance_key-ne-loan_key : (a t u d : Bytes) → balance_key a t ≢ loan_key u d
unfolding balance_key loan_key
balance_key-ne-loan_key a t u d h = cc

pub loan_key-ne-balance_key : (a t u d : Bytes) → loan_key u d ≢ balance_key a t
unfolding balance_key loan_key
loan_key-ne-balance_key a t u d h = cc

pub loan_key-ne-asset_key : (t d u : Bytes) → loan_key t d ≢ asset_key u
unfolding loan_key asset_key
loan_key-ne-asset_key t d u h = cc

pub asset_key-ne-loan_key : (u t d : Bytes) → asset_key u ≢ loan_key t d
unfolding loan_key asset_key
asset_key-ne-loan_key u t d h = cc

pub balance_key-ne-delegate_user_stake_key :
    (a t o n : Bytes) → balance_key a t ≢ delegate_user_stake_key o n
unfolding balance_key delegate_user_stake_key
balance_key-ne-delegate_user_stake_key a t o n h = cc

pub delegate_user_stake_key-ne-balance_key :
    (a t o n : Bytes) → delegate_user_stake_key o n ≢ balance_key a t
unfolding balance_key delegate_user_stake_key
delegate_user_stake_key-ne-balance_key a t o n h = cc

pub loan_key-ne-delegate_user_stake_key :
    (t d o n : Bytes) → loan_key t d ≢ delegate_user_stake_key o n
unfolding loan_key delegate_user_stake_key
loan_key-ne-delegate_user_stake_key t d o n h = cc

pub balance_key-ne-register_validator_stake_key :
    (a t n : Bytes) → balance_key a t ≢ register_validator_stake_key n
unfolding balance_key register_validator_stake_key
balance_key-ne-register_validator_stake_key a t n h = cc

pub loan_key-ne-register_validator_stake_key :
    (t d n : Bytes) → loan_key t d ≢ register_validator_stake_key n
unfolding loan_key register_validator_stake_key
loan_key-ne-register_validator_stake_key t d n h = cc

pub register_validator_stake_key-ne-balance_key :
    (a t n : Bytes) → register_validator_stake_key n ≢ balance_key a t
unfolding balance_key register_validator_stake_key
register_validator_stake_key-ne-balance_key a t n h = cc
