-- ===== src/Actions/Receipt.antt =====
-- What `Execute` returns: actions/outputs.go, actions/consts.go, and the shared shape of the
-- results `(success, units, output, warp message, error)`. The last is always nil.
use nuklaivm.Prelude.{ℕ, ◌≡◌, refl, Option, none, some, ok, err, M, List, or_fail, Keeps, ◌>>=◌}
use nuklaivm.Storage.Keeping.{storage_rules}
use nuklaivm.Bytes.{Bytes}
use nuklaivm.Sdk.{Sdk, Error}
use nuklaivm.Storage.Books.{nothing, Moves}
use nuklaivm.Storage.Books.Rules.{Moves-still}

abbrev pub transfer_compute_units : ℕ
transfer_compute_units = 1

abbrev pub create_asset_compute_units : ℕ
create_asset_compute_units = 5

abbrev pub export_asset_compute_units : ℕ
export_asset_compute_units = 5

abbrev pub import_asset_compute_units : ℕ
import_asset_compute_units = 5

abbrev pub mint_asset_compute_units : ℕ
mint_asset_compute_units = 5

abbrev pub burn_asset_compute_units : ℕ
burn_asset_compute_units = 1

abbrev pub register_validator_stake_compute_units : ℕ
register_validator_stake_compute_units = 5

abbrev pub withdraw_validator_stake_compute_units : ℕ
withdraw_validator_stake_compute_units = 1

abbrev pub delegate_user_stake_compute_units : ℕ
delegate_user_stake_compute_units = 5

abbrev pub undelegate_user_stake_compute_units : ℕ
undelegate_user_stake_compute_units = 1

abbrev pub claim_staking_reward_compute_units : ℕ
claim_staking_reward_compute_units = 2

-- The messages of outputs.go that the actions return, and `utils.ErrBytes(err)`.
pub data Output : Type 0 where
  output_value_zero output_memo_too_large : Output
  output_stake_missing output_unauthorized output_invalid_node_id : Output
  output_asset_missing output_symbol_empty output_symbol_too_large : Output
  output_decimals_too_large output_metadata_empty output_metadata_too_large : Output
  output_not_warp_asset output_wrong_destination output_warp_asset output_anycast : Output
  output_conflicting_asset output_symbol_incorrect output_decimals_incorrect : Output
  output_warp_verification_failed output_invalid_destination output_must_fill : Output
  output_asset_is_native output_wrong_owner : Output
  output_different_signer_than_actor output_validator_staked_amount_invalid : Output
  output_invalid_stake_start_block output_invalid_stake_end_block : Output
  output_invalid_stake_duration output_invalid_delegation_fee_rate : Output
  output_validator_already_registered output_stake_not_started output_stake_not_ended : Output
  output_delegate_staked_amount_invalid output_user_already_staked : Output
  output_validator_not_yet_registered : Output
  err_bytes : Error → Output

-- `return false, units, output, nil, nil`
pub record Rejection : Type 0 where
  pub units : ℕ
  pub output : Output

abbrev pub reject : ℕ → Output → Rejection
reject units output = record { units = units; output = output }

abbrev pub failed : ℕ → Error → Rejection
failed units e = reject units (Output.err_bytes e)

-- `return true, units, output, message, nil`; `none` is a nil output or message.
pub record Receipt : Type 0 where
  pub units : ℕ
  pub output : Option Bytes
  pub message : Option Bytes

abbrev pub receipt : ℕ → Receipt
receipt units = record { units = units; output = none; message = none }

-- A call of the storage layer in an action: `if err := …; err != nil { return false, … }`.
abbrev pub or_reject : {S A : Type 0} → ℕ → M S Error A → M S Rejection A
or_reject units m = or_fail (failed units) m

-- `if !exists { return false, … }`
unfoldable pub require : {S A : Type 0} → Rejection → Option A → M S Rejection A
require r none s = (err r, s)
require r (some a) s = (ok a, s)

pub require_ok :
    {S A B : Type 0} (r : Rejection) (o : Option A) (k : A → M S Rejection B) (s : S) {b : B}
    → ((require r o >>= k) s).0 ≡ ok b
    → (a : A) × (o ≡ some a) × ((require r o >>= k) s ≡ k a s) × ((k a s).0 ≡ ok b)
unfolding require ◌>>=◌
require_ok r none k s h = cc
require_ok r (some a) k s h = (a, refl, refl, h)

pub Keeps-require :
    {S A : Type 0} {P : S → Type 0} (r : Rejection) (o : Option A) → Keeps P (require {S = S} r o)
unfolding require
Keeps-require r none = record { after = λ s p. p }
Keeps-require r (some a) = record { after = λ s p. p }

pub Moves-require :
    {S A : Type 0} {sdk : Sdk S} {x : Bytes} {holders chains : List Bytes} (r : Rejection)
    (o : Option A)
    → Moves sdk x holders chains nothing (require r o)
unfolding require
Moves-require r none = Moves-still (require r none) (λ s. refl)
Moves-require r (some a) = Moves-still (require r (some a)) (λ s. refl)

-- `search` on an action: the rules of the storage layer, and the one above.
pub ruleset action_rules = (storage_rules, Keeps-require)
