-- ===== src/Emission/State.antt =====
-- The state of emission/emission.go. `*Validator` is an index into `heap`: the map of validators
-- and the activation events share the objects. Floating-point numbers are a parameter, with the
-- operations that the code uses. Logging and the lock are not modelled: each method runs alone.
use nuklaivm.Prelude.{ℕ, Bool, Option, none, some, List, [], ◌∷◌, zero, suc, if◌then◌else◌, ◌==◌}
use nuklaivm.Prelude.Dict.{Dict, lookup}
use nuklaivm.Bytes.{Bytes, bytes_eq}

-- float64, its literals (numerator and denominator), and the conversions.
pub record Floats (F : Type 0) : Type 0 where
  pub literal : ℕ → ℕ → F
  pub of_uint64 : ℕ → F
  pub to_uint64 : F → ℕ
  pub mul : F → F → F
  pub div : F → F → F

pub record Delegator : Type 0 where
  pub is_active : Bool
  pub staked_amount : ℕ
  pub stake_start_block : ℕ
  pub stake_end_block : ℕ

pub record Validator (F : Type 0) : Type 0 where
  pub is_active : Bool
  pub node_id : Bytes
  pub public_key : Bytes
  pub staked_amount : ℕ
  pub accumulated_staked_reward : ℕ
  pub delegation_fee_rate : F
  pub delegated_amount : ℕ
  pub accumulated_delegated_reward : ℕ
  pub delegators : Dict Bytes Delegator
  pub epoch_rewards : Dict ℕ ℕ
  pub delegated_amount_per_epoch : Dict ℕ ℕ
  pub stake_start_block : ℕ
  pub stake_end_block : ℕ

pub record EmissionAccount : Type 0 where
  pub address : Bytes
  pub accumulated_reward : ℕ

pub record EpochTracker (F : Type 0) : Type 0 where
  pub base_apr : F
  pub base_validators : ℕ
  pub epoch_length : ℕ

pub record DelegatorEvent : Type 0 where
  pub validator_node_id : Bytes
  pub delegator : Bytes

pub record Emission (F : Type 0) : Type 0 where
  pub total_supply : ℕ
  pub max_supply : ℕ
  pub emission_account : EmissionAccount
  pub heap : List (Validator F)
  pub validators : Dict Bytes ℕ
  pub total_staked : ℕ
  pub epoch_tracker : EpochTracker F
  pub activation_events : Dict ℕ (List ℕ)
  pub deactivation_events : Dict ℕ (List ℕ)
  pub delegator_activation_events : Dict ℕ (List DelegatorEvent)
  pub delegator_deactivation_events : Dict ℕ (List DelegatorEvent)

module _ {A : Type 0} where
  -- `*p = v`: the object at an index, replaced
  abbrev pub set_elem : List A → ℕ → A → List A
  set_elem [] i v = []
  set_elem (x ∷ xs) zero v = v ∷ xs
  set_elem (x ∷ xs) (suc i) v = x ∷ set_elem xs i v

  -- `d[k] = append(d[k], x)`, the entry made if it is missing
  abbrev pub listed : Option (List A) → List A
  listed none = []
  listed (some xs) = xs

module _ {F : Type 0} (fl : Floats F) where
  -- New; a max supply of 0 takes the staking config's supply cap.
  unfoldable pub new_emission : ℕ → ℕ → ℕ → Bytes → Emission F
  new_emission supply_cap total_supply max_supply emission_address = record {
    total_supply = total_supply;
    max_supply = if max_supply == 0 then supply_cap else max_supply;
    emission_account = record { address = emission_address; accumulated_reward = 0 };
    heap = [];
    validators = [];
    total_staked = 0;
    epoch_tracker = record {
      base_apr = fl.literal 25 100;
      base_validators = 100;
      epoch_length = 10;
    };
    activation_events = [];
    deactivation_events = [];
    delegator_activation_events = [];
    delegator_deactivation_events = [];
  }

abbrev pub nat_eq : ℕ → ℕ → Bool
nat_eq a b = a == b

-- `e.validators[nodeID]`
abbrev pub find_validator : {F : Type 0} → Emission F → Bytes → Option ℕ
find_validator e node_id = lookup bytes_eq node_id e.validators

abbrev pub find_delegator : {F : Type 0} → Validator F → Bytes → Option Delegator
find_delegator v actor = lookup bytes_eq actor v.delegators
