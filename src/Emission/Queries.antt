-- ===== src/Emission/Queries.antt =====
-- The queries of emission/emission.go: staked validators, and delegators.
use nuklaivm.Prelude.{
  ℕ, ◌+◌, ◌≡◌, refl, false, Option, none, some, List, [], ◌∷◌, Result, ok, err, panic,
  if◌then◌else◌, length, get_elem?, map, arith,
}
use nuklaivm.Prelude.Dict.{Dict}
use nuklaivm.Bytes.{Bytes, bytes_eq}
use nuklaivm.Sdk.{Error}
use nuklaivm.Emission.State.{Floats, Delegator, Validator, Emission, find_validator}
use nuklaivm.Emission.Objects.{Stands}

length-map : {A B : Type 0} (f : A → B) (xs : List A) → length (map f xs) ≡ length xs
length-map f [] = refl
length-map f (x ∷ xs) = omega (arith, length-map f xs)

module _ {F : Type 0} where
  -- The objects behind the entries; every entry has one.
  abbrev pub objects : Emission F → Dict Bytes ℕ → List (Validator F)
  objects e [] = []
  objects e ((_, ref) ∷ rest) = elim (get_elem? e.heap ref) [
    | none ↦ objects e rest
    | some v ↦ v ∷ objects e rest
  ]

  abbrev pub object_of : Emission F → Option ℕ → List (Validator F)
  object_of e none = []
  object_of e (some ref) = elim (get_elem? e.heap ref) [ none ↦ [] | some v ↦ v ∷ [] ]

  -- `empty_node_id` is ids.EmptyNodeID, which stands for all of them.
  unfoldable pub get_staked_validator : Bytes → Bytes → Emission F → List (Validator F)
  get_staked_validator empty_node_id node_id e =
      if bytes_eq node_id empty_node_id
      then objects e e.validators
      else object_of e (find_validator e node_id)

  abbrev pub count_delegators : List (Validator F) → ℕ
  count_delegators [] = 0
  count_delegators (v ∷ vs) = length v.delegators + count_delegators vs

  unfoldable pub get_num_delegators : Bytes → Bytes → Emission F → ℕ
  get_num_delegators empty_node_id node_id e =
      if bytes_eq node_id empty_node_id
      then count_delegators (objects e e.validators)
      else count_delegators (object_of e (find_validator e node_id))

  abbrev listing : Emission F → Option ℕ → Result Error (List Delegator)
  listing e none = err Error.validator_not_found
  listing e (some ref) = elim (get_elem? e.heap ref) [
    | none ↦ panic
    | some v ↦ ok (map (λ entry. entry.1) v.delegators)
  ]

  unfoldable pub get_delegators_for_validator : Bytes → Emission F → Result Error (List Delegator)
  get_delegators_for_validator node_id e = listing e (find_validator e node_id)

  -- The number of delegators over all validators, or of one node, counts the delegators of what
  -- the query of staked validators lists.
  pub num_delegators_of_staked :
      (empty_node_id node_id : Bytes) (e : Emission F)
      → get_num_delegators empty_node_id node_id e
        ≡ count_delegators (get_staked_validator empty_node_id node_id e)
  unfolding get_num_delegators get_staked_validator
  num_delegators_of_staked empty_node_id node_id e = ground arith

  -- The listing of a registered node's delegators has as many entries as the node has delegators.
  pub listing_length :
      (e : Emission F) (node_id : Bytes) (ref : ℕ) (v : Validator F)
      → Stands e node_id ref v
      → (ds : List Delegator) × (get_delegators_for_validator node_id e ≡ ok ds)
        × (length ds ≡ length v.delegators)
  unfolding get_delegators_for_validator
  listing_length e node_id ref v s = (
    map (λ entry. entry.1) v.delegators,
    ground (arith, s.entry, s.object),
    length-map _ v.delegators,
  )

module _ {F : Type 0} (fl : Floats F) where
  -- One of the VM's current validators, with what is staked on it.
  abbrev pub with_stake : Bytes → Bytes → List (Validator F) → Validator F
  with_stake node_id public_key [] = record {
    is_active = false;
    node_id = node_id;
    public_key = public_key;
    staked_amount = 0;
    accumulated_staked_reward = 0;
    delegation_fee_rate = fl.literal 0 1;
    delegated_amount = 0;
    accumulated_delegated_reward = 0;
    delegators = [];
    epoch_rewards = [];
    delegated_amount_per_epoch = [];
    stake_start_block = 0;
    stake_end_block = 0;
  }
  with_stake node_id public_key (v ∷ vs) = record {
    is_active = false;
    node_id = node_id;
    public_key = public_key;
    staked_amount = v.staked_amount;
    accumulated_staked_reward = v.accumulated_staked_reward;
    delegation_fee_rate = v.delegation_fee_rate;
    delegated_amount = v.delegated_amount;
    accumulated_delegated_reward = v.accumulated_delegated_reward;
    delegators = v.delegators;
    epoch_rewards = v.epoch_rewards;
    delegated_amount_per_epoch = [];
    stake_start_block = 0;
    stake_end_block = 0;
  }

  -- `current` is what CurrentValidators answers: node IDs and public keys, as bytes, in the order
  -- in which the loop meets them.
  unfoldable pub get_all_validators : Bytes → List (Bytes × Bytes) → Emission F → List (Validator F)
  unfolding get_staked_validator
  get_all_validators empty_node_id [] e = []
  get_all_validators empty_node_id ((node_id, public_key) ∷ rest) e =
      with_stake node_id public_key (get_staked_validator empty_node_id node_id e)
      ∷ get_all_validators empty_node_id rest e
