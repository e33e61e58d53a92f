-- ===== src/Emission/Staking.antt =====
-- Registering, withdrawing and delegating: emission/emission.go.
use nuklaivm.Prelude.{
  Result, ℕ, true, false, Option, none, some, [], ◌∷◌, ◌++◌, ok, err, panic, M, length, get_elem?,
}
use nuklaivm.Prelude.Dict.{lookup, insert}
use nuklaivm.Bytes.{Bytes, bytes_eq}
use nuklaivm.Sdk.{Error}
use nuklaivm.Emission.State.{
  Floats, Delegator, Validator, Emission, set_elem, listed, nat_eq, find_validator, find_delegator,
}

-- `&Delegator{...}`
abbrev pub new_delegator : ℕ → ℕ → ℕ → Delegator
new_delegator start end_block amount = record {
  is_active = false;
  staked_amount = amount;
  stake_start_block = start;
  stake_end_block = end_block;
}

module _ {F : Type 0} where
  unfoldable pub add_activation_event : ℕ → ℕ → Emission F → Emission F
  add_activation_event height ref e = record e {
    activation_events =
        insert nat_eq height (listed (lookup nat_eq height e.activation_events) ++ ref ∷ [])
          e.activation_events;
  }

  unfoldable pub add_deactivation_event : ℕ → ℕ → Emission F → Emission F
  add_deactivation_event height ref e = record e {
    deactivation_events =
        insert nat_eq height (listed (lookup nat_eq height e.deactivation_events) ++ ref ∷ [])
          e.deactivation_events;
  }

  unfoldable pub add_delegator_activation_event : ℕ → Bytes → Bytes → Emission F → Emission F
  add_delegator_activation_event height node_id delegator e = record e {
    delegator_activation_events =
        insert nat_eq height
          (listed (lookup nat_eq height e.delegator_activation_events)
            ++ record { validator_node_id = node_id; delegator = delegator } ∷ [])
          e.delegator_activation_events;
  }

  unfoldable pub add_delegator_deactivation_event : ℕ → Bytes → Bytes → Emission F → Emission F
  add_delegator_deactivation_event height node_id delegator e = record e {
    delegator_deactivation_events =
        insert nat_eq height
          (listed (lookup nat_eq height e.delegator_deactivation_events)
            ++ record { validator_node_id = node_id; delegator = delegator } ∷ [])
          e.delegator_deactivation_events;
  }

  abbrev pub on_object :
      {A : Type 0}
      → (Validator F → M (Emission F) Error A)
      → Emission F
      → Option (Validator F)
      → Result Error A × Emission F
  on_object f e none = (panic, e)
  on_object f e (some v) = f v e

  -- What happens to the object at `ref`; an index that is not there is a nil dereference.
  abbrev pub with_validator :
      {A : Type 0} → ℕ → (Validator F → M (Emission F) Error A) → M (Emission F) Error A
  with_validator ref f e = on_object f e (get_elem? e.heap ref)

  abbrev pub on_entry :
      {A : Type 0}
      → (ℕ → Validator F → M (Emission F) Error A)
      → Emission F
      → Option ℕ
      → Result Error A × Emission F
  on_entry f e none = (err Error.validator_not_found, e)
  on_entry f e (some ref) = with_validator ref (f ref) e

  -- The object behind a node's entry, or ErrValidatorNotFound.
  abbrev pub with_node :
      {A : Type 0} → Bytes → (ℕ → Validator F → M (Emission F) Error A) → M (Emission F) Error A
  with_node node_id f e = on_entry f e (find_validator e node_id)

  abbrev pub put_validator : ℕ → Validator F → Emission F → Emission F
  put_validator ref v e = record e { heap = set_elem e.heap ref v }

module _ {F : Type 0} (fl : Floats F) where
  open fl use {literal, of_uint64, to_uint64, mul, div}

  fee_rate : ℕ → F
  fee_rate rate = div (of_uint64 rate) (literal 100 1)

  -- The object that the node has after registration: the old one updated, or a new one.
  unfoldable pub registered : Bytes → Bytes → ℕ → ℕ → ℕ → ℕ → Option (Validator F) → Validator F
  unfolding fee_rate
  registered node_id public_key start end_block amount rate (some v) = record v {
    is_active = true;
    public_key = public_key;
    staked_amount = amount;
    delegation_fee_rate = fee_rate rate;
    stake_start_block = start;
    stake_end_block = end_block;
  }
  registered node_id public_key start end_block amount rate none = record {
    is_active = true;
    node_id = node_id;
    public_key = public_key;
    staked_amount = amount;
    accumulated_staked_reward = 0;
    delegation_fee_rate = fee_rate rate;
    delegated_amount = 0;
    accumulated_delegated_reward = 0;
    delegators = [];
    epoch_rewards = [];
    delegated_amount_per_epoch = [];
    stake_start_block = start;
    stake_end_block = end_block;
  }

  unfoldable pub schedule : ℕ → ℕ → ℕ → Emission F → Emission F
  unfolding add_activation_event add_deactivation_event
  schedule start end_block ref e =
      add_deactivation_event end_block ref (add_activation_event start ref e)

  unfoldable pub register_validator_stake :
      Bytes → Bytes → ℕ → ℕ → ℕ → ℕ → M (Emission F) Error (Unit {0})
  unfolding registered schedule
  register_validator_stake node_id public_key start end_block amount rate e =
      elim (find_validator e node_id) [
        | none ↦ (
          ok tt,
          schedule start end_block (length e.heap) (record e {
            heap = e.heap ++ registered node_id public_key start end_block amount rate none ∷ [];
            validators = insert bytes_eq node_id (length e.heap) e.validators;
          }),
        )
        | some ref ↦
            with_validator ref
              (λ v e1. (
                ok tt,
                schedule start end_block ref (
                    put_validator ref
                      (registered node_id public_key start end_block amount rate (some v)) e1),
              ))
              e
      ]

module _ {F : Type 0} where
  abbrev pub withdraw_at : ℕ → Validator F → M (Emission F) Error ℕ
  withdraw_at ref v e = (
    ok v.accumulated_staked_reward,
    put_validator ref
        (record v { accumulated_staked_reward = 0; is_active = false; staked_amount = 0 }) e,
  )

  unfoldable pub withdraw_validator_stake : Bytes → M (Emission F) Error ℕ
  withdraw_validator_stake node_id = with_node node_id withdraw_at

  abbrev pub delegate_new : Bytes → Bytes → ℕ → ℕ → ℕ → ℕ → Validator F → Emission F → Emission F
  delegate_new node_id delegator start end_block amount ref v e =
      add_delegator_deactivation_event end_block node_id delegator (
        add_delegator_activation_event start node_id delegator (
          put_validator ref
            (record v {
              delegators =
                  insert bytes_eq delegator (new_delegator start end_block amount) v.delegators;
            })
            e))

  abbrev pub delegate_at :
      Bytes → Bytes → ℕ → ℕ → ℕ → ℕ → Validator F → M (Emission F) Error (Unit {0})
  delegate_at node_id delegator start end_block amount ref v e = elim (find_delegator v delegator) [
    | some _ ↦ (err Error.delegator_already_staked, e)
    | none ↦ (ok tt, delegate_new node_id delegator start end_block amount ref v e)
  ]

  unfoldable pub delegate_user_stake : Bytes → Bytes → ℕ → ℕ → ℕ → M (Emission F) Error (Unit {0})
  unfolding add_delegator_activation_event add_delegator_deactivation_event
  delegate_user_stake node_id delegator start end_block amount =
      with_node node_id (delegate_at node_id delegator start end_block amount)
