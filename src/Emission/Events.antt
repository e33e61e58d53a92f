-- ===== src/Emission/Events.antt =====
-- processEvents of emission/emission.go: stakes become active and inactive at their blocks.
use nuklaivm.Prelude.{
  ℕ, true, false, not, ◌&&◌, none, some, List, [], ◌∷◌, if◌then◌else◌, ltb, leb, get_elem?,
}
use nuklaivm.Prelude.Dict.{lookup, insert, erase}
use nuklaivm.Prelude.Word.{◌+w◌, ◌-w◌}
use nuklaivm.Bytes.{bytes_eq}
use nuklaivm.Emission.State.{
  Delegator, Validator, DelegatorEvent, Emission, nat_eq, listed, find_validator, find_delegator,
}
use nuklaivm.Emission.Staking.{put_validator}

module _ {F : Type 0} where
  -- One validator of an activation event.
  unfoldable pub activate : ℕ → Emission F → Emission F
  activate ref e = elim (get_elem? e.heap ref) [
    | none ↦ e
    | some v ↦
        if not v.is_active
        then put_validator ref (record v { is_active = true })
            (record e { total_staked = e.total_staked +w (v.staked_amount +w v.delegated_amount) })
        else e
  ]

  unfoldable pub deactivate : ℕ → Emission F → Emission F
  deactivate ref e = elim (get_elem? e.heap ref) [
    | none ↦ e
    | some v ↦
        if v.is_active
        then put_validator ref (record v { is_active = false })
            (record e { total_staked = e.total_staked -w (v.staked_amount +w v.delegated_amount) })
        else e
  ]

  -- A loop over the values of an event.
  unfoldable pub each :
      {A : Type 0} → (A → Emission F → Emission F) → List A → Emission F → Emission F
  each f [] e = e
  each f (x ∷ xs) e = each f xs (f x e)

  -- The validator and the delegator of an event, if both are still there.
  abbrev on_delegator :
      (ℕ → Validator F → Delegator → Emission F → Emission F)
      → DelegatorEvent
      → Emission F
      → Emission F
  on_delegator f event e = elim (find_validator e event.validator_node_id) [
    | none ↦ e
    | some ref ↦ elim (get_elem? e.heap ref) [
      | none ↦ e
      | some v ↦ elim (find_delegator v event.delegator) [ none ↦ e | some d ↦ f ref v d e ]
    ]
  ]

  unfoldable pub activate_delegator : ℕ → DelegatorEvent → Emission F → Emission F
  activate_delegator height event =
      on_delegator
        (λ ref v d e.
          if leb d.stake_start_block height && ltb height d.stake_end_block && not d.is_active
          then put_validator ref
              (record v {
                delegators =
                    insert bytes_eq event.delegator (record d { is_active = true }) v.delegators;
                delegated_amount = v.delegated_amount +w d.staked_amount;
              })
              (record e { total_staked = e.total_staked +w d.staked_amount })
          else e)
        event

  unfoldable pub deactivate_delegator : ℕ → DelegatorEvent → Emission F → Emission F
  deactivate_delegator height event =
      on_delegator
        (λ ref v d e.
          if leb d.stake_end_block height && d.is_active
          then put_validator ref
              (record v {
                delegators =
                    insert bytes_eq event.delegator (record d { is_active = false }) v.delegators;
                delegated_amount = v.delegated_amount -w d.staked_amount;
              })
              (record e { total_staked = e.total_staked -w d.staked_amount })
          else e)
        event

  -- The four parts of processEvents. A block with no entry has no values, and the deletion of a
  -- missing entry changes nothing.
  unfoldable pub run_activations : ℕ → Emission F → Emission F
  unfolding each activate
  run_activations height e =
      let e1 = each activate (listed (lookup nat_eq height e.activation_events)) e in
      record e1 { activation_events = erase nat_eq height e1.activation_events }

  unfoldable pub run_deactivations : ℕ → Emission F → Emission F
  unfolding each deactivate
  run_deactivations height e =
      let e1 = each deactivate (listed (lookup nat_eq height e.deactivation_events)) e in
      record e1 { deactivation_events = erase nat_eq height e1.deactivation_events }

  unfoldable pub run_delegator_activations : ℕ → Emission F → Emission F
  unfolding each activate_delegator
  run_delegator_activations height e =
      let e1 =
        each (activate_delegator height)
          (listed (lookup nat_eq height e.delegator_activation_events)) e in
      record e1 { delegator_activation_events = erase nat_eq height e1.delegator_activation_events }

  unfoldable pub run_delegator_deactivations : ℕ → Emission F → Emission F
  unfolding each deactivate_delegator
  run_delegator_deactivations height e =
      let e1 =
        each (deactivate_delegator height)
          (listed (lookup nat_eq height e.delegator_deactivation_events)) e in
      record e1 {
        delegator_deactivation_events = erase nat_eq height e1.delegator_deactivation_events;
      }

  unfoldable pub process_events : ℕ → Emission F → Emission F
  unfolding run_activations run_deactivations run_delegator_activations run_delegator_deactivations
  process_events height e =
      run_delegator_deactivations height
        (run_delegator_activations height (run_deactivations height (run_activations height e)))
