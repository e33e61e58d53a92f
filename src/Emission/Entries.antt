-- ===== src/Emission/Entries.antt =====
-- Delegating in emission/emission.go.
use nuklaivm.Prelude.{ℕ, ◌≡◌, refl, sym, subst, ap, ◌∙◌, none, some, ok, err, false}
use nuklaivm.Prelude.Dict.{insert, lookup-insert_self}
use nuklaivm.Bytes.{Bytes, bytes_eq, bytes_eq_refl}
use nuklaivm.Sdk.{Error}
use nuklaivm.Emission.State.{Delegator, Validator, Emission, find_delegator}
use nuklaivm.Emission.Staking.{
  add_delegator_activation_event, add_delegator_deactivation_event, delegate_at, delegate_new,
  new_delegator, delegate_user_stake,
}
use nuklaivm.Emission.Objects.{get_elem?-set_elem, Stands}
use nuklaivm.Emission.Exits.{with_node-Stands}

module _ {F : Type 0} where
  joined : Bytes → ℕ → ℕ → ℕ → Validator F → Validator F
  joined delegator start end_block amount v = record v {
    delegators = insert bytes_eq delegator (new_delegator start end_block amount) v.delegators;
  }

  module _ (e : Emission F) (n delegator : Bytes) (ref start end_block amount : ℕ) (v : Validator F)
      (s : Stands e n ref v) where
    delegate_step :
        find_delegator v delegator ≡ none
        → delegate_user_stake n delegator start end_block amount e
          ≡ (ok tt, delegate_new n delegator start end_block amount ref v e)
    unfolding delegate_user_stake
    delegate_step h =
        with_node-Stands (delegate_at n delegator start end_block amount) e n ref v s
        ∙ rw (delegate_at, h) refl

    -- A second delegation of the same delegator is refused and changes nothing.
    pub delegate_twice :
        (d : Delegator)
        → find_delegator v delegator ≡ some d
        → delegate_user_stake n delegator start end_block amount e
          ≡ (err Error.delegator_already_staked, e)
    unfolding delegate_user_stake
    delegate_twice d h =
        with_node-Stands (delegate_at n delegator start end_block amount) e n ref v s
        ∙ rw (delegate_at, h) refl

    Stands-delegate :
        Stands
          (delegate_new n delegator start end_block amount ref v e)
          n
          ref
          (joined delegator start end_block amount v)
    unfolding joined add_delegator_activation_event add_delegator_deactivation_event
    Stands-delegate = record {
      entry = s.entry;
      object = get_elem?-set_elem e.heap ref v (joined delegator start end_block amount v) s.object;
    }

    -- A first delegation succeeds, the validator then lists the delegator with its stake, not yet
    -- active.
    pub delegate_lists :
        find_delegator v delegator ≡ none
        → let e1 = (delegate_user_stake n delegator start end_block amount e).1 in
          ((delegate_user_stake n delegator start end_block amount e).0 ≡ ok tt)
          × ((w : Validator F) × Stands e1 n ref w
              × (find_delegator w delegator
                  ≡ some (record {
                    is_active = false;
                    staked_amount = amount;
                    stake_start_block = start;
                    stake_end_block = end_block;
                  })))
    unfolding joined
    delegate_lists h = (
      ap (λ r. r.0) (delegate_step h),
      (
        joined delegator start end_block amount v,
        subst (λ r. Stands r.1 n ref (joined delegator start end_block amount v))
            (sym (delegate_step h)) Stands-delegate,
        lookup-insert_self bytes_eq delegator (new_delegator start end_block amount) v.delegators
            (bytes_eq_refl delegator),
      ),
    )
