-- ===== src/Emission/Undelegating.antt =====
-- What undelegating of emission/emission.go pays and leaves behind.
use nuklaivm.Prelude.{
  ℕ, ◌≡◌, ◌≤◌, ◌<◌, ◌^◌, ◌+◌, refl, sym, subst, ap, ◌∙◌, none, some, ok, err, not, ◌&&◌, ◌==◌,
  arith, get_elem?, ◌⊎◌, inl, inr, Bool-cases,
}
use nuklaivm.Prelude.Dict.{erase, lookup-erase_self}
use nuklaivm.Prelude.Word.{◌-w◌}
use nuklaivm.Bytes.{Bytes, bytes_eq}
use nuklaivm.Sdk.{Error}
use nuklaivm.Emission.State.{Floats, Delegator, Validator, Emission, find_validator, find_delegator}
use nuklaivm.Emission.Staking.{on_entry, put_validator}
use nuklaivm.Emission.Claims.{
  delegation_rewards, capped, settle, undelegate_at, drop_if_done, is_empty, undelegate_user_stake,
}
use nuklaivm.Emission.Objects.{get_elem?-set_elem, Stands}
use nuklaivm.Emission.Exits.{with_node-Stands, undelegate_step, reward}

module _ {F : Type 0} (fl : Floats F) where
  capped_le : (limit r : ℕ) → capped fl limit r ≤ limit
  capped_le limit r = ground arith

  -- Where the validator's entry stands after a delegator has left.
  dropped :
      (n : Bytes) (ref : ℕ) (v w : Validator F) (e : Emission F)
      → Stands e n ref v
      → (find_validator (drop_if_done fl n w (put_validator ref w e)) n ≡ none)
        ⊎ (find_validator (drop_if_done fl n w (put_validator ref w e)) n ≡ some ref)
  dropped n ref v w e s =
      elim (Bool-cases (not w.is_active && w.staked_amount == 0 && is_empty fl w.delegators)) [
        | inl b ↦ inl (rw b (lookup-erase_self bytes_eq n e.validators))
        | inr b ↦ inr (rw b (s.entry))
      ]

  drop_heap : (n : Bytes) (w : Validator F) (e : Emission F) → (drop_if_done fl n w e).heap ≡ e.heap
  drop_heap n w e =
      elim (Bool-cases (not w.is_active && w.staked_amount == 0 && is_empty fl w.delegators)) [
        | inl b ↦ rw b refl
        | inr b ↦ rw b refl
      ]

  unlisted :
      (n actor : Bytes) (ref : ℕ) (w : Validator F) (e : Emission F)
      → find_delegator w actor ≡ none
      → (undelegate_at fl n actor ref w e).0 ≡ err Error.delegator_not_found
  unlisted n actor ref w e a = rw (undelegate_at, a) refl

  gone :
      (e : Emission F) (n actor : Bytes) (ref : ℕ) (w : Validator F)
      → (find_validator e n ≡ none) ⊎ (find_validator e n ≡ some ref)
      → get_elem? e.heap ref ≡ some w
      → find_delegator w actor ≡ none
      → (x : Error) × ((undelegate_user_stake fl n actor e).0 ≡ err x)
  unfolding undelegate_user_stake
  gone e n actor ref w (inl missing) h a =
      (Error.validator_not_found, ap (λ o. (on_entry (undelegate_at fl n actor) e o).0) missing)
  gone e n actor ref w (inr entry) h a = (
    Error.delegator_not_found,
    ap (λ r. r.0)
          (with_node-Stands (undelegate_at fl n actor) e n ref w
            (record { entry = entry; object = h }))
        ∙ unlisted n actor ref w e a,
  )

  module _ (e : Emission F) (n actor : Bytes) (ref : ℕ) (v : Validator F) (d : Delegator)
      (s : Stands e n ref v) (h : find_delegator v actor ≡ some d)
      (epochs : 0 < e.epoch_tracker.epoch_length) where
    after_undelegate : Validator F
    after_undelegate =
        let paid =
          capped fl v.accumulated_delegated_reward
            (delegation_rewards fl e.epoch_tracker.epoch_length v d) in
        record v {
          accumulated_delegated_reward = v.accumulated_delegated_reward -w paid;
          delegators = erase bytes_eq actor v.delegators;
        }

    undelegated :
        (undelegate_user_stake fl n actor e).1
        ≡ drop_if_done fl n after_undelegate (put_validator ref after_undelegate e)
    unfolding settle after_undelegate reward
    undelegated = ap (λ r. r.1) (undelegate_step fl e n actor ref v d s h epochs)

    undelegated_heap :
        get_elem? (undelegate_user_stake fl n actor e).1.heap ref ≡ some after_undelegate
    undelegated_heap =
        ap (λ t. get_elem? t.heap ref) undelegated
        ∙ ap (λ xs. get_elem? xs ref)
            (drop_heap n after_undelegate (put_validator ref after_undelegate e))
        ∙ get_elem?-set_elem e.heap ref v after_undelegate s.object

    left_none : find_delegator after_undelegate actor ≡ none
    unfolding after_undelegate
    left_none = lookup-erase_self bytes_eq actor v.delegators

    -- A delegator of a validator who undelegates is paid at most what the validator holds for its
    -- delegators; the validator keeps the rest exactly, and no longer lists the delegator.
    pub undelegate_pays :
        v.accumulated_delegated_reward < 2 ^ 64
        → (paid : ℕ) × ((undelegate_user_stake fl n actor e).0 ≡ ok paid)
          × ((w : Validator F) × (get_elem? (undelegate_user_stake fl n actor e).1.heap ref
                ≡ some w)
              × (w.accumulated_delegated_reward + paid ≡ v.accumulated_delegated_reward)
              × (find_delegator w actor ≡ none))
    unfolding settle after_undelegate reward
    undelegate_pays bound =
        let paid =
          capped fl v.accumulated_delegated_reward
            (delegation_rewards fl e.epoch_tracker.epoch_length v d) in
        (
          paid,
          ap (λ r. r.0) (undelegate_step fl e n actor ref v d s h epochs),
          (
            after_undelegate,
            undelegated_heap,
            omega (
              arith,
              capped_le v.accumulated_delegated_reward
                  (delegation_rewards fl e.epoch_tracker.epoch_length v d),
            ),
            left_none,
          ),
        )

    -- Once a delegator has undelegated, undelegating again fails: either the delegator or the
    -- whole validator is gone.
    pub undelegate_once :
        (x : Error) × ((undelegate_user_stake fl n actor (undelegate_user_stake fl n actor e).1).0
          ≡ err x)
    undelegate_once =
        gone _ n actor ref after_undelegate
          (subst (λ t. (find_validator t n ≡ none) ⊎ (find_validator t n ≡ some ref))
            (sym undelegated) (dropped n ref v after_undelegate e s))
          undelegated_heap left_none
