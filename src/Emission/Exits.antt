-- ===== src/Emission/Exits.antt =====
-- What withdrawing, undelegating and claiming of emission/emission.go pay and leave behind.
use nuklaivm.Prelude.{
  ℕ, ◌≡◌, ◌≢◌, ◌<◌, ◌-◌, ◌/◌, refl, ap, ◌∙◌, zero, suc, some, ok, false, M, ◌==◌, arith,
}
use nuklaivm.Prelude.Word.{◌+w◌, ◌-w◌}
use nuklaivm.Bytes.{Bytes, bytes_eq-ne}
use nuklaivm.Sdk.{Error}
use nuklaivm.Emission.State.{Floats, Delegator, Validator, Emission, find_delegator}
use nuklaivm.Emission.Staking.{
  with_node, on_entry, on_object, withdraw_at, put_validator, withdraw_validator_stake,
}
use nuklaivm.Emission.Claims.{
  epoch_reward, sum_epochs, delegation_rewards, settle, claim_at, undelegate_at, pay_claim,
  undelegate_user_stake, claim_staking_rewards,
}
use nuklaivm.Emission.Objects.{get_elem?-set_elem, Stands}

module _ {F : Type 0} where
  pub Stands-put :
      (e : Emission F) (n : Bytes) (ref : ℕ) (v w : Validator F)
      → Stands e n ref v
      → Stands (put_validator ref w e) n ref w
  Stands-put e n ref v w s = record {
    entry = s.entry;
    object = get_elem?-set_elem e.heap ref v w s.object;
  }

  pub with_node-Stands :
      {A : Type 0} (f : ℕ → Validator F → M (Emission F) Error A) (e : Emission F) (n : Bytes)
      (ref : ℕ) (v : Validator F)
      → Stands e n ref v
      → with_node n f e ≡ f ref v e
  with_node-Stands f e n ref v s = ap (on_entry f e) s.entry ∙ ap (on_object (f ref) e) s.object

  -- Withdrawing a registered validator's stake pays what it has accumulated; withdrawing again pays
  -- nothing.
  pub withdraw_once :
      (e : Emission F) (n : Bytes) (ref : ℕ) (v : Validator F)
      → Stands e n ref v
      → ((withdraw_validator_stake n e).0 ≡ ok v.accumulated_staked_reward)
        × ((withdraw_validator_stake n (withdraw_validator_stake n e).1).0 ≡ ok 0)
  unfolding withdraw_validator_stake
  withdraw_once e n ref v s =
      let drained = record v {
        accumulated_staked_reward = 0;
        is_active = false;
        staked_amount = 0;
      } in
      let first = with_node-Stands withdraw_at e n ref v s in
      (
        ap (λ r. r.0) first,
        ap (λ r. (withdraw_validator_stake n r.1).0) first
            ∙ ap (λ r. r.0)
                (with_node-Stands withdraw_at _ n ref drained (Stands-put e n ref v drained s)),
      )

module _ {F : Type 0} (fl : Floats F) where
  -- A reward reads only the epochs of the validator.
  sum_epochs_same :
      (v : Validator F) (d : Delegator) (acc rounds epoch total : ℕ)
      → sum_epochs fl (record v { accumulated_delegated_reward = acc }) d rounds epoch total
        ≡ sum_epochs fl v d rounds epoch total
  unfolding sum_epochs
  sum_epochs_same v d acc zero epoch total = refl
  sum_epochs_same v d acc (suc rounds) epoch total =
      sum_epochs_same v d acc rounds (suc epoch) (total +w epoch_reward fl v d epoch)

  pub rewards_same :
      (v : Validator F) (d : Delegator) (acc epoch_length : ℕ)
      → delegation_rewards fl epoch_length (record v { accumulated_delegated_reward = acc }) d
        ≡ delegation_rewards fl epoch_length v d
  unfolding delegation_rewards
  rewards_same v d acc epoch_length =
      sum_epochs_same v d acc
        (suc (d.stake_end_block / epoch_length) - d.stake_start_block / epoch_length)
        (d.stake_start_block / epoch_length) 0

  module _ (e : Emission F) (n actor : Bytes) (ref : ℕ) (v : Validator F) (d : Delegator)
      (s : Stands e n ref v) (h : find_delegator v actor ≡ some d)
      (epochs : 0 < e.epoch_tracker.epoch_length) where
    is_nonzero : (e.epoch_tracker.epoch_length == 0) ≡ false
    is_nonzero = ground arith

    unfoldable pub reward : ℕ
    reward = delegation_rewards fl e.epoch_tracker.epoch_length v d

    -- What a delegator's claim does.
    claim_step :
        (empty : Bytes)
        → actor ≢ empty
        → claim_staking_rewards fl empty n actor e ≡ pay_claim fl ref v e reward
    unfolding claim_staking_rewards reward
    claim_step empty ne =
        with_node-Stands (claim_at fl empty actor) e n ref v s
        ∙ rw (bytes_eq-ne actor empty ne, h, is_nonzero) refl

    pub undelegate_step : undelegate_user_stake fl n actor e ≡ settle fl n ref v actor reward e
    unfolding undelegate_user_stake reward
    undelegate_step =
        with_node-Stands (undelegate_at fl n actor) e n ref v s
        ∙ rw (undelegate_at, h, is_nonzero) refl

  module _ (e : Emission F) (n actor : Bytes) (ref : ℕ) (v : Validator F) (d : Delegator)
      (s : Stands e n ref v) (h : find_delegator v actor ≡ some d)
      (epochs : 0 < e.epoch_tracker.epoch_length) where
    -- A delegator's claim pays, while the epoch length is not 0, and the same claim made again at
    -- once pays the same amount again.
    pub claim_repeats :
        (empty : Bytes)
        → actor ≢ empty
        → (r : ℕ) × ((claim_staking_rewards fl empty n actor e).0 ≡ ok r)
          × ((claim_staking_rewards fl empty n actor (claim_staking_rewards fl empty n actor e).1).0
              ≡ ok r)
    unfolding reward
    claim_repeats empty ne =
        let r = delegation_rewards fl e.epoch_tracker.epoch_length v d in
        let w = record v { accumulated_delegated_reward = v.accumulated_delegated_reward -w r } in
        let first = claim_step e n actor ref v d s h epochs empty ne in
        let again =
          claim_step (put_validator ref w e) n actor ref w d (Stands-put e n ref v w s) h epochs
            empty ne in
        (
          r,
          ap (λ q. q.0) first,
          ap (λ q. (claim_staking_rewards fl empty n actor q.1).0) first
              ∙ ap (λ q. q.0) again
              ∙ ap ok (
                  rewards_same v d (v.accumulated_delegated_reward -w r)
                    e.epoch_tracker.epoch_length),
        )
