-- ===== src/Actions/Staking/Delegate/Effects.antt =====
-- What a delegation checks, writes and pays.
use nuklaivm.Prelude.{
  ℕ, ◌-◌, ◌≤◌, ◌<◌, ◌^◌, ◌≡◌, refl, sym, ap, ◌∙◌, Bool, false, none, some, ok, err, pure, arith,
  length, ltb, leb, guard_ok, call_ok, query_ok, compute_ok, step_ok, replicate, ◌>>=◌,
}
use nuklaivm.Bytes.{Bytes}
use nuklaivm.Sdk.{Sdk, IsLawful, Error}
use nuklaivm.Storage.Balance.{get_balance, get_balance_entry, sub_balance}
use nuklaivm.Storage.Balance.Effects.{sub_balance_ok, sub_balance_short, get_balance_of_same}
use nuklaivm.Storage.UserStake.RoundTrip.{
  get-set_delegate_user_stake, set_delegate_user_stake_frame,
}
use nuklaivm.Storage.Keys.{balance_key}
use nuklaivm.Storage.Keys.Separate.{balance_key-ne-delegate_user_stake_key}
use nuklaivm.Storage.ValidatorStake.{ValidatorStake, get_register_validator_stake}
use nuklaivm.Storage.UserStake.{get_delegate_user_stake, set_delegate_user_stake}
use nuklaivm.Emission.State.{Floats, Emission}
use nuklaivm.Emission.Staking.{delegate_user_stake}
use nuklaivm.Actions.Receipt.{Receipt, Output, reject, delegate_user_stake_compute_units}
use nuklaivm.Actions.Staking.{StakingConfig, on_state, on_emission, found_there}
use nuklaivm.Actions.Staking.Delegate.{DelegateUserStake, pay_stake, execute}

not_less : {m n : ℕ} → n ≤ m → ltb m n ≡ false
not_less h = ground arith

not_at_most : {m n : ℕ} → n < m → leb m n ≡ false
not_at_most h = ground arith

module _ {S F : Type 0} (sdk : Sdk S) (fl : Floats F) (config : StakingConfig) (height : ℕ)
    (d : DelegateUserStake) (actor : Bytes) (s : S) (e : Emission F) where
  open sdk use {id_len}

  -- What a successful delegation has checked, and the calls that it made.
  pub delegate_steps :
      {r : Receipt}
      → (execute sdk fl config height d actor (s, e)).0 ≡ ok r
      → (node_id : Bytes) × (sdk.to_node_id d.node_id ≡ ok node_id)
        × ((v : ValidatorStake) × (get_register_validator_stake sdk node_id s ≡ ok (some v)))
        × (config.min_delegator_stake ≤ d.staked_amount)
        × (d.stake_start_block < d.stake_end_block)
        × (height ≤ d.stake_start_block)
        × (let (taken, e1) =
              delegate_user_stake node_id actor d.stake_start_block d.stake_end_block
                d.staked_amount e in
            let (paid, s1) = pay_stake sdk fl config d node_id actor s in
            (taken ≡ ok tt)
            × (paid ≡ ok tt)
            × ((execute sdk fl config height d actor (s, e)).1 ≡ (s1, e1)))
  unfolding execute on_state on_emission pure
  delegate_steps h =
      let (node_id, node, r1, h1) = compute_ok _ _ _ _ h in
      let (validator, got, r2, h2) = query_ok _ _ _ _ h1 in
      let (there, r3, h3) = guard_ok _ _ _ _ h2 in
      let (stake, read, r4, h4) = query_ok _ _ _ _ h3 in
      let (fresh, r5, h5) = guard_ok _ _ _ _ h4 in
      let (enough, r6, h6) = guard_ok _ _ _ _ h5 in
      let (later, r7, h7) = guard_ok _ _ _ _ h6 in
      let (started, r8, h8) = guard_ok _ _ _ _ h7 in
      let (_, taken, r9, h9) = call_ok _ _ _ _ h8 in
      let (_, paid, r10, h10) = call_ok _ _ _ _ h9 in
      (
        node_id,
        node,
        found_there _ validator got there,
        ground arith,
        ground arith,
        ground arith,
        (taken, paid, ap (λ p. p.1) (r1 ∙ r2 ∙ r3 ∙ r4 ∙ r5 ∙ r6 ∙ r7 ∙ r8 ∙ r9 ∙ r10)),
      )

  module _ (laws : IsLawful sdk) where
    abbrev native : Bytes
    native = replicate id_len 0

    -- The debit and the record of a stake that has been paid.
    pub pay_stake_ok :
        (node_id : Bytes)
        → d.stake_start_block < 2 ^ 64
        → d.stake_end_block < 2 ^ 64
        → d.staked_amount < 2 ^ 64
        → length d.reward_address ≡ sdk.address_len
        → length actor ≡ sdk.address_len
        → (pay_stake sdk fl config d node_id actor s).0 ≡ ok tt
        → let s1 = (pay_stake sdk fl config d node_id actor s).1 in
          ((b : ℕ) × (get_balance sdk actor native s ≡ ok b)
            × (d.staked_amount ≤ b)
            × (get_balance sdk actor native s1 ≡ ok (b - d.staked_amount)))
          × (get_delegate_user_stake sdk actor node_id s1
              ≡ ok (
                  some (record {
                    stake_start_block = d.stake_start_block;
                    stake_end_block = d.stake_end_block;
                    staked_amount = d.staked_amount;
                    reward_address = d.reward_address;
                    owner_address = actor;
                  })))
    unfolding pay_stake
    pay_stake_ok node_id start end_block amount reward owner h =
        let (_, debited, r, stored) = step_ok _ _ s h in
        let (b, before, covered, left) =
          sub_balance_ok sdk laws actor native d.staked_amount s debited in
        let s1 : S = (sub_balance sdk actor native d.staked_amount s).1 in
        let s2 : S =
          (set_delegate_user_stake sdk actor node_id d.stake_start_block d.stake_end_block
            d.staked_amount d.reward_address s1).1 in
        let end_state = ap (λ p. p.1) r in
        (
          (
            b,
            before,
            covered,
            ap (get_balance sdk actor native) end_state
                ∙ get_balance_of_same sdk actor native s1 s2 (
                    set_delegate_user_stake_frame sdk laws actor node_id d.stake_start_block
                      d.stake_end_block d.staked_amount d.reward_address s1
                      (balance_key actor native)
                      (balance_key-ne-delegate_user_stake_key actor native actor node_id))
                ∙ left,
          ),
          ap (get_delegate_user_stake sdk actor node_id) end_state
              ∙ get-set_delegate_user_stake sdk laws actor node_id d.stake_start_block
                  d.stake_end_block d.staked_amount d.reward_address s1 start end_block amount
                  reward owner stored,
        )

    -- A delegation that succeeds takes the stake, which was covered, from the actor, records it
    -- under the actor and the node, which is registered, and has told the emission balancer. The
    -- amount is at least the minimum, and the stake starts no earlier than the last block.
    pub delegate_effects :
        {r : Receipt}
        → d.stake_start_block < 2 ^ 64
        → d.stake_end_block < 2 ^ 64
        → d.staked_amount < 2 ^ 64
        → length d.reward_address ≡ sdk.address_len
        → length actor ≡ sdk.address_len
        → (execute sdk fl config height d actor (s, e)).0 ≡ ok r
        → let (s', e') = (execute sdk fl config height d actor (s, e)).1 in
          (config.min_delegator_stake ≤ d.staked_amount)
          × (height ≤ d.stake_start_block)
          × (d.stake_start_block < d.stake_end_block)
          × ((b : ℕ) × (get_balance sdk actor native s ≡ ok b)
              × (d.staked_amount ≤ b)
              × (get_balance sdk actor native s' ≡ ok (b - d.staked_amount)))
          × ((node_id : Bytes) × (sdk.to_node_id d.node_id ≡ ok node_id)
              × ((v : ValidatorStake) × (get_register_validator_stake sdk node_id s ≡ ok (some v)))
              × (get_delegate_user_stake sdk actor node_id s'
                  ≡ ok (
                      some (record {
                        stake_start_block = d.stake_start_block;
                        stake_end_block = d.stake_end_block;
                        staked_amount = d.staked_amount;
                        reward_address = d.reward_address;
                        owner_address = actor;
                      })))
              × (delegate_user_stake node_id actor d.stake_start_block d.stake_end_block
                    d.staked_amount e
                  ≡ (ok tt, e')))
    delegate_effects start end_block amount reward owner h =
        let (node_id, node, there, enough, later, started, (taken, paid, end)) = delegate_steps h in
        let ((b, before, covered, left), stored) =
          pay_stake_ok node_id start end_block amount reward owner paid in
        let s_end = ap (λ p. p.0) end in
        let told =
          delegate_user_stake node_id actor d.stake_start_block d.stake_end_block d.staked_amount
            e in
        (
          enough,
          started,
          later,
          (b, before, covered, ap (get_balance sdk actor native) s_end ∙ left),
          (
            node_id,
            node,
            there,
            ap (get_delegate_user_stake sdk actor node_id) s_end ∙ stored,
            ap (λ t. (t, told.1)) taken ∙ ap (λ u. (ok tt, u)) (sym (ap (λ p. p.1) end)),
          ),
        )

    -- A delegation that its checks let through is in the emission balancer before it is paid: an
    -- actor who cannot cover the stake is refused with the invalid balance, the chain's state is as
    -- it was, and the balancer has the delegation.
    pub delegate_unpaid :
        {node_id : Bytes} {v : ValidatorStake} {b : ℕ} {p : Bool}
        → sdk.to_node_id d.node_id ≡ ok node_id
        → get_register_validator_stake sdk node_id s ≡ ok (some v)
        → get_delegate_user_stake sdk actor node_id s ≡ ok none
        → config.min_delegator_stake ≤ d.staked_amount
        → d.stake_start_block < d.stake_end_block
        → height ≤ d.stake_start_block
        → (delegate_user_stake node_id actor d.stake_start_block d.stake_end_block d.staked_amount
            e).0
          ≡ ok tt
        → get_balance_entry sdk actor native s ≡ ok (b, p)
        → b < d.staked_amount
        → execute sdk fl config height d actor (s, e) ≡ (
          err (reject delegate_user_stake_compute_units (Output.err_bytes Error.invalid_balance)),
          (
            s,
            (delegate_user_stake node_id actor d.stake_start_block d.stake_end_block d.staked_amount
                e).1,
          ),
        )
    unfolding execute pay_stake on_state on_emission ◌>>=◌
    delegate_unpaid node there fresh enough later started taken entry short =
        rw
          (
            node,
            there,
            fresh,
            not_less enough,
            not_at_most later,
            not_less started,
            taken,
            sub_balance_short sdk laws actor native d.staked_amount s entry short,
          )
          refl
