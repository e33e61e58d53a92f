-- ===== src/Actions/Staking/Withdraw/Effects.antt =====
-- What a withdrawal checks, deletes and pays.
use nuklaivm.Prelude.{
  ℕ, ◌+◌, ◌≤◌, ◌≡◌, refl, ap, ◌∙◌, List, [], true, some, none, ok, pure, arith, length, guard_ok,
  call_ok, query_ok, compute_ok, step_ok, not-false, replicate,
}
use nuklaivm.Bytes.{Bytes, bytes_eq, bytes_eq-eq}
use nuklaivm.Sdk.{Sdk, IsLawful}
use nuklaivm.Codec.{Writer}
use nuklaivm.Storage.Keys.{register_validator_stake_key}
use nuklaivm.Storage.Keys.Separate.{
  balance_key-ne-register_validator_stake_key, loan_key-ne-register_validator_stake_key,
  register_validator_stake_key-ne-balance_key,
}
use nuklaivm.Storage.Balance.{add_balance}
use nuklaivm.Storage.Balance.Effects.{add_balance_frame}
use nuklaivm.Storage.ValidatorStake.{
  ValidatorStake, get_register_validator_stake, delete_register_validator_stake,
}
use nuklaivm.Storage.ValidatorStake.RoundTrip.{
  get-delete_register_validator_stake, delete_register_validator_stake_frame,
  get_register_validator_stake_of_same,
}
use nuklaivm.Storage.Ledger.{Once, total}
use nuklaivm.Storage.Books.{credits, weight, Moves}
use nuklaivm.Storage.Books.Rules.{Moves-bind, Moves-as}
use nuklaivm.Storage.Books.Writes.{AllWide-Once, Moves-add_balance, Moves-quiet, weight_self}
use nuklaivm.Emission.State.{Floats, Emission}
use nuklaivm.Emission.Staking.{withdraw_validator_stake}
use nuklaivm.Actions.Receipt.{Receipt, require_ok}
use nuklaivm.Actions.Staking.{on_state, on_emission, or_missing_found}
use nuklaivm.Actions.Staking.Withdraw.{WithdrawValidatorStake, pay_back, execute}

module _ {S F W O : Type 0} (sdk : Sdk S) (fl : Floats F) (writer : Writer W O) (height : ℕ)
    (u : WithdrawValidatorStake) (actor : Bytes) (s : S) (e : Emission F) where
  open sdk use {address_len, id_len}

  -- What a successful withdrawal has checked, and the calls that it made.
  withdraw_steps :
      {r : Receipt}
      → (execute sdk fl writer height u actor (s, e)).0 ≡ ok r
      → (node_id : Bytes) × (stake : ValidatorStake) × (reward : ℕ) × (sdk.to_node_id u.node_id
          ≡ ok node_id)
        × (get_register_validator_stake sdk node_id s ≡ ok (some stake))
        × (stake.owner_address ≡ actor)
        × (stake.stake_end_block ≤ height)
        × ((withdraw_validator_stake node_id e).0 ≡ ok reward)
        × ((pay_back sdk fl writer u node_id actor stake reward s).0 ≡ ok tt)
        × ((execute sdk fl writer height u actor (s, e)).1 ≡ (
          (pay_back sdk fl writer u node_id actor stake reward s).1,
          (withdraw_validator_stake node_id e).1,
        ))
  unfolding execute on_state on_emission pure
  withdraw_steps h =
      let (node_id, node, r1, h1) = compute_ok _ _ _ _ h in
      let (found, got, r2, h2) = query_ok _ _ _ _ h1 in
      let (stake, present, r3, h3) = require_ok _ found _ _ h2 in
      let (owned, r4, h4) = guard_ok _ _ _ _ h3 in
      let (ended, r5, h5) = guard_ok _ _ _ _ h4 in
      let (reward, left, r6, h6) = call_ok _ _ _ _ h5 in
      let (_, paid, r7, h7) = call_ok _ _ _ _ h6 in
      let (output, written, r8, _) = compute_ok _ _ _ _ h7 in
      (
        node_id,
        stake,
        reward,
        node,
        or_missing_found _ (got ∙ ap ok present),
        bytes_eq-eq stake.owner_address actor
            (not-false (bytes_eq stake.owner_address actor) owned),
        ground arith,
        left,
        paid,
        ap (λ p. p.1) (r1 ∙ r2 ∙ r3 ∙ r4 ∙ r5 ∙ r6 ∙ r7 ∙ r8),
      )

  module _ (laws : IsLawful sdk) where
    abbrev native : Bytes
    native = replicate id_len 0

    withdrawn_gone :
        (node_id : Bytes) (stake : ValidatorStake) (reward : ℕ)
        → (pay_back sdk fl writer u node_id actor stake reward s).0 ≡ ok tt
        → get_register_validator_stake sdk node_id
            (pay_back sdk fl writer u node_id actor stake reward s).1
          ≡ ok none
    unfolding pay_back
    withdrawn_gone node_id stake reward h =
        let (_, rewarded, r1, h1) = step_ok _ _ s h in
        let (_, deleted, r2, h2) = step_ok _ _ _ h1 in
        let s1 : S = (add_balance sdk u.reward_address native reward true s).1 in
        let s2 : S = (delete_register_validator_stake sdk node_id s1).1 in
        ap (λ p. get_register_validator_stake sdk node_id p.1) (r1 ∙ r2)
        ∙ get_register_validator_stake_of_same sdk laws node_id s2 _ (
            add_balance_frame sdk laws actor native stake.staked_amount true s2
              (register_validator_stake_key node_id)
              (register_validator_stake_key-ne-balance_key actor native node_id))
        ∙ get-delete_register_validator_stake sdk laws node_id s1 deleted

    module _ (holders : List Bytes) (width : length actor ≡ address_len)
        (once : Once address_len actor holders) (to_width : length u.reward_address ≡ address_len)
        (to_once : Once address_len u.reward_address holders) where
      withdraw-Moves :
          (node_id : Bytes) (stake : ValidatorStake) (reward : ℕ)
          → Moves sdk native holders []
              (credits (weight native native stake.staked_amount + weight native native reward))
              (pay_back sdk fl writer u node_id actor stake reward)
      unfolding pay_back
      withdraw-Moves node_id stake reward = Moves-as (omega arith) refl (
          Moves-bind
            (Moves-add_balance sdk laws native holders [] u.reward_address reward to_width to_once
              native)
            (λ _.
              Moves-bind
                (Moves-quiet sdk laws native holders []
                  (AllWide-Once address_len actor holders once)
                  (λ t b w.
                    delete_register_validator_stake_frame sdk laws node_id t _
                      (balance_key-ne-register_validator_stake_key b native node_id))
                  (λ t c.
                    delete_register_validator_stake_frame sdk laws node_id t _
                      (loan_key-ne-register_validator_stake_key native c node_id)))
                (λ _.
                  Moves-add_balance sdk laws native holders [] actor stake.staked_amount width once
                    native)))

      -- A withdrawal that succeeds was of the actor's own stake, which had ended by the last block.
      -- The stake is no longer recorded, and the listed holders own together as much more as the
      -- stake and the reward that the balancer has let go.
      pub withdraw_effects :
          {r : Receipt}
          → (execute sdk fl writer height u actor (s, e)).0 ≡ ok r
          → let s' = (execute sdk fl writer height u actor (s, e)).1.0 in
            (node_id : Bytes) × (stake : ValidatorStake) × (reward : ℕ) × (sdk.to_node_id u.node_id
              ≡ ok node_id)
            × (get_register_validator_stake sdk node_id s ≡ ok (some stake))
            × (stake.owner_address ≡ actor)
            × (stake.stake_end_block ≤ height)
            × ((withdraw_validator_stake node_id e).0 ≡ ok reward)
            × (get_register_validator_stake sdk node_id s' ≡ ok none)
            × (total sdk native holders s'
                ≡ total sdk native holders s + stake.staked_amount + reward)
      withdraw_effects h =
          let (node_id, stake, reward, node, got, owner, ended, left, paid, end) =
            withdraw_steps h in
          (
            node_id,
            stake,
            reward,
            node,
            got,
            owner,
            ended,
            left,
            ap (λ p. get_register_validator_stake sdk node_id p.0) end
                ∙ withdrawn_gone node_id stake reward paid,
            omega (
              arith,
              (withdraw-Moves node_id stake reward).held s paid,
              weight_self sdk laws native stake.staked_amount,
              weight_self sdk laws native reward,
              ap (λ p. total sdk native holders p.0) end,
            ),
          )
