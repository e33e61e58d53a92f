-- ===== src/Actions/Staking/ClaimDelegation/Effects.antt =====
-- What a claim of a delegator's reward checks and pays.
use nuklaivm.Prelude.{
  ℕ, ◌+◌, ◌≤◌, ◌≡◌, ◌≢◌, ap, sym, ◌∙◌, true, some, ok, pure, arith, guard_ok, call_ok, query_ok,
  compute_ok, not-false, replicate,
}
use nuklaivm.Bytes.{Bytes, bytes_eq, bytes_eq-eq}
use nuklaivm.Sdk.{Sdk, IsLawful}
use nuklaivm.Codec.{Writer}
use nuklaivm.Storage.Keys.{balance_key}
use nuklaivm.Storage.Balance.{get_balance, add_balance}
use nuklaivm.Storage.Balance.Effects.{add_balance_ok, add_balance_frame}
use nuklaivm.Storage.UserStake.{UserStake, get_delegate_user_stake}
use nuklaivm.Emission.State.{Floats, Emission}
use nuklaivm.Emission.Claims.{claim_staking_rewards}
use nuklaivm.Actions.Receipt.{Receipt, require_ok}
use nuklaivm.Actions.Staking.{on_state, on_emission, or_missing_found}
use nuklaivm.Actions.Staking.ClaimDelegation.{ClaimDelegationStakeRewards, execute}

module _ {S F W O : Type 0} (sdk : Sdk S) (fl : Floats F) (writer : Writer W O) (height : ℕ)
    (c : ClaimDelegationStakeRewards) (actor : Bytes) (s : S) (e : Emission F) where
  open sdk use {address_len, id_len, get_value}

  abbrev native : Bytes
  native = replicate id_len 0

  claim_steps :
      {r : Receipt}
      → (execute sdk fl writer height c actor (s, e)).0 ≡ ok r
      → (node_id : Bytes) × (stake : UserStake) × (reward : ℕ) × (sdk.to_node_id c.node_id
          ≡ ok node_id)
        × (get_delegate_user_stake sdk c.user_stake_address node_id s ≡ ok (some stake))
        × (stake.reward_address ≡ actor)
        × (stake.stake_start_block ≤ height)
        × ((claim_staking_rewards fl (replicate address_len 0) node_id c.user_stake_address e).0
            ≡ ok reward)
        × ((add_balance sdk stake.reward_address native reward true s).0 ≡ ok tt)
        × ((execute sdk fl writer height c actor (s, e)).1.0
            ≡ (add_balance sdk stake.reward_address native reward true s).1)
  unfolding execute on_state on_emission pure
  claim_steps h =
      let (node_id, node, r1, h1) = compute_ok _ _ _ _ h in
      let (found, got, r2, h2) = query_ok _ _ _ _ h1 in
      let (stake, present, r3, h3) = require_ok _ found _ _ h2 in
      let (owned, r4, h4) = guard_ok _ _ _ _ h3 in
      let (begun, r5, h5) = guard_ok _ _ _ _ h4 in
      let (reward, left, r6, h6) = call_ok _ _ _ _ h5 in
      let (_, paid, r7, h7) = call_ok _ _ _ _ h6 in
      let (output, written, r8, _) = compute_ok _ _ _ _ h7 in
      (
        node_id,
        stake,
        reward,
        node,
        or_missing_found _ (got ∙ ap ok present),
        bytes_eq-eq stake.reward_address actor
            (not-false (bytes_eq stake.reward_address actor) owned),
        ground arith,
        left,
        paid,
        ap (λ p. p.1.0) (r1 ∙ r2 ∙ r3 ∙ r4 ∙ r5 ∙ r6 ∙ r7 ∙ r8),
      )

  -- A claim that succeeds is by the reward address of a recorded stake that has started. It adds
  -- what the balancer has let go to the actor's balance, and writes no other key: the stake stays
  -- recorded, whoever it belongs to.
  pub claim_delegation_effects :
      {r : Receipt}
      → IsLawful sdk
      → (j : Bytes) → j ≢ balance_key actor native
      → (execute sdk fl writer height c actor (s, e)).0 ≡ ok r
      → let s' = (execute sdk fl writer height c actor (s, e)).1.0 in
        (node_id : Bytes) × (stake : UserStake) × (reward : ℕ) × (sdk.to_node_id c.node_id
          ≡ ok node_id)
        × (get_delegate_user_stake sdk c.user_stake_address node_id s ≡ ok (some stake))
        × (stake.reward_address ≡ actor)
        × (stake.stake_start_block ≤ height)
        × ((claim_staking_rewards fl (replicate address_len 0) node_id c.user_stake_address e).0
            ≡ ok reward)
        × ((b : ℕ) × (get_balance sdk actor native s ≡ ok b)
            × (get_balance sdk actor native s' ≡ ok (b + reward)))
        × (get_value s' j ≡ get_value s j)
  claim_delegation_effects laws j ne h =
      let (node_id, stake, reward, node, got, mine, begun, left, paid, end) = claim_steps h in
      let after : S = (add_balance sdk actor native reward true s).1 in
      let run = ap (λ a. add_balance sdk a native reward true s) mine in
      let (b, before, room, more) =
        add_balance_ok sdk laws actor native reward s (sym (ap (λ p. p.0) run) ∙ paid) in
      let s_end = end ∙ ap (λ p. p.1) run in
      (
        node_id,
        stake,
        reward,
        node,
        got,
        mine,
        begun,
        left,
        (b, before, ap (get_balance sdk actor native) s_end ∙ more),
        ap (λ t. get_value t j) s_end ∙ add_balance_frame sdk laws actor native reward true s j ne,
      )
