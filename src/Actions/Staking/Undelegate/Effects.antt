-- ===== src/Actions/Staking/Undelegate/Effects.antt =====
-- What undelegating checks, deletes and pays.
use nuklaivm.Prelude.{
  ℕ, ◌≤◌, ◌≡◌, sym, ap, ◌∙◌, true, some, none, ok, pure, arith, guard_ok, call_ok, query_ok,
  compute_ok, step_ok, not-false, replicate,
}
use nuklaivm.Bytes.{Bytes, bytes_eq, bytes_eq-eq}
use nuklaivm.Sdk.{Sdk, IsLawful}
use nuklaivm.Codec.{Writer}
use nuklaivm.Storage.Keys.{delegate_user_stake_key}
use nuklaivm.Storage.Keys.Separate.{delegate_user_stake_key-ne-balance_key}
use nuklaivm.Storage.Balance.{add_balance}
use nuklaivm.Storage.Balance.Effects.{add_balance_frame}
use nuklaivm.Storage.UserStake.{UserStake, get_delegate_user_stake, delete_delegate_user_stake}
use nuklaivm.Storage.UserStake.RoundTrip.{
  get-delete_delegate_user_stake, get_delegate_user_stake_of_same,
}
use nuklaivm.Emission.State.{Floats, Emission}
use nuklaivm.Emission.Claims.{undelegate_user_stake}
use nuklaivm.Actions.Receipt.{Receipt, require_ok}
use nuklaivm.Actions.Staking.{on_state, on_emission, or_missing_found}
use nuklaivm.Actions.Staking.Undelegate.{UndelegateUserStake, pay_back, execute}

module _ {S F W O : Type 0} (sdk : Sdk S) (fl : Floats F) (writer : Writer W O) (height : ℕ)
    (u : UndelegateUserStake) (actor : Bytes) (s : S) (e : Emission F) where
  -- What a successful undelegation has checked, and the calls that it made.
  pub undelegate_steps :
      {r : Receipt}
      → (execute sdk fl writer height u actor (s, e)).0 ≡ ok r
      → (node_id : Bytes) × (stake : UserStake) × (reward : ℕ) × (sdk.to_node_id u.node_id
          ≡ ok node_id)
        × (get_delegate_user_stake sdk actor node_id s ≡ ok (some stake))
        × (stake.owner_address ≡ actor)
        × (stake.stake_end_block ≤ height)
        × ((undelegate_user_stake fl node_id actor e).0 ≡ ok reward)
        × ((pay_back sdk fl writer u node_id stake reward s).0 ≡ ok tt)
        × ((execute sdk fl writer height u actor (s, e)).1 ≡ (
          (pay_back sdk fl writer u node_id stake reward s).1,
          (undelegate_user_stake fl node_id actor e).1,
        ))
  unfolding execute on_state on_emission pure
  undelegate_steps h =
      let (node_id, node, r1, h1) = compute_ok _ _ _ _ h in
      let (found, got, r2, h2) = query_ok _ _ _ _ h1 in
      let (stake, present, r3, h3) = require_ok _ found _ _ h2 in
      let (owned, r4, h4) = guard_ok _ _ _ _ h3 in
      let (ended, r5, h5) = guard_ok _ _ _ _ h4 in
      let (reward, left, r6, h6) = call_ok _ _ _ _ h5 in
      let (_, paid, r7, h7) = call_ok _ _ _ _ h6 in
      let (output, written, r8, _) = compute_ok _ _ _ _ h7 in
      (
        node_id,
        stake,
        reward,
        node,
        or_missing_found _ (got ∙ ap ok present),
        bytes_eq-eq stake.owner_address actor
            (not-false (bytes_eq stake.owner_address actor) owned),
        ground arith,
        left,
        paid,
        ap (λ p. p.1) (r1 ∙ r2 ∙ r3 ∙ r4 ∙ r5 ∙ r6 ∙ r7 ∙ r8),
      )

  module _ (laws : IsLawful sdk) where
    abbrev native : Bytes
    native = replicate sdk.id_len 0

    -- The stake that has been paid back is gone.
    paid_back_gone :
        (node_id : Bytes) (stake : UserStake) (reward : ℕ)
        → (pay_back sdk fl writer u node_id stake reward s).0 ≡ ok tt
        → get_delegate_user_stake sdk stake.owner_address node_id
            (pay_back sdk fl writer u node_id stake reward s).1
          ≡ ok none
    unfolding pay_back
    paid_back_gone node_id stake reward h =
        let owner = stake.owner_address in
        let (_, rewarded, r1, h1) = step_ok _ _ s h in
        let (_, deleted, r2, h2) = step_ok _ _ _ h1 in
        let s1 : S = (add_balance sdk u.reward_address native reward true s).1 in
        let s2 : S = (delete_delegate_user_stake sdk owner node_id s1).1 in
        ap (λ p. get_delegate_user_stake sdk owner node_id p.1) (r1 ∙ r2)
        ∙ get_delegate_user_stake_of_same sdk laws owner node_id s2 _ (
            add_balance_frame sdk laws owner native stake.staked_amount true s2
              (delegate_user_stake_key owner node_id)
              (delegate_user_stake_key-ne-balance_key owner native owner node_id))
        ∙ get-delete_delegate_user_stake sdk laws owner node_id s1 deleted

    -- An undelegation that succeeds was of the actor's own stake, which had ended by the last
    -- block; the balancer has let the reward go, and the stake is no longer recorded.
    pub undelegate_effects :
        {r : Receipt}
        → (execute sdk fl writer height u actor (s, e)).0 ≡ ok r
        → (node_id : Bytes) × (stake : UserStake) × (reward : ℕ) × (sdk.to_node_id u.node_id
            ≡ ok node_id)
          × (get_delegate_user_stake sdk actor node_id s ≡ ok (some stake))
          × (stake.owner_address ≡ actor)
          × (stake.stake_end_block ≤ height)
          × ((undelegate_user_stake fl node_id actor e).0 ≡ ok reward)
          × (get_delegate_user_stake sdk actor node_id
                (execute sdk fl writer height u actor (s, e)).1.0
              ≡ ok none)
    undelegate_effects h =
        let (node_id, stake, reward, node, got, owner, ended, left, paid, end) =
          undelegate_steps h in
        (
          node_id,
          stake,
          reward,
          node,
          got,
          owner,
          ended,
          left,
          ap (λ p. get_delegate_user_stake sdk actor node_id p.0) end
              ∙ ap
                  (λ a.
                    get_delegate_user_stake sdk a node_id
                      (pay_back sdk fl writer u node_id stake reward s).1)
                  (sym owner)
              ∙ paid_back_gone node_id stake reward paid,
        )
