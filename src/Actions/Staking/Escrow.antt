-- ===== src/Actions/Staking/Escrow.antt =====
-- What staking does to the native balances together: a stake leaves them, and comes back with the
-- reward.
use nuklaivm.Prelude.{
  ℕ, ◌+◌, ◌≡◌, refl, sym, ap, ◌∙◌, ok, some, Option, Result, subst, ◌^◌, ◌<◌, List, [], arith,
  length, replicate,
}
use nuklaivm.Bytes.{Bytes}
use nuklaivm.Sdk.{Sdk, IsLawful, Error}
use nuklaivm.Storage.Keys.Separate.{
  balance_key-ne-delegate_user_stake_key, loan_key-ne-delegate_user_stake_key,
}
use nuklaivm.Storage.Ledger.{Once, total}
use nuklaivm.Storage.UserStake.{UserStake, get_delegate_user_stake}
use nuklaivm.Storage.UserStake.RoundTrip.{
  set_delegate_user_stake_frame, delete_delegate_user_stake_frame,
}
use nuklaivm.Storage.Books.{credits, debits, weight, Moves}
use nuklaivm.Storage.Books.Rules.{Moves-bind, Moves-as}
use nuklaivm.Storage.Books.Writes.{
  AllWide-Once, Moves-sub_balance, Moves-add_balance, Moves-quiet, weight_self,
}
use nuklaivm.Emission.State.{Floats, Emission}
use nuklaivm.Emission.Claims.{undelegate_user_stake}
use nuklaivm.Actions.Receipt.{Receipt}
use nuklaivm.Actions.Staking.Delegate.Effects.{delegate_steps, pay_stake_ok}
use nuklaivm.Actions.Staking.Undelegate.Effects.{undelegate_steps}
use nuklaivm.Codec.{Writer}
use nuklaivm.Actions.Staking.{StakingConfig}
use nuklaivm.Actions.Staking.Delegate
use nuklaivm.Actions.Staking.Undelegate
use nuklaivm.Actions.Staking.Delegate.{DelegateUserStake}
use nuklaivm.Actions.Staking.Undelegate.{UndelegateUserStake}

bytes_inj : {x y : Bytes} → ◌≡◌ {A = Result Error Bytes} (ok x) (ok y) → x ≡ y
bytes_inj h = cc

stake_inj :
    {x y : UserStake}
    → ◌≡◌ {A = Result Error (Option UserStake)} (ok (some x)) (ok (some y))
    → x ≡ y
stake_inj h = cc

module _ {S F : Type 0} (sdk : Sdk S) (laws : IsLawful sdk) (fl : Floats F) (holders : List Bytes)
    (actor : Bytes) (width : length actor ≡ sdk.address_len)
    (once : Once sdk.address_len actor holders) where
  open sdk use {address_len, id_len}

  abbrev native : Bytes
  native = replicate id_len 0

  module _ (config : StakingConfig) (d : DelegateUserStake) (node_id : Bytes) where
    delegate-Moves :
        Moves sdk native holders []
          (debits (weight native native d.staked_amount))
          (Delegate.pay_stake sdk fl config d node_id actor)
    unfolding Delegate.pay_stake
    delegate-Moves = Moves-as (omega arith) refl (
        Moves-bind
          (Moves-sub_balance sdk laws native holders [] actor d.staked_amount width once native)
          (λ _.
            Moves-quiet sdk laws native holders [] (AllWide-Once address_len actor holders once)
              (λ s b w.
                set_delegate_user_stake_frame sdk laws actor node_id _ _ _ _ s _
                  (balance_key-ne-delegate_user_stake_key b native actor node_id))
              (λ s c.
                set_delegate_user_stake_frame sdk laws actor node_id _ _ _ _ s _
                  (loan_key-ne-delegate_user_stake_key native c actor node_id))))

    -- A stake that is paid leaves the native balances.
    pub delegate_held :
        (s : S)
        → (Delegate.pay_stake sdk fl config d node_id actor s).0 ≡ ok tt
        → total sdk native holders (Delegate.pay_stake sdk fl config d node_id actor s).1
            + d.staked_amount
          ≡ total sdk native holders s
    delegate_held s h =
        omega (arith, delegate-Moves.held s h, weight_self sdk laws native d.staked_amount)

  module _ {W O : Type 0} (writer : Writer W O) (node_id : Bytes) (stake : UserStake) (reward : ℕ)
      (u : UndelegateUserStake) (owner_width : length stake.owner_address ≡ address_len)
      (owner_once : Once address_len stake.owner_address holders)
      (to_width : length u.reward_address ≡ address_len)
      (to_once : Once address_len u.reward_address holders) where
    undelegate-Moves :
        Moves sdk native holders []
          (credits (weight native native stake.staked_amount + weight native native reward))
          (Undelegate.pay_back sdk fl writer u node_id stake reward)
    unfolding Undelegate.pay_back
    undelegate-Moves = Moves-as (omega arith) refl (
        Moves-bind
          (Moves-add_balance sdk laws native holders [] u.reward_address reward to_width to_once
            native)
          (λ _.
            Moves-bind
              (Moves-quiet sdk laws native holders []
                (AllWide-Once address_len u.reward_address holders to_once)
                (λ s b w.
                  delete_delegate_user_stake_frame sdk laws stake.owner_address node_id s _
                    (balance_key-ne-delegate_user_stake_key b native stake.owner_address node_id))
                (λ s c.
                  delete_delegate_user_stake_frame sdk laws stake.owner_address node_id s _
                    (loan_key-ne-delegate_user_stake_key native c stake.owner_address node_id)))
              (λ _.
                Moves-add_balance sdk laws native holders [] stake.owner_address stake.staked_amount
                  owner_width owner_once native)))

    -- A stake that is paid back enters the native balances with the reward.
    pub undelegate_held :
        (s : S)
        → (Undelegate.pay_back sdk fl writer u node_id stake reward s).0 ≡ ok tt
        → total sdk native holders (Undelegate.pay_back sdk fl writer u node_id stake reward s).1
          ≡ total sdk native holders s + stake.staked_amount + reward
    undelegate_held s h = omega (
      arith,
      undelegate-Moves.held s h,
      weight_self sdk laws native stake.staked_amount,
      weight_self sdk laws native reward,
    )

  -- A delegation, and later its end, both by the actor: whatever has become of the balancer and of
  -- the height in between, the holders own together what they owned before and the reward that the
  -- balancer has let go.
  pub delegate-undelegate :
      {W O : Type 0} (writer : Writer W O) (config : StakingConfig) (h1 h2 : ℕ)
      (d : DelegateUserStake) (u : UndelegateUserStake) (s : S) (e1 e2 : Emission F)
      {r1 r2 : Receipt}
      → u.node_id ≡ d.node_id
      → d.stake_start_block < 2 ^ 64
      → d.stake_end_block < 2 ^ 64
      → d.staked_amount < 2 ^ 64
      → length d.reward_address ≡ address_len
      → length u.reward_address ≡ address_len
      → Once address_len u.reward_address holders
      → (Delegate.execute sdk fl config h1 d actor (s, e1)).0 ≡ ok r1
      → let s1 = (Delegate.execute sdk fl config h1 d actor (s, e1)).1.0 in
        (Undelegate.execute sdk fl writer h2 u actor (s1, e2)).0 ≡ ok r2
        → (node_id : Bytes) × (reward : ℕ) × (sdk.to_node_id d.node_id ≡ ok node_id)
          × ((undelegate_user_stake fl node_id actor e2).0 ≡ ok reward)
          × (total sdk native holders (Undelegate.execute sdk fl writer h2 u actor (s1, e2)).1.0
              ≡ total sdk native holders s + reward)
  delegate-undelegate writer config h1 h2 d u s e1 e2 same start end_block amount dw uw uo done
        undone =
      let (n1, node1, _, _, _, _, (_, paid, end1)) =
        delegate_steps sdk fl config h1 d actor s e1 done in
      let s1 = (Delegate.execute sdk fl config h1 d actor (s, e1)).1.0 in
      let (n2, stake, reward, node2, got, owner, _, left, back, end2) =
        undelegate_steps sdk fl writer h2 u actor s1 e2 undone in
      let n : n2 ≡ n1 = bytes_inj (sym node2 ∙ ap sdk.to_node_id same ∙ node1) in
      let (_, stored) =
        pay_stake_ok sdk fl config h1 d actor s e1 laws n1 start end_block amount dw width paid in
      let staked : stake.staked_amount ≡ d.staked_amount =
        ap (λ (k : UserStake). k.staked_amount)
          (stake_inj (
            sym got
            ∙ ap (λ m. get_delegate_user_stake sdk actor m s1) n
            ∙ ap (λ p. get_delegate_user_stake sdk actor n1 p.0) end1
            ∙ stored)) in
      let owner_width = ap length owner ∙ width in
      (
        n2,
        reward,
        ap sdk.to_node_id (sym same) ∙ node2,
        left,
        omega (
          arith,
          staked,
          delegate_held config d n1 s paid,
          undelegate_held writer n2 stake reward u owner_width
              (subst (λ a. Once address_len a holders) (sym owner) once) uw uo s1 back,
          ap (λ p. total sdk native holders p.0) end1,
          ap (λ p. total sdk native holders p.0) end2,
        ),
      )
