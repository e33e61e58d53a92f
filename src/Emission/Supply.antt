-- ===== src/Emission/Supply.antt =====
-- The supply that emission/emission.go keeps.
use nuklaivm.Prelude.{
  ℕ, ◌≡◌, ◌≤◌, ◌<◌, ◌^◌, ◌+◌, ◌/◌, ◌%◌, refl, ap, ◌∙◌, Bool, true, false, ◌||◌, if◌then◌else◌, ◌==◌,
  leb, arith, Bool-cases, inl, inr,
}
use nuklaivm.Prelude.Word.{◌+w◌, ◌-w◌}
use nuklaivm.Emission.State.{Floats, Emission}
use nuklaivm.Emission.Events.{process_events}
use nuklaivm.Emission.Rewards.{
  within_cap, add_to_total_supply, distribute_validator_rewards,
  distribute_validator_rewards_or_fees, uncapped_rewards, amount_per_stake_unit,
  get_rewards_per_epoch, mint_new_nai, distribute_fees, share_fees, credit_account,
}
use nuklaivm.Emission.Shares.{shares, distribute_all_sum}
use nuklaivm.Emission.Frame.{frame, frame-distribute_all}
use nuklaivm.Emission.Processed.{frame-process_events}

module _ {F : Type 0} where
  -- Adding any amount to a supply within its maximum leaves it within its maximum, and returns the
  -- supply stored, whether or not the sum wraps around.
  pub add_within_max :
      (amount : ℕ) (e : Emission F)
      → e.total_supply ≤ e.max_supply
      → e.max_supply < 2 ^ 64
      → ((add_to_total_supply amount e).1.total_supply ≤ e.max_supply)
        × ((add_to_total_supply amount e).0 ≡ (add_to_total_supply amount e).1.total_supply)
  unfolding add_to_total_supply within_cap
  add_within_max amount e h bound = (ground arith, refl)

  -- An amount that does not wrap around is added in full while it fits, and else fills the supply
  -- up to its maximum.
  pub add_exact :
      (amount : ℕ) (e : Emission F)
      → e.total_supply ≤ e.max_supply
      → e.max_supply < 2 ^ 64
      → e.total_supply + amount < 2 ^ 64
      → (add_to_total_supply amount e).0 ≡ (
          if leb (e.total_supply + amount) e.max_supply
          then e.total_supply + amount
          else e.max_supply)
  unfolding add_to_total_supply within_cap
  add_exact amount e h bound fits = ground arith

module _ {F : Type 0} (fl : Floats F) where
  -- The rewards of an epoch never take the supply over its maximum, when the sum does not wrap
  -- around.
  pub rewards_within_max :
      (e : Emission F)
      → e.total_supply ≤ e.max_supply
      → e.max_supply < 2 ^ 64
      → e.total_supply + uncapped_rewards fl e < 2 ^ 64
      → e.total_supply + get_rewards_per_epoch fl e ≤ e.max_supply
  unfolding get_rewards_per_epoch within_cap
  rewards_within_max e h bound fits = ground arith

  -- When the delegators' share is no more than the whole, a validator's own part and its
  -- delegators' part add up to the whole exactly.
  pub parts_sum :
      (total_reward : ℕ) (rate : F) (delegated : ℕ)
      → total_reward < 2 ^ 64
      → fl.to_uint64 (fl.mul (fl.of_uint64 total_reward) rate) ≤ total_reward
      → let (own, others) = distribute_validator_rewards fl total_reward rate delegated in
        own + others ≡ total_reward
  unfolding distribute_validator_rewards
  parts_sum total_reward rate delegated bound share = ground arith

  frame-distribute :
      (height amount : ℕ) (is_reward : Bool) (e : Emission F)
      → frame (distribute_validator_rewards_or_fees fl height amount is_reward e).1 ≡ frame e
  unfolding distribute_validator_rewards_or_fees
  frame-distribute height amount is_reward e =
      frame-distribute_all fl is_reward (height / e.epoch_tracker.epoch_length)
        (amount_per_stake_unit fl amount e.total_staked) e.validators (0, e)

  processed_supply :
      (height : ℕ) (e : Emission F) → (process_events height e).total_supply ≡ e.total_supply
  processed_supply height e = ap (λ t. t.total_supply) (frame-process_events height e)

  processed_length :
      (height : ℕ) (e : Emission F)
      → (process_events height e).epoch_tracker.epoch_length ≡ e.epoch_tracker.epoch_length
  processed_length height e = ap (λ t. t.epoch_tracker.epoch_length) (frame-process_events height e)

  -- Minting adds to the supply exactly what it returns.
  pub mint_adds :
      (height : ℕ) (e : Emission F)
      → e.total_supply < 2 ^ 64
      → (mint_new_nai fl height e).1.total_supply ≡ e.total_supply +w (mint_new_nai fl height e).0
  unfolding mint_new_nai
  mint_adds height e bound =
      let p = process_events height e in
      let r = get_rewards_per_epoch fl p in
      ground (
        arith,
        ap (λ t. t.total_supply) (frame-distribute height r true p),
        processed_supply height e,
      )

  returned :
      {A : Type 0} (b : Bool) (x y : A) {n m : ℕ}
      → n ≡ m
      → (if◌then◌else◌ {A = ℕ × A} b (n, x) (0, y)).0 ≡ (if b then m else 0)
  returned true x y h = h
  returned false x y h = refl

  -- The sum of the active validators' shares in the rewards of an epoch, at a state.
  abbrev pub epoch_shares : Emission F → ℕ
  epoch_shares p =
      shares fl (amount_per_stake_unit fl (get_rewards_per_epoch fl p) p.total_staked) p.heap
        p.validators

  -- When a conversion to uint64 fits a uint64, the supply is a uint64, and the epoch length is not
  -- 0 (where Go panics): at a height that is a multiple of the epoch length, minting returns the sum of the shares that the active validators have, once the stake events of
  -- the block are processed, in the rewards of the epoch, modulo the word; at any other height it
  -- returns 0. It adds to the supply exactly what it returns, modulo the word.
  pub mint_supply_step :
      ((x : F) → fl.to_uint64 x < 2 ^ 64)
      → (height : ℕ) (e : Emission F) → 0 < e.epoch_tracker.epoch_length
      → e.total_supply < 2 ^ 64
      → ((mint_new_nai fl height e).0 ≡ (
          if height % e.epoch_tracker.epoch_length == 0
          then epoch_shares (process_events height e) % 2 ^ 64
          else 0))
        × ((mint_new_nai fl height e).1.total_supply
            ≡ e.total_supply +w (mint_new_nai fl height e).0)
  unfolding mint_new_nai distribute_validator_rewards_or_fees
  mint_supply_step small height e _ bound =
      let p = process_events height e in
      let r = get_rewards_per_epoch fl p in
      let per_unit = amount_per_stake_unit fl r p.total_staked in
      (
        returned (height % p.epoch_tracker.epoch_length == 0) _ _ (
              distribute_all_sum fl per_unit small true (height / p.epoch_tracker.epoch_length)
                p.validators 0 p (omega arith)
              ∙ omega arith)
            ∙ ap (λ n. if height % n == 0 then epoch_shares p % 2 ^ 64 else 0)
                (processed_length height e),
        mint_adds height e bound,
      )

  processed_frame :
      (height : ℕ) (e : Emission F)
      → ((process_events height e).max_supply ≡ e.max_supply)
        × ((process_events height e).emission_account ≡ e.emission_account)
  processed_frame height e = (
    ap (λ t. t.max_supply) (frame-process_events height e),
    ap (λ t. t.emission_account) (frame-process_events height e),
  )

  frame-share_fees :
      (height fee : ℕ) (e : Emission F)
      → frame (share_fees fl height fee e) ≡ frame (credit_account fl (fee / 2) e)
  unfolding share_fees
  frame-share_fees height fee e =
      let e1 = credit_account fl (fee / 2) e in
      elim (Bool-cases (e1.total_staked == 0 || (fee -w fee / 2) == 0)) [
        | inl b ↦ rw b refl
        | inr b ↦ rw b (frame-distribute height (fee -w fee / 2) false e1)
      ]

  fits_cap :
      (e : Emission F) (fee : ℕ)
      → e.total_supply + fee ≤ e.max_supply
      → e.max_supply < 2 ^ 64
      → within_cap e fee ≡ fee
  unfolding within_cap
  fits_cap e fee room bound = ground arith

  -- Distributing fees that fit under the maximum supply, a uint64, credits the emission account,
  -- which has room for them, with half of them, rounded down, with or without stake, and leaves the
  -- supply alone.
  pub fees_halved :
      (height fee : ℕ) (e : Emission F)
      → e.total_supply + fee ≤ e.max_supply
      → e.max_supply < 2 ^ 64
      → e.emission_account.accumulated_reward + fee < 2 ^ 64
      → ((distribute_fees fl height fee e).emission_account.accumulated_reward
          ≡ e.emission_account.accumulated_reward + fee / 2)
        × ((distribute_fees fl height fee e).total_supply ≡ e.total_supply)
  unfolding distribute_fees
  fees_halved height fee e room bound fits =
      let p = process_events height e in
      let (max, account) = processed_frame height e in
      let supply = processed_supply height e in
      let cap = fits_cap p fee (omega arith) (omega arith) in
      let shared = frame-share_fees height (within_cap p fee) p in
      (
        ap (λ t. t.emission_account.accumulated_reward) shared
            ∙ ap (λ x. p.emission_account.accumulated_reward +w (x / 2)) cap
            ∙ ap (λ a. a.accumulated_reward +w (fee / 2)) account
            ∙ omega arith,
        ap (λ t. t.total_supply) shared ∙ supply,
      )
