-- ===== src/Emission/Shares.antt =====
-- What distributeValidatorRewardsOrFees of emission/emission.go hands out in all.
use nuklaivm.Prelude.{
  ℕ, zero, suc, ◌+◌, ◌^◌, ◌<◌, ◌≡◌, refl, sym, subst, ap, ◌∙◌, Bool, true, false, Option, none,
  some, List, [], ◌∷◌, if◌then◌else◌, get_elem?, arith, Bool-cases, inl, inr, ◌⊎◌,
}
use nuklaivm.Prelude.Dict.{Dict}
use nuklaivm.Prelude.Word.{◌+w◌}
use nuklaivm.Bytes.{Bytes}
use nuklaivm.Emission.State.{Floats, Validator, Emission, set_elem}
use nuklaivm.Emission.Staking.{put_validator}
use nuklaivm.Emission.Rewards.{
  distribute_validator_rewards, validator_amount, credit, distribute_to, distribute_all,
}

Option-cases : {A : Type 0} (o : Option A) → (o ≡ none) ⊎ ((a : A) × (o ≡ some a))
Option-cases none = inl refl
Option-cases (some a) = inr (a, refl)

module _ {F : Type 0} (fl : Floats F) (per_unit : F) where
  -- An active validator's share is its stake, with what is delegated to it, at the price of a unit.
  abbrev pub share : Option (Validator F) → ℕ
  share none = 0
  share (some v) =
      if v.is_active
      then fl.to_uint64 (fl.mul (fl.of_uint64 (v.staked_amount +w v.delegated_amount)) per_unit)
      else 0

  -- The shares of all entries of the map, as a number without bound.
  abbrev pub shares : List (Validator F) → Dict Bytes ℕ → ℕ
  shares heap [] = 0
  shares heap ((_, ref) ∷ rest) = share (get_elem? heap ref) + shares heap rest

  share-set_elem :
      (heap : List (Validator F)) (ref j : ℕ) (v w : Validator F)
      → get_elem? heap ref ≡ some v
      → share (some w) ≡ share (some v)
      → share (get_elem? (set_elem heap ref w) j) ≡ share (get_elem? heap j)
  share-set_elem [] ref j v w h e = refl
  share-set_elem (x ∷ xs) zero zero v w h e = e ∙ ap share (sym h)
  share-set_elem (x ∷ xs) zero (suc j) v w h e = refl
  share-set_elem (x ∷ xs) (suc ref) zero v w h e = refl
  share-set_elem (x ∷ xs) (suc ref) (suc j) v w h e = share-set_elem xs ref j v w h e

  shares_same :
      (heap heap' : List (Validator F)) (refs : Dict Bytes ℕ)
      → ((j : ℕ) → share (get_elem? heap' j) ≡ share (get_elem? heap j))
      → shares heap' refs ≡ shares heap refs
  shares_same heap heap' [] h = refl
  shares_same heap heap' ((_, ref) ∷ rest) h = omega (arith, h ref, shares_same heap heap' rest h)

  -- A validator's own part and its delegators' part add up to its amount.
  parts_added :
      ((x : F) → fl.to_uint64 x < 2 ^ 64)
      → (sum amount : ℕ) (rate : F) (delegated : ℕ)
      → let (own, others) = distribute_validator_rewards fl amount rate delegated in
        sum +w (own +w others) ≡ sum +w amount
  unfolding distribute_validator_rewards
  parts_added small sum amount rate delegated =
      ground (arith, small (fl.mul (fl.of_uint64 amount) rate))

  share-credit :
      (is_reward : Bool) (epoch reward delegation distributed : ℕ) (v : Validator F)
      → share (some (credit fl is_reward epoch reward delegation distributed v)) ≡ share (some v)
  unfolding credit
  share-credit true epoch reward delegation distributed v = refl
  share-credit false epoch reward delegation distributed v = refl

  module _ (small : (x : F) → fl.to_uint64 x < 2 ^ 64) (is_reward : Bool) (epoch : ℕ) where
    -- What a round does at an object that stands, and is active.
    round_active :
        (ref sum : ℕ) (e : Emission F) (v : Validator F)
        → get_elem? e.heap ref ≡ some v
        → v.is_active ≡ true
        → let amount = validator_amount fl per_unit v in
          let (own, others) =
            distribute_validator_rewards fl amount v.delegation_fee_rate v.delegated_amount in
          let sum' = sum +w (own +w others) in
          distribute_to fl is_reward epoch per_unit ref (sum, e)
          ≡ (sum', put_validator ref (credit fl is_reward epoch own others sum' v) e)
    unfolding distribute_to
    round_active ref sum e v h on = rw (distribute_to, h, on) refl

    round_asleep :
        (ref sum : ℕ) (e : Emission F) (v : Validator F)
        → get_elem? e.heap ref ≡ some v
        → v.is_active ≡ false
        → distribute_to fl is_reward epoch per_unit ref (sum, e) ≡ (sum, e)
    unfolding distribute_to
    round_asleep ref sum e v h off = rw (distribute_to, h, off) refl

    round_missing :
        (ref sum : ℕ) (e : Emission F)
        → get_elem? e.heap ref ≡ none
        → distribute_to fl is_reward epoch per_unit ref (sum, e) ≡ (sum, e)
    unfolding distribute_to
    round_missing ref sum e h = rw (distribute_to, h) refl

    -- The sum grew by the share of the object, and no share has changed.
    abbrev Pays : ℕ → ℕ × Emission F → ℕ × Emission F → Type 0
    Pays ref (sum, e) (sum', e') =
        (sum' ≡ sum +w share (get_elem? e.heap ref))
        × ((j : ℕ) → share (get_elem? e'.heap j) ≡ share (get_elem? e.heap j))

    Pays-nothing :
        (ref sum : ℕ) (e : Emission F)
        → sum < 2 ^ 64
        → share (get_elem? e.heap ref) ≡ 0
        → Pays ref (sum, e) (sum, e)
    Pays-nothing ref sum e bound h = (omega (arith, h), λ j. refl)

    round-Pays :
        (ref sum : ℕ) (e : Emission F)
        → sum < 2 ^ 64
        → Pays ref (sum, e) (distribute_to fl is_reward epoch per_unit ref (sum, e))
    unfolding validator_amount
    round-Pays ref sum e bound = elim (Option-cases (get_elem? e.heap ref)) [
      | inl h ↦
          subst (Pays ref (sum, e)) (sym (round_missing ref sum e h))
            (Pays-nothing ref sum e bound (ap share h))
      | inr (v, h) ↦ elim (Bool-cases v.is_active) [
        | inr off ↦
            subst (Pays ref (sum, e)) (sym (round_asleep ref sum e v h off))
              (Pays-nothing ref sum e bound (ap share h ∙ rw off refl))
        | inl on ↦
            let amount = validator_amount fl per_unit v in
            let (own, others) =
              distribute_validator_rewards fl amount v.delegation_fee_rate v.delegated_amount in
            let sum' = sum +w (own +w others) in
            subst (Pays ref (sum, e)) (sym (round_active ref sum e v h on)) (
              parts_added small sum amount v.delegation_fee_rate v.delegated_amount
                  ∙ ap (λ n. sum +w n) (sym (ap share h ∙ rw on refl)),
              λ j.
                  share-set_elem e.heap ref j v (credit fl is_reward epoch own others sum' v) h
                    (share-credit is_reward epoch own others sum' v),
            )
      ]
    ]

    -- What is handed out is the sum of the shares, modulo the word.
    pub distribute_all_sum :
        (refs : Dict Bytes ℕ) (sum : ℕ) (e : Emission F)
        → sum < 2 ^ 64
        → (distribute_all fl is_reward epoch per_unit refs (sum, e)).0 ≡ sum +w shares e.heap refs
    unfolding distribute_all
    distribute_all_sum [] sum e bound = omega arith
    distribute_all_sum ((_, ref) ∷ rest) sum e bound =
        let (sum', e') = distribute_to fl is_reward epoch per_unit ref (sum, e) in
        let (paid, same) = round-Pays ref sum e bound in
        omega (
          arith,
          paid,
          distribute_all_sum rest sum' e' (omega (arith, paid)),
          shares_same e.heap e'.heap rest same,
        )
