-- ===== src/Emission/Activation.antt =====
-- What the stake events of emission/emission.go do to the total stake.
use nuklaivm.Prelude.{
  ℕ, ◌≡◌, ◌<◌, ◌^◌, refl, sym, ap, ◌∙◌, true, false, none, some, length, get_elem?, arith, [], ◌∷◌,
  ◌++◌, ok,
}
use nuklaivm.Prelude.Dict.{insert}
use nuklaivm.Prelude.Word.{◌+w◌, ◌-w◌}
use nuklaivm.Bytes.{Bytes, bytes_eq}
use nuklaivm.Emission.State.{Floats, Validator, Emission, find_validator}
use nuklaivm.Emission.Staking.{
  register_validator_stake, registered, schedule, add_activation_event, add_deactivation_event,
}
use nuklaivm.Emission.Events.{activate, deactivate}
use nuklaivm.Emission.Objects.{set_elem_back, get_elem?-set_elem, get_elem?-append_last}

module _ {F : Type 0} where
  -- An activation followed by a deactivation of an inactive validator restores the whole state of
  -- the balancer, whose total stake is a uint64: the total is as before, and the validator is
  -- inactive again and otherwise as it was.
  pub activate-deactivate :
      (e : Emission F) (ref : ℕ) (v : Validator F)
      → get_elem? e.heap ref ≡ some v
      → v.is_active ≡ false
      → e.total_staked < 2 ^ 64
      → deactivate ref (activate ref e) ≡ e
  unfolding activate deactivate
  activate-deactivate e ref v h off bound = ground (
    arith,
    h,
    off,
    get_elem?-set_elem e.heap ref v (record v { is_active = true }) h,
    set_elem_back e.heap ref v (record v { is_active = true }) h,
  )

  -- An active validator's activation event changes nothing; its deactivation event takes its stake
  -- from the total, which wraps around when the stake was never added.
  pub active_events :
      (e : Emission F) (ref : ℕ) (v : Validator F)
      → get_elem? e.heap ref ≡ some v
      → v.is_active ≡ true
      → (activate ref e ≡ e)
        × ((deactivate ref (activate ref e)).total_staked
            ≡ e.total_staked -w (v.staked_amount +w v.delegated_amount))
  unfolding activate deactivate
  active_events e ref v h on = (ground (arith, h, on), ground (arith, h, on))

module _ {F : Type 0} (fl : Floats F) where
  module _ (e : Emission F) (n public_key : Bytes) (start end_block amount rate : ℕ)
      (fresh : find_validator e n ≡ none) where
    newcomer : Validator F
    newcomer = registered fl n public_key start end_block amount rate none

    enrolled : Emission F
    enrolled = schedule fl start end_block (length e.heap) (record e {
      heap = e.heap ++ newcomer ∷ [];
      validators = insert bytes_eq n (length e.heap) e.validators;
    })

    register_step :
        register_validator_stake fl n public_key start end_block amount rate e ≡ (ok tt, enrolled)
    unfolding register_validator_stake enrolled newcomer
    register_step = rw (register_validator_stake, fresh) refl

    newcomer_object : get_elem? enrolled.heap (length e.heap) ≡ some newcomer
    unfolding enrolled schedule add_activation_event add_deactivation_event
    newcomer_object = get_elem?-append_last e.heap newcomer

    -- A node that registers for the first time is active before its start block: its activation
    -- event changes nothing, and its deactivation event takes its stake from a total to which it
    -- was never added.
    pub registered_events :
        amount < 2 ^ 64
        → let e1 = (register_validator_stake fl n public_key start end_block amount rate e).1 in
          (activate (length e.heap) e1 ≡ e1)
          × (e1.total_staked ≡ e.total_staked)
          × ((deactivate (length e.heap) e1).total_staked ≡ e.total_staked -w amount)
    unfolding newcomer enrolled registered schedule add_activation_event add_deactivation_event
    registered_events bound =
        let stands = ap (λ r. get_elem? r.1.heap (length e.heap)) register_step ∙ newcomer_object in
        let total = ap (λ r. r.1.total_staked) register_step in
        let (same, out) =
          active_events (register_validator_stake fl n public_key start end_block amount rate e).1
            (length e.heap) newcomer stands refl in
        (
          same,
          total,
          ap (λ t. (deactivate (length e.heap) t).total_staked) (sym same)
              ∙ out
              ∙ ap (λ t. t -w (amount +w 0)) total
              ∙ ap (λ a. e.total_staked -w a) (omega arith),
        )
