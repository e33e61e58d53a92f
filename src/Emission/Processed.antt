-- ===== src/Emission/Processed.antt =====
-- What processEvents of emission/emission.go leaves, and that it takes each block's events once.
use nuklaivm.Prelude.{ℕ, ◌≡◌, ap, ◌∙◌, none}
use nuklaivm.Prelude.Dict.{lookup, erase, lookup-erase_self, erase-absent}
use nuklaivm.Emission.State.{Emission, nat_eq, listed}
use nuklaivm.Emission.Events.{
  each, activate, deactivate, activate_delegator, deactivate_delegator, run_activations,
  run_deactivations, run_delegator_activations, run_delegator_deactivations, process_events,
}
use nuklaivm.Emission.Frame.{
  frame, frame-activate, frame-deactivate, frame-activate_delegator, frame-deactivate_delegator,
  frame-each,
}

module _ {F : Type 0} (height : ℕ) where
  -- The state with each kind of this block's events taken out.
  abbrev no_activations : Emission F → Emission F
  no_activations e = record e { activation_events = erase nat_eq height e.activation_events }

  abbrev no_deactivations : Emission F → Emission F
  no_deactivations e = record e { deactivation_events = erase nat_eq height e.deactivation_events }

  abbrev no_delegator_activations : Emission F → Emission F
  no_delegator_activations e = record e {
    delegator_activation_events = erase nat_eq height e.delegator_activation_events;
  }

  abbrev no_delegator_deactivations : Emission F → Emission F
  no_delegator_deactivations e = record e {
    delegator_deactivation_events = erase nat_eq height e.delegator_deactivation_events;
  }

  frame-run_activations :
      (e : Emission F) → frame (run_activations height e) ≡ no_activations (frame e)
  unfolding run_activations
  frame-run_activations e =
      ap no_activations
        (frame-each activate frame-activate (listed (lookup nat_eq height e.activation_events)) e)

  frame-run_deactivations :
      (e : Emission F) → frame (run_deactivations height e) ≡ no_deactivations (frame e)
  unfolding run_deactivations
  frame-run_deactivations e = ap no_deactivations (
      frame-each deactivate frame-deactivate (listed (lookup nat_eq height e.deactivation_events))
        e)

  frame-run_delegator_activations :
      (e : Emission F)
      → frame (run_delegator_activations height e) ≡ no_delegator_activations (frame e)
  unfolding run_delegator_activations
  frame-run_delegator_activations e = ap no_delegator_activations (
      frame-each (activate_delegator height) (frame-activate_delegator height)
        (listed (lookup nat_eq height e.delegator_activation_events)) e)

  frame-run_delegator_deactivations :
      (e : Emission F)
      → frame (run_delegator_deactivations height e) ≡ no_delegator_deactivations (frame e)
  unfolding run_delegator_deactivations
  frame-run_delegator_deactivations e = ap no_delegator_deactivations (
      frame-each (deactivate_delegator height) (frame-deactivate_delegator height)
        (listed (lookup nat_eq height e.delegator_deactivation_events)) e)

  -- Processing a block's events takes these events out and changes nothing else but the objects
  -- and the total stake.
  pub frame-process_events :
      (e : Emission F)
      → frame (process_events height e)
        ≡ no_delegator_deactivations
            (no_delegator_activations (no_deactivations (no_activations (frame e))))
  unfolding process_events
  frame-process_events e =
      let e1 = run_activations height e in
      let e2 = run_deactivations height e1 in
      frame-run_delegator_deactivations (run_delegator_activations height e2)
      ∙ ap no_delegator_deactivations (
          frame-run_delegator_activations e2
          ∙ ap no_delegator_activations
              (frame-run_deactivations e1 ∙ ap no_deactivations (frame-run_activations e)))

  -- With no events for the block, nothing runs.
  idle_activations :
      (e : Emission F)
      → lookup nat_eq height e.activation_events ≡ none
      → run_activations height e ≡ e
  unfolding run_activations each
  idle_activations e h =
      ap (λ o. no_activations (each activate (listed o) e)) h
      ∙ ap (λ m. record e { activation_events = m })
          (erase-absent nat_eq height e.activation_events h)

  idle_deactivations :
      (e : Emission F)
      → lookup nat_eq height e.deactivation_events ≡ none
      → run_deactivations height e ≡ e
  unfolding run_deactivations each
  idle_deactivations e h =
      ap (λ o. no_deactivations (each deactivate (listed o) e)) h
      ∙ ap (λ m. record e { deactivation_events = m })
          (erase-absent nat_eq height e.deactivation_events h)

  idle_delegator_activations :
      (e : Emission F)
      → lookup nat_eq height e.delegator_activation_events ≡ none
      → run_delegator_activations height e ≡ e
  unfolding run_delegator_activations each
  idle_delegator_activations e h =
      ap (λ o. no_delegator_activations (each (activate_delegator height) (listed o) e)) h
      ∙ ap (λ m. record e { delegator_activation_events = m })
          (erase-absent nat_eq height e.delegator_activation_events h)

  idle_delegator_deactivations :
      (e : Emission F)
      → lookup nat_eq height e.delegator_deactivation_events ≡ none
      → run_delegator_deactivations height e ≡ e
  unfolding run_delegator_deactivations each
  idle_delegator_deactivations e h =
      ap (λ o. no_delegator_deactivations (each (deactivate_delegator height) (listed o) e)) h
      ∙ ap (λ m. record e { delegator_deactivation_events = m })
          (erase-absent nat_eq height e.delegator_deactivation_events h)

  -- The events of a block are processed once: processing the same block again changes nothing.
  pub process_events_once :
      (e : Emission F) → process_events height (process_events height e) ≡ process_events height e
  unfolding process_events
  process_events_once e =
      let p = process_events height e in
      let f = frame-process_events e in
      ap
        (λ q.
          run_delegator_deactivations height
            (run_delegator_activations height (run_deactivations height q)))
        (idle_activations p (
          ap (λ t. lookup nat_eq height t.activation_events) f
          ∙ lookup-erase_self nat_eq height e.activation_events))
      ∙ ap (λ q. run_delegator_deactivations height (run_delegator_activations height q))
          (idle_deactivations p (
            ap (λ t. lookup nat_eq height t.deactivation_events) f
            ∙ lookup-erase_self nat_eq height e.deactivation_events))
      ∙ ap (run_delegator_deactivations height) (
          idle_delegator_activations p (
            ap (λ t. lookup nat_eq height t.delegator_activation_events) f
            ∙ lookup-erase_self nat_eq height e.delegator_activation_events))
      ∙ idle_delegator_deactivations p (
          ap (λ t. lookup nat_eq height t.delegator_deactivation_events) f
          ∙ lookup-erase_self nat_eq height e.delegator_deactivation_events)
