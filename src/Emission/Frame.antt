-- ===== src/Emission/Frame.antt =====
-- What processEvents and the distribution of emission/emission.go leave alone.
use nuklaivm.Prelude.{ℕ, ◌≡◌, refl, ◌∙◌, Bool, true, false, List, [], ◌∷◌, if◌then◌else◌, arith}
use nuklaivm.Prelude.Dict.{Dict}
use nuklaivm.Bytes.{Bytes}
use nuklaivm.Emission.State.{Floats, DelegatorEvent, Emission}
use nuklaivm.Emission.Events.{activate, deactivate, each, activate_delegator, deactivate_delegator}
use nuklaivm.Emission.Rewards.{distribute_to, distribute_all}

module _ {F : Type 0} where
  -- Everything but the objects and the total stake.
  abbrev pub frame : Emission F → Emission F
  frame e = record e { heap = []; total_staked = 0 }

  frame_if :
      (b : Bool) (e1 e2 e : Emission F)
      → frame e1 ≡ frame e
      → frame e2 ≡ frame e
      → frame (if b then e1 else e2) ≡ frame e
  frame_if true e1 e2 e h1 h2 = h1
  frame_if false e1 e2 e h1 h2 = h2

  pub frame-activate : (ref : ℕ) (e : Emission F) → frame (activate ref e) ≡ frame e
  unfolding activate
  frame-activate ref e = ground arith

  pub frame-deactivate : (ref : ℕ) (e : Emission F) → frame (deactivate ref e) ≡ frame e
  unfolding deactivate
  frame-deactivate ref e = ground arith

  pub frame-activate_delegator :
      (height : ℕ) (event : DelegatorEvent) (e : Emission F)
      → frame (activate_delegator height event e) ≡ frame e
  unfolding activate_delegator
  frame-activate_delegator height event e = ground arith

  pub frame-deactivate_delegator :
      (height : ℕ) (event : DelegatorEvent) (e : Emission F)
      → frame (deactivate_delegator height event e) ≡ frame e
  unfolding deactivate_delegator
  frame-deactivate_delegator height event e = ground arith

  pub frame-each :
      {A : Type 0} (f : A → Emission F → Emission F)
      → ((x : A) (e : Emission F) → frame (f x e) ≡ frame e)
      → (xs : List A) (e : Emission F) → frame (each f xs e) ≡ frame e
  unfolding each
  frame-each f keeps [] e = refl
  frame-each f keeps (x ∷ xs) e = frame-each f keeps xs (f x e) ∙ keeps x e

module _ {F : Type 0} (fl : Floats F) where
  pub frame-distribute_to :
      (is_reward : Bool) (epoch : ℕ) (per_unit : F) (ref distributed : ℕ) (e : Emission F)
      → frame (distribute_to fl is_reward epoch per_unit ref (distributed, e)).1 ≡ frame e
  unfolding distribute_to
  frame-distribute_to is_reward epoch per_unit ref distributed e = ground arith

  pub frame-distribute_all :
      (is_reward : Bool) (epoch : ℕ) (per_unit : F) (refs : Dict Bytes ℕ) (acc : ℕ × Emission F)
      → frame (distribute_all fl is_reward epoch per_unit refs acc).1 ≡ frame acc.1
  unfolding distribute_all
  frame-distribute_all is_reward epoch per_unit [] acc = refl
  frame-distribute_all is_reward epoch per_unit ((_, ref) ∷ rest) acc =
      frame-distribute_all is_reward epoch per_unit rest
        (distribute_to fl is_reward epoch per_unit ref acc)
      ∙ frame-distribute_to is_reward epoch per_unit ref acc.0 acc.1
