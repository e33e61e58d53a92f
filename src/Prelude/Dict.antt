-- ===== src/Prelude/Dict.antt =====
-- Go maps as association lists over a test of keys. A list's order stands for the order in which
-- Go would visit the map, which the language leaves open.
use mathlib.Core.Path.{◌≡◌, refl}
use mathlib.Core.Bool.{Bool, true}
use mathlib.Core.Option.{Option, none, some}
use mathlib.Core.List.{List, [], ◌∷◌}
use native.Mathlib.Omega.{arith}
use nuklaivm.Prelude.Tests.{if◌then◌else◌}

abbrev pub Dict : Type 0 → Type 0 → Type 0
Dict K V = List (K × V)

module _ {K V : Type 0} (eq : K → K → Bool) where
  -- `v, exists := d[k]`
  unfoldable pub lookup : K → Dict K V → Option V
  lookup k [] = none
  lookup k ((j, v) ∷ d) = if eq j k then some v else lookup k d

  -- `d[k] = v`
  unfoldable pub insert : K → V → Dict K V → Dict K V
  insert k v [] = (k, v) ∷ []
  insert k v ((j, w) ∷ d) = if eq j k then (j, v) ∷ d else (j, w) ∷ insert k v d

  -- `delete(d, k)`
  unfoldable pub erase : K → Dict K V → Dict K V
  erase k [] = []
  erase k ((j, w) ∷ d) = if eq j k then erase k d else (j, w) ∷ erase k d

  pub lookup-insert_self :
      (k : K) (v : V) (d : Dict K V) → eq k k ≡ true → lookup k (insert k v d) ≡ some v
  unfolding lookup insert
  lookup-insert_self k v [] same = ground arith
  lookup-insert_self k v ((j, w) ∷ d) same = ground (arith, lookup-insert_self k v d same)

  pub lookup-erase_self : (k : K) (d : Dict K V) → lookup k (erase k d) ≡ none
  unfolding lookup erase
  lookup-erase_self k [] = refl
  lookup-erase_self k ((j, w) ∷ d) = ground (arith, lookup-erase_self k d)

  pub erase-absent : (k : K) (d : Dict K V) → lookup k d ≡ none → erase k d ≡ d
  unfolding lookup erase
  erase-absent k [] h = refl
  erase-absent k ((j, w) ∷ d) h = ground (arith, erase-absent k d)
