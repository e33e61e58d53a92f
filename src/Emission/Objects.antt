-- ===== src/Emission/Objects.antt =====
-- The objects behind the entries of emission/emission.go's map of validators, for the proofs.
use nuklaivm.Prelude.{ℕ, zero, suc, ◌≡◌, refl, ap, some, List, [], ◌∷◌, ◌++◌, get_elem?, length}
use nuklaivm.Bytes.{Bytes}
use nuklaivm.Emission.State.{Validator, Emission, set_elem, find_validator}

module _ {A : Type 0} where
  pub get_elem?-set_elem :
      (xs : List A) (i : ℕ) (x v : A)
      → get_elem? xs i ≡ some x
      → get_elem? (set_elem xs i v) i ≡ some v
  get_elem?-set_elem [] i x v h = cc
  get_elem?-set_elem (y ∷ ys) zero x v h = refl
  get_elem?-set_elem (y ∷ ys) (suc i) x v h = get_elem?-set_elem ys i x v h

  -- Writing back what stood there undoes a write.
  pub set_elem_back :
      (xs : List A) (i : ℕ) (x v : A)
      → get_elem? xs i ≡ some x
      → set_elem (set_elem xs i v) i x ≡ xs
  set_elem_back [] i x v h = refl
  set_elem_back (y ∷ ys) zero x v h = cc
  set_elem_back (y ∷ ys) (suc i) x v h = ap (λ t. y ∷ t) (set_elem_back ys i x v h)

  pub get_elem?-append_last : (xs : List A) (x : A) → get_elem? (xs ++ x ∷ []) (length xs) ≡ some x
  get_elem?-append_last [] x = refl
  get_elem?-append_last (y ∷ ys) x = get_elem?-append_last ys x

-- The node's entry points to this object.
pub record Stands {F : Type 0} (e : Emission F) (node_id : Bytes) (ref : ℕ) (v : Validator F)
    : Type 0 where
  pub entry : find_validator e node_id ≡ some ref
  pub object : get_elem? e.heap ref ≡ some v
