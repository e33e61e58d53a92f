-- ===== src/Prelude/Monad/Inversion.antt =====
-- What a successful call says of its parts, for proofs where the parts stay shut.
use mathlib.Core.Path.{◌≡◌, refl, sym, ap, ◌∙◌}
use mathlib.Core.Bool.{Bool, true, false}
use mathlib.Core.Logic.{◌⊎◌, inl, inr}
use nuklaivm.Prelude.Monad.Defs.{
  Result, ok, err, panic, M, or_fail, raise_if, map_err, continue, ◌>>=◌, gets, lift,
}

pub Result-cases :
    {E A : Type 0} (r : Result E A) → ((a : A) × (r ≡ ok a)) ⊎ ((e : E) × (r ≡ err e)) ⊎ (r ≡ panic)
Result-cases (ok a) = inl (a, refl)
Result-cases (err e) = inr (inl (e, refl))
Result-cases panic = inr (inr refl)

pub err≢ok : {E A : Type 0} {e : E} {a : A} → ¬ (◌≡◌ {A = Result E A} (err e) (ok a))
err≢ok h = cc

continue_ok :
    {σ E A B : Type 0} (f : A → M σ E B) (r : Result E A) (s : σ) {b : B}
    → (continue f r s).0 ≡ ok b
    → (a : A) × (r ≡ ok a) × (continue f r s ≡ f a s)
continue_ok f (ok a) s h = (a, refl, refl)
continue_ok f (err e) s h = cc
continue_ok f panic s h = cc

pub bind_ok :
    {σ E A B : Type 0} (m : M σ E A) (f : A → M σ E B) (s : σ) {b : B}
    → ((m >>= f) s).0 ≡ ok b
    → (a : A) × ((m s).0 ≡ ok a) × ((m >>= f) s ≡ f a (m s).1)
unfolding ◌>>=◌
bind_ok m f s h = continue_ok f (m s).0 (m s).1 h

map_err_ok : {E F A : Type 0} (f : E → F) (r : Result E A) {a : A} → map_err f r ≡ ok a → r ≡ ok a
map_err_ok f (ok a) h = cc
map_err_ok f (err e) h = cc
map_err_ok f panic h = cc

pub or_fail_ok :
    {σ E F A : Type 0} (f : E → F) (m : M σ E A) (s : σ) {a : A}
    → (or_fail f m s).0 ≡ ok a
    → (m s).0 ≡ ok a
unfolding or_fail
or_fail_ok f m s h = map_err_ok f (m s).0 h

pub or_fail_state :
    {σ E F A : Type 0} (f : E → F) (m : M σ E A) (s : σ) → (or_fail f m s).1 ≡ (m s).1
unfolding or_fail
or_fail_state f m s = refl

pub raise_if_ok :
    {σ E : Type 0} (b : Bool) (e : E) (s : σ) {u : Unit {0}}
    → (raise_if b e s).0 ≡ ok u
    → (b ≡ false) × ((raise_if b e s).1 ≡ s)
unfolding raise_if
raise_if_ok true e s h = cc
raise_if_ok false e s h = (refl, refl)

-- One step of a successful block: what its first call returned, and that the rest succeeded.
module _ {σ E A B : Type 0} where
  pub step_ok :
      (m : M σ E A) (k : A → M σ E B) (s : σ) {b : B}
      → ((m >>= k) s).0 ≡ ok b
      → (a : A) × ((m s).0 ≡ ok a) × ((m >>= k) s ≡ k a (m s).1) × ((k a (m s).1).0 ≡ ok b)
  step_ok m k s h = let (a, e, r) = bind_ok m k s h in (a, e, r, sym (ap (λ t. t.0) r) ∙ h)

  pub call_ok :
      {F : Type 0} (f : F → E) (m : M σ F A) (k : A → M σ E B) (s : σ) {b : B}
      → ((or_fail f m >>= k) s).0 ≡ ok b
      → (a : A) × ((m s).0 ≡ ok a)
        × ((or_fail f m >>= k) s ≡ k a (m s).1)
        × ((k a (m s).1).0 ≡ ok b)
  unfolding or_fail
  call_ok f m k s h =
      let (a, e, r, next) = step_ok (or_fail f m) k s h in (a, map_err_ok f (m s).0 e, r, next)

  pub query_ok :
      {F : Type 0} (f : F → E) (g : σ → Result F A) (k : A → M σ E B) (s : σ) {b : B}
      → ((or_fail f (gets g) >>= k) s).0 ≡ ok b
      → (a : A) × (g s ≡ ok a) × ((or_fail f (gets g) >>= k) s ≡ k a s) × ((k a s).0 ≡ ok b)
  unfolding gets
  query_ok f g k s h = call_ok f (gets g) k s h

  pub compute_ok :
      {F : Type 0} (f : F → E) (r : Result F A) (k : A → M σ E B) (s : σ) {b : B}
      → ((or_fail f (lift r) >>= k) s).0 ≡ ok b
      → (a : A) × (r ≡ ok a) × ((or_fail f (lift r) >>= k) s ≡ k a s) × ((k a s).0 ≡ ok b)
  unfolding lift
  compute_ok f r k s h = call_ok f (lift r) k s h

  pub read_ok :
      (g : σ → Result E A) (k : A → M σ E B) (s : σ) {b : B}
      → ((gets g >>= k) s).0 ≡ ok b
      → (a : A) × (g s ≡ ok a) × ((gets g >>= k) s ≡ k a s) × ((k a s).0 ≡ ok b)
  unfolding gets
  read_ok g k s h = step_ok (gets g) k s h

  pub lift_ok :
      (r : Result E A) (k : A → M σ E B) (s : σ) {b : B}
      → ((lift r >>= k) s).0 ≡ ok b
      → (a : A) × (r ≡ ok a) × ((lift r >>= k) s ≡ k a s) × ((k a s).0 ≡ ok b)
  unfolding lift
  lift_ok r k s h = step_ok (lift r) k s h

module _ {σ E B : Type 0} where
  pub guard_ok :
      (c : Bool) (e : E) (k : Unit {0} → M σ E B) (s : σ) {b : B}
      → ((raise_if c e >>= k) s).0 ≡ ok b
      → (c ≡ false) × ((raise_if c e >>= k) s ≡ k tt s) × ((k tt s).0 ≡ ok b)
  unfolding raise_if ◌>>=◌
  guard_ok true e k s h = cc
  guard_ok false e k s h = (refl, refl, h)
