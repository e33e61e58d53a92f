-- ===== src/Prelude/Monad/Preserving.antt =====
-- Properties of the state that a call keeps, with a rule for each way to build a call.
use mathlib.Core.Bool.{Bool, true, false}
use mathlib.Core.Path.{◌≡◌, refl}
use nuklaivm.Prelude.Tests.{if◌then◌else◌}
use nuklaivm.Prelude.Monad.Defs.{
  Result, ok, err, panic, M, pure, raise, lift, gets, or_fail, raise_if, continue, ◌>>=◌,
}

-- `P` holds after `m` if it held before, however `m` ends.
pub record Keeps {σ E A : Type 0} (P : σ → Type 0) (m : M σ E A) : Type 0 where
  pub after : (s : σ) → P s → P (m s).1

module _ {σ E A : Type 0} {P : σ → Type 0} where
  pub Keeps-pure : (a : A) → Keeps {E = E} P (pure a)
  unfolding pure
  Keeps-pure a = record { after = λ s p. p }

  pub Keeps-raise : (e : E) → Keeps {A = A} P (raise e)
  unfolding raise
  Keeps-raise e = record { after = λ s p. p }

  pub Keeps-lift : (r : Result E A) → Keeps P (lift r)
  unfolding lift
  Keeps-lift r = record { after = λ s p. p }

  pub Keeps-gets : (f : σ → Result E A) → Keeps P (gets f)
  unfolding gets
  Keeps-gets f = record { after = λ s p. p }

  pub Keeps-or_fail : {F : Type 0} (f : E → F) (m : M σ E A) → Keeps P m → Keeps P (or_fail f m)
  unfolding or_fail
  Keeps-or_fail f m k = record { after = k.after }

  pub Keeps-if : (b : Bool) (m n : M σ E A) → Keeps P m → Keeps P n → Keeps P (if b then m else n)
  Keeps-if true m n km kn = km
  Keeps-if false m n km kn = kn

  -- Each branch may use why it is taken.
  pub Keeps-choose :
      (b : Bool) (m n : M σ E A)
      → (b ≡ true → Keeps P m)
      → (b ≡ false → Keeps P n)
      → Keeps P (if b then m else n)
  Keeps-choose true m n km kn = km refl
  Keeps-choose false m n km kn = kn refl

module _ {σ E : Type 0} {P : σ → Type 0} where
  pub Keeps-raise_if : (b : Bool) (e : E) → Keeps P (raise_if b e)
  unfolding raise_if
  Keeps-raise_if true e = record { after = λ s p. p }
  Keeps-raise_if false e = record { after = λ s p. p }

module _ {σ E A B : Type 0} {P : σ → Type 0} where
  Keeps-continue :
      (f : A → M σ E B) (r : Result E A) → ((a : A) → Keeps P (f a)) → Keeps P (continue f r)
  Keeps-continue f (ok a) next = record { after = (next a).after }
  Keeps-continue f (err e) next = record { after = λ s p. p }
  Keeps-continue f panic next = record { after = λ s p. p }

  pub Keeps-bind :
      (m : M σ E A) (f : A → M σ E B) → Keeps P m → ((a : A) → Keeps P (f a)) → Keeps P (m >>= f)
  unfolding ◌>>=◌
  Keeps-bind m f first next = record {
    after = λ s p. (Keeps-continue f (m s).0 next).after (m s).1 (first.after s p);
  }

pub ruleset keeps_rules = (
  Keeps-pure, Keeps-raise, Keeps-lift, Keeps-gets, Keeps-or_fail, Keeps-raise_if, Keeps-if,
  Keeps-bind,
)
