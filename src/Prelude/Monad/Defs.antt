-- ===== src/Prelude/Monad/Defs.antt =====
-- Results of a Go call, and calls on a mutable state.
use mathlib.Core.Bool.{Bool, true, false}

-- `panic` is a run-time panic: an index or a slice out of range, a nil dereference.
pub data Result (E A : Type 0) : Type 0 where
  ok : A → Result E A
  err : E → Result E A
  panic : Result E A

-- What was written stays written when the call fails.
abbrev pub M : Type 0 → Type 0 → Type 0 → Type 0
M σ E A = σ → Result E A × σ

-- `if err != nil { return f(err) }`
abbrev pub map_err : {E F A : Type 0} → (E → F) → Result E A → Result F A
map_err f (ok a) = ok a
map_err f (err e) = err (f e)
map_err f panic = panic

abbrev pub map_ok : {E A B : Type 0} → (A → B) → Result E A → Result E B
map_ok f (ok a) = ok (f a)
map_ok f (err e) = err e
map_ok f panic = panic

module _ {σ E A : Type 0} where
  unfoldable pub pure : A → M σ E A
  pure a s = (ok a, s)

  unfoldable pub raise : E → M σ E A
  raise e s = (err e, s)

  unfoldable pub lift : Result E A → M σ E A
  lift r s = (r, s)

  -- a call that only reads the state
  unfoldable pub gets : (σ → Result E A) → M σ E A
  gets f s = (f s, s)

  unfoldable pub or_fail : {F : Type 0} → (E → F) → M σ E A → M σ F A
  or_fail f m s = (map_err f (m s).0, (m s).1)

unfoldable pub modify : {σ E : Type 0} → (σ → σ) → M σ E (Unit {0})
modify f s = (ok tt, f s)

-- `if c { return e }`
unfoldable pub raise_if : {σ E : Type 0} → Bool → E → M σ E (Unit {0})
raise_if true e s = (err e, s)
raise_if false e s = (ok tt, s)

-- The rest of a call, on the result and the state that the first part left.
abbrev pub continue : {σ E A B : Type 0} → (A → M σ E B) → Result E A → M σ E B
continue f (ok a) s = f a s
continue f (err e) s = (err e, s)
continue f panic s = (panic, s)

-- opening this opens the other ways to build a call too
infixl 5 ◌>>=◌ ◌>>◌
unfoldable pub ◌>>=◌ : {σ E A B : Type 0} → M σ E A → (A → M σ E B) → M σ E B
unfolding pure raise lift gets or_fail modify raise_if
◌>>=◌ m f s = continue f (m s).0 (m s).1

abbrev pub ◌>>◌ : {σ E B : Type 0} → M σ E (Unit {0}) → M σ E B → M σ E B
m >> k = m >>= λ _. k
