-- ===== src/Storage/Books/Rules.antt =====
-- A rule for each way to build a call.
use nuklaivm.Prelude.{
  ℕ, ◌+◌, ◌≡◌, refl, sym, ap, subst, ◌∙◌, Bool, true, false, Result, List, M, pure, raise, lift,
  gets, raise_if, or_fail, ◌>>=◌, if◌then◌else◌, ltb, or_fail_ok, arith, Bool-cases, inl, inr,
  step_ok,
}
use nuklaivm.Bytes.{Bytes}
use nuklaivm.Sdk.{Sdk}
use nuklaivm.Storage.Ledger.{total}
use nuklaivm.Storage.Books.{Change, nothing, plus, Moves, lent}

raise_if_state : {S E : Type 0} (b : Bool) (e : E) (s : S) → (raise_if b e s).1 ≡ s
unfolding raise_if
raise_if_state true e s = refl
raise_if_state false e s = refl

module _ {S : Type 0} {sdk : Sdk S} {x : Bytes} {holders chains : List Bytes} where
  -- A call that leaves the state as it was.
  pub Moves-still :
      {E A : Type 0} (m : M S E A) → ((s : S) → (m s).1 ≡ s) → Moves sdk x holders chains nothing m
  Moves-still m still = record {
    held = λ s h. omega (arith, ap (total sdk x holders) (still s));
    lends = λ s h. omega (arith, ap (lent sdk x chains) (still s));
  }

  pub Moves-bind :
      {E A B : Type 0} {c d : Change} {m : M S E A} {k : A → M S E B}
      → Moves sdk x holders chains c m
      → ((a : A) → Moves sdk x holders chains d (k a))
      → Moves sdk x holders chains (plus c d) (m >>= k)
  Moves-bind {m} {k} first next = record {
    held = λ s h.
        (let (a, e, r, g) = step_ok m k s h in
          omega
            (arith, first.held s e, (next a).held (m s).1 g, ap (λ t. total sdk x holders t.1) r));
    lends = λ s h.
        (let (a, e, r, g) = step_ok m k s h in
          omega
            (arith, first.lends s e, (next a).lends (m s).1 g, ap (λ t. lent sdk x chains t.1) r));
  }

  pub Moves-pure : {E A : Type 0} (a : A) → Moves sdk x holders chains nothing (pure {E = E} a)
  unfolding pure
  Moves-pure a = Moves-still (pure a) (λ s. refl)

  pub Moves-raise : {E A : Type 0} (e : E) → Moves sdk x holders chains nothing (raise {A = A} e)
  unfolding raise
  Moves-raise e = Moves-still (raise e) (λ s. refl)

  pub Moves-lift : {E A : Type 0} (r : Result E A) → Moves sdk x holders chains nothing (lift r)
  unfolding lift
  Moves-lift r = Moves-still (lift r) (λ s. refl)

  pub Moves-gets : {E A : Type 0} (f : S → Result E A) → Moves sdk x holders chains nothing (gets f)
  unfolding gets
  Moves-gets f = Moves-still (gets f) (λ s. refl)

  pub Moves-raise_if :
      {E : Type 0} (b : Bool) (e : E) → Moves sdk x holders chains nothing (raise_if b e)
  Moves-raise_if b e = Moves-still (raise_if b e) (raise_if_state b e)

  pub Moves-or_fail :
      {E F A : Type 0} (f : E → F) {c : Change} {m : M S E A}
      → Moves sdk x holders chains c m
      → Moves sdk x holders chains c (or_fail f m)
  unfolding or_fail
  Moves-or_fail f {m} moves = record {
    held = λ s h. moves.held s (or_fail_ok f m s h);
    lends = λ s h. moves.lends s (or_fail_ok f m s h);
  }

  pub Moves-if :
      {E A : Type 0} {c : Change} {m n : M S E A} (b : Bool)
      → Moves sdk x holders chains c m
      → Moves sdk x holders chains c n
      → Moves sdk x holders chains c (if b then m else n)
  Moves-if true mm mn = mm
  Moves-if false mm mn = mn

  pub Moves-choose :
      {E A : Type 0} {c d : Change} {m n : M S E A} (b : Bool)
      → Moves sdk x holders chains c m
      → Moves sdk x holders chains d n
      → Moves sdk x holders chains (if b then c else d) (if b then m else n)
  Moves-choose true mm mn = mm
  Moves-choose false mm mn = mn

  -- A part that runs only for an amount that is not 0.
  pub Moves-if_positive :
      {E : Type 0} (c : ℕ → Change) {m : M S E (Unit {0})} (n : ℕ)
      → c 0 ≡ nothing
      → Moves sdk x holders chains (c n) m
      → Moves sdk x holders chains (c n) (if ltb 0 n then m else pure tt)
  Moves-if_positive {E} c {m} n zero moves = elim (Bool-cases (ltb 0 n)) [
    | inl b ↦ rw b moves
    | inr b ↦ rw b (
        subst (λ d. Moves sdk x holders chains d (pure {E = E} tt))
          (sym zero ∙ ap c {y = n} (ground arith)) (Moves-pure tt))
  ]

  -- The same change, counted another way.
  pub Moves-as :
      {E A : Type 0} {c d : Change} {m : M S E A}
      → c.held_up + d.held_down ≡ d.held_up + c.held_down
      → c.lent_up + d.lent_down ≡ d.lent_up + c.lent_down
      → Moves sdk x holders chains c m
      → Moves sdk x holders chains d m
  Moves-as held lends moves = record {
    held = λ s h. omega (arith, moves.held s h, held);
    lends = λ s h. omega (arith, moves.lends s h, lends);
  }

  pub Moves-guard :
      {E A : Type 0} (b : Bool) (e : E) {c : Change} {m : M S E A}
      → Moves sdk x holders chains c m
      → Moves sdk x holders chains c (raise_if b e >>= λ _. m)
  Moves-guard b e moves =
      Moves-as (omega arith) (omega arith) (Moves-bind (Moves-raise_if b e) (λ _. moves))
