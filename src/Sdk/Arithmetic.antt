-- ===== src/Sdk/Arithmetic.antt =====
-- Inversion of checked arithmetic: a result is the exact one, and fits.
use nuklaivm.Prelude.{ℕ, ◌+◌, ◌-◌, ◌^◌, ◌≤◌, ◌<◌, ◌≡◌, sym, ◌∙◌, ok, Result, arith, err≢ok}
use nuklaivm.Sdk.{Sdk, IsLawful, Error}
use native.Mathlib.Decide.{dec_le, dec_lt}

pub ok_inj : {x y : ℕ} → ◌≡◌ {A = Result Error ℕ} (ok x) (ok y) → x ≡ y
ok_inj h = cc

module _ {S : Type 0} (sdk : Sdk S) (laws : IsLawful sdk) (a b : ℕ) {n : ℕ} where
  pub add64_ok : sdk.add64 a b ≡ ok n → (n ≡ a + b) × (n < 2 ^ 64)
  add64_ok h = elim (dec_lt (a + b) (2 ^ 64)) [
    | yes fits ↦ (let e = ok_inj (sym h ∙ laws.add64_fits a b fits) in (e, omega arith))
    | no over ↦ absurd (err≢ok (sym (laws.add64_overflow a b (omega arith)).1 ∙ h))
  ]

  pub sub_ok : sdk.sub a b ≡ ok n → (n ≡ a - b) × (b ≤ a)
  sub_ok h = elim (dec_le b a) [
    | yes fits ↦ (ok_inj (sym h ∙ laws.sub_fits a b fits), fits)
    | no under ↦ absurd (err≢ok (sym (laws.sub_underflow a b (omega arith)).1 ∙ h))
  ]
