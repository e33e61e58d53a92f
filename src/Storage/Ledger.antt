-- ===== src/Storage/Ledger.antt =====
-- The balances of an asset seen as one number: the sum over its holders. A debit lowers it and a
-- credit raises it by exactly the amount.
use nuklaivm.Prelude.{
  ℕ, ◌+◌, ◌≡◌, ◌≢◌, refl, sym, ap, ◌∙◌, ◌⊎◌, inl, inr, List, [], ◌∷◌, ok, err, panic, Result, true,
  arith, length,
}
use nuklaivm.Bytes.{Bytes}
use nuklaivm.Sdk.{Sdk, IsLawful, Error}
use nuklaivm.Storage.Keys.{balance_key}
use nuklaivm.Storage.Keys.Separate.{balance_key-ne}
use nuklaivm.Storage.Balance.{get_balance, sub_balance, add_balance}
use nuklaivm.Storage.Balance.Effects.{
  sub_balance_ok, add_balance_ok, sub_balance_frame, add_balance_frame, get_balance_of_same,
}

abbrev pub sum : (Bytes → ℕ) → List Bytes → ℕ
sum f [] = 0
sum f (x ∷ xs) = f x + sum f xs

-- `a` does not stand in the list.
abbrev pub Absent : ℕ → Bytes → List Bytes → Type 0
Absent n a [] = Unit {0}
Absent n a (x ∷ xs) = (length x ≡ n) × (x ≢ a) × Absent n a xs

-- `a` stands in the list exactly once, and every entry has the width `n`.
abbrev pub Once : ℕ → Bytes → List Bytes → Type 0
Once n a [] = ⊥
Once n a (x ∷ xs) = (length x ≡ n) × (((x ≡ a) × Absent n a xs) ⊎ ((x ≢ a) × Once n a xs))

module _ (n : ℕ) (a : Bytes) (f g : Bytes → ℕ)
    (agree : (b : Bytes) → length b ≡ n → b ≢ a → f b ≡ g b) where
  sum-Absent : (xs : List Bytes) → Absent n a xs → sum f xs ≡ sum g xs
  sum-Absent [] h = refl
  sum-Absent (x ∷ xs) h = omega (arith, agree x h.0 h.1, sum-Absent xs h.2)

  -- Two functions that differ at `a` alone have sums that differ as much.
  pub sum-Once : (d : ℕ) (xs : List Bytes) → f a + d ≡ g a → Once n a xs → sum f xs + d ≡ sum g xs
  sum-Once d [] e h = elim h [ ]
  sum-Once d (x ∷ xs) e (w, inl (here, rest)) = rw here (omega (arith, sum-Absent xs rest))
  sum-Once d (x ∷ xs) e (w, inr (ne, rest)) = omega (arith, agree x w ne, sum-Once d xs e rest)

abbrev pub ok_or_zero : Result Error ℕ → ℕ
ok_or_zero (ok n) = n
ok_or_zero (err e) = 0
ok_or_zero panic = 0

module _ {S : Type 0} (sdk : Sdk S) (asset : Bytes) where
  abbrev pub balance_of : S → Bytes → ℕ
  balance_of s a = ok_or_zero (get_balance sdk a asset s)

  -- What the holders own together.
  abbrev pub total : List Bytes → S → ℕ
  total holders s = sum (balance_of s) holders

  module _ (laws : IsLawful sdk) (n : ℕ) (a : Bytes) (amount : ℕ) (s : S)
      (width : length a ≡ n) where
    sub_agree :
        (b : Bytes)
        → length b ≡ n
        → b ≢ a
        → balance_of (sub_balance sdk a asset amount s).1 b ≡ balance_of s b
    sub_agree b w ne = ap ok_or_zero (
        get_balance_of_same sdk b asset s (sub_balance sdk a asset amount s).1 (
          sub_balance_frame sdk laws a asset amount s (balance_key b asset)
            (balance_key-ne b asset a asset (w ∙ sym width) ne)))

    pub total-sub_balance :
        (holders : List Bytes)
        → Once n a holders
        → (sub_balance sdk a asset amount s).0 ≡ ok tt
        → total holders (sub_balance sdk a asset amount s).1 + amount ≡ total holders s
    total-sub_balance holders h done =
        let (bal, before, covered, left) = sub_balance_ok sdk laws a asset amount s done in
        sum-Once n a (balance_of (sub_balance sdk a asset amount s).1) (balance_of s) sub_agree
          amount holders (omega (arith, ap ok_or_zero before, ap ok_or_zero left)) h

    add_agree :
        (b : Bytes)
        → length b ≡ n
        → b ≢ a
        → balance_of s b ≡ balance_of (add_balance sdk a asset amount true s).1 b
    add_agree b w ne = sym (
        ap ok_or_zero (
          get_balance_of_same sdk b asset s (add_balance sdk a asset amount true s).1 (
            add_balance_frame sdk laws a asset amount true s (balance_key b asset)
              (balance_key-ne b asset a asset (w ∙ sym width) ne))))

    pub total-add_balance :
        (holders : List Bytes)
        → Once n a holders
        → (add_balance sdk a asset amount true s).0 ≡ ok tt
        → total holders (add_balance sdk a asset amount true s).1 ≡ total holders s + amount
    total-add_balance holders h done =
        let (bal, before, fits, after) = add_balance_ok sdk laws a asset amount s done in
        sym (
          sum-Once n a (balance_of s) (balance_of (add_balance sdk a asset amount true s).1)
            add_agree amount holders (omega (arith, ap ok_or_zero before, ap ok_or_zero after)) h)

  -- A state with the same balances has the same total.
  pub total_of_same :
      (holders : List Bytes) (s t : S)
      → ((b : Bytes)
          → sdk.get_value t (balance_key b asset) ≡ sdk.get_value s (balance_key b asset))
      → total holders t ≡ total holders s
  total_of_same [] s t e = refl
  total_of_same (x ∷ xs) s t e =
      omega
        (arith, ap ok_or_zero (get_balance_of_same sdk x asset s t (e x)), total_of_same xs s t e)
