-- ===== src/Storage/Books/Lending.antt =====
-- What AddLoan and SubLoan change in the books of an asset.
use nuklaivm.Prelude.{
  ℕ, ◌≡◌, ◌≢◌, refl, sym, ap, subst, ◌∙◌, List, M, arith, length, append-injective, ◌∷◌, ◌++◌,
}
use nuklaivm.Bytes.{Bytes, be16}
use nuklaivm.Sdk.{Sdk, IsLawful, Error}
use nuklaivm.Storage.Keys.{balance_key, loan_key}
use nuklaivm.Storage.Keys.Separate.{balance_key-ne-loan_key}
use nuklaivm.Storage.Loan.{get_loan, inner_get_loan, add_loan, sub_loan}
use nuklaivm.Storage.Loan.Effects.{add_loan_ok, sub_loan_ok, add_loan_frame, sub_loan_frame}
use nuklaivm.Storage.Ledger.{Once, sum-Once, ok_or_zero}
use nuklaivm.Storage.Books.{Change, nothing, lends, recovers, weight, Moves}
use nuklaivm.Storage.Books.Writes.{
  AllWide, loan_key-ne_other, Moves-quiet, total_of_listed, for_asset, weight_self, weight_other,
}

-- Loans of two assets of the same width stand under different keys.
loan_key-ne_asset : (t d u e : Bytes) → length t ≡ length u → t ≢ u → loan_key t d ≢ loan_key u e
unfolding loan_key
loan_key-ne_asset t d u e w ne h =
    ne (append-injective t (d ++ be16 1) u (e ++ be16 1) w (tail_eq h)).0
  where
    tail_eq : {x y : ℕ} {xs ys : List ℕ} → x ∷ xs ≡ y ∷ ys → xs ≡ ys
    tail_eq h = cc

module _ {S : Type 0} (sdk : Sdk S) (laws : IsLawful sdk) (x : Bytes) (holders chains : List Bytes)
    (wide : AllWide sdk.address_len holders) (n : ℕ) (d : Bytes) (amount : ℕ)
    (once : Once n d chains) where
  open sdk use {get_value}

  loan_of : S → Bytes → ℕ
  loan_of s e = ok_or_zero (get_loan sdk x e s)

  loan_of_same :
      (s t : S) (e : Bytes)
      → get_value t (loan_key x e) ≡ get_value s (loan_key x e)
      → ok_or_zero (get_loan sdk x e t) ≡ ok_or_zero (get_loan sdk x e s)
  unfolding get_loan
  loan_of_same s t e h = ap (λ r. ok_or_zero (inner_get_loan r)) h

  Moves-add_loan_self : Moves sdk x holders chains (lends amount) (add_loan sdk x d amount)
  Moves-add_loan_self = record {
    held = λ s h. omega (
      arith,
      total_of_listed sdk laws x sdk.address_len holders s (add_loan sdk x d amount s).1 wide
          (λ b w.
            add_loan_frame sdk laws x d amount s (balance_key b x)
              (balance_key-ne-loan_key b x x d)),
    );
    lends = λ s h.
        (let (loan, before, after) = add_loan_ok sdk laws x d amount s h in
          let t = (add_loan sdk x d amount s).1 in
          omega (
            arith,
            sum-Once n d (λ e. ok_or_zero (get_loan sdk x e s))
                (λ e. ok_or_zero (get_loan sdk x e t))
                (λ e w ne. sym (
                  loan_of_same s t e (
                    add_loan_frame sdk laws x d amount s (loan_key x e)
                      (loan_key-ne_other x e d ne))))
                amount chains (omega (arith, ap ok_or_zero before, ap ok_or_zero after)) once,
          ));
  }

  Moves-sub_loan_self : Moves sdk x holders chains (recovers amount) (sub_loan sdk x d amount)
  Moves-sub_loan_self = record {
    held = λ s h. omega (
      arith,
      total_of_listed sdk laws x sdk.address_len holders s (sub_loan sdk x d amount s).1 wide
          (λ b w.
            sub_loan_frame sdk laws x d amount s (balance_key b x)
              (balance_key-ne-loan_key b x x d)),
    );
    lends = λ s h.
        (let (loan, before, covered, after) = sub_loan_ok sdk laws x d amount s h in
          let t = (sub_loan sdk x d amount s).1 in
          omega (
            arith,
            sum-Once n d (λ e. ok_or_zero (get_loan sdk x e t))
                (λ e. ok_or_zero (get_loan sdk x e s))
                (λ e w ne. loan_of_same s t e (
                  sub_loan_frame sdk laws x d amount s (loan_key x e) (loan_key-ne_other x e d ne)))
                amount chains (omega (arith, ap ok_or_zero before, ap ok_or_zero after)) once,
          ));
  }

  module _ (m : Bytes → M S Error (Unit {0})) (c : ℕ → Change) (zero : c 0 ≡ nothing)
      (here : Moves sdk x holders chains (c amount) (m x))
      (frame : (y : Bytes) (s : S) (j : Bytes)
        → j ≢ loan_key y d
        → get_value (m y s).1 j ≡ get_value s j) where
    of_asset :
        (y : Bytes) → length y ≡ length x → Moves sdk x holders chains (c (weight x y amount)) (m y)
    of_asset =
        for_asset sdk laws x
          (λ y. length y ≡ length x → Moves sdk x holders chains (c (weight x y amount)) (m y))
          (λ w.
            subst (λ k. Moves sdk x holders chains (c k) (m x))
              (sym (weight_self sdk laws x amount)) here)
          (λ y ne w.
            subst (λ k. Moves sdk x holders chains k (m y))
              (sym zero ∙ ap c (sym (weight_other sdk laws x y amount ne)))
              (Moves-quiet sdk laws x holders chains wide
                (λ s b _. frame y s (balance_key b x) (balance_key-ne-loan_key b x y d))
                (λ s e.
                  frame y s (loan_key x e) (loan_key-ne_asset x e y d (sym w) (λ q. ne (sym q))))))

  -- A loan to a listed chain adds its amount to what is lent.
  pub Moves-add_loan :
      (y : Bytes)
      → length y ≡ length x
      → Moves sdk x holders chains (lends (weight x y amount)) (add_loan sdk y d amount)
  Moves-add_loan =
      of_asset (λ y. add_loan sdk y d amount) lends refl Moves-add_loan_self
        (λ y s j ne. add_loan_frame sdk laws y d amount s j ne)

  -- What comes back from a listed chain lowers what is lent.
  pub Moves-sub_loan :
      (y : Bytes)
      → length y ≡ length x
      → Moves sdk x holders chains (recovers (weight x y amount)) (sub_loan sdk y d amount)
  Moves-sub_loan =
      of_asset (λ y. sub_loan sdk y d amount) recovers refl Moves-sub_loan_self
        (λ y s j ne. sub_loan_frame sdk laws y d amount s j ne)
