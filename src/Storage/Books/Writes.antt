-- ===== src/Storage/Books/Writes.antt =====
-- What each storage call changes in the books of an asset.
use nuklaivm.Prelude.{
  ℕ, ◌≡◌, ◌≢◌, refl, sym, ap, subst, ◌∙◌, true, List, [], ◌∷◌, ◌++◌, M, arith, length,
  length-append, append-injective, inl, inr, Bool-cases,
}
use nuklaivm.Bytes.{Bytes, bytes_eq, bytes_eq-eq, bytes_eq_refl, bytes_eq-ne, be16}
use nuklaivm.Sdk.{Sdk, IsLawful, Error}
use nuklaivm.Storage.Keys.{balance_key, asset_key, loan_key}
use nuklaivm.Storage.Keys.Separate.{
  balance_key-ne-asset_key, loan_key-ne-balance_key, loan_key-ne-asset_key,
}
use nuklaivm.Storage.Balance.{sub_balance, add_balance}
use nuklaivm.Storage.Balance.Effects.{sub_balance_frame, add_balance_frame, get_balance_of_same}
use nuklaivm.Storage.Loan.{get_loan, inner_get_loan}
use nuklaivm.Storage.Asset.{Asset, set_asset, delete_asset}
use nuklaivm.Storage.Asset.RoundTrip.{set_asset_frame, delete_asset_frame}
use nuklaivm.Storage.Ledger.{total, Once, Absent, ok_or_zero, total-sub_balance, total-add_balance}
use nuklaivm.Storage.Books.{Change, nothing, credits, debits, weight, Moves, lent}

-- The last part of a key decides, whatever its length.
right_cancel : (xs ys c : Bytes) → xs ++ c ≡ ys ++ c → xs ≡ ys
right_cancel xs ys c h =
    (append-injective xs c ys c (omega (arith, length-append xs c, length-append ys c, ap length h))
      h).0

tail_same : {x y : ℕ} {xs ys : List ℕ} → x ∷ xs ≡ y ∷ ys → xs ≡ ys
tail_same h = cc

pub balance_key-ne_other :
    (a t b u : Bytes) → length a ≡ length b → t ≢ u → balance_key a t ≢ balance_key b u
unfolding balance_key
balance_key-ne_other a t b u e ne h =
    ne (
      right_cancel t u (be16 1)
        (append-injective a (t ++ be16 1) b (u ++ be16 1) e (tail_same h)).1)

pub asset_key-ne_other : (t u : Bytes) → t ≢ u → asset_key t ≢ asset_key u
unfolding asset_key
asset_key-ne_other t u ne h = ne (right_cancel t u (be16 5) (tail_same h))

pub loan_key-ne_other : (t d e : Bytes) → d ≢ e → loan_key t d ≢ loan_key t e
unfolding loan_key
loan_key-ne_other t d e ne h = ne (
    right_cancel d e (be16 1)
      (append-injective t (d ++ be16 1) t (e ++ be16 1) refl (tail_same h)).1)

unfoldable pub AllWide : ℕ → List Bytes → Type 0
AllWide n [] = Unit {0}
AllWide n (x ∷ xs) = (length x ≡ n) × AllWide n xs

AllWide-Absent : (n : ℕ) (a : Bytes) (xs : List Bytes) → Absent n a xs → AllWide n xs
unfolding AllWide
AllWide-Absent n a [] h = tt
AllWide-Absent n a (x ∷ xs) h = (h.0, AllWide-Absent n a xs h.2)

pub AllWide-Once : (n : ℕ) (a : Bytes) (xs : List Bytes) → Once n a xs → AllWide n xs
unfolding AllWide
AllWide-Once n a [] h = elim h [ ]
AllWide-Once n a (x ∷ xs) (w, inl (here, rest)) = (w, AllWide-Absent n a xs rest)
AllWide-Once n a (x ∷ xs) (w, inr (ne, rest)) = (w, AllWide-Once n a xs rest)

module _ {S : Type 0} (sdk : Sdk S) (laws : IsLawful sdk) (x : Bytes) where
  open sdk use {address_len, get_value}

  -- A state that differs at no balance of the holders.
  pub total_of_listed :
      (n : ℕ) (holders : List Bytes) (s t : S)
      → AllWide n holders
      → ((b : Bytes) → length b ≡ n → get_value t (balance_key b x) ≡ get_value s (balance_key b x))
      → total sdk x holders t ≡ total sdk x holders s
  unfolding AllWide
  total_of_listed n [] s t w e = refl
  total_of_listed n (b ∷ bs) s t w e = omega (
    arith,
    ap ok_or_zero (get_balance_of_same sdk b x s t (e b w.0)),
    total_of_listed n bs s t w.1 e,
  )

  lent_of_same :
      (chains : List Bytes) (s t : S)
      → ((d : Bytes) → get_value t (loan_key x d) ≡ get_value s (loan_key x d))
      → lent sdk x chains t ≡ lent sdk x chains s
  unfolding get_loan
  lent_of_same [] s t e = refl
  lent_of_same (d ∷ ds) s t e =
      omega (arith, ap (λ r. ok_or_zero (inner_get_loan r)) (e d), lent_of_same ds s t e)

  -- An amount of another asset does not count, one of this asset counts whole.
  pub weight_other : (y : Bytes) (n : ℕ) → y ≢ x → weight x y n ≡ 0
  unfolding weight
  weight_other y n ne = rw (bytes_eq-ne y x ne) refl

  pub weight_self : (n : ℕ) → weight x x n ≡ n
  unfolding weight
  weight_self n = rw (bytes_eq_refl x) refl

  -- A statement about every asset, from this one and the others.
  pub for_asset : (P : Bytes → Type 0) → P x → ((y : Bytes) → y ≢ x → P y) → (y : Bytes) → P y
  for_asset P here there y = elim (Bool-cases (bytes_eq y x)) [
    | inl b ↦ subst P (sym (bytes_eq-eq y x b)) here
    | inr b ↦
        there y
          (λ e. (let c : bytes_eq y x ≡ true = ap (λ z. bytes_eq z x) e ∙ bytes_eq_refl x in cc))
  ]

  module _ (holders chains : List Bytes) where
    -- A call that writes no balance and no loan of the asset.
    pub Moves-quiet :
        {A : Type 0} {m : M S Error A}
        → AllWide address_len holders
        → ((s : S) (b : Bytes)
            → length b ≡ address_len
            → get_value (m s).1 (balance_key b x) ≡ get_value s (balance_key b x))
        → ((s : S) (d : Bytes) → get_value (m s).1 (loan_key x d) ≡ get_value s (loan_key x d))
        → Moves sdk x holders chains nothing m
    Moves-quiet {m} wide balances loans = record {
      held = λ s h. omega (arith, total_of_listed address_len holders s (m s).1 wide (balances s));
      lends = λ s h. omega (arith, lent_of_same chains s (m s).1 (loans s));
    }

    -- A statement about an amount of any asset, from this asset and the others.
    pub Moves-weighted :
        {A : Type 0} (c : ℕ → Change) (amount : ℕ) (m : Bytes → M S Error A)
        → c 0 ≡ nothing
        → Moves sdk x holders chains (c amount) (m x)
        → ((y : Bytes) → y ≢ x → Moves sdk x holders chains nothing (m y))
        → (y : Bytes) → Moves sdk x holders chains (c (weight x y amount)) (m y)
    Moves-weighted c amount m zero here there =
        for_asset (λ y. Moves sdk x holders chains (c (weight x y amount)) (m y))
          (subst (λ n. Moves sdk x holders chains (c n) (m x)) (sym (weight_self amount)) here)
          (λ y ne.
            subst (λ d. Moves sdk x holders chains d (m y))
              (sym zero ∙ ap c (sym (weight_other y amount ne))) (there y ne))

    module _ (addr : Bytes) (amount : ℕ) (width : length addr ≡ address_len)
        (once : Once address_len addr holders) where
      Moves-sub_balance_self :
          Moves sdk x holders chains (debits amount) (sub_balance sdk addr x amount)
      Moves-sub_balance_self = record {
        held = λ s h.
            omega
              (arith, total-sub_balance sdk x laws address_len addr amount s width holders once h);
        lends = λ s h. omega (
          arith,
          lent_of_same chains s (sub_balance sdk addr x amount s).1 (λ d.
              sub_balance_frame sdk laws addr x amount s (loan_key x d)
                (loan_key-ne-balance_key addr x x d)),
        );
      }

      Moves-add_balance_self :
          Moves sdk x holders chains (credits amount) (add_balance sdk addr x amount true)
      Moves-add_balance_self = record {
        held = λ s h.
            omega
              (arith, total-add_balance sdk x laws address_len addr amount s width holders once h);
        lends = λ s h. omega (
          arith,
          lent_of_same chains s (add_balance sdk addr x amount true s).1 (λ d.
              add_balance_frame sdk laws addr x amount true s (loan_key x d)
                (loan_key-ne-balance_key addr x x d)),
        );
      }

      -- A debit of a listed holder takes its amount from what is held.
      pub Moves-sub_balance :
          (y : Bytes)
          → Moves sdk x holders chains (debits (weight x y amount)) (sub_balance sdk addr y amount)
      Moves-sub_balance =
          Moves-weighted debits amount (λ y. sub_balance sdk addr y amount) refl
            Moves-sub_balance_self
            (λ y ne.
              Moves-quiet (AllWide-Once address_len addr holders once)
                (λ s b w.
                  sub_balance_frame sdk laws addr y amount s (balance_key b x)
                    (balance_key-ne_other b x addr y (w ∙ sym width) (λ e. ne (sym e))))
                (λ s d.
                  sub_balance_frame sdk laws addr y amount s (loan_key x d)
                    (loan_key-ne-balance_key addr y x d)))

      -- A credit of a listed holder adds its amount to what is held.
      pub Moves-add_balance :
          (y : Bytes)
          → Moves sdk x holders chains
              (credits (weight x y amount))
              (add_balance sdk addr y amount true)
      Moves-add_balance =
          Moves-weighted credits amount (λ y. add_balance sdk addr y amount true) refl
            Moves-add_balance_self
            (λ y ne.
              Moves-quiet (AllWide-Once address_len addr holders once)
                (λ s b w.
                  add_balance_frame sdk laws addr y amount true s (balance_key b x)
                    (balance_key-ne_other b x addr y (w ∙ sym width) (λ e. ne (sym e))))
                (λ s d.
                  add_balance_frame sdk laws addr y amount true s (loan_key x d)
                    (loan_key-ne-balance_key addr y x d)))

    -- The entry of an asset counts in neither sum.
    pub Moves-set_asset :
        AllWide address_len holders
        → (id : Bytes) (a : Asset) → Moves sdk x holders chains nothing (set_asset sdk id a)
    Moves-set_asset wide id a =
        Moves-quiet wide
          (λ s b w.
            set_asset_frame sdk laws id a s (balance_key b x) (balance_key-ne-asset_key b x id))
          (λ s d. set_asset_frame sdk laws id a s (loan_key x d) (loan_key-ne-asset_key x d id))

    pub Moves-delete_asset :
        AllWide address_len holders
        → (id : Bytes) → Moves sdk x holders chains nothing (delete_asset sdk id)
    Moves-delete_asset wide id =
        Moves-quiet wide
          (λ s b w.
            delete_asset_frame sdk laws id s (balance_key b x) (balance_key-ne-asset_key b x id))
          (λ s d. delete_asset_frame sdk laws id s (loan_key x d) (loan_key-ne-asset_key x d id))
