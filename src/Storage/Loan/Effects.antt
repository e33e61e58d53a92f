-- ===== src/Storage/Loan/Effects.antt =====
-- What AddLoan and SubLoan do to the state, when they succeed and when they fail.
use nuklaivm.Prelude.{
  ℕ, ◌+◌, ◌-◌, ◌^◌, ◌≤◌, ◌<◌, ◌≡◌, ◌≢◌, refl, sym, ap, ◌∙◌, inl, inr, [], Result, ok, err, panic,
  arith, if◌then◌else◌, ◌==◌, bind_ok, Keeps, gets, ◌>>=◌, Bool-cases, err≢ok,
}
use nuklaivm.Bytes.{Bytes, be64, of_be64-be64, of_be64-lt}
use nuklaivm.Sdk.{Sdk, IsLawful, Error}
use nuklaivm.Storage.Keys.{loan_key}
use nuklaivm.Storage.Writes.{Writes, write_rules, Same-Writes, Same-refl}
use nuklaivm.Storage.Loan.{inner_get_loan, get_loan, add_loan, sub_loan}
use native.Mathlib.Decide.{dec_le, dec_lt}

inner_get_loan-be64 : (n : ℕ) → n < 2 ^ 64 → inner_get_loan (ok (be64 n)) ≡ ok n
unfolding inner_get_loan be64
inner_get_loan-be64 n h = of_be64-be64 n [] h

inner_get_loan-lt : (r : Result Error Bytes) {b : ℕ} → inner_get_loan r ≡ ok b → b < 2 ^ 64
unfolding inner_get_loan
inner_get_loan-lt (ok v) h = of_be64-lt v h
inner_get_loan-lt (err Error.not_found) h = ground arith
inner_get_loan-lt (err _) h = cc
inner_get_loan-lt panic h = cc

module _ {S : Type 0} (sdk : Sdk S) where
  open sdk use {get_value, insert, remove}

  module _ {P : S → Type 0} (asset destination : Bytes) (amount : ℕ) where
    pub Keeps-sub_loan :
        Writes sdk P (loan_key asset destination) → Keeps P (sub_loan sdk asset destination amount)
    unfolding sub_loan
    Keeps-sub_loan w = search write_rules depth 7

    pub Keeps-add_loan :
        Writes sdk P (loan_key asset destination) → Keeps P (add_loan sdk asset destination amount)
    unfolding add_loan
    Keeps-add_loan w = search write_rules

  module _ (laws : IsLawful sdk) (asset destination : Bytes) (amount : ℕ) (s : S) where
    get_loan_of_insert :
        (n : ℕ)
        → n < 2 ^ 64
        → (insert (loan_key asset destination) (be64 n) s).0 ≡ ok tt
        → get_loan sdk asset destination (insert (loan_key asset destination) (be64 n) s).1 ≡ ok n
    unfolding get_loan
    get_loan_of_insert n fits h =
        ap inner_get_loan (laws.get-insert (loan_key asset destination) (be64 n) s h)
        ∙ inner_get_loan-be64 n fits

    get_loan_of_remove :
        (remove (loan_key asset destination) s).0 ≡ ok tt
        → get_loan sdk asset destination (remove (loan_key asset destination) s).1 ≡ ok 0
    unfolding get_loan inner_get_loan
    get_loan_of_remove h = ap inner_get_loan (laws.get-remove (loan_key asset destination) s h)

    get_loan-lt : {loan : ℕ} → get_loan sdk asset destination s ≡ ok loan → loan < 2 ^ 64
    unfolding get_loan
    get_loan-lt e = inner_get_loan-lt _ e

    sub_loan_run :
        {loan : ℕ}
        → get_loan sdk asset destination s ≡ ok loan
        → amount ≤ loan
        → sub_loan sdk asset destination amount s ≡ (
            if loan - amount == 0
            then remove (loan_key asset destination) s
            else insert (loan_key asset destination) (be64 (loan - amount)) s)
    unfolding sub_loan ◌>>=◌
    sub_loan_run {loan} e h = rw (e, laws.sub_fits loan amount h) (ground arith)

    -- More than was lent out cannot come back.
    pub sub_loan_short :
        {loan : ℕ}
        → get_loan sdk asset destination s ≡ ok loan
        → loan < amount
        → sub_loan sdk asset destination amount s ≡ (err Error.invalid_balance, s)
    unfolding sub_loan ◌>>=◌
    sub_loan_short {loan} e h = rw (e, (laws.sub_underflow loan amount h).1) refl

    sub_loan_inv :
        (sub_loan sdk asset destination amount s).0 ≡ ok tt
        → (loan : ℕ) × (get_loan sdk asset destination s ≡ ok loan) × (amount ≤ loan)
    unfolding sub_loan gets
    sub_loan_inv h =
        let (loan, e, _) = bind_ok (gets (get_loan sdk asset destination)) _ s h in
        elim (dec_le amount loan) [
          | yes q ↦ (loan, e, q)
          | no q ↦ absurd (err≢ok (sym (ap (λ t. t.0) (sub_loan_short e (omega arith))) ∙ h))
        ]

    -- Giving back an amount that succeeds was covered by the loan, and lowers it by the amount.
    pub sub_loan_ok :
        (sub_loan sdk asset destination amount s).0 ≡ ok tt
        → (loan : ℕ) × (get_loan sdk asset destination s ≡ ok loan)
          × (amount ≤ loan)
          × (get_loan sdk asset destination (sub_loan sdk asset destination amount s).1
              ≡ ok (loan - amount))
    sub_loan_ok h =
        let (loan, e, q) = sub_loan_inv h in
        let run = sub_loan_run e q in
        (loan, e, q, rw run (after loan (sym (ap (λ t. t.0) run) ∙ h) (get_loan-lt e)))
      where
        after :
            (loan : ℕ)
            → (if loan - amount == 0
                then remove (loan_key asset destination) s
                else insert (loan_key asset destination) (be64 (loan - amount)) s).0
              ≡ ok tt
            → loan < 2 ^ 64
            → get_loan sdk asset destination
                (if loan - amount == 0
                  then remove (loan_key asset destination) s
                  else insert (loan_key asset destination) (be64 (loan - amount)) s).1
              ≡ ok (loan - amount)
        after loan done fits = elim (Bool-cases (loan - amount == 0)) [
          | inl z ↦ rw z (get_loan_of_remove (rw z at done) ∙ ap ok (ground arith))
          | inr z ↦ rw z (get_loan_of_insert (loan - amount) (omega arith) (rw z at done))
        ]

    add_loan_run :
        {loan : ℕ}
        → get_loan sdk asset destination s ≡ ok loan
        → loan + amount < 2 ^ 64
        → add_loan sdk asset destination amount s
          ≡ insert (loan_key asset destination) (be64 (loan + amount)) s
    unfolding add_loan ◌>>=◌
    add_loan_run {loan} e h = rw (e, laws.add64_fits loan amount h) refl

    add_loan_overflow :
        {loan : ℕ}
        → get_loan sdk asset destination s ≡ ok loan
        → 2 ^ 64 ≤ loan + amount
        → add_loan sdk asset destination amount s ≡ (err Error.invalid_balance, s)
    unfolding add_loan ◌>>=◌
    add_loan_overflow {loan} e h = rw (e, (laws.add64_overflow loan amount h).1) refl

    add_loan_inv :
        (add_loan sdk asset destination amount s).0 ≡ ok tt
        → (loan : ℕ) × (get_loan sdk asset destination s ≡ ok loan) × (loan + amount < 2 ^ 64)
    unfolding add_loan gets
    add_loan_inv h =
        let (loan, e, _) = bind_ok (gets (get_loan sdk asset destination)) _ s h in
        elim (dec_lt (loan + amount) (2 ^ 64)) [
          | yes q ↦ (loan, e, q)
          | no q ↦ absurd (err≢ok (sym (ap (λ t. t.0) (add_loan_overflow e (omega arith))) ∙ h))
        ]

    -- A loan that succeeds raises what is lent out by exactly the amount.
    pub add_loan_ok :
        (add_loan sdk asset destination amount s).0 ≡ ok tt
        → (loan : ℕ) × (get_loan sdk asset destination s ≡ ok loan)
          × (get_loan sdk asset destination (add_loan sdk asset destination amount s).1
              ≡ ok (loan + amount))
    add_loan_ok h =
        let (loan, e, q) = add_loan_inv h in
        let run = add_loan_run e q in
        (loan, e, rw run (get_loan_of_insert (loan + amount) q (sym (ap (λ t. t.0) run) ∙ h)))

    pub sub_loan_frame :
        (j : Bytes)
        → j ≢ loan_key asset destination
        → get_value (sub_loan sdk asset destination amount s).1 j ≡ get_value s j
    sub_loan_frame j ne =
        ((Keeps-sub_loan asset destination amount
            (Same-Writes sdk laws s j (loan_key asset destination) ne)).after
          s (Same-refl sdk s j)).same

    pub add_loan_frame :
        (j : Bytes)
        → j ≢ loan_key asset destination
        → get_value (add_loan sdk asset destination amount s).1 j ≡ get_value s j
    add_loan_frame j ne =
        ((Keeps-add_loan asset destination amount
            (Same-Writes sdk laws s j (loan_key asset destination) ne)).after
          s (Same-refl sdk s j)).same
