-- ===== src/Storage/Balance/Effects.antt =====
-- What each operation on balances does to the state, when it succeeds and when it fails.
use nuklaivm.Prelude.{
  ℕ, ◌+◌, ◌-◌, ◌^◌, ◌≤◌, ◌<◌, ◌≡◌, ◌≢◌, refl, ap, inl, inr, Bool, true, false, Result, ok, err,
  panic, arith, if◌then◌else◌, ◌==◌, bind_ok, Keeps, err≢ok, gets, map_ok, ◌>>=◌, ◌∙◌, [],
  Bool-cases, sym,
}
use nuklaivm.Bytes.{Bytes, be64, of_be64, of_be64-be64, of_be64-lt}
use nuklaivm.Sdk.{Sdk, IsLawful, Error}
use nuklaivm.Storage.Keys.{balance_key}
use nuklaivm.Storage.Writes.{Writes, write_rules, Same-Writes, Same-refl}
use nuklaivm.Storage.Balance.{
  inner_get_balance, get_balance_entry, get_balance, set_balance_at, add_balance, sub_balance,
}
use native.Mathlib.Decide.{dec_le, dec_lt}

-- A number read back.
pub inner_get_balance-be64 : (n : ℕ) → n < 2 ^ 64 → inner_get_balance (ok (be64 n)) ≡ ok (n, true)
unfolding inner_get_balance be64
inner_get_balance-be64 n h = ap (map_ok (λ bal. (bal, true))) (of_be64-be64 n [] h)

present-lt :
    (v : Bytes) (r : Result Error ℕ) {b : ℕ} {p : Bool}
    → of_be64 v ≡ r
    → map_ok {B = ℕ × Bool} (λ bal. (bal, true)) r ≡ ok (b, p)
    → b < 2 ^ 64
present-lt v (ok n) e h = ground (arith, of_be64-lt v e)
present-lt v (err x) e h = cc
present-lt v panic e h = cc

inner_get_balance-lt :
    (r : Result Error Bytes) {b : ℕ} {p : Bool} → inner_get_balance r ≡ ok (b, p) → b < 2 ^ 64
unfolding inner_get_balance
inner_get_balance-lt (ok v) h = present-lt v (of_be64 v) refl h
inner_get_balance-lt (err Error.not_found) h = ground arith
inner_get_balance-lt (err _) h = cc
inner_get_balance-lt panic h = cc

module _ {S : Type 0} (sdk : Sdk S) where
  open sdk use {get_value, insert, remove}

  module _ {P : S → Type 0} (addr asset : Bytes) (amount : ℕ) where
    pub Keeps-sub_balance :
        Writes sdk P (balance_key addr asset) → Keeps P (sub_balance sdk addr asset amount)
    unfolding sub_balance set_balance_at
    Keeps-sub_balance w = search write_rules depth 7

    pub Keeps-add_balance :
        (create : Bool)
        → Writes sdk P (balance_key addr asset)
        → Keeps P (add_balance sdk addr asset amount create)
    unfolding add_balance set_balance_at
    Keeps-add_balance create w = search write_rules

  -- What is under the balance's key decides the balance.
  pub get_balance_of_same :
      (addr asset : Bytes) (s t : S)
      → get_value t (balance_key addr asset) ≡ get_value s (balance_key addr asset)
      → get_balance sdk addr asset t ≡ get_balance sdk addr asset s
  unfolding get_balance get_balance_entry
  get_balance_of_same addr asset s t e = ap (λ r. map_ok (λ entry. entry.0) (inner_get_balance r)) e

  module _ (laws : IsLawful sdk) where
    pub sub_balance_run :
        (addr asset : Bytes) (amount : ℕ) (s : S) {bal : ℕ} {p : Bool}
        → get_balance_entry sdk addr asset s ≡ ok (bal, p)
        → amount ≤ bal
        → sub_balance sdk addr asset amount s ≡ (
            if bal - amount == 0
            then remove (balance_key addr asset) s
            else insert (balance_key addr asset) (be64 (bal - amount)) s)
    unfolding sub_balance set_balance_at ◌>>=◌
    sub_balance_run addr asset amount s {bal} e h =
        rw (e, laws.sub_fits bal amount h) (ground arith)

    -- A debit of more than the balance is refused, and writes nothing.
    pub sub_balance_short :
        (addr asset : Bytes) (amount : ℕ) (s : S) {bal : ℕ} {p : Bool}
        → get_balance_entry sdk addr asset s ≡ ok (bal, p)
        → bal < amount
        → sub_balance sdk addr asset amount s ≡ (err Error.invalid_balance, s)
    unfolding sub_balance set_balance_at ◌>>=◌
    sub_balance_short addr asset amount s {bal} e h =
        rw (e, (laws.sub_underflow bal amount h).1) refl

    pub get_balance_of_insert :
        (addr asset : Bytes) (n : ℕ) (s : S)
        → n < 2 ^ 64
        → (insert (balance_key addr asset) (be64 n) s).0 ≡ ok tt
        → get_balance sdk addr asset (insert (balance_key addr asset) (be64 n) s).1 ≡ ok n
    unfolding get_balance get_balance_entry
    get_balance_of_insert addr asset n s fits h =
        ap (λ r. map_ok (λ entry. entry.0) (inner_get_balance r))
          (laws.get-insert (balance_key addr asset) (be64 n) s h)
        ∙ ap (map_ok (λ entry. entry.0)) (inner_get_balance-be64 n fits)

    get_balance_of_remove :
        (addr asset : Bytes) (s : S)
        → (remove (balance_key addr asset) s).0 ≡ ok tt
        → get_balance sdk addr asset (remove (balance_key addr asset) s).1 ≡ ok 0
    unfolding get_balance get_balance_entry inner_get_balance
    get_balance_of_remove addr asset s h =
        ap (λ r. map_ok (λ entry. entry.0) (inner_get_balance r))
          (laws.get-remove (balance_key addr asset) s h)

    pub get_balance_of_entry :
        (addr asset : Bytes) (s : S) {bal : ℕ} {p : Bool}
        → get_balance_entry sdk addr asset s ≡ ok (bal, p)
        → get_balance sdk addr asset s ≡ ok bal
    unfolding get_balance
    get_balance_of_entry addr asset s e = ap (map_ok (λ entry. entry.0)) e

    pub get_balance_entry-lt :
        (addr asset : Bytes) (s : S) {bal : ℕ} {p : Bool}
        → get_balance_entry sdk addr asset s ≡ ok (bal, p)
        → bal < 2 ^ 64
    unfolding get_balance_entry
    get_balance_entry-lt addr asset s e = inner_get_balance-lt _ e

    sub_balance_inv :
        (addr asset : Bytes) (amount : ℕ) (s : S)
        → (sub_balance sdk addr asset amount s).0 ≡ ok tt
        → (entry : ℕ × Bool) × (get_balance_entry sdk addr asset s ≡ ok entry) × (amount ≤ entry.0)
    unfolding sub_balance gets
    sub_balance_inv addr asset amount s h =
        let (entry, e, _) = bind_ok (gets (get_balance_entry sdk addr asset)) _ s h in
        elim (dec_le amount entry.0) [
          | yes q ↦ (entry, e, q)
          | no q ↦ absurd (
              err≢ok
                (sym (ap (λ t. t.0) (sub_balance_short addr asset amount s e (omega arith))) ∙ h))
        ]

    -- A debit that succeeds was covered, and takes exactly `amount`.
    pub sub_balance_ok :
        (addr asset : Bytes) (amount : ℕ) (s : S)
        → (sub_balance sdk addr asset amount s).0 ≡ ok tt
        → (bal : ℕ) × (get_balance sdk addr asset s ≡ ok bal)
          × (amount ≤ bal)
          × (get_balance sdk addr asset (sub_balance sdk addr asset amount s).1 ≡ ok (bal - amount))
    sub_balance_ok addr asset amount s h =
        let (entry, e, q) = sub_balance_inv addr asset amount s h in
        let run = sub_balance_run addr asset amount s e q in
        (
          entry.0,
          get_balance_of_entry addr asset s e,
          q,
          rw run
              (after entry.0 (sym (ap (λ t. t.0) run) ∙ h) (get_balance_entry-lt addr asset s e)),
        )
      where
        after :
            (bal : ℕ)
            → (if bal - amount == 0
                then remove (balance_key addr asset) s
                else insert (balance_key addr asset) (be64 (bal - amount)) s).0
              ≡ ok tt
            → bal < 2 ^ 64
            → get_balance sdk addr asset
                (if bal - amount == 0
                  then remove (balance_key addr asset) s
                  else insert (balance_key addr asset) (be64 (bal - amount)) s).1
              ≡ ok (bal - amount)
        after bal done fits = elim (Bool-cases (bal - amount == 0)) [
          | inl z ↦ rw z (get_balance_of_remove addr asset s (rw z at done) ∙ ap ok (ground arith))
          | inr z ↦
              rw z (get_balance_of_insert addr asset (bal - amount) s (omega arith) (rw z at done))
        ]

    add_balance_run :
        (addr asset : Bytes) (amount : ℕ) (s : S) {bal : ℕ} {p : Bool}
        → get_balance_entry sdk addr asset s ≡ ok (bal, p)
        → bal + amount < 2 ^ 64
        → add_balance sdk addr asset amount true s
          ≡ insert (balance_key addr asset) (be64 (bal + amount)) s
    unfolding add_balance set_balance_at ◌>>=◌
    add_balance_run addr asset amount s {bal} {p = false} e h =
        rw (e, laws.add64_fits bal amount h) refl
    add_balance_run addr asset amount s {bal} {p = true} e h =
        rw (e, laws.add64_fits bal amount h) refl

    -- A credit that would pass 2 ^ 64 - 1 is refused, and writes nothing.
    pub add_balance_overflow :
        (addr asset : Bytes) (amount : ℕ) (s : S) {bal : ℕ} {p : Bool}
        → get_balance_entry sdk addr asset s ≡ ok (bal, p)
        → 2 ^ 64 ≤ bal + amount
        → add_balance sdk addr asset amount true s ≡ (err Error.invalid_balance, s)
    unfolding add_balance set_balance_at ◌>>=◌
    add_balance_overflow addr asset amount s {bal} {p = false} e h =
        rw (e, (laws.add64_overflow bal amount h).1) refl
    add_balance_overflow addr asset amount s {bal} {p = true} e h =
        rw (e, (laws.add64_overflow bal amount h).1) refl

    -- A refund to an account that does not exist changes nothing.
    pub add_balance_absent :
        (addr asset : Bytes) (amount : ℕ) (s : S) {bal : ℕ}
        → get_balance_entry sdk addr asset s ≡ ok (bal, false)
        → add_balance sdk addr asset amount false s ≡ (ok tt, s)
    unfolding add_balance ◌>>=◌
    add_balance_absent addr asset amount s e = rw e refl

    add_balance_inv :
        (addr asset : Bytes) (amount : ℕ) (s : S)
        → (add_balance sdk addr asset amount true s).0 ≡ ok tt
        → (entry : ℕ × Bool) × (get_balance_entry sdk addr asset s ≡ ok entry)
          × (entry.0 + amount < 2 ^ 64)
    unfolding add_balance gets
    add_balance_inv addr asset amount s h =
        let (entry, e, _) = bind_ok (gets (get_balance_entry sdk addr asset)) _ s h in
        elim (dec_lt (entry.0 + amount) (2 ^ 64)) [
          | yes q ↦ (entry, e, q)
          | no q ↦ absurd (
              err≢ok (
                sym (ap (λ t. t.0) (add_balance_overflow addr asset amount s e (omega arith))) ∙ h))
        ]

    -- A credit that succeeds adds exactly `amount`, and the sum fits a uint64.
    pub add_balance_ok :
        (addr asset : Bytes) (amount : ℕ) (s : S)
        → (add_balance sdk addr asset amount true s).0 ≡ ok tt
        → (bal : ℕ) × (get_balance sdk addr asset s ≡ ok bal)
          × (bal + amount < 2 ^ 64)
          × (get_balance sdk addr asset (add_balance sdk addr asset amount true s).1
              ≡ ok (bal + amount))
    add_balance_ok addr asset amount s h =
        let (entry, e, q) = add_balance_inv addr asset amount s h in
        let run = add_balance_run addr asset amount s e q in
        (
          entry.0,
          get_balance_of_entry addr asset s e,
          q,
          rw run (
              get_balance_of_insert addr asset (entry.0 + amount) s q
                (sym (ap (λ t. t.0) run) ∙ h)),
        )

    -- Neither touches another key.
    pub sub_balance_frame :
        (addr asset : Bytes) (amount : ℕ) (s : S) (j : Bytes)
        → j ≢ balance_key addr asset
        → get_value (sub_balance sdk addr asset amount s).1 j ≡ get_value s j
    sub_balance_frame addr asset amount s j ne =
        ((Keeps-sub_balance addr asset amount
            (Same-Writes sdk laws s j (balance_key addr asset) ne)).after
          s (Same-refl sdk s j)).same

    pub add_balance_frame :
        (addr asset : Bytes) (amount : ℕ) (create : Bool) (s : S) (j : Bytes)
        → j ≢ balance_key addr asset
        → get_value (add_balance sdk addr asset amount create s).1 j ≡ get_value s j
    add_balance_frame addr asset amount create s j ne =
        ((Keeps-add_balance addr asset amount create
            (Same-Writes sdk laws s j (balance_key addr asset) ne)).after
          s (Same-refl sdk s j)).same
