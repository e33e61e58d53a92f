-- ===== src/Controller/StateManager/Fees.antt =====
-- Fees of controller/state_manager.go: the check, the deduction and the refund fit together.
use nuklaivm.Prelude.{
  ℕ, ◌+◌, ◌-◌, ◌^◌, ◌≤◌, ◌<◌, ◌≡◌, refl, sym, ap, ◌∙◌, Bool, true, false, ok, err, Result,
  if◌then◌else◌, ◌==◌, arith, ◌>>=◌,
}
use nuklaivm.Bytes.{Bytes, be64}
use nuklaivm.Sdk.{Sdk, IsLawful, Error}
use nuklaivm.Storage.Keys.{balance_key}
use nuklaivm.Storage.Balance.{
  get_balance, get_balance_entry, set_balance_at, inner_get_balance, add_balance, sub_balance,
}
use nuklaivm.Storage.Balance.Effects.{
  sub_balance_run, sub_balance_short, sub_balance_ok, get_balance_of_entry, get_balance_entry-lt,
  inner_get_balance-be64, get_balance_of_insert, add_balance_absent,
}
use nuklaivm.Controller.StateManager.{can_deduct, deduct, refund}

module _ {S : Type 0} (sdk : Sdk S) (laws : IsLawful sdk) (empty_id : Bytes) where
  open sdk use {get_value, insert, remove}

  covered :
      (addr : Bytes) (amount : ℕ) (s : S) {bal : ℕ}
      → get_balance sdk addr empty_id s ≡ ok bal
      → can_deduct sdk empty_id addr amount s ≡ ok tt
      → amount ≤ bal
  unfolding can_deduct
  covered addr amount s {bal} e h = ground (arith, e)

  -- An account that passes CanDeduct is charged: if the state takes the write, Deduct succeeds and
  -- leaves exactly the rest.
  pub checked_then_charged :
      (addr : Bytes) (amount : ℕ) (s : S) {bal : ℕ} {p : Bool}
      → get_balance_entry sdk addr empty_id s ≡ ok (bal, p)
      → can_deduct sdk empty_id addr amount s ≡ ok tt
      → ((v : Bytes) → (insert (balance_key addr empty_id) v s).0 ≡ ok tt)
      → (remove (balance_key addr empty_id) s).0 ≡ ok tt
      → ((deduct sdk empty_id addr amount s).0 ≡ ok tt)
        × (get_balance sdk addr empty_id (deduct sdk empty_id addr amount s).1 ≡ ok (bal - amount))
  unfolding deduct
  checked_then_charged addr amount s {bal} e h writes removes =
      let held = get_balance_of_entry sdk laws addr empty_id s e in
      let q = covered addr amount s held h in
      let done =
        ap (λ r. r.0) (sub_balance_run sdk laws addr empty_id amount s e q)
        ∙ written (bal - amount == 0) writes removes in
      let (b, before, _, after) = sub_balance_ok sdk laws addr empty_id amount s done in
      (done, after ∙ ap ok (same b bal (sym before ∙ held)))
    where
      written :
          (c : Bool)
          → ((v : Bytes) → (insert (balance_key addr empty_id) v s).0 ≡ ok tt)
          → (remove (balance_key addr empty_id) s).0 ≡ ok tt
          → (if c
              then remove (balance_key addr empty_id) s
              else insert (balance_key addr empty_id) (be64 (bal - amount)) s).0
            ≡ ok tt
      written true w r = r
      written false w r = w (be64 (bal - amount))

      same : (a b : ℕ) → ◌≡◌ {A = Result Error ℕ} (ok a) (ok b) → a - amount ≡ b - amount
      same a b e = cc

  -- An account that CanDeduct turns down for its balance is not charged: Deduct fails with the same
  -- error and writes nothing.
  pub turned_down :
      (addr : Bytes) (amount : ℕ) (s : S) {bal : ℕ} {p : Bool}
      → get_balance_entry sdk addr empty_id s ≡ ok (bal, p)
      → can_deduct sdk empty_id addr amount s ≡ err Error.invalid_balance
      → deduct sdk empty_id addr amount s ≡ (err Error.invalid_balance, s)
  unfolding deduct can_deduct
  turned_down addr amount s {bal} e h =
      sub_balance_short sdk laws addr empty_id amount s e
        (ground (arith, get_balance_of_entry sdk laws addr empty_id s e))

  -- A fee that takes the whole balance is not refunded: the account is gone, and Refund succeeds
  -- without changing the state, whatever the amount.
  pub refund_after_all :
      (addr : Bytes) (bal back : ℕ) (s : S) {p : Bool}
      → get_balance_entry sdk addr empty_id s ≡ ok (bal, p)
      → (deduct sdk empty_id addr bal s).0 ≡ ok tt
      → let s1 = (deduct sdk empty_id addr bal s).1 in
        refund sdk empty_id addr back s1 ≡ (ok tt, s1)
  unfolding deduct refund get_balance_entry inner_get_balance
  refund_after_all addr bal back s e done =
      let run =
        sub_balance_run sdk laws addr empty_id bal s e (omega arith)
        ∙ ap
            (λ c.
              if c
              then remove (balance_key addr empty_id) s
              else insert (balance_key addr empty_id) (be64 (bal - bal)) s)
            {y = true} (ground arith) in
      let removed =
        laws.get-remove (balance_key addr empty_id) s (sym (ap (λ r. r.0) run) ∙ done) in
      add_balance_absent sdk laws addr empty_id back _
        (ap inner_get_balance (ap (λ r. get_value r.1 (balance_key addr empty_id)) run ∙ removed))

  entry_after :
      (addr : Bytes) (amount bal : ℕ) (s : S) {p : Bool}
      → get_balance_entry sdk addr empty_id s ≡ ok (bal, p)
      → amount < bal
      → (sub_balance sdk addr empty_id amount s).0 ≡ ok tt
      → get_balance_entry sdk addr empty_id (sub_balance sdk addr empty_id amount s).1
        ≡ ok (bal - amount, true)
  unfolding get_balance_entry
  entry_after addr amount bal s e less done =
      let run =
        sub_balance_run sdk laws addr empty_id amount s e (omega arith)
        ∙ ap
            (λ c.
              if c
              then remove (balance_key addr empty_id) s
              else insert (balance_key addr empty_id) (be64 (bal - amount)) s)
            {y = false} (ground arith) in
      let stored =
        laws.get-insert (balance_key addr empty_id) (be64 (bal - amount)) s
          (sym (ap (λ r. r.0) run) ∙ done) in
      ap (λ r. inner_get_balance (get_value r.1 (balance_key addr empty_id))) run
      ∙ ap inner_get_balance stored
      ∙ inner_get_balance-be64 (bal - amount)
          (omega (arith, get_balance_entry-lt sdk laws addr empty_id s e))

  add_balance_present :
      (addr : Bytes) (amount : ℕ) (s : S) {bal : ℕ}
      → get_balance_entry sdk addr empty_id s ≡ ok (bal, true)
      → bal + amount < 2 ^ 64
      → add_balance sdk addr empty_id amount false s
        ≡ insert (balance_key addr empty_id) (be64 (bal + amount)) s
  unfolding add_balance set_balance_at ◌>>=◌
  add_balance_present addr amount s {bal} e h = rw (e, laws.add64_fits bal amount h) refl

  -- Refunding a fee that left something on the account restores the balance, if the state takes
  -- the writes.
  pub refund_restores :
      (addr : Bytes) (amount bal : ℕ) (s : S) {p : Bool}
      → get_balance_entry sdk addr empty_id s ≡ ok (bal, p)
      → amount < bal
      → (deduct sdk empty_id addr amount s).0 ≡ ok tt
      → (refund sdk empty_id addr amount (deduct sdk empty_id addr amount s).1).0 ≡ ok tt
      → get_balance sdk addr empty_id
          (refund sdk empty_id addr amount (deduct sdk empty_id addr amount s).1).1
        ≡ ok bal
  unfolding deduct refund
  refund_restores addr amount bal s e less done back =
      let s1 = (sub_balance sdk addr empty_id amount s).1 in
      let fits = get_balance_entry-lt sdk laws addr empty_id s e in
      let run =
        add_balance_present addr amount s1 (entry_after addr amount bal s e less done)
          (omega arith) in
      ap (λ r. get_balance sdk addr empty_id r.1) run
      ∙ get_balance_of_insert sdk laws addr empty_id (bal - amount + amount) s1 (omega arith)
          (sym (ap (λ r. r.0) run) ∙ back)
      ∙ ap ok (omega arith)
