-- ===== src/Storage/Loan.antt =====
-- Loans, the amounts of an asset that are lent to another chain: storage/storage.go,
-- `innerGetLoan` to `SubLoan`.
pub mod Effects
use nuklaivm.Prelude.{ℕ, Result, ok, err, panic, M, gets, lift, ◌>>=◌, ◌==◌, if◌then◌else◌, or_fail}
use nuklaivm.Bytes.{Bytes, be64, of_be64}
use nuklaivm.Sdk.{Sdk, Error}
use nuklaivm.Storage.Keys.{loan_key}

unfoldable pub inner_get_loan : Result Error Bytes → Result Error ℕ
inner_get_loan (err Error.not_found) = ok 0
inner_get_loan (err e) = err e
inner_get_loan panic = panic
inner_get_loan (ok v) = of_be64 v

module _ {S : Type 0} (sdk : Sdk S) where
  open sdk use {get_value, insert, remove, add64, sub}

  unfoldable pub get_loan : Bytes → Bytes → S → Result Error ℕ
  get_loan asset destination s = inner_get_loan (get_value s (loan_key asset destination))

  unfoldable pub set_loan : Bytes → Bytes → ℕ → M S Error (Unit {0})
  set_loan asset destination amount = insert (loan_key asset destination) (be64 amount)

  abbrev invalid : Error → Error
  invalid _ = Error.invalid_balance

  unfoldable pub add_loan : Bytes → Bytes → ℕ → M S Error (Unit {0})
  unfolding set_loan
  add_loan asset destination amount = do
    loan ← gets (get_loan asset destination)
    nloan ← or_fail invalid (lift (add64 loan amount))
    set_loan asset destination nloan

  unfoldable pub sub_loan : Bytes → Bytes → ℕ → M S Error (Unit {0})
  unfolding set_loan
  sub_loan asset destination amount = do
    loan ← gets (get_loan asset destination)
    nloan ← or_fail invalid (lift (sub loan amount))
    if nloan == 0 then remove (loan_key asset destination) else set_loan asset destination nloan
