-- ===== src/Tests/Fees.antt =====
-- Fees at small states.
use nuklaivm.Prelude.{◌-◌, ◌≡◌, refl, true, some, ok, err, [], ◌∷◌, replicate, ◌>>=◌}
use nuklaivm.Bytes.{Bytes, be64, be16, of_be64, bytes_eq}
use nuklaivm.Sdk.{Error}
use nuklaivm.Storage.Keys.{balance_key}
use nuklaivm.Storage.Balance.{
  get_balance, get_balance_entry, inner_get_balance, add_balance, sub_balance,
}
use nuklaivm.Controller.StateManager.{
  can_deduct, deduct, refund, manager_fee_key, manager_height_key,
}
use nuklaivm.Controller.StateManager.Fees.{checked_then_charged}
use nuklaivm.Tests.Store.{Writes, store, store-IsLawful}
use nuklaivm.Tests.Ledgers.{alice}

abbrev nai : Bytes
nai = replicate 32 0

abbrev rich : Writes
rich = (balance_key alice nai, some (be64 100)) ∷ []

rich_entry : get_balance_entry store alice nai rich ≡ ok (100, true)
unfolding get_balance_entry inner_get_balance balance_key be64 of_be64 be16 bytes_eq
rich_entry = refl

can_pay : can_deduct store nai alice 30 rich ≡ ok tt
unfolding can_deduct get_balance inner_get_balance balance_key be64 of_be64 be16 bytes_eq
can_pay = refl

cannot_pay : can_deduct store nai alice 101 rich ≡ err Error.invalid_balance
unfolding can_deduct get_balance inner_get_balance balance_key be64 of_be64 be16 bytes_eq
cannot_pay = refl

paid_30 : (deduct store nai alice 30 rich).0 ≡ ok tt
unfolding deduct sub_balance ◌>>=◌ inner_get_balance balance_key be64 of_be64 be16 bytes_eq
paid_30 = refl

paid_100 : (deduct store nai alice 100 rich).0 ≡ ok tt
unfolding deduct sub_balance ◌>>=◌ inner_get_balance balance_key be64 of_be64 be16 bytes_eq
paid_100 = refl

refunded : (refund store nai alice 30 (deduct store nai alice 30 rich).1).0 ≡ ok tt
unfolding refund add_balance deduct sub_balance ◌>>=◌ inner_get_balance balance_key be64 of_be64
    be16 bytes_eq
refunded = refl

checked_then_charged_example :
    ((deduct store nai alice 30 rich).0 ≡ ok tt)
    × (get_balance store alice nai (deduct store nai alice 30 rich).1 ≡ ok (100 - 30))
checked_then_charged_example =
    checked_then_charged store store-IsLawful nai alice 30 rich {bal = 100} {p = true} rich_entry
      can_pay (λ v. refl) refl

-- The fee is kept under the height's key, not under storage's FeeKey.
fee_under_height : manager_fee_key ≡ manager_height_key
unfolding manager_fee_key manager_height_key
fee_under_height = refl
