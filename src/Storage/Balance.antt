-- ===== src/Storage/Balance.antt =====
-- Balances: storage/storage.go, `BalanceKey` to `SubBalance`. The pool of key buffers is not
-- modelled: a key is a fresh value.
pub mod Effects
use nuklaivm.Prelude.{
  ℕ, Bool, true, false, ◌&&◌, not, Result, ok, err, panic, M, pure, gets, lift, ◌>>=◌, ◌==◌,
  if◌then◌else◌, or_fail, map_ok,
}
use nuklaivm.Bytes.{Bytes, be64, of_be64}
use nuklaivm.Sdk.{Sdk, Error}
use nuklaivm.Storage.Keys.{balance_key}

-- innerGetBalance: the balance and whether there is one
unfoldable pub inner_get_balance : Result Error Bytes → Result Error (ℕ × Bool)
inner_get_balance (err Error.not_found) = ok (0, false)
inner_get_balance (err e) = err e
inner_get_balance panic = panic
inner_get_balance (ok v) = map_ok (λ bal. (bal, true)) (of_be64 v)

module _ {S : Type 0} (sdk : Sdk S) where
  open sdk use {get_value, insert, remove, add64, sub}

  -- getBalance
  unfoldable pub get_balance_entry : Bytes → Bytes → S → Result Error (ℕ × Bool)
  get_balance_entry addr asset s = inner_get_balance (get_value s (balance_key addr asset))

  unfoldable pub get_balance : Bytes → Bytes → S → Result Error ℕ
  unfolding get_balance_entry
  get_balance addr asset s = map_ok (λ entry. entry.0) (get_balance_entry addr asset s)

  -- setBalance
  unfoldable pub set_balance_at : Bytes → ℕ → M S Error (Unit {0})
  set_balance_at key balance = insert key (be64 balance)

  unfoldable pub set_balance : Bytes → Bytes → ℕ → M S Error (Unit {0})
  unfolding set_balance_at
  set_balance addr asset balance = set_balance_at (balance_key addr asset) balance

  unfoldable pub delete_balance : Bytes → Bytes → M S Error (Unit {0})
  delete_balance addr asset = remove (balance_key addr asset)

  abbrev invalid : Error → Error
  invalid _ = Error.invalid_balance

  unfoldable pub add_balance : Bytes → Bytes → ℕ → Bool → M S Error (Unit {0})
  unfolding get_balance_entry set_balance_at
  add_balance addr asset amount create = do
    entry ← gets (get_balance_entry addr asset)
    if not entry.1 && not create then pure tt else do
      nbal ← or_fail invalid (lift (add64 entry.0 amount))
      set_balance_at (balance_key addr asset) nbal

  unfoldable pub sub_balance : Bytes → Bytes → ℕ → M S Error (Unit {0})
  unfolding get_balance_entry set_balance_at
  sub_balance addr asset amount = do
    entry ← gets (get_balance_entry addr asset)
    nbal ← or_fail invalid (lift (sub entry.0 amount))
    if nbal == 0
        then remove (balance_key addr asset)
        else set_balance_at (balance_key addr asset) nbal
