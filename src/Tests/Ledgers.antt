-- ===== src/Tests/Ledgers.antt =====
-- Transfers between two small accounts, and the storage of balances under them.
use nuklaivm.Prelude.{
  ℕ, ◌+◌, ◌<◌, ◌≤◌, ◌-◌, ◌^◌, ◌≡◌, ◌≢◌, refl, inl, inr, true, some, ok, err, [], ◌∷◌, arith,
  replicate, ◌>>=◌,
}
use nuklaivm.Bytes.{Bytes, be64, be16, of_be64, bytes_eq}
use nuklaivm.Sdk.{Error}
use nuklaivm.Storage.Keys.{balance_key, asset_key}
use nuklaivm.Storage.Balance.{
  get_balance, get_balance_entry, sub_balance, add_balance, inner_get_balance,
}
use nuklaivm.Storage.Balance.Effects.{sub_balance_short, add_balance_overflow}
use nuklaivm.Storage.Writes.{NotIn}
use nuklaivm.Storage.Ledger.{Once}
use nuklaivm.Actions.Receipt.{receipt}
use nuklaivm.Actions.Transfer.{Transfer, execute, state_keys}
use nuklaivm.Actions.Transfer.Effects.{transfer_moves}
use nuklaivm.Tests.Store.{Writes, store, store-IsLawful}

abbrev pub alice : Bytes
alice = replicate 33 1

abbrev pub bob : Bytes
bob = replicate 33 2

abbrev pub coin : Bytes
coin = replicate 32 7

pub alice≢bob : alice ≢ bob
alice≢bob e = cc

pub bob≢alice : bob ≢ alice
bob≢alice e = cc

pub Once-alice : Once 33 alice (alice ∷ bob ∷ [])
Once-alice = (refl, inl (refl, (refl, bob≢alice, tt)))

pub Once-bob : Once 33 bob (alice ∷ bob ∷ [])
Once-bob = (refl, inr (alice≢bob, (refl, inl (refl, tt))))

-- Alice holds 100 coins.
abbrev pub funded : Writes
funded = (balance_key alice coin, some (be64 100)) ∷ []

abbrev payment : Transfer
payment = record { to = bob; asset = coin; value = 30; memo = [] }

abbrev too_much : Transfer
too_much = record { to = bob; asset = coin; value = 101; memo = [] }

abbrev wordy : Transfer
wordy = record { to = bob; asset = coin; value = 30; memo = replicate 257 0 }

payment_done : (execute store payment alice funded).0 ≡ ok (receipt 1)
unfolding execute ◌>>=◌ sub_balance add_balance inner_get_balance balance_key be64 of_be64 be16
    bytes_eq
payment_done = refl

transfer_moves_example :
    (b : ℕ) × (c : ℕ) × (get_balance store alice coin funded ≡ ok b)
    × (get_balance store bob coin funded ≡ ok c)
    × (30 ≤ b)
    × (c + 30 < 2 ^ 64)
    × (get_balance store alice coin (execute store payment alice funded).1 ≡ ok (b - 30))
    × (get_balance store bob coin (execute store payment alice funded).1 ≡ ok (c + 30))
transfer_moves_example =
    transfer_moves store payment alice store-IsLawful funded {r = receipt 1} refl alice≢bob
      payment_done

coin_untouched : NotIn store (asset_key coin) (state_keys payment alice)
unfolding asset_key balance_key state_keys
coin_untouched = (λ e. cc, (λ e. cc, tt))

holds_100 : get_balance_entry store alice coin funded ≡ ok (100, true)
unfolding get_balance_entry inner_get_balance balance_key be64 of_be64 be16 bytes_eq
holds_100 = refl

sub_balance_short_example :
    sub_balance store alice coin 101 funded ≡ (err Error.invalid_balance, funded)
sub_balance_short_example =
    sub_balance_short store store-IsLawful alice coin 101 funded {bal = 100} {p = true} holds_100
      (omega arith)

add_balance_overflow_example :
    add_balance store alice coin (2 ^ 64 - 100) true funded ≡ (err Error.invalid_balance, funded)
add_balance_overflow_example =
    add_balance_overflow store store-IsLawful alice coin (2 ^ 64 - 100) funded {bal = 100}
      {p = true} holds_100 (omega arith)
