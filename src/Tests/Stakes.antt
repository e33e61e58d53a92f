-- ===== src/Tests/Stakes.antt =====
-- Stored stakes and loans at small states.
use nuklaivm.Prelude.{◌≡◌, refl, some, ok, [], arith, replicate}
use nuklaivm.Bytes.{Bytes}
use nuklaivm.Storage.ValidatorStake.{
  ValidatorStake, get_register_validator_stake, set_register_validator_stake,
}
use nuklaivm.Storage.ValidatorStake.RoundTrip.{FitsValidatorStake, get-set_register_validator_stake}
use nuklaivm.Storage.UserStake.{get_delegate_user_stake, set_delegate_user_stake}
use nuklaivm.Storage.UserStake.RoundTrip.{get-set_delegate_user_stake}
use nuklaivm.Bytes.{be64, be16, of_be64, bytes_eq}
use nuklaivm.Storage.Keys.{loan_key}
use nuklaivm.Storage.Loan.{get_loan, inner_get_loan, set_loan, add_loan, sub_loan}
use nuklaivm.Storage.Loan.Effects.{add_loan_ok}
use nuklaivm.Prelude.{ℕ, ◌>>=◌, ◌+◌}
use nuklaivm.Tests.Ledgers.{coin}
use nuklaivm.Prelude.{true}
use nuklaivm.Sdk.{Error}
use nuklaivm.Storage.Transactions.{
  Transaction, store_transaction, get_transaction, get-store_transaction,
}
use nuklaivm.Tests.Store.{store, store-IsLawful}
use nuklaivm.Tests.Ledgers.{alice, bob}

abbrev pub node : Bytes
node = replicate 20 3

abbrev pub stake : ValidatorStake
stake = record {
  stake_start_block = 10;
  stake_end_block = 20;
  staked_amount = 1000;
  delegation_fee_rate = 5;
  reward_address = bob;
  owner_address = alice;
}

stake_fits : FitsValidatorStake 33 stake
stake_fits = record {
  start = omega arith;
  end_block = omega arith;
  amount = omega arith;
  rate = omega arith;
  reward = refl;
  owner = refl;
}

get-set_register_validator_stake_example :
    get_register_validator_stake store node (set_register_validator_stake store node stake []).1
    ≡ ok (some stake)
unfolding set_register_validator_stake
get-set_register_validator_stake_example =
    get-set_register_validator_stake store store-IsLawful node stake [] stake_fits refl

get-set_delegate_user_stake_example :
    get_delegate_user_stake store alice node
      (set_delegate_user_stake store alice node 10 20 1000 bob []).1
    ≡ ok (
        some (record {
          stake_start_block = 10;
          stake_end_block = 20;
          staked_amount = 1000;
          reward_address = bob;
          owner_address = alice;
        }))
unfolding set_delegate_user_stake
get-set_delegate_user_stake_example =
    get-set_delegate_user_stake store store-IsLawful alice node 10 20 1000 bob [] (omega arith)
      (omega arith) (omega arith) refl refl refl

lent : (add_loan store coin (replicate 32 9) 40 []).0 ≡ ok tt
unfolding add_loan ◌>>=◌ get_loan inner_get_loan set_loan
lent = refl

given_back :
    (sub_loan store coin (replicate 32 9) 15 (add_loan store coin (replicate 32 9) 40 []).1).0
    ≡ ok tt
unfolding add_loan sub_loan ◌>>=◌ get_loan inner_get_loan set_loan loan_key be64 be16 of_be64
    bytes_eq
given_back = refl

add_loan_ok_example :
    (loan : ℕ) × (get_loan store coin (replicate 32 9) [] ≡ ok loan)
    × (get_loan store coin (replicate 32 9) (add_loan store coin (replicate 32 9) 40 []).1
        ≡ ok (loan + 40))
add_loan_ok_example = add_loan_ok store store-IsLawful coin (replicate 32 9) 40 [] lent

abbrev paid_tx : Transaction
paid_tx = record { timestamp = 1000; success = true; units = replicate 40 0; fee = 12 }

get-store_transaction_example :
    get_transaction 40 ok store.get_value coin
      (store_transaction {E = Error} store.insert coin paid_tx []).1
    ≡ ok (some paid_tx)
unfolding store_transaction
get-store_transaction_example =
    get-store_transaction 40 ok store.get_value store.insert coin paid_tx []
      store-IsLawful.get-insert (omega arith) (omega arith) refl refl refl
