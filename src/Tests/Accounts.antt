-- ===== src/Tests/Accounts.antt =====
-- A mint, a loan to another chain and its return, one after the other.
use nuklaivm.Prelude.{
  ◌≡◌, refl, inl, Bool, true, false, Result, ok, err, panic, sym, ap, subst, List, [], ◌∷◌, arith,
  replicate, ◌>>=◌,
}
use nuklaivm.Prelude.Int.{pos}
use nuklaivm.Bytes.{Bytes, be64, be16, of_be64, of_be16, bytes_eq}
use nuklaivm.Bytes.Slices.{slice, slice_from, index, copy_into}
use nuklaivm.Storage.Keys.{balance_key, asset_key, loan_key}
use nuklaivm.Storage.Writes.{NotIn}
use nuklaivm.Storage.Balance.{sub_balance, add_balance, inner_get_balance}
use nuklaivm.Storage.Loan.{get_loan, inner_get_loan, add_loan, sub_loan}
use nuklaivm.Storage.Asset.{encode_asset, decode_asset, inner_get_asset, get_asset, set_asset}
use nuklaivm.Storage.Ledger.{Once}
use nuklaivm.Storage.Books.Supplies.{Readable, IsReadable, recorded}
use nuklaivm.Storage.Books.{lent}
use nuklaivm.Storage.Books.Steps.{Step, Balanced, sums}
use nuklaivm.Actions.Receipt.{receipt, require}
use nuklaivm.Actions.WarpTransfer.{WarpTransfer, marshal, size, pack_swap}
use nuklaivm.Actions.MintAsset.{MintAsset}
use nuklaivm.Actions.MintAsset
use nuklaivm.Actions.ExportAsset.{ExportAsset, sent, outgoing}
use nuklaivm.Actions.ExportAsset
use nuklaivm.Actions.ExportAsset.Supply.{export_frame}
use nuklaivm.Actions.ImportAsset.{ImportAsset, known, asset_in}
use nuklaivm.Actions.ImportAsset
use nuklaivm.Actions.ImportAsset.Supply.{import_frame}
use nuklaivm.Actions.Accounts.{mints, exports, imports, run, Runs, none_yet, then_run}
use nuklaivm.Actions.Accounts.Refinement.{run-Step, Runs-balance}
use nuklaivm.Tests.Store.{Writes, store, store-IsLawful}
use nuklaivm.Tests.Packer.{writer}
use nuklaivm.Tests.Ledgers.{alice, bob, coin, Once-alice, Once-bob}
use nuklaivm.Tests.Assets.{
  token_fits, issued, issued_stored, issued_exact, minting, minting_accepted,
}

abbrev pub is_ok : {E A : Type 0} → Result E A → Bool
is_ok (ok a) = true
is_ok (err e) = false
is_ok panic = false

pub is_ok_value : {E A : Type 0} {r : Result E A} → is_ok r ≡ true → (a : A) × (r ≡ ok a)
is_ok_value {r = ok a} h = (a, refl)
is_ok_value {r = err e} h = cc
is_ok_value {r = panic} h = cc

-- Another chain.
abbrev pub abroad : Bytes
abroad = replicate 32 9

abbrev tx : Bytes
tx = replicate 32 8

-- Alice sends 30 coins abroad, and pays 10 for it.
abbrev sending : ExportAsset
sending = record {
  to = bob;
  asset = coin;
  value = 30;
  return = false;
  reward = 10;
  swap_in = 0;
  asset_out = replicate 32 0;
  swap_out = 0;
  swap_expiry = pos 0;
  destination = abroad;
}

abbrev minted : Writes
minted = (MintAsset.execute store minting alice issued).1

abbrev lent_out : Writes
lent_out = (ExportAsset.execute store writer sending alice tx minted).1

sending_accepted : is_ok (ExportAsset.execute store writer sending alice tx minted).0 ≡ true
unfolding ExportAsset.execute ExportAsset.execute_loan MintAsset.execute ◌>>=◌ require add_balance
    sub_balance inner_get_balance add_loan get_loan inner_get_loan balance_key asset_key loan_key
    get_asset inner_get_asset decode_asset encode_asset set_asset be64 be16 of_be64 of_be16 bytes_eq
    slice slice_from index copy_into marshal size pack_swap
sending_accepted = refl

-- The message comes back: 20 of the coins, and 5 to Bob, who brings it.
abbrev back : WarpTransfer
back = record {
  to = alice;
  symbol = 84 ∷ [];
  decimals = 9;
  asset = coin;
  value = 20;
  return = true;
  reward = 5;
  swap_in = 3;
  asset_out = coin;
  swap_out = 2;
  swap_expiry = pos 0;
  tx_id = tx;
  destination_chain_id = replicate 32 4;
}

abbrev pub receiving : ImportAsset
receiving = record { fill = true; warp_transfer = back; source_chain_id = abroad }

receiving_accepted :
    is_ok (ImportAsset.execute store (replicate 32 4) (pos 1) true receiving bob lent_out).0 ≡ true
unfolding ExportAsset.execute ExportAsset.execute_loan MintAsset.execute ◌>>=◌ require add_balance
    sub_balance inner_get_balance add_loan get_loan inner_get_loan balance_key asset_key loan_key
    get_asset inner_get_asset decode_asset encode_asset set_asset be64 be16 of_be64 of_be16 bytes_eq
    slice slice_from index copy_into marshal size pack_swap ImportAsset.execute
    ImportAsset.execute_return ImportAsset.execute_fill ImportAsset.execute_swap known asset_in
    sub_loan
receiving_accepted = refl

abbrev holders : List Bytes
holders = alice ∷ bob ∷ []

abbrev chains : List Bytes
chains = abroad ∷ []

Once-abroad : Once 32 abroad chains
Once-abroad = (refl, inl (refl, tt))

issued-IsReadable : IsReadable store coin issued
issued-IsReadable = subst (Readable 33) (sym issued_stored) token_fits

nothing_lent : lent store coin chains issued ≡ 0
unfolding get_loan inner_get_loan loan_key asset_key balance_key encode_asset be64 be16 bytes_eq
nothing_lent = refl

issued-Balanced : Balanced (sums store coin holders chains issued)
issued-Balanced = record {
  exact = omega (arith, ap recorded issued_stored, issued_exact, nothing_lent);
}

-- The three actions, one after the other.
history :
    Runs store writer coin holders chains issued
      (ImportAsset.execute store (replicate 32 4) (pos 1) true receiving bob lent_out).1
history =
    then_run (imports (replicate 32 4) (pos 1) true receiving) bob
      {r = (is_ok_value receiving_accepted).0}
      (then_run (exports sending tx) alice {r = (is_ok_value sending_accepted).0}
        (then_run (mints minting) alice {r = receipt 5} none_yet (refl, Once-alice) (refl, Once-bob)
          minting_accepted)
        (refl, Once-alice) (refl, Once-abroad) (is_ok_value sending_accepted).1)
      (refl, Once-bob) ((refl, Once-alice), Once-abroad, refl, omega arith)
      (is_ok_value receiving_accepted).1

Runs-balance_example : Balanced (
    sums store coin holders chains
      (ImportAsset.execute store (replicate 32 4) (pos 1) true receiving bob lent_out).1)
Runs-balance_example =
    Runs-balance store writer store-IsLawful coin holders chains history issued-IsReadable
      issued-Balanced

run-Step_example :
    let t = (run store writer (mints minting) alice issued).1 in
    Step (sums store coin holders chains issued) (sums store coin holders chains t)
    × IsReadable store coin t
run-Step_example =
    run-Step store writer store-IsLawful coin holders chains {r = receipt 5} (mints minting) alice
      issued refl Once-alice (refl, Once-bob) issued-IsReadable minting_accepted

other_untouched : NotIn store (balance_key bob coin) (ExportAsset.state_keys sending alice)
unfolding ExportAsset.state_keys balance_key asset_key loan_key
other_untouched = (λ e. cc, (λ e. cc, (λ e. cc, tt)))

export_frame_example :
    store.get_value
      (ExportAsset.execute store writer sending alice tx minted).1
      (balance_key bob coin)
    ≡ store.get_value minted (balance_key bob coin)
export_frame_example =
    export_frame store writer sending alice tx store-IsLawful minted (balance_key bob coin)
      other_untouched

abbrev elsewhere : Bytes
elsewhere = asset_key (replicate 32 6)

elsewhere_untouched : NotIn store elsewhere (ImportAsset.state_keys store receiving bob)
unfolding ImportAsset.state_keys asset_in balance_key asset_key loan_key
elsewhere_untouched =
    (λ e. cc, (λ e. cc, (λ e. cc, (λ e. cc, (λ e. cc, (λ e. cc, (λ e. cc, tt)))))))

import_frame_example :
    store.get_value
      (ImportAsset.execute store (replicate 32 4) (pos 1) true receiving bob lent_out).1
      elsewhere
    ≡ store.get_value lent_out elsewhere
import_frame_example =
    import_frame store receiving bob store-IsLawful (replicate 32 4) (pos 1) true lent_out elsewhere
      elsewhere_untouched
