-- ===== src/Actions/Accounts/Refinement.antt =====
-- Every sequence of actions that succeed is a sequence of steps on the books.
use nuklaivm.Prelude.{◌≡◌, ok, List, length}
use nuklaivm.Bytes.{Bytes}
use nuklaivm.Sdk.{Sdk, IsLawful}
use nuklaivm.Codec.{Writer}
use nuklaivm.Storage.Ledger.{Once}
use nuklaivm.Storage.Books.Supplies.{IsReadable}
use nuklaivm.Storage.Books.Steps.{Step, Steps, no_step, then_step, Balanced, Steps-Balanced, sums}
use nuklaivm.Actions.Receipt.{Receipt}
use nuklaivm.Actions.Accounts.{
  Operation, transfers, mints, burns, exports, imports, run, Parties, Runs, none_yet, then_run,
}
use nuklaivm.Actions.Accounts.Issues.{transfer-Step, mint-Step, burn-Step}
use nuklaivm.Actions.ExportAsset.Booked.{export-Step}
use nuklaivm.Actions.ImportAsset.Booked.{import-Step}

module _ {S W O : Type 0} (sdk : Sdk S) (writer : Writer W O) (laws : IsLawful sdk) (x : Bytes)
    (holders chains : List Bytes) where
  open sdk use {address_len}

  -- An action that succeeds between listed parties is one step of the books of every asset.
  pub run-Step :
      {r : Receipt} (op : Operation) (actor : Bytes) (s : S)
      → length actor ≡ address_len
      → Once address_len actor holders
      → Parties sdk writer x holders chains op
      → IsReadable sdk x s
      → (run sdk writer op actor s).0 ≡ ok r
      → let t = (run sdk writer op actor s).1 in
        Step (sums sdk x holders chains s) (sums sdk x holders chains t) × IsReadable sdk x t
  run-Step (transfers t) actor s w o p read h =
      transfer-Step sdk laws x holders chains actor w o t s p.0 p.1 read h
  run-Step (mints m) actor s w o p read h =
      mint-Step sdk laws x holders chains actor w o m s p.0 p.1 read h
  run-Step (burns b) actor s w o p read h = burn-Step sdk laws x holders chains actor w o b s read h
  run-Step (exports e tx_id) actor s w o (width, listed) read h =
      export-Step sdk writer laws e actor tx_id x s holders chains (length x) w width o listed read
        h
  run-Step (imports chain_id t verified i) actor s w o (to, listed, width, room) read h =
      import-Step sdk laws chain_id t verified i actor x s holders chains (length x) w o to.0 to.1
        listed width room read h

  Runs-path :
      {s t : S}
      → Runs sdk writer x holders chains s t
      → IsReadable sdk x s
      → Steps (sums sdk x holders chains s) (sums sdk x holders chains t) × IsReadable sdk x t
  Runs-path none_yet read = (no_step, read)
  Runs-path (then_run {t} op actor runs holds parties h) read =
      let (path, readable) = Runs-path runs read in
      let (step, fine) = run-Step op actor t holds.0 holds.1 parties readable h in
      (then_step path step, fine)

  -- Whatever transfers, mints, burns, exports and imports succeed between listed parties, in any
  -- order: an asset whose recorded supply is what its holders own and what is on loan together
  -- still is so.
  pub Runs-balance :
      {s t : S}
      → Runs sdk writer x holders chains s t
      → IsReadable sdk x s
      → Balanced (sums sdk x holders chains s)
      → Balanced (sums sdk x holders chains t)
  Runs-balance runs read balanced = Steps-Balanced (Runs-path runs read).0 balanced
