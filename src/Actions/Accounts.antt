-- ===== src/Actions/Accounts.antt =====
-- The actions that move, issue or retire an asset that exists, together: transfer.go,
-- mint_asset.go, burn_asset.go, export_asset.go and import_asset.go, run one after the other.
pub mod Issues
pub mod Refinement
use nuklaivm.Prelude.{ℕ, ◌+◌, ◌<◌, ◌^◌, ◌≡◌, Bool, ok, List, M, length}
use nuklaivm.Prelude.Int.{ℤ}
use nuklaivm.Bytes.{Bytes}
use nuklaivm.Sdk.{Sdk}
use nuklaivm.Codec.{Writer}
use nuklaivm.Storage.Ledger.{Once}
use nuklaivm.Actions.Receipt.{Rejection, Receipt}
use nuklaivm.Actions.Transfer.{Transfer}
use nuklaivm.Actions.MintAsset.{MintAsset}
use nuklaivm.Actions.BurnAsset.{BurnAsset}
use nuklaivm.Actions.ExportAsset.{ExportAsset}
use nuklaivm.Actions.ImportAsset.{ImportAsset}
use nuklaivm.Actions.Transfer
use nuklaivm.Actions.MintAsset
use nuklaivm.Actions.BurnAsset
use nuklaivm.Actions.ExportAsset
use nuklaivm.Actions.ImportAsset

-- An action, with what Execute is given beside the state and the actor.
pub data Operation : Type 0 where
  transfers : Transfer → Operation
  mints : MintAsset → Operation
  burns : BurnAsset → Operation
  -- the ID of the transaction
  exports : ExportAsset → Bytes → Operation
  -- the chain's ID, the block's time, and whether the message was verified
  imports : Bytes → ℤ → Bool → ImportAsset → Operation

module _ {S W O : Type 0} (sdk : Sdk S) (writer : Writer W O) where
  open sdk use {address_len}

  abbrev pub run : Operation → Bytes → M S Rejection Receipt
  run (transfers t) actor = Transfer.execute sdk t actor
  run (mints m) actor = MintAsset.execute sdk m actor
  run (burns b) actor = BurnAsset.execute sdk b actor
  run (exports e tx_id) actor = ExportAsset.execute sdk writer e actor tx_id
  run (imports chain_id t verified i) actor = ImportAsset.execute sdk chain_id t verified i actor

  -- Every account and every chain of an action is in the lists, and the widths are those of the
  -- arrays that the code has in their place; `x` is an asset's ID.
  module _ (x : Bytes) (holders chains : List Bytes) where
    abbrev Holds : Bytes → Type 0
    Holds a = (length a ≡ address_len) × Once address_len a holders

    abbrev pub Parties : Operation → Type 0
    Parties (transfers t) = Holds t.to
    Parties (mints m) = Holds m.to
    Parties (burns b) = Unit
    Parties (exports e tx_id) = (length e.asset ≡ length x) × Once (length x) e.destination chains
    Parties (imports chain_id t verified i) =
        let w = i.warp_transfer in
        Holds w.to
        × Once (length x) i.source_chain_id chains
        × (length w.asset ≡ length x)
        × (2
              + length w.symbol
              + 1
              + 2
              + (length w.asset + length i.source_chain_id)
              + 8
              + address_len
            < 2 ^ 16)

    -- Actions that succeed, one after the other, from one state to another.
    pub data Runs (s : S) : S → Type 0 where
      none_yet : Runs s s
      then_run :
          {t : S} (op : Operation) (actor : Bytes) {r : Receipt}
          → Runs s t
          → Holds actor
          → Parties op
          → (run op actor t).0 ≡ ok r
          → Runs s (run op actor t).1
