-- ===== src/Genesis.antt =====
-- Load of genesis/genesis.go: the balances of the allocation, and the native asset. Parsing a bech32
-- address (codec.ParseAddressBech32) and the check of the branch factor (merkledb) are parameters.
pub mod Supply
use nuklaivm.Prelude.{ℕ, Result, M, List, [], ◌∷◌, pure, lift, ◌>>=◌, ◌>>◌, false, replicate}
use nuklaivm.Bytes.{Bytes}
use nuklaivm.Sdk.{Sdk, Error}
use nuklaivm.Storage.Balance.{set_balance}
use nuklaivm.Storage.Asset.{Asset, set_asset}

pub record CustomAllocation : Type 0 where
  pub address : Bytes
  pub balance : ℕ

-- consts.Symbol, consts.Decimals and consts.Name, in ASCII
abbrev pub native_symbol : Bytes
native_symbol = 78 ∷ 65 ∷ 73 ∷ []

abbrev pub native_decimals : ℕ
native_decimals = 9

abbrev pub native_name : Bytes
native_name = 110 ∷ 117 ∷ 107 ∷ 108 ∷ 97 ∷ 105 ∷ 118 ∷ 109 ∷ []

module _ {S : Type 0} (sdk : Sdk S) where
  open sdk use {address_len}

  -- The native asset: ids.Empty, owned by codec.EmptyAddress.
  abbrev pub native_asset : ℕ → Asset
  native_asset supply = record {
    symbol = native_symbol;
    decimals = native_decimals;
    metadata = native_name;
    supply = supply;
    owner = replicate address_len 0;
    warp = false;
  }

module _ {S : Type 0} (sdk : Sdk S) (parse : Bytes → Result Error Bytes) where
  open sdk use {id_len, add64}

  -- The loop over the allocation, with the supply so far.
  unfoldable pub load_allocation : List CustomAllocation → ℕ → M S Error ℕ
  load_allocation [] supply = pure supply
  load_allocation (alloc ∷ rest) supply = do
    addr ← lift (parse alloc.address)
    next ← lift (add64 supply alloc.balance)
    set_balance sdk addr (replicate id_len 0) alloc.balance
    load_allocation rest next

  unfoldable pub load : Result Error (Unit {0}) → List CustomAllocation → M S Error (Unit {0})
  unfolding load_allocation
  load valid allocation = do
    lift valid
    supply ← load_allocation allocation 0
    set_asset sdk (replicate id_len 0) (native_asset sdk supply)
