-- ===== src/Storage/Backing.antt =====
-- An asset whose recorded supply is exactly what its holders own together.
use nuklaivm.Prelude.{◌≡◌, ok, some, List}
use nuklaivm.Bytes.{Bytes}
use nuklaivm.Sdk.{Sdk}
use nuklaivm.Storage.Asset.{Asset, get_asset}
use nuklaivm.Storage.Asset.RoundTrip.{FitsAsset}
use nuklaivm.Storage.Ledger.{total}

pub record Backed {S : Type 0} (sdk : Sdk S) (id : Bytes) (holders : List Bytes) (s : S)
    : Type 0 where
  pub asset : Asset
  pub stored : get_asset sdk id s ≡ ok (some asset)
  pub fits : FitsAsset sdk.address_len asset
  pub exact : asset.supply ≡ total sdk id holders s
