-- ===== src/Storage/Asset.antt =====
-- Assets: storage/storage.go, `GetAsset` to `DeleteAsset`, with the layout of the stored value,
-- symbolLen|symbol|decimals|metadataLen|metadata|supply|owner|warp.
pub mod RoundTrip
use nuklaivm.Prelude.{
  ℕ, ◌+◌, ◌%◌, ◌^◌, Bool, Option, none, some, [], ◌∷◌, ◌++◌, Result, ok, err, panic, M, ◌==◌,
  if◌then◌else◌, length,
}
use nuklaivm.Prelude.Decode.{◌>>=◌}
use nuklaivm.Bytes.{Bytes, be16, be64, of_be16, of_be64}
use nuklaivm.Bytes.Slices.{slice, slice_from, index, copy_into}
use nuklaivm.Sdk.{Sdk, Error}
use nuklaivm.Storage.Keys.{asset_key}

-- What is stored of an asset: the results of `GetAsset` behind `exists`.
pub record Asset : Type 0 where
  pub symbol : Bytes
  pub decimals : ℕ
  pub metadata : Bytes
  pub supply : ℕ
  pub owner : Bytes
  pub warp : Bool

abbrev pub warp_byte : Bool → ℕ
warp_byte warp = if warp then 0x1 else 0x0

-- The value that SetAsset writes; the lengths are cut to a uint16 by `be16`.
unfoldable pub encode_asset : Asset → Bytes
encode_asset a =
    be16 (length a.symbol)
    ++ (a.symbol
        ++ (a.decimals
            ∷ (be16 (length a.metadata)
                ++ (a.metadata ++ (be64 a.supply ++ (a.owner ++ (warp_byte a.warp ∷ [])))))))

-- Offsets are sums of uint16, and wrap.
abbrev pub u16 : ℕ → ℕ
u16 n = n % 2 ^ 16

unfoldable pub decode_asset : ℕ → Bytes → Result Error Asset
decode_asset address_len v = do
  symbol_len ← of_be16 v
  symbol ← slice 2 (u16 (2 + symbol_len)) v
  decimals ← index (u16 (2 + symbol_len)) v
  at_metadata_len ← slice_from (u16 (2 + symbol_len + 1)) v
  metadata_len ← of_be16 at_metadata_len
  metadata ← slice (u16 (2 + symbol_len + 1 + 2)) (u16 (2 + symbol_len + 1 + 2 + metadata_len)) v
  at_supply ← slice_from (u16 (2 + symbol_len + 1 + 2 + metadata_len)) v
  supply ← of_be64 at_supply
  at_owner ← slice_from (u16 (2 + symbol_len + 1 + 2 + metadata_len + 8)) v
  warp ← index (u16 (2 + symbol_len + 1 + 2 + metadata_len + 8 + address_len)) v
  ok (record {
    symbol = symbol;
    decimals = decimals;
    metadata = metadata;
    supply = supply;
    owner = copy_into address_len at_owner;
    warp = warp == 0x1;
  })

-- innerGetAsset: `none` is `exists == false` with zero values.
unfoldable pub inner_get_asset : ℕ → Result Error Bytes → Result Error (Option Asset)
inner_get_asset address_len (err Error.not_found) = ok none
inner_get_asset address_len (err e) = err e
inner_get_asset address_len panic = panic
inner_get_asset address_len (ok v) = do a ← decode_asset address_len v; ok (some a)

module _ {S : Type 0} (sdk : Sdk S) where
  open sdk use {address_len, get_value, insert, remove}

  unfoldable pub get_asset : Bytes → S → Result Error (Option Asset)
  get_asset asset s = inner_get_asset address_len (get_value s (asset_key asset))

  unfoldable pub set_asset : Bytes → Asset → M S Error (Unit {0})
  set_asset asset a = insert (asset_key asset) (encode_asset a)

  unfoldable pub delete_asset : Bytes → M S Error (Unit {0})
  delete_asset asset = remove (asset_key asset)
