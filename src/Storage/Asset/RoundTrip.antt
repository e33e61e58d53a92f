-- ===== src/Storage/Asset/RoundTrip.antt =====
-- What SetAsset stores, GetAsset reads back.
use nuklaivm.Prelude.{
  ℕ, ◌+◌, ◌^◌, ◌<◌, ◌≡◌, ◌≢◌, refl, ap, ◌∙◌, Bool, true, false, none, some, [], ◌∷◌, ◌++◌, ok,
  arith, ◌==◌, length,
}
use nuklaivm.Prelude.Decode.{◌>>=◌}
use nuklaivm.Bytes.{Bytes, be16, be64, of_be16-be16, of_be64-be64, length-be16, length-be64}
use nuklaivm.Bytes.Slices.{
  At, At-start, At-step, slice-At, slice_from-At, index-At, copy_into-append,
}
use nuklaivm.Sdk.{Sdk, Error, IsLawful}
use nuklaivm.Storage.Keys.{asset_key}
use nuklaivm.Storage.Asset.{
  Asset, warp_byte, encode_asset, u16, decode_asset, inner_get_asset, get_asset, set_asset,
  delete_asset,
}

-- An asset whose value has offsets that fit a uint16.
pub record FitsAsset (address_len : ℕ) (a : Asset) : Type 0 where
  pub offsets : 2 + length a.symbol + 1 + 2 + length a.metadata + 8 + address_len < 2 ^ 16
  pub supply : a.supply < 2 ^ 64
  pub owner : length a.owner ≡ address_len

warp_byte_read : (w : Bool) → (warp_byte w == 0x1) ≡ w
warp_byte_read true = refl
warp_byte_read false = refl

module _ (address_len : ℕ) (a : Asset) (fits : FitsAsset address_len a) where
  u16_fits : (k : ℕ) → k < 2 ^ 16 → u16 k ≡ k
  u16_fits k h = omega arith

  decode-encode_asset : decode_asset address_len (encode_asset a) ≡ ok a
  unfolding decode_asset encode_asset
  decode-encode_asset =
      let w7 : Bytes = warp_byte a.warp ∷ [] in
      let w6 : Bytes = a.owner ++ w7 in
      let w5 : Bytes = be64 a.supply ++ w6 in
      let w4 : Bytes = a.metadata ++ w5 in
      let w3 : Bytes = be16 (length a.metadata) ++ w4 in
      let w2 : Bytes = a.decimals ∷ w3 in
      let w1 : Bytes = a.symbol ++ w2 in
      let v : Bytes = be16 (length a.symbol) ++ w1 in
      let n : ℕ = length a.symbol in
      let m : ℕ = length a.metadata in
      let a1 : At 2 w1 v = At-step 0 2 (be16 n) w1 v (At-start v) (length-be16 n) in
      let a2 : At (2 + n) w2 v = At-step 2 n a.symbol w2 v a1 refl in
      let a3 : At (2 + n + 1) w3 v = At-step (2 + n) 1 (a.decimals ∷ []) w3 v a2 refl in
      let a4 : At (2 + n + 1 + 2) w4 v = At-step (2 + n + 1) 2 (be16 m) w4 v a3 (length-be16 m) in
      let a5 : At (2 + n + 1 + 2 + m) w5 v = At-step (2 + n + 1 + 2) m a.metadata w5 v a4 refl in
      let a6 : At (2 + n + 1 + 2 + m + 8) w6 v =
        At-step (2 + n + 1 + 2 + m) 8 (be64 a.supply) w6 v a5 (length-be64 a.supply) in
      let a7 : At (2 + n + 1 + 2 + m + 8 + address_len) w7 v =
        At-step (2 + n + 1 + 2 + m + 8) address_len a.owner w7 v a6 fits.owner in
      let room = fits.offsets in
      rw
        (
          of_be16-be16 {E = Error} n w1 (omega arith),
          u16_fits (2 + n) (omega arith),
          slice-At {E = Error} 2 (2 + n) a.symbol w2 v a1 refl,
          index-At {E = Error} (2 + n) a.decimals w3 v a2,
          u16_fits (2 + n + 1) (omega arith),
          slice_from-At {E = Error} (2 + n + 1) w3 v a3,
          of_be16-be16 {E = Error} m w4 (omega arith),
          u16_fits (2 + n + 1 + 2) (omega arith),
          u16_fits (2 + n + 1 + 2 + m) (omega arith),
          slice-At {E = Error} (2 + n + 1 + 2) (2 + n + 1 + 2 + m) a.metadata w5 v a4 refl,
          slice_from-At {E = Error} (2 + n + 1 + 2 + m) w5 v a5,
          of_be64-be64 {E = Error} a.supply w6 fits.supply,
          u16_fits (2 + n + 1 + 2 + m + 8) (omega arith),
          slice_from-At {E = Error} (2 + n + 1 + 2 + m + 8) w6 v a6,
          u16_fits (2 + n + 1 + 2 + m + 8 + address_len) (omega arith),
          index-At {E = Error} (2 + n + 1 + 2 + m + 8 + address_len) (warp_byte a.warp) [] v a7,
          copy_into-append address_len a.owner w7 fits.owner,
          warp_byte_read a.warp,
        )
        refl

module _ {S : Type 0} (sdk : Sdk S) (laws : IsLawful sdk) where
  open sdk use {address_len, get_value}

  -- An asset that SetAsset has stored is read back whole by GetAsset, if it fits the layout: its
  -- offsets a uint16, its supply a uint64, its owner the width of addresses.
  pub get_asset-set_asset :
      (id : Bytes) (a : Asset) (s : S)
      → FitsAsset address_len a
      → (set_asset sdk id a s).0 ≡ ok tt
      → get_asset sdk id (set_asset sdk id a s).1 ≡ ok (some a)
  unfolding get_asset set_asset inner_get_asset
  get_asset-set_asset id a s fits h =
      ap (inner_get_asset address_len) (laws.get-insert (asset_key id) (encode_asset a) s h)
      ∙ ap (λ r. r >>= λ b. ok (some b)) (decode-encode_asset address_len a fits)

  pub set_asset_frame :
      (id : Bytes) (a : Asset) (s : S) (j : Bytes)
      → j ≢ asset_key id
      → get_value (set_asset sdk id a s).1 j ≡ get_value s j
  unfolding set_asset
  set_asset_frame id a s j ne = laws.get-insert_ne (asset_key id) (encode_asset a) j s ne

  -- What is under the asset's key decides the asset.
  pub get_asset_of_same :
      (id : Bytes) (s t : S)
      → get_value t (asset_key id) ≡ get_value s (asset_key id)
      → get_asset sdk id t ≡ get_asset sdk id s
  unfolding get_asset
  get_asset_of_same id s t e = ap (inner_get_asset address_len) e

  pub get_asset-delete_asset :
      (id : Bytes) (s : S)
      → (delete_asset sdk id s).0 ≡ ok tt
      → get_asset sdk id (delete_asset sdk id s).1 ≡ ok none
  unfolding get_asset delete_asset inner_get_asset
  get_asset-delete_asset id s h =
      ap (inner_get_asset address_len) (laws.get-remove (asset_key id) s h)

  pub delete_asset_frame :
      (id : Bytes) (s : S) (j : Bytes)
      → j ≢ asset_key id
      → get_value (delete_asset sdk id s).1 j ≡ get_value s j
  unfolding delete_asset
  delete_asset_frame id s j ne = laws.get-remove_ne (asset_key id) j s ne
