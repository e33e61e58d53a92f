-- ===== src/Actions/CreateAsset/Effects.antt =====
-- What an accepted CreateAsset stores, and when it is accepted.
use nuklaivm.Prelude.{
  ◌≤◌, ◌<◌, ◌^◌, ◌≡◌, ap, ◌∙◌, ok, pure, false, arith, length, ◌==◌, ltb, some, guard_ok, call_ok,
  Keeps, List,
}
use nuklaivm.Bytes.{Bytes}
use nuklaivm.Sdk.{Sdk, IsLawful}
use nuklaivm.Storage.Keys.{balance_key, asset_key}
use nuklaivm.Storage.Keys.Separate.{balance_key-ne-asset_key}
use nuklaivm.Storage.Writes.{Writes, NotIn, Same-Writes, Same-refl}
use nuklaivm.Storage.Asset.{Asset, get_asset, set_asset}
use nuklaivm.Storage.Asset.RoundTrip.{FitsAsset, get_asset-set_asset, set_asset_frame}
use nuklaivm.Storage.Ledger.{total, total_of_same}
use nuklaivm.Storage.Backing.{Backed}
use nuklaivm.Actions.Receipt.{Receipt, action_rules}
use nuklaivm.Actions.CreateAsset.{
  CreateAsset, created, execute, state_keys, max_symbol_size, max_metadata_size, max_decimals,
}

module _ {S : Type 0} (sdk : Sdk S) (c : CreateAsset) (actor tx_id : Bytes) where
  open sdk use {address_len}

  Keeps-create :
      {P : S → Type 0} → Writes sdk P (asset_key tx_id) → Keeps P (execute sdk c actor tx_id)
  unfolding execute
  Keeps-create asset = search action_rules depth 12

  module _ (laws : IsLawful sdk) (s : S) where
    -- It writes no key but the one that it declares, however it ends.
    pub create_frame :
        (j : Bytes)
        → NotIn sdk j (state_keys tx_id)
        → sdk.get_value (execute sdk c actor tx_id s).1 j ≡ sdk.get_value s j
    unfolding state_keys
    create_frame j ne =
        ((Keeps-create (Same-Writes sdk laws s j (asset_key tx_id) ne.0)).after s
          (Same-refl sdk s j)).same

    create_steps :
        {r : Receipt}
        → (execute sdk c actor tx_id s).0 ≡ ok r
        → ((length c.symbol == 0) ≡ false)
          × (ltb max_symbol_size (length c.symbol) ≡ false)
          × (ltb max_decimals c.decimals ≡ false)
          × ((length c.metadata == 0) ≡ false)
          × (ltb max_metadata_size (length c.metadata) ≡ false)
          × ((set_asset sdk tx_id (created c actor) s).0 ≡ ok tt)
          × ((execute sdk c actor tx_id s).1 ≡ (set_asset sdk tx_id (created c actor) s).1)
    unfolding execute pure
    create_steps h =
        let (g1, r1, h1) = guard_ok _ _ _ s h in
        let (g2, r2, h2) = guard_ok _ _ _ s h1 in
        let (g3, r3, h3) = guard_ok _ _ _ s h2 in
        let (g4, r4, h4) = guard_ok _ _ _ s h3 in
        let (g5, r5, h5) = guard_ok _ _ _ s h4 in
        let (_, stored, r6, h6) = call_ok _ _ _ s h5 in
        (g1, g2, g3, g4, g5, stored, ap (λ p. p.1) (r1 ∙ r2 ∙ r3 ∙ r4 ∙ r5 ∙ r6))

    abbrev new_asset : Asset
    new_asset = record {
      symbol = c.symbol;
      decimals = c.decimals;
      metadata = c.metadata;
      supply = 0;
      owner = actor;
      warp = false;
    }

    -- A creation that succeeds, by an actor whose address has the width of addresses, met the
    -- limits: a symbol of 1 to 8 bytes, metadata of 1 to 256 bytes, at most 9 decimals. They keep
    -- every offset of the stored value inside a uint16 (addresses are shorter than 2 ^ 15), and the
    -- asset is read back with its symbol, decimals and metadata, supply 0, the actor as its owner,
    -- and not as one that came by a warp message.
    pub create_stored :
        {r : Receipt}
        → length actor ≡ address_len
        → address_len < 2 ^ 15
        → (execute sdk c actor tx_id s).0 ≡ ok r
        → (0 < length c.symbol)
          × (length c.symbol ≤ 8)
          × (c.decimals ≤ 9)
          × (0 < length c.metadata)
          × (length c.metadata ≤ 256)
          × FitsAsset address_len new_asset
          × (get_asset sdk tx_id (execute sdk c actor tx_id s).1 ≡ ok (some new_asset))
    create_stored width small h =
        let (g1, g2, g3, g4, g5, stored, end) = create_steps h in
        let fits : FitsAsset address_len new_asset = record {
          offsets = ground arith;
          supply = omega arith;
          owner = width;
        } in
        (
          ground arith,
          ground arith,
          ground arith,
          ground arith,
          ground arith,
          fits,
          ap (get_asset sdk tx_id) end
              ∙ get_asset-set_asset sdk laws tx_id (created c actor) s fits stored,
        )

    -- A new asset that nobody holds yet is backed from the start.
    pub create-Backed :
        {r : Receipt} (holders : List Bytes)
        → length actor ≡ address_len
        → address_len < 2 ^ 15
        → total sdk tx_id holders s ≡ 0
        → (execute sdk c actor tx_id s).0 ≡ ok r
        → Backed sdk tx_id holders (execute sdk c actor tx_id s).1
    create-Backed holders width small none_held h =
        let (_, _, _, _, _, stored, end) = create_steps h in
        let (_, _, _, _, _, fits, read) = create_stored width small h in
        let kept =
          total_of_same sdk tx_id holders s (set_asset sdk tx_id (created c actor) s).1 (λ j.
            set_asset_frame sdk laws tx_id (created c actor) s (balance_key j tx_id)
              (balance_key-ne-asset_key j tx_id tx_id)) in
        record {
          asset = new_asset;
          stored = read;
          fits = fits;
          exact = omega (arith, none_held, kept, ap (total sdk tx_id holders) end);
        }
