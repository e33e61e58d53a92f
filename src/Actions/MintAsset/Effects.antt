-- ===== src/Actions/MintAsset/Effects.antt =====
-- What a mint creates, who may do it, and what it leaves alone.
use nuklaivm.Prelude.{
  ℕ, ◌+◌, ◌<◌, ◌^◌, ◌≡◌, ◌≢◌, sym, ap, subst, ◌∙◌, ok, pure, true, false, arith, length, Option,
  some, guard_ok, call_ok, query_ok, compute_ok, not-false, Keeps, Result, List, replicate,
}
use nuklaivm.Bytes.{Bytes, bytes_eq, bytes_eq-eq, bytes_eq_refl}
use nuklaivm.Sdk.{Sdk, IsLawful, Error}
use nuklaivm.Sdk.Arithmetic.{add64_ok}
use nuklaivm.Storage.Keys.{balance_key, asset_key}
use nuklaivm.Storage.Keys.Separate.{balance_key-ne-asset_key, asset_key-ne-balance_key}
use nuklaivm.Storage.Writes.{Writes, NotIn, Same-Writes, Same-refl}
use nuklaivm.Storage.Asset.{Asset, get_asset, set_asset}
use nuklaivm.Storage.Asset.RoundTrip.{
  FitsAsset, get_asset-set_asset, set_asset_frame, get_asset_of_same,
}
use nuklaivm.Storage.Balance.{get_balance, add_balance}
use nuklaivm.Storage.Balance.Effects.{add_balance_ok, add_balance_frame, get_balance_of_same}
use nuklaivm.Storage.Ledger.{total, Once, total-add_balance, total_of_same}
use nuklaivm.Storage.Backing.{Backed}
use nuklaivm.Actions.Receipt.{Receipt, action_rules, require_ok}
use nuklaivm.Actions.MintAsset.{MintAsset, execute, state_keys}
use mathlib.Core.Bool.{false≢true}

asset_inj :
    {a b : Asset} → ◌≡◌ {A = Result Error (Option Asset)} (ok (some a)) (ok (some b)) → a ≡ b
asset_inj h = cc

module _ {S : Type 0} (sdk : Sdk S) (m : MintAsset) (actor : Bytes) where
  open sdk use {address_len, id_len}

  Keeps-mint :
      {P : S → Type 0}
      → Writes sdk P (asset_key m.asset)
      → Writes sdk P (balance_key m.to m.asset)
      → Keeps P (execute sdk m actor)
  unfolding execute
  Keeps-mint asset to = search action_rules depth 14

  module _ (laws : IsLawful sdk) (s : S) where
    -- A mint writes no key but the two that it declares, however it ends.
    pub mint_frame :
        (j : Bytes)
        → NotIn sdk j (state_keys m)
        → sdk.get_value (execute sdk m actor s).1 j ≡ sdk.get_value s j
    unfolding state_keys
    mint_frame j ne =
        ((Keeps-mint (Same-Writes sdk laws s j (asset_key m.asset) ne.0)
            (Same-Writes sdk laws s j (balance_key m.to m.asset) ne.1.0)).after
          s (Same-refl sdk s j)).same

    abbrev minted : Asset → ℕ → Asset
    minted a n = record a { supply = n; owner = actor }

    -- What a successful mint has checked, and the two writes that it made.
    pub mint_steps :
        {r : Receipt}
        → (execute sdk m actor s).0 ≡ ok r
        → (a : Asset) × (n : ℕ) × (get_asset sdk m.asset s ≡ ok (some a))
          × (bytes_eq m.asset (replicate id_len 0) ≡ false)
          × (a.warp ≡ false)
          × (a.owner ≡ actor)
          × (n ≡ a.supply + m.value)
          × (n < 2 ^ 64)
          × (let (stored, s1) = set_asset sdk m.asset (minted a n) s in
              let (credited, s2) = add_balance sdk m.to m.asset m.value true s1 in
              (stored ≡ ok tt) × (credited ≡ ok tt) × ((execute sdk m actor s).1 ≡ s2))
    unfolding execute pure
    mint_steps h =
        let (foreign, r1, h1) = guard_ok _ _ _ s h in
        let (nonzero, r2, h2) = guard_ok _ _ _ s h1 in
        let (found, got, r3, h3) = query_ok _ _ _ s h2 in
        let (a, present, r4, h4) = require_ok _ found _ s h3 in
        let (local, r5, h5) = guard_ok _ _ _ s h4 in
        let (owned, r6, h6) = guard_ok _ _ _ s h5 in
        let (n, summed, r7, h7) = compute_ok _ _ _ s h6 in
        let (_, stored, r8, h8) = call_ok _ _ _ s h7 in
        let (_, credited, r9, h9) = call_ok _ _ _ _ h8 in
        let (exact, fits) = add64_ok sdk laws a.supply m.value summed in
        (
          a,
          n,
          got ∙ ap ok present,
          foreign,
          local,
          bytes_eq-eq a.owner actor (not-false (bytes_eq a.owner actor) owned),
          exact,
          fits,
          (stored, credited, ap (λ p. p.1) (r1 ∙ r2 ∙ r3 ∙ r4 ∙ r5 ∙ r6 ∙ r7 ∙ r8 ∙ r9)),
        )

    -- Only the owner mints, and only an asset that is not native and not imported. A mint that
    -- succeeds adds the value to the supply, which fits a uint64, and to the recipient's balance,
    -- and changes nothing else of the asset.
    pub mint_supply :
        {r : Receipt} (a : Asset)
        → get_asset sdk m.asset s ≡ ok (some a)
        → FitsAsset address_len a
        → (execute sdk m actor s).0 ≡ ok r
        → let s' = (execute sdk m actor s).1 in
          (a.owner ≡ actor)
          × (a.warp ≡ false)
          × (m.asset ≢ replicate id_len 0)
          × (a.supply + m.value < 2 ^ 64)
          × (get_asset sdk m.asset s' ≡ ok (some (record a { supply = a.supply + m.value })))
          × ((c : ℕ) × (get_balance sdk m.to m.asset s ≡ ok c)
              × (get_balance sdk m.to m.asset s' ≡ ok (c + m.value)))
    mint_supply a found fits h =
        let (b, n, got, foreign, local, owned, exact, small, (stored, credited, end)) =
          mint_steps h in
        let same = asset_inj (sym got ∙ found) in
        let fb : FitsAsset address_len b = subst (FitsAsset address_len) (sym same) fits in
        let fits_minted : FitsAsset address_len (minted b n) = record {
          offsets = fb.offsets;
          supply = small;
          owner = ap length (sym owned) ∙ fb.owner;
        } in
        let minted_eq : minted b n ≡ record a { supply = a.supply + m.value } =
          ap (λ (k : ℕ). minted b k) exact
          ∙ ap (λ (o : Bytes). record b { supply = b.supply + m.value; owner = o }) (sym owned)
          ∙ ap (λ (x : Asset). record x { supply = x.supply + m.value }) same in
        let s1 : S = (set_asset sdk m.asset (minted b n) s).1 in
        let s2 : S = (add_balance sdk m.to m.asset m.value true s1).1 in
        let (c, held, room, after) = add_balance_ok sdk laws m.to m.asset m.value s1 credited in
        (
          ap (λ x. x.owner) (sym same) ∙ owned,
          ap (λ x. x.warp) (sym same) ∙ local,
          λ e. false≢true (sym foreign ∙ ap (bytes_eq m.asset) (sym e) ∙ bytes_eq_refl m.asset),
          omega (arith, ap (λ (x : Asset). x.supply) same),
          ap (get_asset sdk m.asset) end
              ∙ get_asset_of_same sdk laws m.asset s1 s2 (
                  add_balance_frame sdk laws m.to m.asset m.value true s1 (asset_key m.asset)
                    (asset_key-ne-balance_key m.to m.asset m.asset))
              ∙ get_asset-set_asset sdk laws m.asset (minted b n) s fits_minted stored
              ∙ ap (λ (x : Asset). ok (some x)) minted_eq,
          (
            c,
            sym (
                  get_balance_of_same sdk m.to m.asset s s1 (
                    set_asset_frame sdk laws m.asset (minted b n) s (balance_key m.to m.asset)
                      (balance_key-ne-asset_key m.to m.asset m.asset)))
                ∙ held,
            ap (get_balance sdk m.to m.asset) end ∙ after,
          ),
        )

    -- A mint that succeeds to a listed holder keeps the supply equal to what the holders own
    -- together.
    pub mint-Backed :
        {r : Receipt} (holders : List Bytes)
        → length m.to ≡ address_len
        → Once address_len m.to holders
        → Backed sdk m.asset holders s
        → (execute sdk m actor s).0 ≡ ok r
        → Backed sdk m.asset holders (execute sdk m actor s).1
    mint-Backed holders width once backed h =
        let (b, n, got, foreign, local, owned, exact, small, (stored, credited, end)) =
          mint_steps h in
        let s1 : S = (set_asset sdk m.asset (minted b n) s).1 in
        let (_, _, _, room, read, _) = mint_supply backed.asset backed.stored backed.fits h in
        let grown =
          total-add_balance sdk m.asset laws address_len m.to m.value s1 width holders once
            credited in
        let kept = total_of_same sdk m.asset holders s s1 (λ j.
          set_asset_frame sdk laws m.asset (minted b n) s (balance_key j m.asset)
            (balance_key-ne-asset_key j m.asset m.asset)) in
        record {
          asset = record (backed.asset) { supply = backed.asset.supply + m.value };
          stored = read;
          fits = record { offsets = backed.fits.offsets; supply = room; owner = backed.fits.owner };
          exact = omega (arith, backed.exact, kept, grown, ap (total sdk m.asset holders) end);
        }
