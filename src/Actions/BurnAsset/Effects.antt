-- ===== src/Actions/BurnAsset/Effects.antt =====
-- What a burn destroys, and what it leaves alone.
use nuklaivm.Prelude.{
  ℕ, ◌-◌, ◌≤◌, ◌≡◌, sym, ap, subst, ◌∙◌, ok, pure, arith, length, Option, some, guard_ok, call_ok,
  query_ok, compute_ok, Keeps, Result, List,
}
use nuklaivm.Bytes.{Bytes}
use nuklaivm.Sdk.{Sdk, IsLawful, Error}
use nuklaivm.Sdk.Arithmetic.{sub_ok}
use nuklaivm.Storage.Keys.{balance_key, asset_key}
use nuklaivm.Storage.Keys.Separate.{balance_key-ne-asset_key, asset_key-ne-balance_key}
use nuklaivm.Storage.Writes.{Writes, NotIn, Same-Writes, Same-refl}
use nuklaivm.Storage.Asset.{Asset, get_asset, set_asset}
use nuklaivm.Storage.Asset.RoundTrip.{
  FitsAsset, get_asset-set_asset, set_asset_frame, get_asset_of_same,
}
use nuklaivm.Storage.Balance.{get_balance, sub_balance}
use nuklaivm.Storage.Balance.Effects.{sub_balance_ok, sub_balance_frame, get_balance_of_same}
use nuklaivm.Storage.Ledger.{total, Once, total-sub_balance, total_of_same}
use nuklaivm.Storage.Backing.{Backed}
use nuklaivm.Actions.Receipt.{Receipt, action_rules, require_ok}
use nuklaivm.Actions.BurnAsset.{BurnAsset, execute, state_keys}

asset_inj :
    {a b : Asset} → ◌≡◌ {A = Result Error (Option Asset)} (ok (some a)) (ok (some b)) → a ≡ b
asset_inj h = cc

module _ {S : Type 0} (sdk : Sdk S) (b : BurnAsset) (actor : Bytes) where
  open sdk use {address_len}

  Keeps-burn :
      {P : S → Type 0}
      → Writes sdk P (asset_key b.asset)
      → Writes sdk P (balance_key actor b.asset)
      → Keeps P (execute sdk b actor)
  unfolding execute
  Keeps-burn asset from = search action_rules depth 12

  module _ (laws : IsLawful sdk) (s : S) where
    -- A burn writes no key but the two that it declares, however it ends.
    pub burn_frame :
        (j : Bytes)
        → NotIn sdk j (state_keys b actor)
        → sdk.get_value (execute sdk b actor s).1 j ≡ sdk.get_value s j
    unfolding state_keys
    burn_frame j ne =
        ((Keeps-burn (Same-Writes sdk laws s j (asset_key b.asset) ne.0)
            (Same-Writes sdk laws s j (balance_key actor b.asset) ne.1.0)).after
          s (Same-refl sdk s j)).same

    -- What a successful burn has checked, and the two writes that it made.
    pub burn_steps :
        {r : Receipt}
        → (execute sdk b actor s).0 ≡ ok r
        → let (debited, s1) = sub_balance sdk actor b.asset b.value s in
          (a : Asset) × (n : ℕ) × (get_asset sdk b.asset s1 ≡ ok (some a))
          × (n ≡ a.supply - b.value)
          × (b.value ≤ a.supply)
          × (debited ≡ ok tt)
          × (let (stored, s2) = set_asset sdk b.asset (record a { supply = n }) s1 in
              (stored ≡ ok tt) × ((execute sdk b actor s).1 ≡ s2))
    unfolding execute pure
    burn_steps h =
        let (nonzero, r1, h1) = guard_ok _ _ _ s h in
        let (_, debited, r2, h2) = call_ok _ _ _ s h1 in
        let (found, got, r3, h3) = query_ok _ _ _ _ h2 in
        let (a, present, r4, h4) = require_ok _ found _ _ h3 in
        let (n, summed, r5, h5) = compute_ok _ _ _ _ h4 in
        let (_, stored, r6, h6) = call_ok _ _ _ _ h5 in
        let (exact, covered) = sub_ok sdk laws a.supply b.value summed in
        (
          a,
          n,
          got ∙ ap ok present,
          exact,
          covered,
          debited,
          (stored, ap (λ p. p.1) (r1 ∙ r2 ∙ r3 ∙ r4 ∙ r5 ∙ r6)),
        )

    -- The asset that a successful burn has found.
    pub burn_stored :
        {r : Receipt}
        → (execute sdk b actor s).0 ≡ ok r
        → (a : Asset) × (get_asset sdk b.asset s ≡ ok (some a))
    burn_stored h =
        let (a, n, got, _, _, _, _) = burn_steps h in
        let s1 : S = (sub_balance sdk actor b.asset b.value s).1 in
        (
          a,
          sym (
                get_asset_of_same sdk laws b.asset s s1 (
                  sub_balance_frame sdk laws actor b.asset b.value s (asset_key b.asset)
                    (asset_key-ne-balance_key actor b.asset b.asset)))
              ∙ got,
        )

    -- A burn that succeeds takes the value, which was covered, from the actor's balance and from
    -- the supply, and changes nothing else of the asset.
    pub burn_supply :
        {r : Receipt} (a : Asset)
        → get_asset sdk b.asset s ≡ ok (some a)
        → FitsAsset address_len a
        → (execute sdk b actor s).0 ≡ ok r
        → let s' = (execute sdk b actor s).1 in
          (b.value ≤ a.supply)
          × (get_asset sdk b.asset s' ≡ ok (some (record a { supply = a.supply - b.value })))
          × ((c : ℕ) × (get_balance sdk actor b.asset s ≡ ok c)
              × (b.value ≤ c)
              × (get_balance sdk actor b.asset s' ≡ ok (c - b.value)))
    burn_supply a found fits h =
        let (a1, n, got, exact, covered, debited, (stored, end)) = burn_steps h in
        let s1 : S = (sub_balance sdk actor b.asset b.value s).1 in
        let s2 : S = (set_asset sdk b.asset (record a1 { supply = n }) s1).1 in
        let untouched = get_asset_of_same sdk laws b.asset s s1 (
          sub_balance_frame sdk laws actor b.asset b.value s (asset_key b.asset)
            (asset_key-ne-balance_key actor b.asset b.asset)) in
        let same = asset_inj (sym got ∙ untouched ∙ found) in
        let f1 : FitsAsset address_len a1 = subst (FitsAsset address_len) (sym same) fits in
        let fits_burnt : FitsAsset address_len (record a1 { supply = n }) = record {
          offsets = f1.offsets;
          supply = omega (arith, exact, f1.supply);
          owner = f1.owner;
        } in
        let burnt_eq : record a1 { supply = n } ≡ record a { supply = a.supply - b.value } =
          ap (λ (k : ℕ). record a1 { supply = k }) exact
          ∙ ap (λ (x : Asset). record x { supply = x.supply - b.value }) same in
        let (c, held, enough, left) = sub_balance_ok sdk laws actor b.asset b.value s debited in
        (
          omega (arith, covered, ap (λ (x : Asset). x.supply) same),
          ap (get_asset sdk b.asset) end
              ∙ get_asset-set_asset sdk laws b.asset (record a1 { supply = n }) s1 fits_burnt stored
              ∙ ap (λ (x : Asset). ok (some x)) burnt_eq,
          (
            c,
            held,
            enough,
            ap (get_balance sdk actor b.asset) end
                ∙ get_balance_of_same sdk actor b.asset s1 s2 (
                    set_asset_frame sdk laws b.asset (record a1 { supply = n }) s1
                      (balance_key actor b.asset) (balance_key-ne-asset_key actor b.asset b.asset))
                ∙ left,
          ),
        )

    -- A burn that succeeds by a listed holder keeps the supply equal to what the holders own
    -- together.
    pub burn-Backed :
        {r : Receipt} (holders : List Bytes)
        → length actor ≡ address_len
        → Once address_len actor holders
        → Backed sdk b.asset holders s
        → (execute sdk b actor s).0 ≡ ok r
        → Backed sdk b.asset holders (execute sdk b actor s).1
    burn-Backed holders width once backed h =
        let (a1, n, got, exact, covered, debited, (stored, end)) = burn_steps h in
        let s1 : S = (sub_balance sdk actor b.asset b.value s).1 in
        let s2 : S = (set_asset sdk b.asset (record a1 { supply = n }) s1).1 in
        let (enough, read, _) = burn_supply backed.asset backed.stored backed.fits h in
        let shrunk =
          total-sub_balance sdk b.asset laws address_len actor b.value s width holders once
            debited in
        let kept = total_of_same sdk b.asset holders s1 s2 (λ j.
          set_asset_frame sdk laws b.asset (record a1 { supply = n }) s1 (balance_key j b.asset)
            (balance_key-ne-asset_key j b.asset b.asset)) in
        record {
          asset = record (backed.asset) { supply = backed.asset.supply - b.value };
          stored = read;
          fits = record {
            offsets = backed.fits.offsets;
            supply = omega (arith, backed.fits.supply);
            owner = backed.fits.owner;
          };
          exact =
              omega (arith, backed.exact, enough, kept, shrunk, ap (total sdk b.asset holders) end);
        }
