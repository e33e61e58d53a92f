-- ===== src/Actions/ImportAsset/Minted.antt =====
-- The supply that an import of a foreign asset creates.
use nuklaivm.Prelude.{
  ℕ, ◌+◌, ◌<◌, ◌^◌, ◌≡◌, refl, sym, ap, subst, ◌∙◌, Bool, true, false, not, ok, Option, some, none,
  Result, M, arith, length, length-append, length-replicate, if◌then◌else◌, guard_ok, call_ok,
  query_ok, compute_ok, step_ok, replicate, pure, raise, Keeps-bind, Keeps-pure, err≢ok,
}
use nuklaivm.Prelude.Int.{ℤ}
use nuklaivm.Bytes.{Bytes}
use nuklaivm.Sdk.{Sdk, IsLawful}
use nuklaivm.Sdk.Arithmetic.{add64_ok}
use nuklaivm.Storage.Keys.{balance_key, asset_key}
use nuklaivm.Storage.Keys.Separate.{asset_key-ne-balance_key}
use nuklaivm.Storage.Writes.{Writes, Same, Same-Writes, call_kept}
use nuklaivm.Storage.Asset.{Asset}
use nuklaivm.Storage.Asset.RoundTrip.{FitsAsset, get_asset-set_asset}
use nuklaivm.Storage.Books.Supplies.{
  supply_of, recorded, Readable, IsReadable, supply_of_same, supply_of_stored,
}
use nuklaivm.Actions.Receipt.{Receipt, Output, action_rules}
use nuklaivm.Actions.WarpTransfer.{WarpTransfer, imported_asset_id, imported_asset_metadata}
use nuklaivm.Actions.ImportAsset.{ImportAsset, import_into, execute_mint, execute_return, execute}
use nuklaivm.Actions.ImportAsset.Supply.{Keeps-fill_balances}

asset_inj : {E : Type 0} {a b : Asset} → ◌≡◌ {A = Result E Asset} (ok a) (ok b) → a ≡ b
asset_inj h = cc

unless_conflict :
    {S : Type 0} (warp : Bool) (o : Output) (a b : Asset) (s : S)
    → ((if not warp then raise o else pure b) s).0 ≡ ok a
    → (((if not warp then raise o else pure b) s).1 ≡ s) × (b ≡ a)
unfolding raise pure
unless_conflict true o a b s h = (refl, asset_inj h)
unless_conflict false o a b s h = absurd (err≢ok h)

module _ {S : Type 0} (sdk : Sdk S) (w : WarpTransfer) (source : Bytes)
    (room : 2 + length w.symbol + 1 + 2 + (length w.asset + length source) + 8 + sdk.address_len
      < 2 ^ 16) where
  open sdk use {address_len, get_value}

  -- What the import adds to: the entry that is there, or a fresh one.
  into_ok :
      (found : Option Asset) (s : S) {a : Asset}
      → Readable address_len (ok found)
      → (import_into sdk w source found s).0 ≡ ok a
      → ((import_into sdk w source found s).1 ≡ s)
        × (a.supply ≡ recorded (ok found))
        × (2 + length a.symbol + 1 + 2 + length a.metadata + 8 + address_len < 2 ^ 16)
  unfolding import_into pure raise imported_asset_metadata
  into_ok none s read h =
      let e = asset_inj h in
      (
        refl,
        ap (λ (x : Asset). x.supply) (sym e),
        subst
            (λ (x : Asset).
              2 + length x.symbol + 1 + 2 + length x.metadata + 8 + address_len < 2 ^ 16)
            e (omega (arith, room, length-append w.asset source)),
      )
  into_ok (some b) s {a} read h =
      let (same, e) = unless_conflict b.warp Output.output_conflicting_asset a b s h in
      (
        same,
        ap (λ (x : Asset). x.supply) (sym e),
        subst
            (λ (x : Asset).
              2 + length x.symbol + 1 + 2 + length x.metadata + 8 + address_len < 2 ^ 16)
            e read.offsets,
      )

  module _ (laws : IsLawful sdk) (actor : Bytes) (s : S) where
    abbrev foreign : Bytes
    foreign = imported_asset_id sdk w.asset source

    abbrev grown : Asset → ℕ → Asset
    grown a n = record a { supply = n; owner = replicate address_len 0; warp = true }

    -- What a successful mint adds to the supply.
    mint_supply :
        {r : Unit {0}}
        → (execute_mint sdk w source actor s).0 ≡ ok r
        → IsReadable sdk foreign s
        → let t = (execute_mint sdk w source actor s).1 in
          (supply_of sdk foreign t ≡ supply_of sdk foreign s + (w.value + w.reward))
          × IsReadable sdk foreign t
    unfolding execute_mint
    mint_supply h read =
        let (found, got, r1, h1) = query_ok _ _ _ s h in
        let (a, made, r2, h2) = step_ok _ _ s h1 in
        let (still, before, offsets) =
          into_ok found s (subst (Readable address_len) got read) made in
        let (k, first, r3, h3) = compute_ok _ _ _ _ h2 in
        let (n, second, r4, h4) = compute_ok _ _ _ _ h3 in
        let (_, stored, r5, h5) = call_ok _ _ _ _ h4 in
        let (sum1, _) = add64_ok sdk laws a.supply w.value first in
        let (sum2, fits) = add64_ok sdk laws k w.reward second in
        let fits_grown : FitsAsset address_len (grown a n) = record {
          offsets = offsets;
          supply = fits;
          owner = length-replicate address_len 0;
        } in
        let (now, fine) =
          supply_of_stored sdk foreign laws _ fits_grown
            (get_asset-set_asset sdk laws foreign (grown a n) _ fits_grown stored) in
        let kept = call_kept sdk _ _ _ _ (asset_key foreign) h4 (λ t _.
          (let balance : (b : Bytes)
                → Writes sdk (Same sdk t (asset_key foreign)) (balance_key b foreign) =
              λ b.
                Same-Writes sdk laws t (asset_key foreign) (balance_key b foreign)
                  (asset_key-ne-balance_key b foreign foreign) in
            search action_rules depth 20)) in
        let (after, readable) =
          supply_of_same sdk foreign laws _ _
            (ap (λ p. get_value p.1 (asset_key foreign)) (r1 ∙ r2 ∙ r3 ∙ r4) ∙ kept) fine in
        (omega (arith, after, now, sum1, sum2, before, ap recorded got), readable)

module _ {S : Type 0} (sdk : Sdk S) (laws : IsLawful sdk) (i : ImportAsset) (actor : Bytes)
    (chain_id : Bytes) (t : ℤ) (verified : Bool) (s : S) where
  open sdk use {address_len, get_value}

  abbrev w : WarpTransfer
  w = i.warp_transfer

  abbrev import_id : Bytes
  import_id = imported_asset_id sdk w.asset i.source_chain_id

  -- A successful import of a foreign asset has created the value and the reward.
  pub import_mint_supply :
      {r : Receipt}
      → 2 + length w.symbol + 1 + 2 + (length w.asset + length i.source_chain_id) + 8 + address_len
        < 2 ^ 16
      → w.return ≡ false
      → (execute sdk chain_id t verified i actor s).0 ≡ ok r
      → IsReadable sdk import_id s
      → let u = (execute sdk chain_id t verified i actor s).1 in
        (supply_of sdk import_id u ≡ supply_of sdk import_id s + (w.value + w.reward))
        × IsReadable sdk import_id u
  unfolding execute
  import_mint_supply room b h read =
      let (_, r1, h1) = guard_ok _ _ _ s h in
      let (_, r2, h2) = guard_ok _ _ _ s h1 in
      let (_, r3, h3) = guard_ok _ _ _ s h2 in
      let (_, done, r4, h4) = call_ok _ _ _ _ h3 in
      let m : Bool → M S Output (Unit {0}) = λ c.
        if c
        then execute_return sdk w i.source_chain_id actor
        else execute_mint sdk w i.source_chain_id actor in
      let minted : m w.return s ≡ execute_mint sdk w i.source_chain_id actor s =
        ap (λ c. m c s) b in
      let kept = call_kept sdk _ _ _ _ (asset_key import_id) h3 (λ u _.
        Keeps-bind _ _
          (Keeps-fill_balances sdk i actor
            (λ b y.
              Same-Writes sdk laws u (asset_key import_id) (balance_key b y)
                (asset_key-ne-balance_key b y import_id))
            t)
          (λ _. Keeps-pure _)) in
      let (more, fine) =
        mint_supply sdk w i.source_chain_id room laws actor s (sym (ap (λ p. p.0) minted) ∙ done)
          read in
      let (after, readable) =
        supply_of_same sdk import_id laws _ _
          (ap (λ p. get_value p.1 (asset_key import_id)) (r1 ∙ r2 ∙ r3)
            ∙ kept
            ∙ ap (λ p. get_value p.1 (asset_key import_id)) minted)
          fine in
      (omega (arith, after, more), readable)
