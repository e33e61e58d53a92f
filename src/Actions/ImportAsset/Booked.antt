-- ===== src/Actions/ImportAsset/Booked.antt =====
-- An import as a step on the books of any asset.
use nuklaivm.Prelude.{
  ℕ, ◌+◌, ◌<◌, ◌^◌, ◌≡◌, refl, sym, ap, subst, ◌∙◌, Bool, false, ok, Bool-cases, inl, inr, List,
  arith, length, if◌then◌else◌,
}
use nuklaivm.Prelude.Int.{ℤ}
use nuklaivm.Bytes.{Bytes}
use nuklaivm.Sdk.{Sdk, IsLawful}
use nuklaivm.Storage.Ledger.{Once}
use nuklaivm.Storage.Books.{credits, returned, weight, Moves}
use nuklaivm.Storage.Books.Writes.{for_asset, weight_self, weight_other}
use nuklaivm.Storage.Books.Supplies.{supply_of, IsReadable, supply_of_same}
use nuklaivm.Storage.Books.Steps.{Step, sums, Step-issued, Step-came_back}
use mathlib.Core.Bool.{false≢true}
use nuklaivm.Actions.Receipt.{Receipt}
use nuklaivm.Actions.WarpTransfer.{WarpTransfer, imported_asset_id}
use nuklaivm.Actions.ImportAsset.{ImportAsset, execute}
use nuklaivm.Actions.ImportAsset.Effects.{import-Moves}
use nuklaivm.Actions.ImportAsset.Supply.{import_entry_frame}
use nuklaivm.Actions.ImportAsset.Minted.{import_mint_supply}

module _ {S : Type 0} (sdk : Sdk S) (laws : IsLawful sdk) (chain_id : Bytes) (t : ℤ)
    (verified : Bool) (i : ImportAsset) (actor x : Bytes) (s : S) where
  open sdk use {address_len}

  abbrev w : WarpTransfer
  w = i.warp_transfer

  abbrev import_id : Bytes
  import_id = imported_asset_id sdk w.asset i.source_chain_id

  abbrev bought : Bytes → ℕ
  bought y = weight x y (w.value + w.reward)

  abbrev after : S
  after = (execute sdk chain_id t verified i actor s).1

  -- An import that creates this asset raises its supply; any other leaves its entry alone.
  mint_supply_of :
      {r : Receipt}
      → 2 + length w.symbol + 1 + 2 + (length w.asset + length i.source_chain_id) + 8 + address_len
        < 2 ^ 16
      → (execute sdk chain_id t verified i actor s).0 ≡ ok r
      → IsReadable sdk x s
      → w.return ≡ false
      → (supply_of sdk x after ≡ supply_of sdk x s + bought import_id) × IsReadable sdk x after
  mint_supply_of room h read b =
      for_asset sdk laws x
        (λ y.
          y ≡ import_id
          → (supply_of sdk x after ≡ supply_of sdk x s + bought y) × IsReadable sdk x after)
        (λ q.
          (let (more, fine) =
              import_mint_supply sdk laws i actor chain_id t verified s room b h
                (subst (λ y. IsReadable sdk y s) q read) in
            (
              omega (
                arith,
                more,
                weight_self sdk laws x (w.value + w.reward),
                ap (λ y. supply_of sdk y after) q,
                ap (λ y. supply_of sdk y s) q,
              ),
              subst (λ y. IsReadable sdk y after) (sym q) fine,
            )))
        (λ y ne q.
          (let (same, fine) =
              supply_of_same sdk x laws s after
                (import_entry_frame sdk i actor laws chain_id t verified s x
                  (λ _ f. ne (q ∙ sym f)))
                read in
            (omega (arith, same, weight_other sdk laws x y (w.value + w.reward) ne), fine)))
        import_id refl

  -- An import that succeeds for a listed actor and recipient, from a listed chain, is a step on
  -- the books of every asset: one of a foreign asset issues its value and reward, and one that
  -- returns an asset moves them from what is lent to what is held. A swap changes neither sum.
  pub import-Step :
      {r : Receipt} (holders chains : List Bytes) (n : ℕ)
      → length actor ≡ address_len
      → Once address_len actor holders
      → length w.to ≡ address_len
      → Once address_len w.to holders
      → Once n i.source_chain_id chains
      → length w.asset ≡ length x
      → 2 + length w.symbol + 1 + 2 + (length w.asset + length i.source_chain_id) + 8 + address_len
        < 2 ^ 16
      → IsReadable sdk x s
      → (execute sdk chain_id t verified i actor s).0 ≡ ok r
      → let u = (execute sdk chain_id t verified i actor s).1 in
        Step (sums sdk x holders chains s) (sums sdk x holders chains u) × IsReadable sdk x u
  import-Step holders chains n wa oa wt ot listed asset_width room read h =
      let run = execute sdk chain_id t verified i actor in
      let moves =
        import-Moves sdk laws i actor x holders chains wa oa wt ot chain_id t verified n listed
          asset_width in
      let P : Bool → Type 0 = λ c.
        Moves sdk x holders chains
          (if c then returned (bought w.asset) else credits (bought import_id)) run in
      elim (Bool-cases w.return) [
        | inl b ↦
            (let (same, fine) =
                supply_of_same sdk x laws s after
                  (import_entry_frame sdk i actor laws chain_id t verified s x
                    (λ c. absurd (false≢true (sym c ∙ b))))
                  read in
              (
                Step-came_back sdk x holders chains (subst P b moves) h (bought w.asset) same
                    (omega arith) (omega arith),
                fine,
              ))
        | inr b ↦
            (let (more, fine) = mint_supply_of room h read b in
              (
                Step-issued sdk x holders chains (subst P b moves) h (bought import_id) more
                    (omega arith) refl,
                fine,
              ))
      ]
