-- ===== src/Actions/Accounts/Issues.antt =====
-- A transfer, a mint and a burn as steps on the books of any asset.
use nuklaivm.Prelude.{◌+◌, ◌-◌, ◌≡◌, refl, sym, ap, subst, ◌∙◌, ok, List, arith, length}
use nuklaivm.Bytes.{Bytes}
use nuklaivm.Sdk.{Sdk, IsLawful}
use nuklaivm.Storage.Keys.{asset_key}
use nuklaivm.Storage.Keys.Separate.{asset_key-ne-balance_key}
use nuklaivm.Storage.Asset.RoundTrip.{FitsAsset}
use nuklaivm.Storage.Ledger.{Once}
use nuklaivm.Storage.Books.{nothing, credits, debits, weight, Moves}
use nuklaivm.Storage.Books.Rules.{
  Moves-bind, Moves-pure, Moves-lift, Moves-gets, Moves-raise_if, Moves-or_fail, Moves-as,
}
use nuklaivm.Storage.Books.Writes.{
  AllWide-Once, Moves-sub_balance, Moves-add_balance, Moves-set_asset, for_asset, weight_self,
  weight_other, asset_key-ne_other,
}
use nuklaivm.Storage.Books.Supplies.{
  supply_of, recorded, IsReadable, supply_of_same, supply_of_stored, Readable_stored,
}
use nuklaivm.Storage.Books.Steps.{Step, sums, Step-moved, Step-issued, Step-retired}
use nuklaivm.Actions.Receipt.{Receipt, Moves-require}
use nuklaivm.Actions.Transfer.{Transfer}
use nuklaivm.Actions.Transfer.Effects.{transfer_frame}
use nuklaivm.Actions.MintAsset.{MintAsset}
use nuklaivm.Actions.MintAsset.Effects.{mint_frame, mint_supply, mint_steps}
use nuklaivm.Actions.BurnAsset.{BurnAsset}
use nuklaivm.Actions.BurnAsset.Effects.{burn_frame, burn_supply, burn_stored}
use nuklaivm.Actions.Transfer
use nuklaivm.Actions.MintAsset
use nuklaivm.Actions.BurnAsset

module _ {S : Type 0} (sdk : Sdk S) (laws : IsLawful sdk) (x : Bytes) (holders chains : List Bytes)
    (actor : Bytes) (width : length actor ≡ sdk.address_len)
    (once : Once sdk.address_len actor holders) where
  open sdk use {address_len}

  transfer-Moves :
      (t : Transfer)
      → length t.to ≡ address_len
      → Once address_len t.to holders
      → Moves sdk x holders chains nothing (Transfer.execute sdk t actor)
  unfolding Transfer.execute
  transfer-Moves t wt ot = Moves-as (omega arith) (omega arith) (
      Moves-bind (Moves-raise_if _ _) (λ _. Moves-bind (Moves-raise_if _ _) (λ _.
        Moves-bind
          (Moves-or_fail _
            (Moves-sub_balance sdk laws x holders chains actor t.value width once t.asset))
          (λ _.
            Moves-bind
              (Moves-or_fail _
                (Moves-add_balance sdk laws x holders chains t.to t.value wt ot t.asset))
              (λ _. Moves-pure _)))))

  -- A transfer that succeeds between listed holders leaves the books of every asset.
  pub transfer-Step :
      {r : Receipt} (t : Transfer) (s : S)
      → length t.to ≡ address_len
      → Once address_len t.to holders
      → IsReadable sdk x s
      → (Transfer.execute sdk t actor s).0 ≡ ok r
      → let u = (Transfer.execute sdk t actor s).1 in
        Step (sums sdk x holders chains s) (sums sdk x holders chains u) × IsReadable sdk x u
  unfolding Transfer.state_keys
  transfer-Step t s wt ot read h =
      let (same, fine) =
        supply_of_same sdk x laws s (Transfer.execute sdk t actor s).1
          (transfer_frame sdk t actor laws s (asset_key x) (
            asset_key-ne-balance_key actor t.asset x,
            (asset_key-ne-balance_key t.to t.asset x, tt),
          ))
          read in
      (Step-moved sdk x holders chains (transfer-Moves t wt ot) h same refl refl, fine)

  mint-Moves :
      (m : MintAsset)
      → length m.to ≡ address_len
      → Once address_len m.to holders
      → Moves sdk x holders chains
          (credits (weight x m.asset m.value))
          (MintAsset.execute sdk m actor)
  unfolding MintAsset.execute
  mint-Moves m wt ot = Moves-as (omega arith) (omega arith) (
      Moves-bind (Moves-raise_if _ _) (λ _. Moves-bind (Moves-raise_if _ _) (λ _.
        Moves-bind (Moves-or_fail _ (Moves-gets _)) (λ found.
          Moves-bind (Moves-require _ found) (λ a. Moves-bind (Moves-raise_if _ _) (λ _.
            Moves-bind (Moves-raise_if _ _) (λ _. Moves-bind (Moves-or_fail _ (Moves-lift _)) (λ n.
              Moves-bind
                (Moves-or_fail _ (
                  Moves-set_asset sdk laws x holders chains
                    (AllWide-Once address_len actor holders once) _ _))
                (λ _.
                  Moves-bind
                    (Moves-or_fail _
                      (Moves-add_balance sdk laws x holders chains m.to m.value wt ot m.asset))
                    (λ _. Moves-pure _))))))))))

  burn-Moves :
      (b : BurnAsset)
      → Moves sdk x holders chains
          (debits (weight x b.asset b.value))
          (BurnAsset.execute sdk b actor)
  unfolding BurnAsset.execute
  burn-Moves b = Moves-as (omega arith) (omega arith) (
      Moves-bind (Moves-raise_if _ _) (λ _.
        Moves-bind
          (Moves-or_fail _
            (Moves-sub_balance sdk laws x holders chains actor b.value width once b.asset))
          (λ _. Moves-bind (Moves-or_fail _ (Moves-gets _)) (λ found.
            Moves-bind (Moves-require _ found) (λ a.
              Moves-bind (Moves-or_fail _ (Moves-lift _)) (λ n.
                Moves-bind
                  (Moves-or_fail _ (
                    Moves-set_asset sdk laws x holders chains
                      (AllWide-Once address_len actor holders once) _ _))
                  (λ _. Moves-pure _)))))))

  mint_supply_of :
      {r : Receipt} (m : MintAsset) (s : S)
      → IsReadable sdk x s
      → (MintAsset.execute sdk m actor s).0 ≡ ok r
      → let u = (MintAsset.execute sdk m actor s).1 in
        (supply_of sdk x u ≡ supply_of sdk x s + weight x m.asset m.value) × IsReadable sdk x u
  unfolding MintAsset.state_keys
  mint_supply_of m s read h =
      let u = (MintAsset.execute sdk m actor s).1 in
      for_asset sdk laws x
        (λ y.
          y ≡ m.asset
          → (supply_of sdk x u ≡ supply_of sdk x s + weight x y m.value) × IsReadable sdk x u)
        (λ q.
          (let (a, n, got, _, _, _, _, _, _) = mint_steps sdk m actor laws s h in
            let fits =
              Readable_stored sdk m.asset laws s got (subst (λ y. IsReadable sdk y s) q read) in
            let (_, _, _, room, stored, _) = mint_supply sdk m actor laws s a got fits h in
            let fits_now : FitsAsset address_len (record a { supply = a.supply + m.value }) =
              record { offsets = fits.offsets; supply = room; owner = fits.owner } in
            let (now, fine) = supply_of_stored sdk m.asset laws u fits_now stored in
            (
              omega (
                arith,
                now,
                ap recorded got,
                weight_self sdk laws x m.value,
                ap (λ y. supply_of sdk y u) q,
                ap (λ y. supply_of sdk y s) q,
              ),
              subst (λ y. IsReadable sdk y u) (sym q) fine,
            )))
        (λ y ne q.
          (let (same, fine) =
              supply_of_same sdk x laws s u
                (mint_frame sdk m actor laws s (asset_key x) (
                  asset_key-ne_other x m.asset (λ f. ne (q ∙ sym f)),
                  (asset_key-ne-balance_key m.to m.asset x, tt),
                ))
                read in
            (omega (arith, same, weight_other sdk laws x y m.value ne), fine)))
        m.asset refl

  -- A mint that succeeds to a listed holder issues its value, or leaves the books of this asset.
  pub mint-Step :
      {r : Receipt} (m : MintAsset) (s : S)
      → length m.to ≡ address_len
      → Once address_len m.to holders
      → IsReadable sdk x s
      → (MintAsset.execute sdk m actor s).0 ≡ ok r
      → let u = (MintAsset.execute sdk m actor s).1 in
        Step (sums sdk x holders chains s) (sums sdk x holders chains u) × IsReadable sdk x u
  mint-Step m s wt ot read h =
      let (more, fine) = mint_supply_of m s read h in
      (
        Step-issued sdk x holders chains (mint-Moves m wt ot) h (weight x m.asset m.value) more
            (omega arith) refl,
        fine,
      )

  burn_supply_of :
      {r : Receipt} (b : BurnAsset) (s : S)
      → IsReadable sdk x s
      → (BurnAsset.execute sdk b actor s).0 ≡ ok r
      → let u = (BurnAsset.execute sdk b actor s).1 in
        (supply_of sdk x u + weight x b.asset b.value ≡ supply_of sdk x s) × IsReadable sdk x u
  unfolding BurnAsset.state_keys
  burn_supply_of b s read h =
      let u = (BurnAsset.execute sdk b actor s).1 in
      for_asset sdk laws x
        (λ y.
          y ≡ b.asset
          → (supply_of sdk x u + weight x y b.value ≡ supply_of sdk x s) × IsReadable sdk x u)
        (λ q.
          (let (a, got) = burn_stored sdk b actor laws s h in
            let fits =
              Readable_stored sdk b.asset laws s got (subst (λ y. IsReadable sdk y s) q read) in
            let (covered, stored, _) = burn_supply sdk b actor laws s a got fits h in
            let fits_now : FitsAsset address_len (record a { supply = a.supply - b.value }) =
              record {
                offsets = fits.offsets;
                supply = omega (arith, fits.supply);
                owner = fits.owner;
              } in
            let (now, fine) = supply_of_stored sdk b.asset laws u fits_now stored in
            (
              omega (
                arith,
                now,
                covered,
                ap recorded got,
                weight_self sdk laws x b.value,
                ap (λ y. supply_of sdk y u) q,
                ap (λ y. supply_of sdk y s) q,
              ),
              subst (λ y. IsReadable sdk y u) (sym q) fine,
            )))
        (λ y ne q.
          (let (same, fine) =
              supply_of_same sdk x laws s u
                (burn_frame sdk b actor laws s (asset_key x) (
                  asset_key-ne_other x b.asset (λ f. ne (q ∙ sym f)),
                  (asset_key-ne-balance_key actor b.asset x, tt),
                ))
                read in
            (omega (arith, same, weight_other sdk laws x y b.value ne), fine)))
        b.asset refl

  -- A burn that succeeds for a listed holder retires its value, or leaves the books of this asset.
  pub burn-Step :
      {r : Receipt} (b : BurnAsset) (s : S)
      → IsReadable sdk x s
      → (BurnAsset.execute sdk b actor s).0 ≡ ok r
      → let u = (BurnAsset.execute sdk b actor s).1 in
        Step (sums sdk x holders chains s) (sums sdk x holders chains u) × IsReadable sdk x u
  burn-Step b s read h =
      let (less, fine) = burn_supply_of b s read h in
      (
        Step-retired sdk x holders chains (burn-Moves b) h (weight x b.asset b.value) less
            (omega arith) refl,
        fine,
      )
