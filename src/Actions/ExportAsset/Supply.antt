-- ===== src/Actions/ExportAsset/Supply.antt =====
-- What an export writes, and what it does to the supply of an asset.
use nuklaivm.Prelude.{
  ℕ, ◌+◌, ◌≡◌, ◌≢◌, sym, ap, subst, ◌∙◌, true, false, ok, some, Result, Bool-cases, inl, inr, arith,
  if◌then◌else◌, Keeps, Keeps-bind, Keeps-raise_if, Keeps-choose, guard_ok, call_ok, query_ok,
  compute_ok, length-replicate, lift_ok, not-false, ltb, replicate,
}
use nuklaivm.Bytes.{Bytes}
use nuklaivm.Sdk.{Sdk, IsLawful}
use nuklaivm.Sdk.Arithmetic.{sub_ok}
use nuklaivm.Codec.{Writer}
use nuklaivm.Storage.Keys.{balance_key, asset_key, loan_key}
use nuklaivm.Storage.Keys.Separate.{asset_key-ne-balance_key, asset_key-ne-loan_key}
use nuklaivm.Storage.Writes.{Writes, NotIn, Same, Same-Writes, Same-refl, call_kept}
use nuklaivm.Storage.Asset.{Asset, get_asset, set_asset, delete_asset}
use nuklaivm.Storage.Asset.RoundTrip.{FitsAsset}
use nuklaivm.Storage.Books.Writes.{asset_key-ne_other}
use nuklaivm.Storage.Books.Supplies.{
  supply_of, recorded, IsReadable, supply_of_same, supply_of_kept, Readable_stored,
}
use mathlib.Core.Bool.{false≢true}
use nuklaivm.Actions.Receipt.{Receipt, Rejection, action_rules, require_ok}
use nuklaivm.Actions.ExportAsset.{ExportAsset, state_keys, execute_return, execute_loan, execute}

module _ {S W O : Type 0} (sdk : Sdk S) (writer : Writer W O) (e : ExportAsset)
    (actor tx_id : Bytes) where
  open sdk use {address_len, id_len, get_value}

  module _ {P : S → Type 0} (from : Writes sdk P (balance_key actor e.asset)) where
    Keeps-export_return :
        Writes sdk P (asset_key e.asset) → Keeps P (execute_return sdk writer e actor tx_id)
    unfolding execute_return
    Keeps-export_return asset = search action_rules depth 20

    Keeps-export_loan :
        Writes sdk P (loan_key e.asset e.destination)
        → Keeps P (execute_loan sdk writer e actor tx_id)
    unfolding execute_loan
    Keeps-export_loan loan = search action_rules depth 20

    Keeps-export :
        (e.return ≡ true → Writes sdk P (asset_key e.asset))
        → (e.return ≡ false → Writes sdk P (loan_key e.asset e.destination))
        → Keeps P (execute sdk writer e actor tx_id)
    unfolding execute
    Keeps-export asset loan = Keeps-bind _ _ (Keeps-raise_if _ _) (λ _.
        Keeps-bind _ _ (Keeps-raise_if _ _) (λ _.
          Keeps-choose e.return _ _ (λ b. Keeps-export_return (asset b))
            (λ b. Keeps-export_loan (loan b))))

  module _ (laws : IsLawful sdk) (s : S) where
    -- An export writes no key but those that it declares, however it ends.
    pub export_frame :
        (j : Bytes)
        → NotIn sdk j (state_keys e actor)
        → get_value (execute sdk writer e actor tx_id s).1 j ≡ get_value s j
    unfolding state_keys
    export_frame j ne = elim (Bool-cases e.return) [
      | inl b ↦
          (let (asset, (from, _)) = rw b at ne in
            ((Keeps-export (Same-Writes sdk laws s j _ from) (λ _. Same-Writes sdk laws s j _ asset)
                (λ c. absurd (false≢true (sym c ∙ b)))).after
              s (Same-refl sdk s j)).same)
      | inr b ↦
          (let (asset, (loan, (from, _))) = rw b at ne in
            ((Keeps-export (Same-Writes sdk laws s j _ from) (λ _. Same-Writes sdk laws s j _ asset)
                (λ c. Same-Writes sdk laws s j _ loan)).after
              s (Same-refl sdk s j)).same)
    ]

    abbrev left_over : Asset → ℕ → Asset
    left_over a n = record a { supply = n; owner = replicate address_len 0; warp = true }

    -- What a successful return has checked, and the entry that it leaves.
    return_steps :
        {r : Receipt}
        → (execute_return sdk writer e actor tx_id s).0 ≡ ok r
        → (a : Asset) × (n : ℕ) × (get_asset sdk e.asset s ≡ ok (some a))
          × (a.warp ≡ true)
          × (n + e.value + e.reward ≡ a.supply)
          × (let (stored, s1) =
                (if ltb 0 n
                    then set_asset sdk e.asset (left_over a n)
                    else delete_asset sdk e.asset)
                  s in
              (stored ≡ ok tt)
              × (get_value (execute_return sdk writer e actor tx_id s).1 (asset_key e.asset)
                  ≡ get_value s1 (asset_key e.asset)))
    unfolding execute_return
    return_steps h =
        let (found, got, r1, h1) = query_ok _ _ _ s h in
        let (a, present, r2, h2) = require_ok _ found _ s h1 in
        let (warp, r3, h3) = guard_ok _ _ _ s h2 in
        let (chain, _, r4, h4) = lift_ok _ _ s h3 in
        let (allowed, _, r5, h5) = compute_ok _ _ _ s h4 in
        let (_, r6, h6) = guard_ok _ _ _ s h5 in
        let (k, minus_value, r7, h7) = compute_ok _ _ _ s h6 in
        let (n, minus_reward, r8, h8) = compute_ok _ _ _ s h7 in
        let (_, stored, r9, h9) = call_ok _ _ _ s h8 in
        let (first, enough) = sub_ok sdk laws a.supply e.value minus_value in
        let (second, covered) = sub_ok sdk laws k e.reward minus_reward in
        (
          a,
          n,
          got ∙ ap ok present,
          not-false a.warp warp,
          omega arith,
          (
            stored,
            ap (λ p. get_value p.1 (asset_key e.asset)) (r1 ∙ r2 ∙ r3 ∙ r4 ∙ r5 ∙ r6 ∙ r7 ∙ r8)
                ∙ call_kept sdk _ _ _ s (asset_key e.asset) h8 (λ t _.
                  (let from : Writes sdk (Same sdk t (asset_key e.asset))
                        (balance_key actor e.asset) =
                      Same-Writes sdk laws t (asset_key e.asset) (balance_key actor e.asset)
                        (asset_key-ne-balance_key actor e.asset e.asset) in
                    search action_rules depth 20)),
          ),
        )

    -- What sending an asset home leaves of its supply.
    return_supply :
        {r : Receipt}
        → (execute_return sdk writer e actor tx_id s).0 ≡ ok r
        → IsReadable sdk e.asset s
        → let t = (execute_return sdk writer e actor tx_id s).1 in
          (supply_of sdk e.asset t + (e.value + e.reward) ≡ supply_of sdk e.asset s)
          × IsReadable sdk e.asset t
    return_supply h read =
        let (a, n, got, warp, sum, (stored, same)) = return_steps h in
        let fits = Readable_stored sdk e.asset laws s got read in
        let fits_left : FitsAsset address_len (left_over a n) = record {
          offsets = fits.offsets;
          supply = omega (arith, sum, fits.supply);
          owner = length-replicate address_len 0;
        } in
        let (kept, readable) = supply_of_kept sdk e.asset laws (left_over a n) s fits_left stored in
        let (after, fine) = supply_of_same sdk e.asset laws _ _ same readable in
        (omega (arith, sum, kept, after, ap recorded got), fine)

    run_return :
        {r : Receipt}
        → e.return ≡ true
        → (execute sdk writer e actor tx_id s).0 ≡ ok r
        → execute sdk writer e actor tx_id s ≡ execute_return sdk writer e actor tx_id s
    unfolding execute
    run_return b h =
        let (_, r1, h1) = guard_ok _ _ _ s h in
        let (_, r2, _) = guard_ok _ _ _ s h1 in
        r1
        ∙ r2
        ∙ ap
            (λ c.
              (if c
                  then execute_return sdk writer e actor tx_id
                  else execute_loan sdk writer e actor tx_id)
                s)
            b

    -- An export that sends an imported asset home destroys the value and the reward.
    pub export_return_supply :
        {r : Receipt}
        → e.return ≡ true
        → (execute sdk writer e actor tx_id s).0 ≡ ok r
        → IsReadable sdk e.asset s
        → let t = (execute sdk writer e actor tx_id s).1 in
          (supply_of sdk e.asset t + (e.value + e.reward) ≡ supply_of sdk e.asset s)
          × IsReadable sdk e.asset t
    export_return_supply b h read =
        let run = run_return b h in
        subst
          (λ (p : Result Rejection Receipt × S).
            (supply_of sdk e.asset p.1 + (e.value + e.reward) ≡ supply_of sdk e.asset s)
            × IsReadable sdk e.asset p.1)
          (sym run) (return_supply (sym (ap (λ p. p.0) run) ∙ h) read)

    -- An export writes the entry of an asset only to send that asset home.
    pub export_entry_frame :
        (x : Bytes)
        → (e.return ≡ true → x ≢ e.asset)
        → get_value (execute sdk writer e actor tx_id s).1 (asset_key x) ≡ get_value s (asset_key x)
    export_entry_frame x other =
        ((Keeps-export
            (Same-Writes sdk laws s (asset_key x) (balance_key actor e.asset)
              (asset_key-ne-balance_key actor e.asset x))
            (λ b.
              Same-Writes sdk laws s (asset_key x) (asset_key e.asset)
                (asset_key-ne_other x e.asset (other b)))
            (λ _.
              Same-Writes sdk laws s (asset_key x) (loan_key e.asset e.destination)
                (asset_key-ne-loan_key x e.asset e.destination))).after
          s (Same-refl sdk s (asset_key x))).same
