-- ===== src/Storage/Books/Supplies.antt =====
-- The recorded supply of an asset, as a number, and the calls that leave it alone.
use nuklaivm.Prelude.{
  ℕ, ◌≡◌, ap, subst, sym, ◌∙◌, Result, ok, err, panic, Option, some, none, ltb, if◌then◌else◌,
  arith, Bool-cases, inl, inr,
}
use nuklaivm.Bytes.{Bytes}
use nuklaivm.Sdk.{Sdk, IsLawful, Error}
use nuklaivm.Storage.Keys.{asset_key}
use nuklaivm.Storage.Asset.{Asset, get_asset, set_asset, delete_asset}
use nuklaivm.Storage.Asset.RoundTrip.{
  FitsAsset, get_asset-set_asset, get_asset-delete_asset, get_asset_of_same,
}

-- The supply in an entry; an asset that does not exist has none.
abbrev pub recorded : Result Error (Option Asset) → ℕ
recorded (ok (some a)) = a.supply
recorded (ok none) = 0
recorded (err e) = 0
recorded panic = 0

-- What is stored is read back as it was written.
abbrev pub Readable : ℕ → Result Error (Option Asset) → Type 0
Readable n (ok (some a)) = FitsAsset n a
Readable n (ok none) = Unit
Readable n (err e) = Unit
Readable n panic = Unit

module _ {S : Type 0} (sdk : Sdk S) (x : Bytes) where
  open sdk use {address_len, get_value}

  abbrev pub supply_of : S → ℕ
  supply_of s = recorded (get_asset sdk x s)

  abbrev pub IsReadable : S → Type 0
  IsReadable s = Readable address_len (get_asset sdk x s)

  module _ (laws : IsLawful sdk) where
    pub supply_of_same :
        (s t : S)
        → get_value t (asset_key x) ≡ get_value s (asset_key x)
        → IsReadable s
        → (supply_of t ≡ supply_of s) × IsReadable t
    supply_of_same s t e read =
        let same = get_asset_of_same sdk laws x s t e in
        (ap recorded same, subst (Readable address_len) (sym same) read)

    pub supply_of_stored :
        (t : S) {a : Asset}
        → FitsAsset address_len a
        → get_asset sdk x t ≡ ok (some a)
        → (supply_of t ≡ a.supply) × IsReadable t
    supply_of_stored t fits e = (ap recorded e, subst (Readable address_len) (sym e) fits)

    pub Readable_stored :
        (s : S) {a : Asset}
        → get_asset sdk x s ≡ ok (some a)
        → IsReadable s
        → FitsAsset address_len a
    Readable_stored s e read = subst (Readable address_len) e read

    -- An entry whose supply falls to 0 is deleted.
    pub supply_of_kept :
        (a : Asset) (s : S)
        → FitsAsset address_len a
        → ((if ltb 0 a.supply then set_asset sdk x a else delete_asset sdk x) s).0 ≡ ok tt
        → let t = ((if ltb 0 a.supply then set_asset sdk x a else delete_asset sdk x) s).1 in
          (supply_of t ≡ a.supply) × IsReadable t
    supply_of_kept a s fits h = elim (Bool-cases (ltb 0 a.supply)) [
      | inl b ↦ rw b (supply_of_stored _ fits (get_asset-set_asset sdk laws x a s fits (rw b at h)))
      | inr b ↦ rw b (
          let e = get_asset-delete_asset sdk laws x s (rw b at h) in
          (ap recorded e ∙ ground arith, subst (Readable address_len) (sym e) tt))
    ]
