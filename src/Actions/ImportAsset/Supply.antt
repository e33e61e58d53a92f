-- ===== src/Actions/ImportAsset/Supply.antt =====
-- What an import writes, and what it does to the supply of an asset.
use nuklaivm.Prelude.{
  ℕ, ◌≡◌, ◌≢◌, Bool, true, false, ◌&&◌, Option, some, none, [], ◌∷◌, arith, if◌then◌else◌, ◌==◌,
  Keeps, Keeps-bind, Keeps-raise_if, Keeps-raise, Keeps-pure, Keeps-choose, Keeps-or_fail, ltb,
  pure, ◌>>◌,
}
use nuklaivm.Prelude.Int.{ℤ}
use nuklaivm.Bytes.{Bytes}
use nuklaivm.Sdk.{Sdk, IsLawful}
use nuklaivm.Storage.Keys.{balance_key, asset_key, loan_key}
use nuklaivm.Storage.Keys.Separate.{asset_key-ne-balance_key, asset_key-ne-loan_key}
use nuklaivm.Storage.Writes.{Writes, NotIn, NotIn-append, Same, Same-Writes, Same-refl}
use nuklaivm.Storage.Balance.{add_balance}
use nuklaivm.Storage.Loan.{sub_loan}
use nuklaivm.Storage.Asset.{Asset}
use nuklaivm.Storage.Books.Writes.{asset_key-ne_other}
use nuklaivm.Actions.Receipt.{Output, action_rules}
use nuklaivm.Actions.WarpTransfer.{WarpTransfer, imported_asset_id}
use nuklaivm.Actions.ImportAsset.{
  ImportAsset, asset_in, state_keys, import_into, execute_mint, known, execute_return, execute_swap,
  execute_fill, execute,
}

module _ {S : Type 0} (sdk : Sdk S) {P : S → Type 0} where
  Keeps-import_into :
      (w : WarpTransfer) (c : Bytes) (found : Option Asset) → Keeps P (import_into sdk w c found)
  unfolding import_into
  Keeps-import_into w c none = Keeps-pure _
  Keeps-import_into w c (some a) = search action_rules

  Keeps-known : (missing : Output) (found : Option Asset) → Keeps P (known sdk missing found)
  unfolding known
  Keeps-known missing none = Keeps-raise _
  Keeps-known missing (some a) = Keeps-pure _

listed_to :
    {S : Type 0} (sdk : Sdk S) (j : Bytes) (b : Bool) (a l t : Bytes)
    → NotIn sdk j (if b then a ∷ l ∷ t ∷ [] else a ∷ t ∷ [])
    → j ≢ t
listed_to sdk j true a l t h = h.1.1.0
listed_to sdk j false a l t h = h.1.0

swaps : (n : ℕ) (fill : Bool) → (n == 0) ≡ false → fill ≡ true → (fill && ltb 0 n) ≡ true
swaps n fill nonzero f = ground arith

module _ {S : Type 0} (sdk : Sdk S) (i : ImportAsset) (actor : Bytes) where
  open sdk use {address_len, get_value}

  abbrev w : WarpTransfer
  w = i.warp_transfer

  abbrev foreign : Bytes
  foreign = imported_asset_id sdk w.asset i.source_chain_id

  module _ {P : S → Type 0} where
    pub Keeps-rewarded :
        (asset : Bytes)
        → (ltb 0 w.reward ≡ true → Writes sdk P (balance_key actor asset))
        → Keeps P (if ltb 0 w.reward then add_balance sdk actor asset w.reward true else pure tt)
    Keeps-rewarded asset from =
        Keeps-choose _ _ _ (λ b. (let f = from b in search action_rules)) (λ _. Keeps-pure tt)

    Keeps-recovered :
        Writes sdk P (loan_key w.asset i.source_chain_id)
        → (ltb 0 w.reward ≡ true → Writes sdk P (balance_key actor w.asset))
        → Keeps P (
            if ltb 0 w.reward
            then sub_loan sdk w.asset i.source_chain_id w.reward
              >> add_balance sdk actor w.asset w.reward true
            else pure tt)
    Keeps-recovered loan from =
        Keeps-choose _ _ _ (λ b. (let f = from b in search action_rules)) (λ _. Keeps-pure tt)

    Keeps-import_mint :
        Writes sdk P (asset_key foreign)
        → Writes sdk P (balance_key w.to foreign)
        → (ltb 0 w.reward ≡ true → Writes sdk P (balance_key actor foreign))
        → Keeps P (execute_mint sdk w i.source_chain_id actor)
    unfolding execute_mint
    Keeps-import_mint asset to from =
        search (action_rules, Keeps-import_into, Keeps-rewarded) depth 20

    Keeps-import_return :
        Writes sdk P (loan_key w.asset i.source_chain_id)
        → Writes sdk P (balance_key w.to w.asset)
        → (ltb 0 w.reward ≡ true → Writes sdk P (balance_key actor w.asset))
        → Keeps P (execute_return sdk w i.source_chain_id actor)
    unfolding execute_return
    Keeps-import_return loan to from = search (action_rules, Keeps-known, Keeps-recovered) depth 20

    pub Keeps-fill_balances :
        ((a y : Bytes) → Writes sdk P (balance_key a y))
        → (t : ℤ) → Keeps P (execute_fill sdk t i actor)
    unfolding execute_fill execute_swap
    Keeps-fill_balances balances t = search action_rules depth 20

    Keeps-swap :
        Writes sdk P (balance_key w.to (asset_in sdk i))
        → Writes sdk P (balance_key actor (asset_in sdk i))
        → Writes sdk P (balance_key actor w.asset_out)
        → Writes sdk P (balance_key w.to w.asset_out)
        → Keeps P (execute_swap sdk i actor)
    unfolding execute_swap
    Keeps-swap a b c d = search action_rules depth 20

  module _ {P : S → Type 0} (entry : w.return ≡ false → Writes sdk P (asset_key foreign))
      (loan : w.return ≡ true → Writes sdk P (loan_key w.asset i.source_chain_id))
      (to : Writes sdk P (balance_key w.to (asset_in sdk i)))
      (rewarded : ltb 0 w.reward ≡ true → Writes sdk P (balance_key actor (asset_in sdk i)))
      (swap : (i.fill && ltb 0 w.swap_in) ≡ true
        → Writes sdk P (balance_key actor w.asset_out)
          × Writes sdk P (balance_key actor (asset_in sdk i))
          × Writes sdk P (balance_key w.to w.asset_out)) where
    pub Keeps-fill : (t : ℤ) → Keeps P (execute_fill sdk t i actor)
    unfolding execute_fill
    Keeps-fill t =
        Keeps-choose _ _ _ (λ _. Keeps-pure tt)
          (λ some_in.
            Keeps-choose _ _ _
              (λ fill.
                (let (out, here, back) = swap (swaps w.swap_in i.fill some_in fill) in
                  Keeps-or_fail _ _ (Keeps-swap to here out back)))
              (λ _. Keeps-raise_if _ _))

    Keeps-import :
        (chain_id : Bytes) (t : ℤ) (verified : Bool)
        → Keeps P (execute sdk chain_id t verified i actor)
    unfolding execute asset_in
    Keeps-import chain_id t verified = Keeps-bind _ _ (Keeps-raise_if _ _) (λ _.
        Keeps-bind _ _ (Keeps-raise_if _ _) (λ _. Keeps-bind _ _ (Keeps-raise_if _ _) (λ _.
          Keeps-bind _ _
            (Keeps-or_fail _ _ (
              Keeps-choose w.return _ _
                (λ b. Keeps-import_return (loan b) (rw b at to) (λ r. rw b at (rewarded r)))
                (λ b. Keeps-import_mint (entry b) (rw b at to) (λ r. rw b at (rewarded r)))))
            (λ _. Keeps-bind _ _ (Keeps-fill t) (λ _. Keeps-pure _)))))

  module _ (laws : IsLawful sdk) (chain_id : Bytes) (t : ℤ) (verified : Bool) (s : S) where
    -- An import writes no key but those that it declares, however it ends.
    pub import_frame :
        (j : Bytes)
        → NotIn sdk j (state_keys sdk i actor)
        → get_value (execute sdk chain_id t verified i actor s).1 j ≡ get_value s j
    unfolding state_keys asset_in
    import_frame j ne =
        let at_key : (k : Bytes) → j ≢ k → Writes sdk (Same sdk s j) k =
          λ k. Same-Writes sdk laws s j k in
        let (first, rest) = NotIn-append sdk j _ _ ne in
        let (rewarded, swap) =
          NotIn-append sdk j
            (if ltb 0 w.reward then balance_key actor (asset_in sdk i) ∷ [] else [])
            (if i.fill && ltb 0 w.swap_in
              then balance_key actor w.asset_out
                ∷ balance_key actor (asset_in sdk i)
                ∷ balance_key w.to w.asset_out
                ∷ []
              else [])
            rest in
        ((Keeps-import (λ b. at_key (asset_key foreign) (rw b at first).0)
            (λ b. at_key (loan_key w.asset i.source_chain_id) (rw b at first).1.0)
            (at_key (balance_key w.to (asset_in sdk i)) (listed_to sdk j w.return _ _ _ first))
            (λ r. at_key (balance_key actor (asset_in sdk i)) (rw r at rewarded).0)
            (λ r. (let (a, (b, (c, _))) = rw r at swap in (at_key _ a, at_key _ b, at_key _ c)))
            chain_id t verified).after
          s (Same-refl sdk s j)).same

    -- An import writes the entry of an asset only to create its supply on this chain.
    pub import_entry_frame :
        (x : Bytes)
        → (w.return ≡ false → x ≢ foreign)
        → get_value (execute sdk chain_id t verified i actor s).1 (asset_key x)
          ≡ get_value s (asset_key x)
    import_entry_frame x other =
        let balance : (a y : Bytes) → Writes sdk (Same sdk s (asset_key x)) (balance_key a y) =
          λ a y.
            Same-Writes sdk laws s (asset_key x) (balance_key a y)
              (asset_key-ne-balance_key a y x) in
        ((Keeps-import
            (λ b.
              Same-Writes sdk laws s (asset_key x) (asset_key foreign)
                (asset_key-ne_other x foreign (other b)))
            (λ _.
              Same-Writes sdk laws s (asset_key x) (loan_key w.asset i.source_chain_id)
                (asset_key-ne-loan_key x w.asset i.source_chain_id))
            (balance _ _) (λ _. balance _ _) (λ _. (balance _ _, balance _ _, balance _ _)) chain_id
            t verified).after
          s (Same-refl sdk s (asset_key x))).same
