-- ===== src/Actions/ImportAsset/Effects.antt =====
-- What an import changes in the books of an asset.
use nuklaivm.Prelude.{
  ℕ, ◌+◌, ◌≡◌, Bool, true, List, arith, length, if◌then◌else◌, Option, some, none,
}
use nuklaivm.Prelude.Int.{ℤ}
use nuklaivm.Bytes.{Bytes}
use nuklaivm.Sdk.{Sdk, IsLawful}
use nuklaivm.Storage.Balance.{sub_balance, add_balance}
use nuklaivm.Storage.Loan.{sub_loan}
use nuklaivm.Storage.Asset.{Asset}
use nuklaivm.Storage.Ledger.{Once}
use nuklaivm.Storage.Books.{nothing, credits, debits, recovers, returned, weight, Moves}
use nuklaivm.Storage.Books.Rules.{
  Moves-bind, Moves-pure, Moves-raise, Moves-lift, Moves-gets, Moves-raise_if, Moves-or_fail,
  Moves-if, Moves-if_positive, Moves-as, Moves-guard, Moves-choose,
}
use nuklaivm.Storage.Books.Writes.{
  AllWide, AllWide-Once, Moves-sub_balance, Moves-add_balance, Moves-set_asset,
}
use nuklaivm.Storage.Books.Lending.{Moves-sub_loan}
use nuklaivm.Actions.Receipt.{Output}
use nuklaivm.Actions.WarpTransfer.{WarpTransfer, imported_asset_id}
use nuklaivm.Actions.ImportAsset.{
  ImportAsset, asset_in, import_into, execute_mint, known, execute_return, execute_swap,
  execute_fill, execute,
}

module _ {S : Type 0} (sdk : Sdk S) (x : Bytes) (holders chains : List Bytes) where
  Moves-import_into :
      (w : WarpTransfer) (c : Bytes) (found : Option Asset)
      → Moves sdk x holders chains nothing (import_into sdk w c found)
  unfolding import_into
  Moves-import_into w c none = Moves-pure _
  Moves-import_into w c (some a) = Moves-if _ (Moves-raise _) (Moves-pure _)

  Moves-known :
      (missing : Output) (found : Option Asset)
      → Moves sdk x holders chains nothing (known sdk missing found)
  unfolding known
  Moves-known missing none = Moves-raise _
  Moves-known missing (some a) = Moves-pure _

module _ {S : Type 0} (sdk : Sdk S) (laws : IsLawful sdk) (i : ImportAsset) (actor x : Bytes)
    (holders chains : List Bytes) (width : length actor ≡ sdk.address_len)
    (once : Once sdk.address_len actor holders)
    (to_width : length i.warp_transfer.to ≡ sdk.address_len)
    (to_once : Once sdk.address_len i.warp_transfer.to holders) where
  open sdk use {address_len}

  abbrev w : WarpTransfer
  w = i.warp_transfer

  wide : AllWide address_len holders
  wide = AllWide-Once address_len actor holders once

  Moves-to :
      (asset : Bytes) (amount : ℕ)
      → Moves sdk x holders chains
          (credits (weight x asset amount))
          (add_balance sdk w.to asset amount true)
  Moves-to asset amount =
      Moves-add_balance sdk laws x holders chains w.to amount to_width to_once asset

  Moves-from_to :
      (asset : Bytes) (amount : ℕ)
      → Moves sdk x holders chains
          (debits (weight x asset amount))
          (sub_balance sdk w.to asset amount)
  Moves-from_to asset amount =
      Moves-sub_balance sdk laws x holders chains w.to amount to_width to_once asset

  Moves-credit :
      (asset : Bytes) (amount : ℕ)
      → Moves sdk x holders chains
          (credits (weight x asset amount))
          (add_balance sdk actor asset amount true)
  Moves-credit asset amount =
      Moves-add_balance sdk laws x holders chains actor amount width once asset

  Moves-debit :
      (asset : Bytes) (amount : ℕ)
      → Moves sdk x holders chains
          (debits (weight x asset amount))
          (sub_balance sdk actor asset amount)
  Moves-debit asset amount =
      Moves-sub_balance sdk laws x holders chains actor amount width once asset

  -- The value and the reward of a foreign asset are created in the hands of the two.
  import_mint-Moves :
      Moves sdk x holders chains
        (credits (weight x (imported_asset_id sdk w.asset i.source_chain_id) (w.value + w.reward)))
        (execute_mint sdk w i.source_chain_id actor)
  unfolding execute_mint weight
  import_mint-Moves = Moves-as (ground arith) (ground arith) (
      Moves-bind (Moves-or_fail _ (Moves-gets _)) (λ found.
        Moves-bind (Moves-import_into sdk x holders chains w i.source_chain_id found) (λ a.
          Moves-bind (Moves-or_fail _ (Moves-lift _)) (λ with_value.
            Moves-bind (Moves-or_fail _ (Moves-lift _)) (λ new_supply.
              Moves-bind (Moves-or_fail _ (Moves-set_asset sdk laws x holders chains wide _ _))
                (λ _. Moves-bind (Moves-or_fail _ (Moves-to _ w.value)) (λ _. Moves-or_fail _ (
                  Moves-if_positive
                    (λ r. credits (weight x (imported_asset_id sdk w.asset i.source_chain_id) r))
                    w.reward (ground arith) (Moves-credit _ w.reward)))))))))

  module _ (n : ℕ) (listed : Once n i.source_chain_id chains)
      (asset_width : length w.asset ≡ length x) where
    -- The value and the reward of an asset of this chain come back from what is lent.
    import_return-Moves :
        Moves sdk x holders chains
          (returned (weight x w.asset (w.value + w.reward)))
          (execute_return sdk w i.source_chain_id actor)
    unfolding execute_return weight
    import_return-Moves = Moves-as (ground arith) (ground arith) (
        Moves-bind (Moves-or_fail _ (Moves-gets _)) (λ found.
          Moves-bind (Moves-known sdk x holders chains _ found) (λ a.
            Moves-bind (Moves-raise_if _ _) (λ _. Moves-bind (Moves-raise_if _ _) (λ _.
              Moves-bind (Moves-raise_if _ _) (λ _.
                Moves-bind (Moves-or_fail _ (Moves-recover w.value)) (λ _.
                  Moves-bind (Moves-or_fail _ (Moves-to w.asset w.value)) (λ _. Moves-or_fail _ (
                    Moves-if_positive (λ r. returned (weight x w.asset r)) w.reward (ground arith)
                      (Moves-as (ground arith) (ground arith) (
                        Moves-bind (Moves-recover w.reward)
                          (λ _. Moves-credit w.asset w.reward))))))))))))
      where
        Moves-recover :
            (amount : ℕ)
            → Moves sdk x holders chains
                (recovers (weight x w.asset amount))
                (sub_loan sdk w.asset i.source_chain_id amount)
        Moves-recover amount =
            Moves-sub_loan sdk laws x holders chains wide n i.source_chain_id amount listed w.asset
              asset_width

  -- A swap only moves what is held.
  import_swap-Moves : Moves sdk x holders chains nothing (execute_swap sdk i actor)
  unfolding execute_swap
  import_swap-Moves = Moves-as (omega arith) (omega arith) (
      Moves-bind (Moves-from_to (asset_in sdk i) w.swap_in) (λ _.
        Moves-bind (Moves-credit (asset_in sdk i) w.swap_in) (λ _.
          Moves-bind (Moves-debit w.asset_out w.swap_out) (λ _. Moves-to w.asset_out w.swap_out))))

  import_fill-Moves : (t : ℤ) → Moves sdk x holders chains nothing (execute_fill sdk t i actor)
  unfolding execute_fill
  import_fill-Moves t =
      Moves-if _ (Moves-pure tt)
        (Moves-if _ (Moves-or_fail _ import_swap-Moves) (Moves-raise_if _ _))

  module _ (chain_id : Bytes) (t : ℤ) (verified : Bool) (n : ℕ)
      (listed : Once n i.source_chain_id chains) (asset_width : length w.asset ≡ length x) where
    pub import-Moves :
        Moves sdk x holders chains
          (if w.return
            then returned (weight x w.asset (w.value + w.reward))
            else credits
                (weight x (imported_asset_id sdk w.asset i.source_chain_id) (w.value + w.reward)))
          (execute sdk chain_id t verified i actor)
    unfolding execute
    import-Moves = Moves-guard _ _ (
        Moves-guard _ _ (
          Moves-guard _ _ (
            Moves-as (omega arith) (omega arith) (
              Moves-bind
                (Moves-or_fail _ (
                  Moves-choose w.return (import_return-Moves n listed asset_width)
                    import_mint-Moves))
                (λ _. Moves-bind (import_fill-Moves t) (λ _. Moves-pure _))))))
