-- ===== src/Actions/ExportAsset/Effects.antt =====
-- What an export changes in the books of an asset.
use nuklaivm.Prelude.{ℕ, ◌+◌, ◌≡◌, List, arith, length, if◌then◌else◌}
use nuklaivm.Bytes.{Bytes}
use nuklaivm.Sdk.{Sdk, IsLawful}
use nuklaivm.Codec.{Writer}
use nuklaivm.Storage.Balance.{sub_balance}
use nuklaivm.Storage.Loan.{add_loan}
use nuklaivm.Storage.Ledger.{Once}
use nuklaivm.Storage.Books.{debits, lends, lent_out, weight, Moves}
use nuklaivm.Storage.Books.Rules.{
  Moves-bind, Moves-pure, Moves-lift, Moves-gets, Moves-raise_if, Moves-or_fail, Moves-if,
  Moves-guard, Moves-choose, Moves-if_positive, Moves-as,
}
use nuklaivm.Storage.Books.Writes.{
  AllWide, AllWide-Once, Moves-sub_balance, Moves-set_asset, Moves-delete_asset,
}
use nuklaivm.Storage.Books.Lending.{Moves-add_loan}
use nuklaivm.Actions.Receipt.{Moves-require}
use nuklaivm.Actions.ExportAsset.{ExportAsset, execute_return, execute_loan, execute}

module _ {S W O : Type 0} (sdk : Sdk S) (writer : Writer W O) (laws : IsLawful sdk)
    (e : ExportAsset) (actor tx_id x : Bytes) (holders chains : List Bytes)
    (width : length actor ≡ sdk.address_len) (asset_width : length e.asset ≡ length x)
    (once : Once sdk.address_len actor holders) (n : ℕ) (listed : Once n e.destination chains) where
  open sdk use {address_len}

  wide : AllWide address_len holders
  wide = AllWide-Once address_len actor holders once

  Moves-debit :
      (amount : ℕ)
      → Moves sdk x holders chains
          (debits (weight x e.asset amount))
          (sub_balance sdk actor e.asset amount)
  Moves-debit amount = Moves-sub_balance sdk laws x holders chains actor amount width once e.asset

  Moves-lend :
      (amount : ℕ)
      → Moves sdk x holders chains
          (lends (weight x e.asset amount))
          (add_loan sdk e.asset e.destination amount)
  Moves-lend amount =
      Moves-add_loan sdk laws x holders chains wide n e.destination amount listed e.asset
        asset_width

  -- Lending the value and the reward takes both from what is held and adds both to what is lent.
  pub export_loan-Moves :
      Moves sdk x holders chains
        (lent_out (weight x e.asset (e.value + e.reward)))
        (execute_loan sdk writer e actor tx_id)
  unfolding execute_loan weight
  export_loan-Moves = Moves-as (ground arith) (ground arith) (
      Moves-bind (Moves-or_fail _ (Moves-gets _)) (λ found. Moves-bind (Moves-require _ found) (λ a.
        Moves-bind (Moves-raise_if _ _) (λ _.
          Moves-bind (Moves-or_fail _ (Moves-lend e.value)) (λ _.
            Moves-bind (Moves-or_fail _ (Moves-debit e.value)) (λ _.
              Moves-bind
                (Moves-or_fail _ (
                  Moves-if_positive (λ r. lent_out (weight x e.asset r)) e.reward (ground arith)
                    (Moves-as (ground arith) (ground arith)
                      (Moves-bind (Moves-lend e.reward) (λ _. Moves-debit e.reward)))))
                (λ _. Moves-bind (Moves-or_fail _ (Moves-lift _)) (λ payload. Moves-pure _))))))))

  -- Sending an imported asset home takes the value and the reward from what is held.
  pub export_return-Moves :
      Moves sdk x holders chains
        (debits (weight x e.asset (e.value + e.reward)))
        (execute_return sdk writer e actor tx_id)
  unfolding execute_return weight
  export_return-Moves = Moves-as (ground arith) (ground arith) (
      Moves-bind (Moves-or_fail _ (Moves-gets _)) (λ found. Moves-bind (Moves-require _ found) (λ a.
        Moves-bind (Moves-raise_if _ _) (λ _. Moves-bind (Moves-lift _) (λ chain.
          Moves-bind (Moves-or_fail _ (Moves-lift _)) (λ allowed.
            Moves-bind (Moves-raise_if _ _) (λ _.
              Moves-bind (Moves-or_fail _ (Moves-lift _)) (λ less_value.
                Moves-bind (Moves-or_fail _ (Moves-lift _)) (λ new_supply.
                  Moves-bind
                    (Moves-or_fail _ (
                      Moves-if _ (Moves-set_asset sdk laws x holders chains wide e.asset _)
                        (Moves-delete_asset sdk laws x holders chains wide e.asset)))
                    (λ _. Moves-bind (Moves-or_fail _ (Moves-debit e.value)) (λ _.
                      Moves-bind
                        (Moves-or_fail _ (
                          Moves-if_positive (λ r. debits (weight x e.asset r)) e.reward
                            (ground arith) (Moves-debit e.reward)))
                        (λ _. Moves-bind (Moves-lift _) (λ id.
                          Moves-bind (Moves-or_fail _ (Moves-lift _)) (λ original.
                            Moves-bind (Moves-or_fail _ (Moves-lift _))
                              (λ payload. Moves-pure _)))))))))))))))

  pub export-Moves :
      Moves sdk x holders chains
        (if e.return
          then debits (weight x e.asset (e.value + e.reward))
          else lent_out (weight x e.asset (e.value + e.reward)))
        (execute sdk writer e actor tx_id)
  unfolding execute
  export-Moves =
      Moves-guard _ _
        (Moves-guard _ _ (Moves-choose e.return export_return-Moves export_loan-Moves))
