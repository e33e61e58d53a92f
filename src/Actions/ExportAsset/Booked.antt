-- ===== src/Actions/ExportAsset/Booked.antt =====
-- An export as a step on the books of any asset.
use nuklaivm.Prelude.{
  ℕ, ◌+◌, ◌≡◌, refl, sym, ap, subst, ◌∙◌, true, ok, Bool-cases, inl, inr, List, arith, length,
  if◌then◌else◌,
}
use nuklaivm.Bytes.{Bytes}
use nuklaivm.Sdk.{Sdk, IsLawful}
use nuklaivm.Codec.{Writer}
use nuklaivm.Storage.Ledger.{Once}
use nuklaivm.Storage.Books.{debits, lent_out, weight, Moves}
use nuklaivm.Storage.Books.Writes.{for_asset, weight_self, weight_other}
use nuklaivm.Storage.Books.Supplies.{supply_of, IsReadable, supply_of_same}
use nuklaivm.Storage.Books.Steps.{Step, sums, Step-retired, Step-sent_out}
use mathlib.Core.Bool.{false≢true}
use nuklaivm.Actions.Receipt.{Receipt}
use nuklaivm.Actions.ExportAsset.{ExportAsset, execute}
use nuklaivm.Actions.ExportAsset.Effects.{export-Moves}
use nuklaivm.Actions.ExportAsset.Supply.{export_entry_frame, export_return_supply}

module _ {S W O : Type 0} (sdk : Sdk S) (writer : Writer W O) (laws : IsLawful sdk)
    (e : ExportAsset) (actor tx_id x : Bytes) (s : S) where
  abbrev sold : Bytes → ℕ
  sold y = weight x y (e.value + e.reward)

  after : S
  after = (execute sdk writer e actor tx_id s).1

  -- An export that sends this asset home lowers its supply; any other leaves its entry alone.
  return_supply_of :
      {r : Receipt}
      → (execute sdk writer e actor tx_id s).0 ≡ ok r
      → IsReadable sdk x s
      → e.return ≡ true
      → (supply_of sdk x after + sold e.asset ≡ supply_of sdk x s) × IsReadable sdk x after
  unfolding after
  return_supply_of h read b =
      for_asset sdk laws x
        (λ y.
          y ≡ e.asset
          → (supply_of sdk x after + sold y ≡ supply_of sdk x s) × IsReadable sdk x after)
        (λ q.
          let (less, fine) =
            export_return_supply sdk writer e actor tx_id laws s b h
              (subst (λ y. IsReadable sdk y s) q read) in
          (
            omega (
              arith,
              less,
              weight_self sdk laws x (e.value + e.reward),
              ap (λ y. supply_of sdk y after) q,
              ap (λ y. supply_of sdk y s) q,
            ),
            subst (λ y. IsReadable sdk y after) (sym q) fine,
          ))
        (λ y ne q.
          let (same, fine) =
            supply_of_same sdk x laws s after
              (export_entry_frame sdk writer e actor tx_id laws s x (λ _ f. ne (q ∙ sym f))) read in
          (omega (arith, same, weight_other sdk laws x y (e.value + e.reward) ne), fine))
        e.asset refl

  -- An export that succeeds for a listed actor, to a listed chain, is a step on the books of every
  -- asset: one that sends the asset home retires its value and reward, and a loan moves them from
  -- what is held to what is lent.
  pub export-Step :
      {r : Receipt} (holders chains : List Bytes) (n : ℕ)
      → length actor ≡ sdk.address_len
      → length e.asset ≡ length x
      → Once sdk.address_len actor holders
      → Once n e.destination chains
      → IsReadable sdk x s
      → (execute sdk writer e actor tx_id s).0 ≡ ok r
      → Step
          (sums sdk x holders chains s)
          (sums sdk x holders chains (execute sdk writer e actor tx_id s).1)
        × IsReadable sdk x (execute sdk writer e actor tx_id s).1
  unfolding after
  export-Step holders chains n width asset_width once listed read h =
      let moves =
        export-Moves sdk writer laws e actor tx_id x holders chains width asset_width once n
          listed in
      elim (Bool-cases e.return) [
        | inl b ↦
            (let (less, fine) = return_supply_of h read b in
              (
                Step-retired sdk x holders chains
                    (subst
                      (λ c.
                        Moves sdk x holders chains
                          (if c then debits (sold e.asset) else lent_out (sold e.asset))
                          (execute sdk writer e actor tx_id))
                      b moves)
                    h (sold e.asset) less (omega arith) refl,
                fine,
              ))
        | inr b ↦
            (let (same, fine) =
                supply_of_same sdk x laws s after
                  (export_entry_frame sdk writer e actor tx_id laws s x
                    (λ c. absurd (false≢true (sym b ∙ c))))
                  read in
              (
                Step-sent_out sdk x holders chains
                    (subst
                      (λ c.
                        Moves sdk x holders chains
                          (if c then debits (sold e.asset) else lent_out (sold e.asset))
                          (execute sdk writer e actor tx_id))
                      b moves)
                    h (sold e.asset) same (omega arith) (omega arith),
                fine,
              ))
      ]
