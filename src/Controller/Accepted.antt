-- ===== src/Controller/Accepted.antt =====
-- The part of Accepted in controller/controller.go that settles an accepted block: its fees, and
-- the tokens minted.
use nuklaivm.Prelude.{ℕ, ◌≡◌, ◌≤◌, ◌<◌, ◌^◌, ◌+◌, ◌*◌, if◌then◌else◌, ltb, arith}
use nuklaivm.Emission.State.{Floats, Emission}
use nuklaivm.Emission.Rewards.{within_cap, add_to_total_supply, mint_new_nai, distribute_fees}
use nuklaivm.Emission.Supply.{mint_adds}

module _ {F : Type 0} (fl : Floats F) where
  -- `mintNewNAI := MintNewNAI(); if mintNewNAI > 0 { AddToTotalSupply(mintNewNAI) }`
  unfoldable pub mint_if_needed : ℕ → Emission F → Emission F
  unfolding mint_new_nai add_to_total_supply
  mint_if_needed height e =
      let (minted, e1) = mint_new_nai fl height e in
      if ltb 0 minted then (add_to_total_supply minted e1).1 else e1

  unfoldable pub settle_block : ℕ → ℕ → Emission F → Emission F
  unfolding distribute_fees mint_if_needed
  settle_block height total_fee e =
      mint_if_needed height (if ltb 0 total_fee then distribute_fees fl height total_fee e else e)

  -- A block that mints `m` raises the supply by twice `m`, while twice `m` fits under the maximum:
  -- MintNewNAI adds it, and the controller adds it again.
  pub minted_counts_twice :
      (height : ℕ) (e : Emission F)
      → e.total_supply + 2 * (mint_new_nai fl height e).0 ≤ (mint_new_nai fl height e).1.max_supply
      → (mint_new_nai fl height e).1.max_supply < 2 ^ 64
      → (mint_if_needed height e).total_supply ≡ e.total_supply + 2 * (mint_new_nai fl height e).0
  unfolding mint_if_needed add_to_total_supply within_cap
  minted_counts_twice height e room bound = ground (arith, mint_adds fl height e (omega arith))
