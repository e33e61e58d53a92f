-- ===== src/Genesis/Supply.antt =====
-- The supply of the native asset that genesis stores.
use nuklaivm.Prelude.{
  false, ℕ, ◌+◌, ◌^◌, ◌<◌, ◌≡◌, ap, ◌∙◌, Result, ok, some, List, [], ◌∷◌, pure, replicate,
  length-replicate, lift_ok, step_ok, arith,
}
use nuklaivm.Bytes.{Bytes}
use nuklaivm.Sdk.{Sdk, IsLawful, Error}
use nuklaivm.Sdk.Arithmetic.{add64_ok}
use nuklaivm.Storage.Balance.{set_balance}
use nuklaivm.Storage.Asset.{get_asset}
use nuklaivm.Storage.Asset.RoundTrip.{FitsAsset, get_asset-set_asset}
use nuklaivm.Genesis.{
  native_symbol, native_decimals, native_name, CustomAllocation, native_asset, load_allocation,
  load,
}

-- What the allocation hands out.
abbrev pub allocated : List CustomAllocation → ℕ
allocated [] = 0
allocated (alloc ∷ rest) = alloc.balance + allocated rest

module _ {S : Type 0} (sdk : Sdk S) (parse : Bytes → Result Error Bytes) (laws : IsLawful sdk) where
  open sdk use {address_len, id_len, add64}

  ok_same : {m n : ℕ} → ◌≡◌ {A = Result Error ℕ} (ok m) (ok n) → n ≡ m
  ok_same e = cc

  load_allocation_sum :
      (allocs : List CustomAllocation) (supply : ℕ) (s : S) {n : ℕ}
      → supply < 2 ^ 64
      → (load_allocation sdk parse allocs supply s).0 ≡ ok n
      → (n ≡ supply + allocated allocs) × (n < 2 ^ 64)
  unfolding load_allocation pure
  load_allocation_sum [] supply s fits h = let e = ok_same h in (omega arith, omega arith)
  load_allocation_sum (alloc ∷ rest) supply s fits h =
      let (addr, _, _, h1) = lift_ok (parse alloc.address) _ s h in
      let (next, sum, _, h2) = lift_ok (add64 supply alloc.balance) _ s h1 in
      let (_, _, _, h3) =
        step_ok (set_balance sdk addr (replicate id_len 0) alloc.balance) _ s h2 in
      let (e, small) = add64_ok sdk laws supply alloc.balance sum in
      let (q, r) = load_allocation_sum rest next _ small h3 in (omega arith, r)

  -- A genesis that loads, with addresses shorter than 2 ^ 15, stores the native asset under the
  -- empty id: the program's symbol, decimals and name, the sum of the balances handed out as its
  -- supply, the empty address as its owner, not imported. The sum fits a uint64.
  pub load_supply :
      (valid : Result Error (Unit {0})) (allocs : List CustomAllocation) (s : S)
      → address_len < 2 ^ 15
      → (load sdk parse valid allocs s).0 ≡ ok tt
      → (allocated allocs < 2 ^ 64)
        × (get_asset sdk (replicate id_len 0) (load sdk parse valid allocs s).1
            ≡ ok (
                some (record {
                  symbol = native_symbol;
                  decimals = native_decimals;
                  metadata = native_name;
                  supply = allocated allocs;
                  owner = replicate address_len 0;
                  warp = false;
                })))
  unfolding load
  load_supply valid allocs s small h =
      let (_, _, start, h1) = lift_ok valid _ s h in
      let (n, loaded, next, h2) = step_ok (load_allocation sdk parse allocs 0) _ s h1 in
      let (e, bound) = load_allocation_sum allocs 0 s (omega arith) loaded in
      let fits : FitsAsset address_len (native_asset sdk n) = record {
        offsets = omega arith;
        supply = bound;
        owner = length-replicate address_len 0;
      } in
      let s1 = (load_allocation sdk parse allocs 0 s).1 in
      (
        omega arith,
        ap (λ r. get_asset sdk (replicate id_len 0) r.1) (start ∙ next)
            ∙ get_asset-set_asset sdk laws (replicate id_len 0) (native_asset sdk n) s1 fits h2
            ∙ ap (λ k. ok (some (native_asset sdk k))) (omega (arith, e)),
      )
