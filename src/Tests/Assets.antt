-- ===== src/Tests/Assets.antt =====
-- Minting, burning and creating an asset at small states.
use nuklaivm.Prelude.{
  ℕ, ◌+◌, ◌<◌, ◌≤◌, ◌-◌, ◌^◌, ◌≡◌, ◌≢◌, refl, false, some, ok, [], ◌∷◌, arith, replicate, ◌>>=◌,
}
use nuklaivm.Bytes.{be64, be16, of_be64, of_be16, bytes_eq}
use nuklaivm.Bytes.Slices.{slice, slice_from, index, copy_into}
use nuklaivm.Storage.Keys.{balance_key, asset_key}
use nuklaivm.Storage.Balance.{get_balance, sub_balance, add_balance, inner_get_balance}
use nuklaivm.Storage.Asset.{
  Asset, encode_asset, decode_asset, inner_get_asset, get_asset, set_asset,
}
use nuklaivm.Storage.Asset.RoundTrip.{FitsAsset, get_asset-set_asset}
use nuklaivm.Storage.Backing.{Backed}
use nuklaivm.Storage.Ledger.{total}
use nuklaivm.Actions.Receipt.{receipt, require}
use nuklaivm.Actions.Transfer.{Transfer}
use nuklaivm.Actions.Transfer
use nuklaivm.Actions.Transfer.Effects.{transfer-Backed}
use nuklaivm.Actions.MintAsset.{MintAsset}
use nuklaivm.Actions.MintAsset
use nuklaivm.Actions.MintAsset.Effects.{mint_supply, mint-Backed}
use nuklaivm.Actions.BurnAsset.{BurnAsset}
use nuklaivm.Actions.BurnAsset
use nuklaivm.Actions.BurnAsset.Effects.{burn_supply, burn-Backed}
use nuklaivm.Actions.CreateAsset.{CreateAsset, created}
use nuklaivm.Actions.CreateAsset
use nuklaivm.Actions.CreateAsset.Effects.{create_stored, create-Backed}
use nuklaivm.Tests.Store.{Writes, store, store-IsLawful}
use nuklaivm.Tests.Ledgers.{alice, bob, coin, Once-alice, Once-bob}

-- Alice owns the asset and holds all 100 of it.
abbrev pub token : Asset
token = record {
  symbol = 84 ∷ [];
  decimals = 9;
  metadata = 109 ∷ [];
  supply = 100;
  owner = alice;
  warp = false;
}

abbrev pub issued : Writes
issued =
    (asset_key coin, some (encode_asset token)) ∷ (balance_key alice coin, some (be64 100)) ∷ []

pub token_fits : FitsAsset 33 token
token_fits = record { offsets = omega arith; supply = omega arith; owner = refl }

pub issued_stored : get_asset store coin issued ≡ ok (some token)
unfolding get_asset inner_get_asset decode_asset encode_asset asset_key be64 be16 of_be64 of_be16
    bytes_eq slice slice_from index copy_into
issued_stored = refl

pub issued_exact : 100 ≡ total store coin (alice ∷ bob ∷ []) issued
unfolding get_balance inner_get_balance asset_key balance_key encode_asset be64 be16 of_be64
    bytes_eq
issued_exact = refl

issued-Backed : Backed store coin (alice ∷ bob ∷ []) issued
issued-Backed = record {
  asset = token;
  stored = issued_stored;
  fits = token_fits;
  exact = issued_exact;
}

abbrev payment : Transfer
payment = record { to = bob; asset = coin; value = 30; memo = [] }

abbrev pub minting : MintAsset
minting = record { to = bob; asset = coin; value = 5 }

abbrev burning : BurnAsset
burning = record { asset = coin; value = 40 }

abbrev creating : CreateAsset
creating = record { symbol = 84 ∷ []; decimals = 9; metadata = 109 ∷ [] }

payment_accepted : (Transfer.execute store payment alice issued).0 ≡ ok (receipt 1)
unfolding Transfer.execute ◌>>=◌ sub_balance add_balance inner_get_balance balance_key asset_key
    be64 of_be64 be16 bytes_eq
payment_accepted = refl

pub minting_accepted : (MintAsset.execute store minting alice issued).0 ≡ ok (receipt 5)
unfolding MintAsset.execute ◌>>=◌ require add_balance inner_get_balance balance_key asset_key
    get_asset inner_get_asset decode_asset encode_asset set_asset be64 be16 of_be64 of_be16 bytes_eq
    slice slice_from index copy_into
minting_accepted = refl

burning_accepted : (BurnAsset.execute store burning alice issued).0 ≡ ok (receipt 1)
unfolding BurnAsset.execute ◌>>=◌ require sub_balance inner_get_balance balance_key asset_key
    get_asset inner_get_asset decode_asset encode_asset set_asset be64 be16 of_be64 of_be16 bytes_eq
    slice slice_from index copy_into
burning_accepted = refl

creating_accepted : (CreateAsset.execute store creating alice coin []).0 ≡ ok (receipt 5)
unfolding CreateAsset.execute ◌>>=◌ asset_key encode_asset set_asset be64 be16
creating_accepted = refl

transfer-Backed_example :
    Backed store coin (alice ∷ bob ∷ []) (Transfer.execute store payment alice issued).1
transfer-Backed_example =
    transfer-Backed store payment alice store-IsLawful issued {r = receipt 1} (alice ∷ bob ∷ [])
      refl refl Once-alice Once-bob issued-Backed payment_accepted

mint_supply_example :
    let s' = (MintAsset.execute store minting alice issued).1 in
    (alice ≡ alice)
    × (false ≡ false)
    × (coin ≢ replicate 32 0)
    × (100 + 5 < 2 ^ 64)
    × (get_asset store coin s' ≡ ok (some (record token { supply = 100 + 5 })))
    × ((c : ℕ) × (get_balance store bob coin issued ≡ ok c)
        × (get_balance store bob coin s' ≡ ok (c + 5)))
mint_supply_example =
    mint_supply store minting alice store-IsLawful issued {r = receipt 5} token issued_stored
      token_fits minting_accepted

mint-Backed_example :
    Backed store coin (alice ∷ bob ∷ []) (MintAsset.execute store minting alice issued).1
mint-Backed_example =
    mint-Backed store minting alice store-IsLawful issued {r = receipt 5} (alice ∷ bob ∷ []) refl
      Once-bob issued-Backed minting_accepted

burn_supply_example :
    let s' = (BurnAsset.execute store burning alice issued).1 in
    (40 ≤ 100)
    × (get_asset store coin s' ≡ ok (some (record token { supply = 100 - 40 })))
    × ((c : ℕ) × (get_balance store alice coin issued ≡ ok c)
        × (40 ≤ c)
        × (get_balance store alice coin s' ≡ ok (c - 40)))
burn_supply_example =
    burn_supply store burning alice store-IsLawful issued {r = receipt 1} token issued_stored
      token_fits burning_accepted

burn-Backed_example :
    Backed store coin (alice ∷ bob ∷ []) (BurnAsset.execute store burning alice issued).1
burn-Backed_example =
    burn-Backed store burning alice store-IsLawful issued {r = receipt 1} (alice ∷ bob ∷ []) refl
      Once-alice issued-Backed burning_accepted

abbrev new_coin : Asset
new_coin = record {
  symbol = 84 ∷ [];
  decimals = 9;
  metadata = 109 ∷ [];
  supply = 0;
  owner = alice;
  warp = false;
}

create_stored_example :
    (0 < 1)
    × (1 ≤ 8)
    × (9 ≤ 9)
    × (0 < 1)
    × (1 ≤ 256)
    × FitsAsset 33 (new_coin)
    × (get_asset store coin (CreateAsset.execute store creating alice coin []).1
        ≡ ok (some (new_coin)))
create_stored_example =
    create_stored store creating alice coin store-IsLawful [] {r = receipt 5} refl (omega arith)
      creating_accepted

nobody_holds : total store coin (alice ∷ bob ∷ []) [] ≡ 0
unfolding get_balance inner_get_balance
nobody_holds = refl

create-Backed_example :
    Backed store coin (alice ∷ bob ∷ []) (CreateAsset.execute store creating alice coin []).1
create-Backed_example =
    create-Backed store creating alice coin store-IsLawful [] {r = receipt 5} (alice ∷ bob ∷ [])
      refl (omega arith) nobody_holds creating_accepted

get_asset-set_asset_example :
    get_asset store coin (set_asset store coin token []).1 ≡ ok (some token)
unfolding set_asset
get_asset-set_asset_example = get_asset-set_asset store store-IsLawful coin token [] token_fits refl
