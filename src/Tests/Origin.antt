-- ===== src/Tests/Origin.antt =====
-- Genesis with a small allocation, and the queries of the emission balancer.
use nuklaivm.Prelude.{◌<◌, ◌^◌, ◌≡◌, refl, false, some, ok, [], ◌∷◌, arith, replicate, ◌>>=◌}
use nuklaivm.Bytes.{be64, be16, bytes_eq, of_be64}
use nuklaivm.Storage.Keys.{balance_key, asset_key}
use nuklaivm.Storage.Balance.{set_balance, get_balance, inner_get_balance}
use nuklaivm.Storage.Asset.{get_asset, set_asset}
use nuklaivm.Genesis.{native_symbol, native_decimals, native_name, load}
use nuklaivm.Genesis.Supply.{load_supply}
use nuklaivm.Tests.Store.{store, store-IsLawful}
use nuklaivm.Tests.Ledgers.{alice, bob}

loaded :
    (load store ok
      (ok tt)
      (record { address = alice; balance = 7 } ∷ record { address = bob; balance = 5 } ∷ [])
      []).0
    ≡ ok tt
unfolding load ◌>>=◌ set_balance set_asset
loaded = refl

load_supply_example :
    (12 < 2 ^ 64)
    × (get_asset store
          (replicate 32 0)
          (load store ok
            (ok tt)
            (record { address = alice; balance = 7 } ∷ record { address = bob; balance = 5 } ∷ [])
            []).1
        ≡ ok (
            some (record {
              symbol = native_symbol;
              decimals = native_decimals;
              metadata = native_name;
              supply = 12;
              owner = replicate 33 0;
              warp = false;
            })))
load_supply_example =
    load_supply store ok store-IsLawful (ok tt)
      (record { address = alice; balance = 7 } ∷ record { address = bob; balance = 5 } ∷ []) []
      (omega arith) loaded

-- An address that the allocation lists twice holds its last balance alone, while the supply counts
-- both.
listed_twice :
    get_balance store alice
      (replicate 32 0)
      (load store ok
        (ok tt)
        (record { address = alice; balance = 7 } ∷ record { address = alice; balance = 5 } ∷ [])
        []).1
    ≡ ok 5
unfolding load ◌>>=◌ set_balance set_asset get_balance inner_get_balance balance_key asset_key be64
    be16 of_be64 bytes_eq
listed_twice = refl
