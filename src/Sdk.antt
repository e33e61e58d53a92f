-- ===== src/Sdk.antt =====
-- What the program takes from avalanchego and the hypersdk, as parameters: the widths of their
-- arrays, checked arithmetic (utils/math), and the key-value view of the state (state.Mutable).
-- Nothing here models a line of the repository.
pub mod Arithmetic
use nuklaivm.Prelude.{ℕ, ◌+◌, ◌-◌, ◌^◌, ◌≤◌, ◌<◌, ◌≡◌, ◌≢◌, Result, ok, err, length}
use nuklaivm.Bytes.{Bytes}

-- Errors as the program tells them apart: `not_found` is `database.ErrNotFound`; `foreign` is
-- any other error of a dependency; the rest are the program's own (storage/errors.go,
-- emission/errors.go, actions/errors.go).
pub data Error : Type 0 where
  not_found : Error
  foreign : ℕ → Error
  invalid_balance : Error
  validator_not_found delegator_already_staked delegator_not_found : Error
  no_swap_to_fill invalid_object : Error

pub record Sdk (S : Type 0) : Type 0 where
  -- codec.AddressLen, consts.IDLen, consts.NodeIDLen
  pub address_len : ℕ
  pub id_len : ℕ
  pub node_id_len : ℕ
  -- ids.ToID and ids.ToNodeID: a slice as an array; utils.ToID: the hash of a slice
  pub to_id : Bytes → Result Error Bytes
  pub to_node_id : Bytes → Result Error Bytes
  pub hash_id : Bytes → Bytes
  -- hmath.Add64, hmath.Sub
  pub add64 : ℕ → ℕ → Result Error ℕ
  pub sub : ℕ → ℕ → Result Error ℕ
  -- state.Mutable
  pub get_value : S → Bytes → Result Error Bytes
  pub insert : Bytes → Bytes → S → Result Error (Unit {0}) × S
  pub remove : Bytes → S → Result Error (Unit {0}) × S

-- The documented behaviour that the theorems rest on: a slice is an ID exactly if it has the
-- width of one, checked arithmetic fails exactly on overflow, a write that succeeds is read back, and a write touches no other key.
pub record IsLawful {S : Type 0} (sdk : Sdk S) : Type 0 where
  pub to_id_exact : (b : Bytes) → length b ≡ sdk.id_len → sdk.to_id b ≡ ok b
  pub to_id_width : (b c : Bytes) → sdk.to_id b ≡ ok c → (c ≡ b) × (length b ≡ sdk.id_len)
  pub to_node_id_width :
      (b c : Bytes) → sdk.to_node_id b ≡ ok c → (c ≡ b) × (length b ≡ sdk.node_id_len)
  pub hash_id_width : (b : Bytes) → length (sdk.hash_id b) ≡ sdk.id_len
  pub add64_fits : (a b : ℕ) → a + b < 2 ^ 64 → sdk.add64 a b ≡ ok (a + b)
  pub add64_overflow : (a b : ℕ) → 2 ^ 64 ≤ a + b → (e : Error) × (sdk.add64 a b ≡ err e)
  pub sub_fits : (a b : ℕ) → b ≤ a → sdk.sub a b ≡ ok (a - b)
  pub sub_underflow : (a b : ℕ) → a < b → (e : Error) × (sdk.sub a b ≡ err e)
  pub get-insert :
      (k v : Bytes) (s : S)
      → (sdk.insert k v s).0 ≡ ok tt
      → sdk.get_value (sdk.insert k v s).1 k ≡ ok v
  pub get-insert_ne :
      (k v j : Bytes) (s : S) → j ≢ k → sdk.get_value (sdk.insert k v s).1 j ≡ sdk.get_value s j
  pub get-remove :
      (k : Bytes) (s : S)
      → (sdk.remove k s).0 ≡ ok tt
      → sdk.get_value (sdk.remove k s).1 k ≡ err Error.not_found
  pub get-remove_ne :
      (k j : Bytes) (s : S) → j ≢ k → sdk.get_value (sdk.remove k s).1 j ≡ sdk.get_value s j
