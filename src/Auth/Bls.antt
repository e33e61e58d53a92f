-- ===== src/Auth/Bls.antt =====
-- auth/bls.go. Keys, signatures and addresses are the hypersdk's: the parameter `Crypto`.
use nuklaivm.Prelude.{ℕ, Bool, Result, ok, err, M, pure, lift, ◌>>=◌, ◌>>◌, if◌then◌else◌}
use nuklaivm.Bytes.{Bytes}
use nuklaivm.Sdk.{Sdk, Error}
use nuklaivm.Codec.{Writer, Reader, takes, check, ◌▹◌}

-- `K` and `G` are bls.PublicKey and bls.Signature.
pub record Crypto (K G : Type 0) : Type 0 where
  pub public_key_len : ℕ
  pub signature_len : ℕ
  pub public_key_from_bytes : Bytes → Result Error K
  pub public_key_to_bytes : K → Bytes
  pub signature_from_bytes : Bytes → Result Error G
  pub signature_to_bytes : G → Bytes
  -- bls.Verify: the message, the key and the signature
  pub verifies : Bytes → K → G → Bool
  -- crypto.ErrInvalidSignature
  pub invalid_signature : Error
  -- codec.CreateAddress: a type and an ID
  pub create_address : ℕ → Bytes → Bytes
  -- codec.MustAddressBech32, with the program's prefix
  pub address_bech32 : Bytes → Bytes

-- The address is computed from the signer each time: the source keeps it in a field, once it has.
pub record Bls (K G : Type 0) : Type 0 where
  pub signer : K
  pub signature : G

-- consts.BLSID
abbrev pub bls_id : ℕ
bls_id = 2

module _ {S K G : Type 0} (sdk : Sdk S) (crypto : Crypto K G) where
  open crypto use {
    public_key_len, signature_len, public_key_from_bytes, public_key_to_bytes, signature_from_bytes,
    signature_to_bytes, verifies, invalid_signature, create_address,
  }

  unfoldable pub new_bls_address : K → Bytes
  new_bls_address key = create_address bls_id (sdk.hash_id (public_key_to_bytes key))

  unfoldable pub actor_of : Bls K G → Bytes
  unfolding new_bls_address
  actor_of b = new_bls_address b.signer

  unfoldable pub verify : Bls K G → Bytes → Result Error (Unit {0})
  verify b msg = if verifies msg b.signer b.signature then ok tt else err invalid_signature

  unfoldable pub marshal : {W O : Type 0} → Writer W O → Bls K G → W → W
  marshal writer b p =
      p
      ▹ writer.pack_fixed_bytes (public_key_to_bytes b.signer)
      ▹ writer.pack_fixed_bytes (signature_to_bytes b.signature)

  unfoldable pub unmarshal : {R P : Type 0} → Reader R P → M R Error (Bls K G)
  unmarshal reader = do
    signer ← takes (reader.unpack_fixed_bytes public_key_len)
    signature ← takes (reader.unpack_fixed_bytes signature_len)
    key ← lift (public_key_from_bytes signer)
    sig ← lift (signature_from_bytes signature)
    check reader.reader_err
    pure (record { signer = key; signature = sig })
