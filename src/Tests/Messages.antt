-- ===== src/Tests/Messages.antt =====
-- The message of an import, written and read.
use nuklaivm.Prelude.{
  ◌≡◌, ◌≤◌, ◌<◌, ◌⊎◌, refl, false, ok, err, panic, [], ◌∷◌, ◌>>=◌, Result, length,
}
use nuklaivm.Bytes.{Bytes, be64, of_be64, bytes_eq}
use nuklaivm.Sdk.{Error}
use nuklaivm.Codec.{takes, check}
use nuklaivm.Actions.WarpTransfer.{
  WarpTransfer, size, pack_swap, unpack_swap, read_transfer, valid_swap_params,
}
use nuklaivm.Actions.WarpTransfer
use nuklaivm.Actions.ImportAsset.{state_keys}
use nuklaivm.Actions.ImportAsset.Codec.{
  unmarshal, unmarshal_swaps, chunks_cover_keys, state_keys_max_chunks,
}
use nuklaivm.Tests.Store.{store}
use nuklaivm.Tests.Packer.{writer, reader}
use nuklaivm.Tests.Ledgers.{bob}
use nuklaivm.Tests.Accounts.{receiving, abroad}

abbrev bytes_of : Result Error Bytes → Bytes
bytes_of (ok b) = b
bytes_of (err e) = []
bytes_of panic = []

abbrev payload : Bytes
payload = bytes_of (WarpTransfer.marshal store writer (receiving.warp_transfer))

received : (unmarshal store reader abroad payload (1 ∷ [])).0 ≡ ok receiving
unfolding unmarshal WarpTransfer.unmarshal WarpTransfer.marshal size pack_swap unpack_swap
    read_transfer valid_swap_params ◌>>=◌ takes check be64 of_be64 bytes_eq
received = refl

unmarshal_swaps_example :
    let w = receiving.warp_transfer in
    ((receiving.fill ≡ false) × (w.swap_in ≡ 0) × (w.swap_out ≡ 0))
    ⊎ ((0 < w.swap_in) × (w.swap_in ≤ w.value) × (0 < w.swap_out))
unmarshal_swaps_example =
    unmarshal_swaps store reader abroad payload (1 ∷ []) {i = receiving} received

chunks_cover_keys_example :
    length (state_keys store receiving bob) ≤ length (state_keys_max_chunks receiving)
chunks_cover_keys_example = chunks_cover_keys store receiving bob
