-- ===== src/Actions/ImportAsset/Codec.antt =====
-- actions/import_asset.go: Size, Marshal and Unmarshal, and StateKeysMaxChunks.
use nuklaivm.Prelude.{
  ℕ, ◌≤◌, ◌<◌, ◌≡◌, Bool, true, false, ◌&&◌, Result, ok, err, panic, List, [], ◌∷◌, M, pure, lift,
  raise_if, ◌>>=◌, ◌>>◌, if◌then◌else◌, replicate, ltb, ◌==◌, arith, length, Bool-cases, inl, inr,
  ◌⊎◌, subst, err≢ok, step_ok, lift_ok, guard_ok,
}
use nuklaivm.Bytes.{Bytes}
use nuklaivm.Sdk.{Sdk, Error}
use nuklaivm.Codec.{Writer, Reader, takes, check}
use nuklaivm.Storage.Keys.{asset_chunks, balance_chunks, loan_chunks}
use nuklaivm.Actions.WarpTransfer.{
  WarpTransfer, valid_swap_params, and_then, with_valid_swap, read_transfer,
}
use nuklaivm.Actions.WarpTransfer
use nuklaivm.Actions.ImportAsset.{ImportAsset, state_keys}

unfoldable pub state_keys_max_chunks : ImportAsset → List ℕ
state_keys_max_chunks i =
    loan_chunks
    ∷ asset_chunks
    ∷ balance_chunks
    ∷ balance_chunks
    ∷ (if i.fill then balance_chunks ∷ balance_chunks ∷ balance_chunks ∷ [] else [])

abbrev pub size : ℕ
size = 1

unfoldable pub marshal : {W O : Type 0} → Writer W O → ImportAsset → W → W
marshal writer i p = writer.pack_bool i.fill p

transfer_inj : {x y : WarpTransfer} → ◌≡◌ {A = Result Error WarpTransfer} (ok x) (ok y) → x ≡ y
transfer_inj h = cc

import_inj : {x y : ImportAsset} → ◌≡◌ {A = Result Error ImportAsset} (ok x) (ok y) → x ≡ y
import_inj h = cc

panic≢ok : {w : WarpTransfer} → ¬ (◌≡◌ {A = Result Error WarpTransfer} panic (ok w))
panic≢ok h = cc

module _ {S : Type 0} (sdk : Sdk S) where
  module _ {R P : Type 0} (reader : Reader R P) where
    -- The message, as the network has delivered it: its source chain and its payload.
    unfoldable pub unmarshal : Bytes → Bytes → M R Error ImportAsset
    unfolding WarpTransfer.unmarshal
    unmarshal source_chain_id payload = do
      fill ← takes reader.unpack_bool
      check reader.reader_err
      w ← lift (WarpTransfer.unmarshal sdk reader payload)
      raise_if (fill && (w.swap_in == 0)) Error.no_swap_to_fill
      pure (record { fill = fill; warp_transfer = w; source_chain_id = source_chain_id })

  -- An import has no more keys than StateKeysMaxChunks declares.
  pub chunks_cover_keys :
      (i : ImportAsset) (actor : Bytes)
      → length (state_keys sdk i actor) ≤ length (state_keys_max_chunks i)
  unfolding state_keys state_keys_max_chunks
  chunks_cover_keys i actor = ground arith

  valid_if_kept :
      {R P : Type 0} (reader : Reader R P) (x : Result Error WarpTransfer) {w : WarpTransfer}
      → and_then sdk reader x (with_valid_swap sdk reader) ≡ ok w
      → valid_swap_params
          (replicate sdk.id_len 0)
          w.value
          w.swap_in
          w.asset_out
          w.swap_out
          w.swap_expiry
        ≡ true
  valid_if_kept reader (err e) h = absurd (err≢ok h)
  valid_if_kept reader panic h = absurd (panic≢ok h)
  valid_if_kept reader (ok v) {w} h =
      elim (Bool-cases (
        valid_swap_params (replicate sdk.id_len 0) v.value v.swap_in v.asset_out v.swap_out
          v.swap_expiry)) [
            | inl b ↦
                subst
                  (λ (x : WarpTransfer).
                    valid_swap_params (replicate sdk.id_len 0) x.value x.swap_in x.asset_out
                      x.swap_out x.swap_expiry
                    ≡ true)
                  (transfer_inj (rw b at h)) b
            | inr b ↦ absurd (err≢ok (rw b at h))
          ]

  -- What the checks of a swap leave: none is asked for, or one that the value covers.
  swap_cases :
      (w : WarpTransfer) (fill : Bool)
      → valid_swap_params
          (replicate sdk.id_len 0)
          w.value
          w.swap_in
          w.asset_out
          w.swap_out
          w.swap_expiry
        ≡ true
      → (fill && (w.swap_in == 0)) ≡ false
      → ((fill ≡ false) × (w.swap_in ≡ 0) × (w.swap_out ≡ 0))
        ⊎ ((0 < w.swap_in) × (w.swap_in ≤ w.value) × (0 < w.swap_out))
  unfolding valid_swap_params
  swap_cases w fill valid filled = elim (Bool-cases (ltb 0 w.swap_in)) [
    | inl b ↦ inr (ground arith, ground arith, ground arith)
    | inr b ↦ inl (ground arith, ground arith, ground arith)
  ]

  -- An import that Unmarshal accepts asks for no swap and fills none, or asks for a swap of at most
  -- its value against an amount that is not 0.
  pub unmarshal_swaps :
      {R P : Type 0} (reader : Reader R P) (source_chain_id payload : Bytes) (r : R)
      {i : ImportAsset}
      → (unmarshal reader source_chain_id payload r).0 ≡ ok i
      → let w = i.warp_transfer in
        ((i.fill ≡ false) × (w.swap_in ≡ 0) × (w.swap_out ≡ 0))
        ⊎ ((0 < w.swap_in) × (w.swap_in ≤ w.value) × (0 < w.swap_out))
  unfolding unmarshal WarpTransfer.unmarshal pure
  unmarshal_swaps reader source_chain_id payload r h =
      let (fill, _, r1, h1) = step_ok _ _ r h in
      let (_, _, r2, h2) = step_ok _ _ _ h1 in
      let (w, read, r3, h3) = lift_ok _ _ _ h2 in
      let (filled, r4, h4) = guard_ok _ _ _ _ h3 in
      let e = import_inj h4 in
      subst
        (λ (x : ImportAsset).
          ((x.fill ≡ false) × (x.warp_transfer.swap_in ≡ 0) × (x.warp_transfer.swap_out ≡ 0))
          ⊎ ((0 < x.warp_transfer.swap_in)
              × (x.warp_transfer.swap_in ≤ x.warp_transfer.value)
              × (0 < x.warp_transfer.swap_out)))
        e
        (swap_cases w fill
          (valid_if_kept reader
            (read_transfer sdk reader (
              reader.new_reader payload (
                WarpTransfer.size_with sdk (reader.bytes_len_size WarpTransfer.max_symbol_size)))).0
            read)
          filled)
