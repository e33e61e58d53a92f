-- ===== src/Actions/Transfer/Effects.antt =====
-- What a transfer moves, and what it leaves alone.
use nuklaivm.Prelude.{
  ℕ, ◌+◌, ◌-◌, ◌≤◌, ◌<◌, ◌^◌, ◌≡◌, ◌≢◌, sym, ap, ◌∙◌, ok, err, pure, ◌>>=◌, true, false, arith,
  length, ◌==◌, ltb, guard_ok, call_ok, Keeps, List, Bool,
}
use nuklaivm.Bytes.{Bytes}
use nuklaivm.Sdk.{Sdk, IsLawful, Error}
use nuklaivm.Storage.Keys.{balance_key, asset_key}
use nuklaivm.Storage.Keys.Separate.{balance_key-ne, asset_key-ne-balance_key}
use nuklaivm.Storage.Writes.{Writes, NotIn, Same-Writes, Same-refl}
use nuklaivm.Storage.Keeping.{storage_rules}
use nuklaivm.Storage.Balance.{get_balance, get_balance_entry, sub_balance, add_balance}
use nuklaivm.Storage.Balance.Effects.{
  sub_balance_ok, add_balance_ok, sub_balance_frame, add_balance_frame, get_balance_of_same,
  sub_balance_short,
}
use nuklaivm.Storage.Ledger.{total, Once, total-sub_balance, total-add_balance}
use nuklaivm.Storage.Asset.RoundTrip.{get_asset_of_same}
use nuklaivm.Storage.Backing.{Backed}
use nuklaivm.Actions.Receipt.{Receipt, Output, reject}
use nuklaivm.Actions.Transfer.{Transfer, execute, state_keys, max_memo_size, max_compute_units}

module _ {S : Type 0} (sdk : Sdk S) (t : Transfer) (actor : Bytes) where
  open sdk use {address_len}

  Keeps-transfer :
      {P : S → Type 0}
      → Writes sdk P (balance_key actor t.asset)
      → Writes sdk P (balance_key t.to t.asset)
      → Keeps P (execute sdk t actor)
  unfolding execute
  Keeps-transfer from to = search storage_rules depth 8

  module _ (laws : IsLawful sdk) (s : S) where
    -- A transfer writes no key but the two that it declares, however it ends.
    pub transfer_frame :
        (j : Bytes)
        → NotIn sdk j (state_keys t actor)
        → sdk.get_value (execute sdk t actor s).1 j ≡ sdk.get_value s j
    unfolding state_keys
    transfer_frame j ne =
        ((Keeps-transfer (Same-Writes sdk laws s j (balance_key actor t.asset) ne.0)
            (Same-Writes sdk laws s j (balance_key t.to t.asset) ne.1.0)).after
          s (Same-refl sdk s j)).same

    -- A transfer that succeeds is a debit followed by a credit.
    transfer_steps :
        {r : Receipt}
        → (execute sdk t actor s).0 ≡ ok r
        → let s1 = (sub_balance sdk actor t.asset t.value s).1 in
          let s2 = (add_balance sdk t.to t.asset t.value true s1).1 in
          ((t.value == 0) ≡ false)
          × (ltb max_memo_size (length t.memo) ≡ false)
          × ((sub_balance sdk actor t.asset t.value s).0 ≡ ok tt)
          × ((add_balance sdk t.to t.asset t.value true s1).0 ≡ ok tt)
          × ((execute sdk t actor s).1 ≡ s2)
    unfolding execute pure
    transfer_steps h =
        let (nonzero, r1, h1) = guard_ok _ _ _ s h in
        let (short, r2, h2) = guard_ok _ _ _ s h1 in
        let (_, debited, r3, h3) = call_ok _ _ _ s h2 in
        let (_, credited, r4, h4) = call_ok _ _ _ _ h3 in
        (nonzero, short, debited, credited, ap (λ p. p.1) (r1 ∙ r2 ∙ r3 ∙ r4))

    -- A transfer to another account that succeeds takes the value, which was covered, from the
    -- actor and gives it to the recipient, whose balance still fits a uint64.
    pub transfer_moves :
        {r : Receipt}
        → length actor ≡ length t.to
        → actor ≢ t.to
        → (execute sdk t actor s).0 ≡ ok r
        → let s' = (execute sdk t actor s).1 in
          (b : ℕ) × (c : ℕ) × (get_balance sdk actor t.asset s ≡ ok b)
          × (get_balance sdk t.to t.asset s ≡ ok c)
          × (t.value ≤ b)
          × (c + t.value < 2 ^ 64)
          × (get_balance sdk actor t.asset s' ≡ ok (b - t.value))
          × (get_balance sdk t.to t.asset s' ≡ ok (c + t.value))
    transfer_moves width ne h =
        let (_, _, debited, credited, end) = transfer_steps h in
        let s1 : S = (sub_balance sdk actor t.asset t.value s).1 in
        let s2 : S = (add_balance sdk t.to t.asset t.value true s1).1 in
        let (b, before, covered, left) = sub_balance_ok sdk laws actor t.asset t.value s debited in
        let (c, held, fits, got) = add_balance_ok sdk laws t.to t.asset t.value s1 credited in
        let to_same = get_balance_of_same sdk t.to t.asset s s1 (
          sub_balance_frame sdk laws actor t.asset t.value s (balance_key t.to t.asset)
            (balance_key-ne t.to t.asset actor t.asset (sym width) (λ e. ne (sym e)))) in
        let from_same = get_balance_of_same sdk actor t.asset s1 s2 (
          add_balance_frame sdk laws t.to t.asset t.value true s1 (balance_key actor t.asset)
            (balance_key-ne actor t.asset t.to t.asset width ne)) in
        (
          b,
          c,
          before,
          sym to_same ∙ held,
          covered,
          fits,
          ap (get_balance sdk actor t.asset) end ∙ from_same ∙ left,
          ap (get_balance sdk t.to t.asset) end ∙ got,
        )

    -- A transfer that succeeds, also one to oneself, leaves the sum of the balances of
    -- holders that list both parties once.
    pub transfer_conserves :
        {r : Receipt} (n : ℕ) (holders : List Bytes)
        → length actor ≡ n
        → length t.to ≡ n
        → Once n actor holders
        → Once n t.to holders
        → (execute sdk t actor s).0 ≡ ok r
        → total sdk t.asset holders (execute sdk t actor s).1 ≡ total sdk t.asset holders s
    transfer_conserves n holders wa wt ha ht h =
        let (_, _, debited, credited, end) = transfer_steps h in
        let s1 : S = (sub_balance sdk actor t.asset t.value s).1 in
        ap (total sdk t.asset holders) end
        ∙ omega (
          arith,
          total-sub_balance sdk t.asset laws n actor t.value s wa holders ha debited,
          total-add_balance sdk t.asset laws n t.to t.value s1 wt holders ht credited,
        )

    -- A transfer of more than the actor holds is refused, and writes nothing.
    pub transfer_uncovered :
        {b : ℕ} {p : Bool}
        → t.value ≢ 0
        → length t.memo ≤ max_memo_size
        → get_balance_entry sdk actor t.asset s ≡ ok (b, p)
        → b < t.value
        → execute sdk t actor s ≡ (err (reject 1 (Output.err_bytes Error.invalid_balance)), s)
    unfolding execute ◌>>=◌
    transfer_uncovered nz short e less =
        ground (arith, sub_balance_short sdk laws actor t.asset t.value s e less)

    -- Whatever the balances, too long a memo is refused at the price of CreateAsset, which is more
    -- than the units that the action declares as its maximum.
    pub transfer_memo_price :
        t.value ≢ 0
        → max_memo_size < length t.memo
        → (execute sdk t actor s ≡ (err (reject 5 Output.output_memo_too_large), s))
          × (max_compute_units < 5)
    unfolding execute ◌>>=◌
    transfer_memo_price nz long = (ground arith, omega arith)

    -- A transfer that succeeds between two listed holders keeps the supply equal to what the
    -- holders own together.
    pub transfer-Backed :
        {r : Receipt} (holders : List Bytes)
        → length actor ≡ address_len
        → length t.to ≡ address_len
        → Once address_len actor holders
        → Once address_len t.to holders
        → Backed sdk t.asset holders s
        → (execute sdk t actor s).0 ≡ ok r
        → Backed sdk t.asset holders (execute sdk t actor s).1
    unfolding state_keys
    transfer-Backed holders wa wt ha ht backed h = record {
      asset = backed.asset;
      stored =
          get_asset_of_same sdk laws t.asset s (execute sdk t actor s).1 (
            transfer_frame (asset_key t.asset) (
              asset_key-ne-balance_key actor t.asset t.asset,
              (asset_key-ne-balance_key t.to t.asset t.asset, tt),
            ))
          ∙ backed.stored;
      fits = backed.fits;
      exact = backed.exact ∙ sym (transfer_conserves address_len holders wa wt ha ht h);
    }
