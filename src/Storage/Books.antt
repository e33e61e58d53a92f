-- ===== src/Storage/Books.antt =====
-- The books of one asset: what its holders own together, and what is lent to other chains. The
-- rules by which a call built from storage calls changes them.
pub mod Rules
pub mod Writes
pub mod Steps
pub mod Supplies
pub mod Lending
use nuklaivm.Prelude.{ℕ, ◌+◌, ◌≡◌, Bool, true, false, ok, err, panic, List, M, if◌then◌else◌}
use nuklaivm.Bytes.{Bytes, bytes_eq}
use nuklaivm.Sdk.{Sdk}
use nuklaivm.Storage.Loan.{get_loan}
use nuklaivm.Storage.Ledger.{total, sum, ok_or_zero}

-- What a call adds to and takes from the two sums.
pub record Change : Type 0 where
  pub held_up : ℕ
  pub held_down : ℕ
  pub lent_up : ℕ
  pub lent_down : ℕ

abbrev pub nothing : Change
nothing = record { held_up = 0; held_down = 0; lent_up = 0; lent_down = 0 }

abbrev pub credits : ℕ → Change
credits n = record nothing { held_up = n }

abbrev pub debits : ℕ → Change
debits n = record nothing { held_down = n }

abbrev pub lends : ℕ → Change
lends n = record nothing { lent_up = n }

abbrev pub recovers : ℕ → Change
recovers n = record nothing { lent_down = n }

abbrev pub plus : Change → Change → Change
plus c d = record {
  held_up = c.held_up + d.held_up;
  held_down = c.held_down + d.held_down;
  lent_up = c.lent_up + d.lent_up;
  lent_down = c.lent_down + d.lent_down;
}

-- An amount of the asset `y`, as it counts in the books of `x`.
unfoldable pub weight : Bytes → Bytes → ℕ → ℕ
weight x y n = if bytes_eq y x then n else 0

-- A payment to another chain: what is held becomes lent, and back.
abbrev pub lent_out : ℕ → Change
lent_out n = record nothing { held_down = n; lent_up = n }

abbrev pub returned : ℕ → Change
returned n = record nothing { held_up = n; lent_down = n }

module _ {S : Type 0} (sdk : Sdk S) (x : Bytes) where
  abbrev pub lent : List Bytes → S → ℕ
  lent chains s = sum (λ d. ok_or_zero (get_loan sdk x d s)) chains

  -- A call that succeeds changes the two sums by exactly this.
  pub record Moves (holders chains : List Bytes) {E A : Type 0} (c : Change) (m : M S E A)
      : Type 0 where
    pub held :
        (s : S) {a : A}
        → (m s).0 ≡ ok a
        → total sdk x holders (m s).1 + c.held_down ≡ total sdk x holders s + c.held_up
    pub lends :
        (s : S) {a : A}
        → (m s).0 ≡ ok a
        → lent chains (m s).1 + c.lent_down ≡ lent chains s + c.lent_up
