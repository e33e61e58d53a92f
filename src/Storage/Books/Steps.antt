-- ===== src/Storage/Books/Steps.antt =====
-- What may happen to an asset, seen from its books: the recorded supply, what the holders own
-- together, and what is lent to other chains.
use nuklaivm.Prelude.{ℕ, ◌+◌, ◌≡◌, List, ok, M, arith}
use nuklaivm.Bytes.{Bytes}
use nuklaivm.Sdk.{Sdk}
use nuklaivm.Storage.Ledger.{total}
use nuklaivm.Storage.Books.{lent, Change, Moves}
use nuklaivm.Storage.Books.Supplies.{supply_of}

pub record Sums : Type 0 where
  pub supply : ℕ
  pub held : ℕ
  pub lent : ℕ

-- A step on the books. Supply is only ever created in the hands of a holder, and only ever
-- destroyed out of them.
pub data Step (b c : Sums) : Type 0 where
  -- between holders, or nothing at all
  moved : c.supply ≡ b.supply → c.held ≡ b.held → c.lent ≡ b.lent → Step b c
  issued : (n : ℕ) → c.supply ≡ b.supply + n → c.held ≡ b.held + n → c.lent ≡ b.lent → Step b c
  retired : (n : ℕ) → c.supply + n ≡ b.supply → c.held + n ≡ b.held → c.lent ≡ b.lent → Step b c
  -- to another chain, and back
  sent_out : (n : ℕ) → c.supply ≡ b.supply → c.held + n ≡ b.held → c.lent ≡ b.lent + n → Step b c
  came_back : (n : ℕ) → c.supply ≡ b.supply → c.held ≡ b.held + n → c.lent + n ≡ b.lent → Step b c

-- Any number of steps.
pub data Steps (b : Sums) : Sums → Type 0 where
  no_step : Steps b b
  then_step : {c d : Sums} → Steps b c → Step c d → Steps b d

-- Every unit of the supply is in the hands of a holder or on loan.
pub record Balanced (b : Sums) : Type 0 where
  pub exact : b.supply ≡ b.held + b.lent

pub Step-Balanced : {b c : Sums} → Step b c → Balanced b → Balanced c
Step-Balanced (moved s h l) p = record { exact = omega (arith, s, h, l, p.exact) }
Step-Balanced (issued n s h l) p = record { exact = omega (arith, s, h, l, p.exact) }
Step-Balanced (retired n s h l) p = record { exact = omega (arith, s, h, l, p.exact) }
Step-Balanced (sent_out n s h l) p = record { exact = omega (arith, s, h, l, p.exact) }
Step-Balanced (came_back n s h l) p = record { exact = omega (arith, s, h, l, p.exact) }

pub Steps-Balanced : {b c : Sums} → Steps b c → Balanced b → Balanced c
Steps-Balanced no_step p = p
Steps-Balanced (then_step path step) p = Step-Balanced step (Steps-Balanced path p)

module _ {S : Type 0} (sdk : Sdk S) (x : Bytes) (holders chains : List Bytes) where
  -- The books of an asset in a state.
  abbrev pub sums : S → Sums
  sums s = record {
    supply = supply_of sdk x s;
    held = total sdk x holders s;
    lent = lent sdk x chains s;
  }

  -- How a successful call moves the books of an asset, once its effect on the two sums is known.
  module _ {E A : Type 0} {c : Change} {m : M S E A} (moves : Moves sdk x holders chains c m)
      {s : S} {a : A} (h : (m s).0 ≡ ok a) where
    pub Step-moved :
        supply_of sdk x (m s).1 ≡ supply_of sdk x s
        → c.held_up ≡ c.held_down
        → c.lent_up ≡ c.lent_down
        → Step (sums s) (sums (m s).1)
    Step-moved same held lends =
        moved same (omega (arith, moves.held s h, held)) (omega (arith, moves.lends s h, lends))

    pub Step-issued :
        (n : ℕ)
        → supply_of sdk x (m s).1 ≡ supply_of sdk x s + n
        → c.held_up ≡ c.held_down + n
        → c.lent_up ≡ c.lent_down
        → Step (sums s) (sums (m s).1)
    Step-issued n more held lends =
        issued n more (omega (arith, moves.held s h, held)) (omega (arith, moves.lends s h, lends))

    pub Step-retired :
        (n : ℕ)
        → supply_of sdk x (m s).1 + n ≡ supply_of sdk x s
        → c.held_up + n ≡ c.held_down
        → c.lent_up ≡ c.lent_down
        → Step (sums s) (sums (m s).1)
    Step-retired n less held lends =
        retired n less (omega (arith, moves.held s h, held)) (omega (arith, moves.lends s h, lends))

    pub Step-sent_out :
        (n : ℕ)
        → supply_of sdk x (m s).1 ≡ supply_of sdk x s
        → c.held_up + n ≡ c.held_down
        → c.lent_up ≡ c.lent_down + n
        → Step (sums s) (sums (m s).1)
    Step-sent_out n same held lends =
        sent_out n same (omega (arith, moves.held s h, held))
          (omega (arith, moves.lends s h, lends))

    pub Step-came_back :
        (n : ℕ)
        → supply_of sdk x (m s).1 ≡ supply_of sdk x s
        → c.held_up ≡ c.held_down + n
        → c.lent_up + n ≡ c.lent_down
        → Step (sums s) (sums (m s).1)
    Step-came_back n same held lends =
        came_back n same (omega (arith, moves.held s h, held))
          (omega (arith, moves.lends s h, lends))
