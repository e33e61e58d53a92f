-- ===== src/Prelude/Word.antt =====
-- uint64 arithmetic, which wraps around.
use Prim.Native.Nat.{ℕ, ◌+◌, ◌-◌, ◌%◌, ◌^◌}

infixl 65 ◌+w◌ ◌-w◌
abbrev pub ◌+w◌ : ℕ → ℕ → ℕ
a +w b = (a + b) % 2 ^ 64

-- the minuend gets the modulus first, since `-` on ℕ stops at 0
abbrev pub ◌-w◌ : ℕ → ℕ → ℕ
a -w b = (a + 2 ^ 64 - b) % 2 ^ 64
