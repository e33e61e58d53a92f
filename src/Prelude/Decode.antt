-- ===== src/Prelude/Decode.antt =====
-- `do` for results that change no state: decoders and queries.
use nuklaivm.Prelude.Monad.{Result, ok, err, panic}

-- `abbrev`, so that `ok a >>= f` computes wherever it stands.
infixl 5 ◌>>=◌
abbrev pub ◌>>=◌ : {E A B : Type 0} → Result E A → (A → Result E B) → Result E B
ok a >>= f = f a
err e >>= f = err e
panic >>= f = panic
