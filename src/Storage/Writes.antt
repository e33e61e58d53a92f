-- ===== src/Storage/Writes.antt =====
-- Which keys a call writes: the rules by which a call that writes some keys alone keeps what is
-- stored under the others.
use nuklaivm.Prelude.{
  ◌≡◌, ◌≢◌, refl, ap, M, ok, or_fail, call_ok, ◌>>=◌, ◌∙◌, List, [], ◌∷◌, ◌++◌, Keeps, keeps_rules,
}
use nuklaivm.Bytes.{Bytes}
use nuklaivm.Sdk.{Sdk, IsLawful}

module _ {S : Type 0} (sdk : Sdk S) where
  open sdk use {get_value, insert, remove}

  -- Whatever is written under `k`, `P` still holds.
  pub record Writes (P : S → Type 0) (k : Bytes) : Type 0 where
    pub inserts : (v : Bytes) → Keeps P (insert k v)
    pub removes : Keeps P (remove k)

  abbrev pub NotIn : Bytes → List Bytes → Type 0
  NotIn j [] = Unit {0}
  NotIn j (k ∷ ks) = (j ≢ k) × NotIn j ks

  pub NotIn-append : (j : Bytes) (ks ls : List Bytes) → NotIn j (ks ++ ls) → NotIn j ks × NotIn j ls
  NotIn-append j [] ls h = (tt, h)
  NotIn-append j (k ∷ ks) ls h = let (a, b) = NotIn-append j ks ls h.1 in ((h.0, a), b)

  -- Every key but the listed ones holds in `t` what it held in `s`.
  abbrev pub Untouched : List Bytes → S → S → Type 0
  Untouched keys s t = (j : Bytes) → NotIn j keys → get_value t j ≡ get_value s j

  -- `j` holds what it held in `s`.
  pub record Same (s : S) (j : Bytes) (t : S) : Type 0 where
    pub same : get_value t j ≡ get_value s j

  pub Same-refl : (s : S) (j : Bytes) → Same s j s
  Same-refl s j = record { same = refl }

  pub Same-Writes : IsLawful sdk → (s : S) (j k : Bytes) → j ≢ k → Writes (Same s j) k
  Same-Writes laws s j k ne = record {
    inserts =
        λ v. record { after = λ t p. record { same = laws.get-insert_ne k v j t ne ∙ p.same } };
    removes = record { after = λ t p. record { same = laws.get-remove_ne k j t ne ∙ p.same } };
  }

  -- What follows a call that succeeds leaves the key as the call has left it.
  pub call_kept :
      {E F A B : Type 0} (f : F → E) (m : M S F A) (k : A → M S E B) (s : S) (j : Bytes) {b : B}
      → ((or_fail f m >>= k) s).0 ≡ ok b
      → ((t : S) (a : A) → Keeps (Same t j) (k a))
      → get_value ((or_fail f m >>= k) s).1 j ≡ get_value (m s).1 j
  call_kept f m k s j h keeps =
      let (a, _, r, _) = call_ok f m k s h in
      ap (λ p. get_value p.1 j) r ∙ ((keeps (m s).1 a).after (m s).1 (Same-refl (m s).1 j)).same

  pub Keeps-insert : {P : S → Type 0} (k v : Bytes) → Writes P k → Keeps P (insert k v)
  Keeps-insert k v w = w.inserts v

  pub Keeps-remove : {P : S → Type 0} (k : Bytes) → Writes P k → Keeps P (remove k)
  Keeps-remove k w = w.removes

pub ruleset write_rules = (keeps_rules, Keeps-insert, Keeps-remove)
