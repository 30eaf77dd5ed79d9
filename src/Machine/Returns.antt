-- ===== src/Machine/Returns.antt =====
-- Total correctness of a run: it is defined, and its result and state meet a postcondition.
use crono_pci_linux.Base.{◌≡◌, refl, Option, none, some}
use crono_pci_linux.Machine.{Process, M, ◌>>=◌}

pub data Returns {W A : Type 0} (P : A → Process W → Type 0) : Option (A × Process W) → Type 0 where
  returns : {a : A} {s : Process W} → P a s → Returns P (some (a, s))

module _ {W A : Type 0} {P : A → Process W → Type 0} where
  pub bind :
      {B : Type 0} {Q : B → Process W → Type 0} (m : M W A) (f : A → M W B) (s : Process W)
      → Returns P (m s)
      → ((a : A) (s' : Process W) → P a s' → Returns Q (f a s'))
      → Returns Q ((m >>= f) s)
  bind {B} {Q} m f s r k = go (m s) r
    where
      go :
          (x : Option (A × Process W))
          → Returns P x
          → Returns Q (elim x [ none ↦ none | some (a, s') ↦ f a s' ])
      go _ (returns p) = k _ _ p

  pub mono :
      {Q : A → Process W → Type 0} {x : Option (A × Process W)}
      → Returns P x
      → ((a : A) (s : Process W) → P a s → Q a s)
      → Returns Q x
  mono (returns p) weaken = returns (weaken _ _ p)

  -- What a run that is known gives.
  pub elim_run :
      {x : Option (A × Process W)}
      → Returns P x
      → (a : A) × (s : Process W) × (x ≡ some (a, s)) × P a s
  elim_run (returns {a} {s} p) = (a, s, refl, p)

  pub returned : {a : A} {s : Process W} → Returns P (some (a, s)) → P a s
  returned (returns p) = p
