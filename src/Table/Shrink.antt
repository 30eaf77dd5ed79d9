-- ===== src/Table/Shrink.antt =====
-- The loop at the end of `freeDeviceMem` that lowers `iNewDev`.
use crono_pci_linux.Base.{
  ℕ, zero, suc, ◌≤◌, ◌<◌, ◌≡◌, ◌≢◌, refl, inl, inr, some, List, ◌==◌, ==-eq, ==-ne, length, get_or,
  get_elem?-get_or, Bool-cases, arith,
}
use crono_pci_linux.Types.{Ptr}
use crono_pci_linux.Table.{shrink}

-- What the loop leaves: the largest index up to `n` whose slot is in use, or 0.
pub record Shrunk (n : ℕ) (ds : List Ptr) (k : ℕ) : Type 0 where
  pub at_most : k ≤ n
  pub in_use : 0 < k → get_or ds k 0 ≢ 0
  pub free_above : (i : ℕ) → k < i → i ≤ n → get_or ds i 0 ≡ 0

skip_free :
    (n : ℕ) (ds : List Ptr) (k : ℕ) → get_or ds (suc n) 0 ≡ 0 → Shrunk n ds k → Shrunk (suc n) ds k
skip_free n ds k free_ h = record {
  at_most = let a = h.at_most in omega arith;
  in_use = h.in_use;
  free_above = λ i low high. elim (Bool-cases (i == suc n)) [
    | inl last ↦ rw (==-eq i (suc n) last) free_
    | inr below ↦ h.free_above i low (let ne = ==-ne i (suc n) below in omega arith)
  ];
}

pub shrink-Shrunk :
    (n : ℕ) (ds : List Ptr) → n < length ds → (k : ℕ) × (shrink n ds ≡ some k) × Shrunk n ds k
unfolding shrink
shrink-Shrunk zero ds h = (
  0,
  refl,
  record {
    at_most = omega arith;
    in_use = λ p. absurd (omega arith);
    free_above = λ i low high. absurd (omega arith);
  },
)
shrink-Shrunk (suc n) ds h =
    rw (get_elem?-get_or ds (suc n) 0 h, shrink)
      (elim (Bool-cases (get_or ds (suc n) 0 == 0)) [
        | inl free_ ↦
            let (k, run, s) = shrink-Shrunk n ds (omega arith) in
            rw free_ (k, run, skip_free n ds k (==-eq _ 0 free_) s)
        | inr used ↦ rw used (
          suc n,
          refl,
          record {
            at_most = omega arith;
            in_use = λ p e. ==-ne _ 0 used e;
            free_above = λ i low high. absurd (omega arith);
          },
        )
      ])
