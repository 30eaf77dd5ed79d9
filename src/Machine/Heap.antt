-- ===== src/Machine/Heap.antt =====
-- `malloc`, `free` and accesses to the blocks they give.
use crono_pci_linux.Base.{
  ℕ, ◌≡◌, ◌≢◌, refl, ◌⊎◌, inl, inr, false, Option, none, some, ◌==◌, ==-ne, Bool-cases, arith,
}
use crono_pci_linux.Types.{Ptr, Obj}
use crono_pci_linux.Os.{Os, is_live}
use crono_pci_linux.Machine.{Process, malloc, free, read, write, put}

dead_none : (o : Option Obj) → is_live o ≡ false → o ≡ none
dead_none none h = refl
dead_none (some o) h = absurd (ground arith)

pub some-none : (o : Obj) → some o ≡ none → ⊥
some-none o h = absurd (ground arith)

pub ==-sym_false : (a b : ℕ) → (a == b) ≡ false → (b == a) ≡ false
==-sym_false a b h = ground arith

pub ne_false : (a b : ℕ) → a ≢ b → (a == b) ≡ false
ne_false a b h = ground arith

module _ {W : Type 0} where
  -- A new block: its address is not NULL and was not in use.
  pub record Fresh (o : Obj) (s : Process W) (r : Option (Ptr × Process W)) : Type 0 where
    pub at : Ptr
    pub world : W
    pub ne_null : at ≢ 0
    pub unused : s.cells at ≡ none
    pub run : r ≡ some (at, put at (some o) (record s { world = world }))

  pub free-run :
      (p : Ptr) (o : Obj) (s : Process W)
      → (p == 0) ≡ false
      → s.cells p ≡ some o
      → free p s ≡ some (tt, put p none s)
  unfolding free
  free-run p o s ne h = rw (h, free, ne)

  pub write-run :
      (p : Ptr) (o new : Obj) (s : Process W)
      → (p == 0) ≡ false
      → s.cells p ≡ some o
      → write p new s ≡ some (tt, put p (some new) s)
  unfolding write
  write-run p o new s ne h = rw (h, write, ne)

  pub read-run :
      (p : Ptr) (o : Obj) (s : Process W)
      → (p == 0) ≡ false
      → s.cells p ≡ some o
      → read p s ≡ some (o, s)
  unfolding read
  read-run p o s ne h = rw (h, read, ne)

-- `malloc` gives a new block, or NULL.
pub malloc-cases :
    {W : Type 0} (os : Os W) (o : Obj) (s : Process W)
    → Fresh o s (malloc os o s)
      ⊎ (malloc os o s ≡ some (0, record s { world = (os.malloc s.world).1 }))
unfolding malloc
malloc-cases os o s =
    let p = (os.malloc s.world).0 in
    elim (Bool-cases (p == 0)) [
      | inl null ↦ inr (rw null)
      | inr some_ ↦ elim (Bool-cases (is_live (s.cells p))) [
        | inl live ↦ inr (rw (some_, live))
        | inr dead ↦ inl (record {
          at = p;
          world = (os.malloc s.world).1;
          ne_null = ==-ne p 0 some_;
          unused = dead_none (s.cells p) dead;
          run = rw (some_, dead);
        })
      ]
    ]
