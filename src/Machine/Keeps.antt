-- ===== src/Machine/Keeps.antt =====
-- Partial correctness of a run: a predicate on the heap and the globals that it keeps if it is
-- defined.
use crono_pci_linux.Base.{
  ℕ, ◌≡◌, ap, subst, arith, ◌==◌, Bool, true, false, Option, none, some, List, [], ◌∷◌,
  if◌then◌else◌,
}
use crono_pci_linux.Types.{Text, Ptr, Obj}
use crono_pci_linux.Os.{Reply, done, fail, Access, Os, is_mapped}
use crono_pci_linux.Machine.Returns.{Returns, returns}
use crono_pci_linux.Machine.{
  Process, M, pure, ◌>>=◌, undefined, gets, get_errno, call, read, open_file, close, opendir,
  closedir, mmap, munmap, pread, pwrite, load, store,
}

pub data Ends {W A : Type 0} (P : A → Process W → Type 0) : Option (A × Process W) → Type 0 where
  stuck : Ends P none
  ends : {a : A} {s : Process W} → P a s → Ends P (some (a, s))

-- What holds of the heap, the table and its count.
abbrev pub Predicate : Type 1
Predicate = (Ptr → Option Obj) → List Ptr → ℕ → Type 0

abbrev pub At : {W : Type 0} → Predicate → Process W → Type 0
At I s = I s.cells s.devices s.i_new_dev

-- From a state with `I`, `m` ends in one with `J` if it is defined.
pub record Leads {W A : Type 0} (I J : Predicate) (m : M W A) : Type 0 where
  pub run : (s : Process W) → At I s → Ends (λ _ t. At J t) (m s)

-- `m` keeps `I`.
abbrev pub Keeps : {W A : Type 0} → Predicate → M W A → Type 0
Keeps I m = Leads I I m

module _ {W A : Type 0} where
  pub Ends-if :
      {P : A → Process W → Type 0} (c : Bool) {x y : Option (A × Process W)}
      → Ends P x
      → Ends P y
      → Ends P (if c then x else y)
  Ends-if true h k = h
  Ends-if false h k = k

  pub Ends-mono :
      {P Q : A → Process W → Type 0} {x : Option (A × Process W)}
      → Ends P x
      → ((a : A) (s : Process W) → P a s → Q a s)
      → Ends Q x
  Ends-mono stuck weaken = stuck
  Ends-mono (ends p) weaken = ends (weaken _ _ p)

  -- What a run gives that is defined.
  pub Ends-run :
      {P : A → Process W → Type 0} {x : Option (A × Process W)}
      → Ends P x
      → (a : A) (s : Process W) → x ≡ some (a, s)
      → P a s
  Ends-run stuck a s e = absurd (ground arith)
  Ends-run {P} (ends {a = b} {s = t} p) a s e =
      subst {A = A × Process W} (λ r. P r.0 r.1) (ap (λ o. elim o [ none ↦ (b, t) | some r ↦ r ]) e)
        p

module _ {W A B : Type 0} where
  pub Ends-bind :
      {P : A → Process W → Type 0} {Q : B → Process W → Type 0} (m : M W A) (f : A → M W B)
      (s : Process W)
      → Ends P (m s)
      → ((a : A) (s' : Process W) → P a s' → Ends Q (f a s'))
      → Ends Q ((m >>= f) s)
  Ends-bind {P} {Q} m f s r k = go (m s) r
    where
      go :
          (x : Option (A × Process W))
          → Ends P x
          → Ends Q (elim x [ none ↦ none | some (a, s') ↦ f a s' ])
      go _ stuck = stuck
      go _ (ends p) = k _ _ p

  pub Leads-bind :
      {I J K : Predicate} {m : M W A} {f : A → M W B}
      → Leads I J m
      → ((a : A) → Leads J K (f a))
      → Leads I K (m >>= f)
  Leads-bind {m = m} {f = f} h k = record {
    run = λ s i. Ends-bind m f s (h.run s i) λ a t j. (k a).run t j;
  }

module _ {W A : Type 0} {I : Predicate} where
  pub Keeps-pure : (a : A) → Keeps I (pure {W = W} a)
  Keeps-pure a = record { run = λ s i. ends i }

module _ {W A : Type 0} {I J : Predicate} where
  pub Leads-undefined : Leads I J (undefined {W = W} {A = A})
  Leads-undefined = record { run = λ s i. stuck }

  pub Leads-pure :
      (a : A)
      → ((f : Ptr → Option Obj) (ds : List Ptr) (n : ℕ) → I f ds n → J f ds n)
      → Leads I J (pure {W = W} a)
  Leads-pure a weaken = record { run = λ s i. ends (weaken _ _ _ i) }

  pub Leads-if :
      (c : Bool) {m n : M W A} → Leads I J m → Leads I J n → Leads I J (if c then m else n)
  Leads-if true h k = h
  Leads-if false h k = k

  pub Leads-branch :
      (c : Bool) {m n : M W A}
      → Leads I J m
      → Leads I J n
      → Leads I J (elim c [ true ↦ m | false ↦ n ])
  Leads-branch true h k = h
  Leads-branch false h k = k

  pub Leads-reply :
      {B : Type 0} (r : Reply B) {f : B → M W A} {g : ℕ → M W A}
      → ((b : B) → Leads I J (f b))
      → ((e : ℕ) → Leads I J (g e))
      → Leads I J (elim r [ done b ↦ f b | fail e ↦ g e ])
  Leads-reply (done b) h k = h b
  Leads-reply (fail e) h k = k e

  pub Leads-option :
      {B : Type 0} (o : Option B) {f : B → M W A} {m : M W A}
      → Leads I J m
      → ((b : B) → Leads I J (f b))
      → Leads I J (elim o [ none ↦ m | some b ↦ f b ])
  Leads-option none h k = h
  Leads-option (some b) h k = k b

  pub Leads-list :
      {B : Type 0} (xs : List B) {m : M W A} {f : B → List B → M W A}
      → Leads I J m
      → ((b : B) (bs : List B) → Leads I J (f b bs))
      → Leads I J (elim xs [ [] ↦ m | b ∷ bs ↦ f b bs ])
  Leads-list [] h k = h
  Leads-list (b ∷ bs) h k = k b bs

-- A run that returns with `P` and ends with `Q` ends with both.
pub both :
    {W A : Type 0} {P Q : A → Process W → Type 0} {x : Option (A × Process W)}
    → Returns P x
    → Ends Q x
    → Ends (λ a s. P a s × Q a s) x
both (returns p) (ends q) = ends (p, q)

-- Nothing but the world, `errno`, the descriptors, the streams and the mappings changes.
module _ {W : Type 0} {I : Predicate} where
  pub Keeps-gets : {A : Type 0} (f : Process W → A) → Keeps I (gets f)
  Keeps-gets f = record { run = λ s i. ends i }

  pub Keeps-get_errno : Keeps I (get_errno {W = W})
  Keeps-get_errno = record { run = λ s i. ends i }

  pub Keeps-call : {A : Type 0} (f : W → Reply A × W) → Keeps I (call f)
  Keeps-call f = record { run = λ s i. ends i }

  pub Keeps-closedir : Keeps I (closedir {W = W})
  unfolding closedir
  Keeps-closedir = record { run = λ s i. ends i }

  pub Keeps-read : (p : Ptr) → Keeps {W = W} I (read p)
  unfolding read
  Keeps-read p = record { run = λ s i. go s i (s.cells p) }
    where
      go :
          (s : Process W)
          → At I s
          → (o : Option Obj)
          → Ends
              (λ _ t. At I t)
              (elim o [ none ↦ none | some o' ↦ if p == 0 then none else some (o', s) ])
      go s i none = stuck
      go s i (some o) = Ends-if (p == 0) stuck (ends i)

module _ {W : Type 0} (os : Os W) {I : Predicate} where
  pub Keeps-open_file : (path : Text) (flags : Access) → Keeps I (open_file os path flags)
  unfolding open_file
  Keeps-open_file path flags = record { run = λ s i. ends i }

  pub Keeps-close : (fd : ℕ) → Keeps I (close os fd)
  unfolding close
  Keeps-close fd = record { run = λ s i. ends i }

  pub Keeps-opendir : (path : Text) → Keeps I (opendir os path)
  unfolding opendir
  Keeps-opendir path = record { run = λ s i. ends i }

  pub Keeps-mmap : (n fd offset : ℕ) → Keeps I (mmap os n fd offset)
  unfolding mmap
  Keeps-mmap n fd offset = record { run = λ s i. ends i }

  pub Keeps-munmap : (a n : ℕ) → Keeps I (munmap os a n)
  unfolding munmap
  Keeps-munmap a n = record { run = λ s i. ends i }

  pub Keeps-pread : (fd n offset : ℕ) → Keeps I (pread os fd n offset)
  unfolding pread
  Keeps-pread fd n offset = record { run = λ s i. ends i }

  pub Keeps-pwrite : (fd : ℕ) (bs : List ℕ) (offset : ℕ) → Keeps I (pwrite os fd bs offset)
  unfolding pwrite
  Keeps-pwrite fd bs offset = record { run = λ s i. ends i }

  pub Keeps-load : (n a : ℕ) → Keeps I (load os n a)
  unfolding load
  Keeps-load n a = record { run = λ s i. Ends-if (is_mapped a n s.maps) (ends i) stuck }

  pub Keeps-store : (n a v : ℕ) → Keeps I (store os n a v)
  unfolding store
  Keeps-store n a v = record { run = λ s i. Ends-if (is_mapped a n s.maps) (ends i) stuck }
