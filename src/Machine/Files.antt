-- ===== src/Machine/Files.antt =====
-- Partial correctness of a run: what becomes of the open descriptors and the directory streams.
pub mod Calls
use crono_pci_linux.Base.{
  ℕ, ◌+◌, ◌≡◌, refl, ap, ◌∙◌, subst, sym, ◌==◌, ==-refl, Bool, true, false, Option, none, some,
  List, [], ◌∷◌, if◌then◌else◌, arith,
}
use crono_pci_linux.Types.{Text, Ptr, Obj}
use crono_pci_linux.Os.{Reply, done, fail, Access, Os, Dirent, is_live, is_mapped, drop_fd}
use crono_pci_linux.Machine.Keeps.{Ends, stuck, ends, Ends-if, Ends-bind}
use crono_pci_linux.Machine.{
  Process, M, pure, ◌>>=◌, undefined, gets, modify, get_errno, call, read, write, free, malloc,
  open_file, close, opendir, closedir, mmap, munmap, pread, pwrite, load, store,
}

-- What holds of the open descriptors and of the number of open directory streams.
abbrev pub Files : Type 1
Files = List ℕ → ℕ → Type 0

-- From a state with `I`, `m` ends in one with `J` of its value if it is defined.
pub record Moves {W A : Type 0} (I : Files) (J : A → Files) (m : M W A) : Type 0 where
  pub run : (s : Process W) → I s.fds s.dirs → Ends (λ a t. J a t.fds t.dirs) (m s)

abbrev pub Stays : {W A : Type 0} → Files → M W A → Type 0
Stays I m = Moves I (λ _. I) m

-- One more descriptor than with `I`, or none if it was not opened.
abbrev pub Opened : ℕ → Files → Files
Opened fd I fds dirs = (before : List ℕ) × I before dirs × (fds ≡ fd ∷ before)

abbrev pub Tried : Files → Reply ℕ → Files
Tried I (done fd) = Opened fd I
Tried I (fail e) = I

-- One more directory stream.
abbrev pub Entered : Files → Files
Entered I fds dirs = (before : ℕ) × I fds before × (dirs ≡ before + 1)

abbrev pub Listed : Files → Reply (List Dirent) → Files
Listed I (done es) = Entered I
Listed I (fail e) = I

-- A descriptor was closed.
abbrev pub Closed : ℕ → Files → Files
Closed fd I fds dirs = (before : List ℕ) × I before dirs × (fds ≡ drop_fd fd before)

module _ {W A B : Type 0} where
  pub Moves-bind :
      {I : Files} {J : A → Files} {K : B → Files} {m : M W A} {f : A → M W B}
      → Moves I J m
      → ((a : A) → Moves (J a) K (f a))
      → Moves I K (m >>= f)
  Moves-bind {m = m} {f = f} h k = record {
    run = λ s i. Ends-bind m f s (h.run s i) λ a t j. (k a).run t j;
  }

module _ {W A : Type 0} {I : Files} where
  pub Stays-pure : (a : A) → Stays I (pure {W = W} a)
  Stays-pure a = record { run = λ s i. ends i }

module _ {W A : Type 0} {I : Files} {J : A → Files} where
  pub Moves-undefined : Moves I J (undefined {W = W} {A = A})
  Moves-undefined = record { run = λ s i. stuck }

  pub Moves-pure :
      (a : A) → ((fds : List ℕ) (dirs : ℕ) → I fds dirs → J a fds dirs) → Moves I J (pure {W = W} a)
  Moves-pure a weaken = record { run = λ s i. ends (weaken _ _ i) }

  pub Moves-from :
      {I' : Files} {m : M W A}
      → ((fds : List ℕ) (dirs : ℕ) → I fds dirs → I' fds dirs)
      → Moves I' J m
      → Moves I J m
  Moves-from enter h = record { run = λ s i. h.run s (enter _ _ i) }

  pub Moves-if :
      (c : Bool) {m n : M W A} → Moves I J m → Moves I J n → Moves I J (if c then m else n)
  Moves-if true h k = h
  Moves-if false h k = k

  -- The branches may rely on the test.
  pub Moves-test :
      (c : Bool) {m n : M W A}
      → (c ≡ true → Moves I J m)
      → (c ≡ false → Moves I J n)
      → Moves I J (if c then m else n)
  Moves-test true h k = h refl
  Moves-test false h k = k refl

  pub Moves-branch :
      (c : Bool) {m n : M W A}
      → Moves I J m
      → Moves I J n
      → Moves I J (elim c [ true ↦ m | false ↦ n ])
  Moves-branch true h k = h
  Moves-branch false h k = k

  pub Moves-option :
      {B : Type 0} (o : Option B) {f : B → M W A} {m : M W A}
      → Moves I J m
      → ((b : B) → Moves I J (f b))
      → Moves I J (elim o [ none ↦ m | some b ↦ f b ])
  Moves-option none h k = h
  Moves-option (some b) h k = k b

  pub Moves-list :
      {B : Type 0} (xs : List B) {m : M W A} {f : B → List B → M W A}
      → Moves I J m
      → ((b : B) (bs : List B) → Moves I J (f b bs))
      → Moves I J (elim xs [ [] ↦ m | b ∷ bs ↦ f b bs ])
  Moves-list [] h k = h
  Moves-list (b ∷ bs) h k = k b bs

module _ {W A B : Type 0} {J : A → Files} where
  -- A reply that comes with what holds then.
  pub Moves-reply :
      (I : Reply B → Files) (r : Reply B) {f : B → M W A} {g : ℕ → M W A}
      → ((b : B) → Moves (I (done b)) J (f b))
      → ((e : ℕ) → Moves (I (fail e)) J (g e))
      → Moves (I r) J (elim r [ done b ↦ f b | fail e ↦ g e ])
  Moves-reply I (done b) h k = h b
  Moves-reply I (fail e) h k = k e

  pub Stays-reply :
      {I : Files} (r : Reply B) {f : B → M W A} {g : ℕ → M W A}
      → ((b : B) → Moves I J (f b))
      → ((e : ℕ) → Moves I J (g e))
      → Moves I J (elim r [ done b ↦ f b | fail e ↦ g e ])
  Stays-reply {I} r h k = Moves-reply (λ _. I) r h k
