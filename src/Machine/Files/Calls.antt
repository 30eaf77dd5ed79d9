-- ===== src/Machine/Files/Calls.antt =====
-- The calls of the system and of the heap, and what each leaves open.
use crono_pci_linux.Base.{
  ℕ, ◌+◌, refl, ap, ◌∙◌, subst, sym, ◌==◌, ==-refl, Option, none, some, List, ◌∷◌, if◌then◌else◌,
  arith,
}
use crono_pci_linux.Types.{Text, Ptr, Obj}
use crono_pci_linux.Os.{Reply, done, fail, Access, Os, Dirent, is_live, is_mapped, drop_fd}
use crono_pci_linux.Machine.Keeps.{Ends, stuck, ends, Ends-if}
use crono_pci_linux.Machine.{
  Process, gets, modify, get_errno, call, read, write, free, malloc, open_file, close, opendir,
  closedir, mmap, munmap, pread, pwrite, load, store,
}
use crono_pci_linux.Machine.Files.{Files, Moves, Stays, Opened, Tried, Entered, Listed, Closed}

-- The calls that open and close nothing.
module _ {W : Type 0} {I : Files} where
  pub Stays-gets : {A : Type 0} (f : Process W → A) → Stays I (gets f)
  Stays-gets f = record { run = λ s i. ends i }

  pub Stays-get_errno : Stays I (get_errno {W = W})
  Stays-get_errno = record { run = λ s i. ends i }

  pub Stays-call : {A : Type 0} (f : W → Reply A × W) → Stays I (call f)
  Stays-call f = record { run = λ s i. ends i }

  pub Stays-modify :
      (f : Process W → Process W)
      → ((s : Process W) → I s.fds s.dirs → I (f s).fds (f s).dirs)
      → Stays I (modify f)
  Stays-modify f same = record { run = λ s i. ends (same s i) }

  pub Stays-read : (p : Ptr) → Stays {W = W} I (read p)
  unfolding read
  Stays-read p = record { run = λ s i. go s i (s.cells p) }
    where
      go :
          (s : Process W)
          → I s.fds s.dirs
          → (o : Option Obj)
          → Ends
              (λ _ t. I t.fds t.dirs)
              (elim o [ none ↦ none | some o' ↦ if p == 0 then none else some (o', s) ])
      go s i none = stuck
      go s i (some o) = Ends-if (p == 0) stuck (ends i)

  pub Stays-write : (p : Ptr) (o : Obj) → Stays {W = W} I (write p o)
  unfolding write
  Stays-write p o = record {
    run = λ s i. Ends-if (p == 0) stuck (Ends-if (is_live (s.cells p)) (ends i) stuck);
  }

  pub Stays-free : (p : Ptr) → Stays {W = W} I (free p)
  unfolding free
  Stays-free p = record {
    run = λ s i. Ends-if (p == 0) (ends i) (Ends-if (is_live (s.cells p)) (ends i) stuck);
  }

  pub closedir-Moves : Moves (Entered I) (λ _. I) (closedir {W = W})
  unfolding closedir
  closedir-Moves = record { run = λ s (n, i, more). ends (subst (I s.fds) (omega (arith, more)) i) }

module _ {W : Type 0} (os : Os W) {I : Files} where
  pub Stays-malloc : (o : Obj) → Stays I (malloc os o)
  unfolding malloc
  Stays-malloc o = record {
    run = λ s i.
        Ends-if ((os.malloc s.world).0 == 0) (ends i)
          (Ends-if (is_live (s.cells (os.malloc s.world).0)) (ends i) (ends i));
  }

  pub open_file-Moves : (path : Text) (flags : Access) → Moves I (Tried I) (open_file os path flags)
  unfolding open_file
  open_file-Moves path flags = record {
    run = λ s i. ends (go s i (os.open_file path flags s.world).0);
  }
    where
      go :
          (s : Process W)
          → I s.fds s.dirs
          → (r : Reply ℕ) → Tried I r (elim r [ done fd ↦ fd ∷ s.fds | fail e ↦ s.fds ]) s.dirs
      go s i (done fd) = (s.fds, i, refl)
      go s i (fail e) = i

  pub opendir-Moves : (path : Text) → Moves I (Listed I) (opendir os path)
  unfolding opendir
  opendir-Moves path = record { run = λ s i. ends (go s i (os.opendir path s.world).0) }
    where
      go :
          (s : Process W)
          → I s.fds s.dirs
          → (r : Reply (List Dirent))
          → Listed I r s.fds (elim r [ done es ↦ s.dirs + 1 | fail e ↦ s.dirs ])
      go s i (done es) = (s.dirs, i, refl)
      go s i (fail e) = i

  -- Closing the newest descriptor, and any.
  pub close-Opened : (fd : ℕ) → Moves (Opened fd I) (λ _. I) (close os fd)
  unfolding close
  close-Opened fd = record {
    run = λ s (before, i, more).
        ends (subst (λ fds. I fds s.dirs) (sym (ap (drop_fd fd) more ∙ rw ==-refl)) i);
  }

  pub close-Closed : (fd : ℕ) → Moves I (λ _. Closed fd I) (close os fd)
  unfolding close
  close-Closed fd = record { run = λ s i. ends (s.fds, i, refl) }

  pub Stays-mmap : (n fd offset : ℕ) → Stays I (mmap os n fd offset)
  unfolding mmap
  Stays-mmap n fd offset = record { run = λ s i. ends i }

  pub Stays-munmap : (a n : ℕ) → Stays I (munmap os a n)
  unfolding munmap
  Stays-munmap a n = record { run = λ s i. ends i }

  pub Stays-pread : (fd n offset : ℕ) → Stays I (pread os fd n offset)
  unfolding pread
  Stays-pread fd n offset = record { run = λ s i. ends i }

  pub Stays-pwrite : (fd : ℕ) (bs : List ℕ) (offset : ℕ) → Stays I (pwrite os fd bs offset)
  unfolding pwrite
  Stays-pwrite fd bs offset = record { run = λ s i. ends i }

  pub Stays-load : (n a : ℕ) → Stays I (load os n a)
  unfolding load
  Stays-load n a = record { run = λ s i. Ends-if (is_mapped a n s.maps) (ends i) stuck }

  pub Stays-store : (n a v : ℕ) → Stays I (store os n a v)
  unfolding store
  Stays-store n a v = record { run = λ s i. Ends-if (is_mapped a n s.maps) (ends i) stuck }
