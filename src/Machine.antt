-- ===== src/Machine.antt =====
-- The process that the library runs in: its descriptors, mappings and heap, the globals of
-- src/crono_kernel_interface.cpp, and the system calls, which are a parameter.
pub mod Returns
pub mod Frame
pub mod Heap
pub mod Keeps
pub mod Files
use crono_pci_linux.Base.{
  ℕ, ◌+◌, ◌-◌, Bool, true, false, Option, none, some, List, ◌∷◌, ◌==◌, if◌then◌else◌, length,
}
use crono_pci_linux.Types.{Text, Ptr, Obj}
use crono_pci_linux.Os.{
  Reply, done, fail, Dirent, Access, Os, errno_after, is_live, update, drop_fd, drop_map, is_mapped,
  at_most, at_most_count,
}

-- `fds` are the open descriptors, newest first, `dirs` counts the open directory streams, `maps`
-- holds the mapped regions as address and length, and `cells` the live blocks of the heap.
-- `devices` (eight pointers) and `i_new_dev` are the globals.
pub record Process (W : Type 0) : Type 0 where
  pub world : W
  pub errno : ℕ
  pub fds : List ℕ
  pub dirs : ℕ
  pub maps : List (ℕ × ℕ)
  pub cells : Ptr → Option Obj
  pub devices : List Ptr
  pub i_new_dev : ℕ

-- A run ends in a value and a state, or in undefined behaviour (`none`).
abbrev pub M : Type 0 → Type 0 → Type 0
M W A = Process W → Option (A × Process W)

module _ {W : Type 0} where
  abbrev pub pure : {A : Type 0} → A → M W A
  pure a s = some (a, s)

  infixl 5 ◌>>=◌ ◌>>◌
  abbrev pub ◌>>=◌ : {A B : Type 0} → M W A → (A → M W B) → M W B
  ◌>>=◌ m f s = elim (m s) [ none ↦ none | some (a, s') ↦ f a s' ]

  abbrev pub ◌>>◌ : {A B : Type 0} → M W A → M W B → M W B
  m >> k = m >>= λ _. k

  -- Undefined behaviour: a bad pointer, an index out of bounds.
  abbrev pub undefined : {A : Type 0} → M W A
  undefined s = none

  abbrev pub gets : {A : Type 0} → (Process W → A) → M W A
  gets f s = some (f s, s)

  abbrev pub modify : (Process W → Process W) → M W (Unit {0})
  modify f s = some (tt, f s)

  abbrev pub get_errno : M W ℕ
  get_errno = gets λ s. s.errno

  abbrev pub call : {A : Type 0} → (W → Reply A × W) → M W (Reply A)
  call f s =
      some (
        (f s.world).0,
        record s { world = (f s.world).1; errno = errno_after (f s.world).0 s.errno },
      )

  -- The heap. A block is live from `malloc` to `free`.
  abbrev pub put : Ptr → Option Obj → Process W → Process W
  put p o s = record s { cells = update s.cells p o }

  -- An access through NULL or to a block that is not live is undefined.
  unfoldable pub read : Ptr → M W Obj
  read p s = elim (s.cells p) [ none ↦ none | some o ↦ if p == 0 then none else some (o, s) ]

  unfoldable pub write : Ptr → Obj → M W (Unit {0})
  write p o s =
      if p == 0 then none else if is_live (s.cells p) then some (tt, put p (some o) s) else none

  unfoldable pub free : Ptr → M W (Unit {0})
  free p s =
      if p == 0 then some (tt, s) else if is_live (s.cells p) then some (tt, put p none s) else none

module _ {W : Type 0} (os : Os W) where
  -- The allocator answers NULL or a block that is not live.
  unfoldable pub malloc : Obj → M W Ptr
  malloc o s =
      let p = (os.malloc s.world).0 in
      let s' = record s { world = (os.malloc s.world).1 } in
      if p == 0
      then some (0, s')
      else if is_live (s.cells p)
      then some (0, s')
      else some (p, put p (some o) s')

  unfoldable pub open_file : Text → Access → M W (Reply ℕ)
  open_file path flags s = some (
    (os.open_file path flags s.world).0,
    record s {
      world = (os.open_file path flags s.world).1;
      errno = errno_after (os.open_file path flags s.world).0 s.errno;
      fds = elim (os.open_file path flags s.world).0 [ done fd ↦ fd ∷ s.fds | fail e ↦ s.fds ];
    },
  )

  -- Linux releases the descriptor also when `close` reports an error.
  unfoldable pub close : ℕ → M W (Reply (Unit {0}))
  close fd s = some (
    (os.close fd s.world).0,
    record s {
      world = (os.close fd s.world).1;
      errno = errno_after (os.close fd s.world).0 s.errno;
      fds = drop_fd fd s.fds;
    },
  )

  unfoldable pub opendir : Text → M W (Reply (List Dirent))
  opendir path s = some (
    (os.opendir path s.world).0,
    record s {
      world = (os.opendir path s.world).1;
      errno = errno_after (os.opendir path s.world).0 s.errno;
      dirs = elim (os.opendir path s.world).0 [ done es ↦ s.dirs + 1 | fail e ↦ s.dirs ];
    },
  )

  unfoldable pub mmap : ℕ → ℕ → ℕ → M W (Reply ℕ)
  mmap n fd offset s = some (
    (os.mmap n fd offset s.world).0,
    record s {
      world = (os.mmap n fd offset s.world).1;
      errno = errno_after (os.mmap n fd offset s.world).0 s.errno;
      maps = elim (os.mmap n fd offset s.world).0 [ done a ↦ (a, n) ∷ s.maps | fail e ↦ s.maps ];
    },
  )

  unfoldable pub munmap : ℕ → ℕ → M W (Reply (Unit {0}))
  munmap a n s = some (
    (os.munmap a n s.world).0,
    record s {
      world = (os.munmap a n s.world).1;
      errno = errno_after (os.munmap a n s.world).0 s.errno;
      maps = elim (os.munmap a n s.world).0 [ done _ ↦ drop_map a n s.maps | fail e ↦ s.maps ];
    },
  )

  -- At most `n` bytes are read.
  unfoldable pub pread : ℕ → ℕ → ℕ → M W (Reply (List ℕ))
  pread fd n offset = call λ w. (at_most n (os.pread fd n offset w).0, (os.pread fd n offset w).1)

  -- At most the bytes given are written.
  unfoldable pub pwrite : ℕ → List ℕ → ℕ → M W (Reply ℕ)
  pwrite fd bs offset =
      call
        λ w. (at_most_count (length bs) (os.pwrite fd bs offset w).0, (os.pwrite fd bs offset w).1)

  -- Device memory is read and written through a mapping; elsewhere the access is undefined.
  unfoldable pub load : ℕ → ℕ → M W ℕ
  load n a s =
      if is_mapped a n s.maps
      then some ((os.load n a s.world).0, record s { world = (os.load n a s.world).1 })
      else none

  unfoldable pub store : ℕ → ℕ → ℕ → M W (Unit {0})
  store n a v s =
      if is_mapped a n s.maps then some (tt, record s { world = os.store n a v s.world }) else none

unfoldable pub closedir : {W : Type 0} → M W (Unit {0})
closedir s = some (tt, record s { dirs = s.dirs - 1 })
