-- ===== src/Os.antt =====
-- What the library calls and does not contain: Linux, the allocator and the driver module, as a
-- record of functions on a state of their own, and the helpers that the calls are stated by.
use crono_pci_linux.Base.{
  ℕ, ◌+◌, Bool, true, false, ◌&&◌, ◌||◌, Option, none, some, List, [], ◌∷◌, leb, ◌==◌,
  if◌then◌else◌, take, min,
}
use crono_pci_linux.Types.{Text, Ptr, Obj, Cmd, SgBufferInfo, ContigBufferInfo, CmdsInfo}

-- A call succeeds with a value, or returns -1 and sets `errno`.
pub data Reply (A : Type 0) : Type 0 where
  done : A → Reply A
  fail : ℕ → Reply A

-- A directory entry: whether `d_type` is `DT_LNK`, and `d_name`.
pub record Dirent : Type 0 where
  pub is_link : Bool
  pub name : Text

-- The part of `struct stat` that the code reads.
pub record Stat : Type 0 where
  pub is_dir : Bool
  pub size : ℕ

pub data Access : Type 0 where
  rdonly wronly rdwr : Access

-- What a lock request gives back: the `ioctl` result, the page addresses (or the DMA handle), and
-- the kernel's buffer id. The driver module leaves the other fields of the request as they are.
pub record Locked : Type 0 where
  pub ret : ℕ
  pub pages : List ℕ
  pub id : ℕ

pub record ContigLocked : Type 0 where
  pub ret : ℕ
  pub dma_handle : ℕ
  pub id : ℕ

-- Linux, the C library's allocator and the driver module. `garbage` is what an uninitialised
-- variable holds. The calls on the driver take the descriptor and the request, and `cleanup_setup`
-- also the commands that it finds in the block `cmds`.
pub record Os (W : Type 0) : Type 0 where
  pub page_size : ℕ
  pub garbage : ℕ
  pub stat : Text → W → Reply Stat × W
  pub opendir : Text → W → Reply (List Dirent) × W
  pub readlink : Text → W → Reply Text × W
  pub open_file : Text → Access → W → Reply ℕ × W
  pub open_stream : Text → W → Reply Text × W
  pub close : ℕ → W → Reply (Unit {0}) × W
  pub pread : ℕ → ℕ → ℕ → W → Reply (List ℕ) × W
  pub pwrite : ℕ → List ℕ → ℕ → W → Reply ℕ × W
  pub mmap : ℕ → ℕ → ℕ → W → Reply ℕ × W
  pub munmap : ℕ → ℕ → W → Reply (Unit {0}) × W
  pub load : ℕ → ℕ → W → ℕ × W
  pub store : ℕ → ℕ → ℕ → W → W
  pub malloc : W → Ptr × W
  pub lock_buffer : ℕ → SgBufferInfo → W → Reply Locked × W
  pub unlock_buffer : ℕ → ℕ → W → Reply ℕ × W
  pub cleanup_setup : ℕ → CmdsInfo → List Cmd → W → Reply ℕ × W
  pub lock_contig : ℕ → ContigBufferInfo → W → Reply ContigLocked × W
  pub unlock_contig : ℕ → ℕ → W → Reply ℕ × W

-- A failed call sets `errno`; one that succeeds leaves it.
abbrev pub errno_after : {A : Type 0} → Reply A → ℕ → ℕ
errno_after (done a) e = e
errno_after (fail n) e = n

abbrev pub is_live : Option Obj → Bool
is_live none = false
is_live (some o) = true

abbrev pub update : (Ptr → Option Obj) → Ptr → Option Obj → Ptr → Option Obj
update f p o q = if p == q then o else f q

abbrev pub drop_fd : ℕ → List ℕ → List ℕ
drop_fd fd [] = []
drop_fd fd (x ∷ xs) = if x == fd then xs else x ∷ drop_fd fd xs

abbrev pub drop_map : ℕ → ℕ → List (ℕ × ℕ) → List (ℕ × ℕ)
drop_map a n [] = []
drop_map a n ((b, m) ∷ xs) = if (b == a) && (m == n) then xs else (b, m) ∷ drop_map a n xs

-- Whether the `n` bytes at `a` lie in one mapped region.
abbrev pub is_mapped : ℕ → ℕ → List (ℕ × ℕ) → Bool
is_mapped a n [] = false
is_mapped a n ((b, m) ∷ xs) = (leb b a && leb (a + n) (b + m)) || is_mapped a n xs

-- `read` gives at most the bytes asked for.
abbrev pub at_most : ℕ → Reply (List ℕ) → Reply (List ℕ)
at_most n (done bs) = done (take n bs)
at_most n (fail e) = fail e

-- `write` takes at most the bytes given.
abbrev pub at_most_count : ℕ → Reply ℕ → Reply ℕ
at_most_count n (done k) = done (min k n)
at_most_count n (fail e) = fail e
