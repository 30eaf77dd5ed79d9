-- ===== src/Access/Bounds.antt =====
-- The accesses to BAR memory and the mapping.
use crono_pci_linux.Base.{
  ℕ, ◌+◌, ◌≤◌, ◌<◌, ◌≡◌, true, false, some, Option, List, [], ◌∷◌, ltb, leb, get_elem?, Bool-cases,
  inl, inr, if◌then◌else◌, arith,
}
use crono_pci_linux.Types.{Ptr, Device, BarDesc, success, minus, enomem}
use crono_pci_linux.Os.{Os, is_mapped}
use crono_pci_linux.Machine.{Process, M, ◌>>=◌, load, store}
use crono_pci_linux.Device.Handle.{IsHandle, init_hdev-IsHandle}
use crono_pci_linux.Access.{
  read_width, write_width, with_bar, read_addr8, read_addr16, read_addr32, read_addr64, write_addr8,
  write_addr16, write_addr32, write_addr64,
}

is_mapped_sub :
    (a n b m : ℕ) (maps : List (ℕ × ℕ))
    → is_mapped a n maps ≡ true
    → a ≤ b
    → b + m ≤ a + n
    → is_mapped b m maps ≡ true
is_mapped_sub a n b m [] h p q = h
is_mapped_sub a n b m ((c, k) ∷ maps) h p q = ground (arith, is_mapped_sub a n b m maps)

-- An open device whose BAR `i` is `b`, mapped over its whole length.
pub record HasBar {W : Type 0} (h : Ptr) (d : Device) (i : ℕ) (b : BarDesc) (s : Process W)
    : Type 0 where
  pub handle : IsHandle h d s
  pub bar : get_elem? d.bar_descs i ≡ some b
  pub mapped : is_mapped b.user_address b.length s.maps ≡ true

with_bar-some :
    {W A : Type 0} {b : BarDesc} (d : Device) (i : ℕ) (body : BarDesc → M W A) (s : Process W)
    → get_elem? d.bar_descs i ≡ some b
    → with_bar d i body s ≡ body b s
unfolding with_bar
with_bar-some d i body s e = rw (e, with_bar)

module _ {W : Type 0} (os : Os W) {h : Ptr} {d : Device} {b : BarDesc} {s : Process W}
    (has : HasBar h d 0 b s) (width offset : ℕ) where
  -- The word that the access at `offset` reads, and the world after it.
  abbrev loaded : ℕ × W
  loaded = os.load width (b.user_address + offset) s.world

  load-mapped :
      offset + width ≤ b.length
      → load os width (b.user_address + offset) s ≡ some (loaded.0, record s { world = loaded.1 })
  unfolding load
  load-mapped fits =
      let ok : is_mapped (b.user_address + offset) width s.maps ≡ true =
        is_mapped_sub b.user_address b.length (b.user_address + offset) width s.maps has.mapped
          (omega arith) (omega arith) in
      rw ok

  store-mapped :
      (v : ℕ)
      → offset + width ≤ b.length
      → store os width (b.user_address + offset) v s
        ≡ some (tt, record s { world = os.store width (b.user_address + offset) v s.world })
  unfolding store
  store-mapped v fits =
      let ok : is_mapped (b.user_address + offset) width s.maps ≡ true =
        is_mapped_sub b.user_address b.length (b.user_address + offset) width s.maps has.mapped
          (omega arith) (omega arith) in
      rw ok

  -- A read whose last byte of eight lies in BAR 0 gives the word there, and touches no other
  -- memory.
  pub read_width-fits :
      (v : ℕ)
      → width ≤ 8
      → offset + 8 ≤ b.length
      → read_width os width h offset (some v) s
        ≡ some ((success, some loaded.0), record s { world = loaded.1 })
  unfolding read_width
  read_width-fits v narrow fits =
      let inside : ltb b.length (offset + 8) ≡ false = ground arith in
      rw (
        init_hdev-IsHandle {A = ℕ × Option ℕ} _ _ has.handle,
        with_bar-some {A = ℕ × Option ℕ} d 0 _ s has.bar,
        inside,
        load-mapped (omega arith),
        ◌>>=◌,
      )

  -- Any other read is refused, and nothing is touched.
  pub read_width-refuses :
      (v : ℕ)
      → b.length < offset + 8
      → read_width os width h offset (some v) s ≡ some ((minus enomem, some v), s)
  unfolding read_width
  read_width-refuses v beyond =
      let outside : ltb b.length (offset + 8) ≡ true = ground arith in
      rw (
        init_hdev-IsHandle {A = ℕ × Option ℕ} _ _ has.handle,
        with_bar-some {A = ℕ × Option ℕ} d 0 _ s has.bar,
        outside,
      )

  pub write_width-fits :
      (v : ℕ)
      → offset + width ≤ b.length
      → write_width os width h offset v s
        ≡ some (success, record s { world = os.store width (b.user_address + offset) v s.world })
  unfolding write_width
  write_width-fits v fits =
      let inside : ltb b.length (offset + width) ≡ false = ground arith in
      rw (
        init_hdev-IsHandle {A = ℕ} _ _ has.handle,
        with_bar-some {A = ℕ} d 0 _ s has.bar,
        inside,
        store-mapped v fits,
        ◌>>=◌,
      )

  pub write_width-refuses :
      (v : ℕ)
      → b.length < offset + width
      → write_width os width h offset v s ≡ some (minus enomem, s)
  unfolding write_width
  write_width-refuses v beyond =
      let outside : ltb b.length (offset + width) ≡ true = ground arith in
      rw (init_hdev-IsHandle {A = ℕ} _ _ has.handle, with_bar-some {A = ℕ} d 0 _ s has.bar, outside)

  -- The outcome of a read of `width` bytes: the word, or -ENOMEM with nothing touched.
  abbrev pub read_outcome : ℕ → Option ((ℕ × Option ℕ) × Process W)
  read_outcome v =
      if leb (offset + 8) b.length
      then some ((success, some loaded.0), record s { world = loaded.1 })
      else some ((minus enomem, some v), s)

  abbrev pub write_outcome : ℕ → Option (ℕ × Process W)
  write_outcome v =
      if leb (offset + width) b.length
      then some (success, record s { world = os.store width (b.user_address + offset) v s.world })
      else some (minus enomem, s)

  read_width-outcome :
      (v : ℕ) → width ≤ 8 → read_width os width h offset (some v) s ≡ read_outcome v
  read_width-outcome v narrow = elim (Bool-cases (leb (offset + 8) b.length)) [
    | inl fits ↦ rw fits (read_width-fits v narrow (ground arith))
    | inr beyond ↦ rw beyond (read_width-refuses v (ground arith))
  ]

  write_width-outcome : (v : ℕ) → write_width os width h offset v s ≡ write_outcome v
  write_width-outcome v = elim (Bool-cases (leb (offset + width) b.length)) [
    | inl fits ↦ rw fits (write_width-fits v (ground arith))
    | inr beyond ↦ rw beyond (write_width-refuses v (ground arith))
  ]

module _ {W : Type 0} (os : Os W) {h : Ptr} {d : Device} {b : BarDesc} {s : Process W}
    (has : HasBar h d 0 b s) where
  -- The four read functions of an open device: if eight bytes fit behind the offset, the word of
  -- their width there is read from within the mapping; else the result is -ENOMEM, and neither the
  -- variable nor the process changes.
  pub read_addr_bounds :
      (offset v : ℕ)
      → (read_addr8 os h offset (some v) s ≡ read_outcome os has 1 offset v)
        × (read_addr16 os h offset (some v) s ≡ read_outcome os has 2 offset v)
        × (read_addr32 os h offset (some v) s ≡ read_outcome os has 4 offset v)
        × (read_addr64 os h offset (some v) s ≡ read_outcome os has 8 offset v)
  unfolding read_addr8 read_addr16 read_addr32 read_addr64
  read_addr_bounds offset v = (
    read_width-outcome os has 1 offset v (omega arith),
    read_width-outcome os has 2 offset v (omega arith),
    read_width-outcome os has 4 offset v (omega arith),
    read_width-outcome os has 8 offset v (omega arith),
  )

  -- The four write functions of an open device: if the bytes of the value fit behind the offset,
  -- they are written within the mapping; else the result is -ENOMEM, and nothing changes.
  pub write_addr_bounds :
      (offset v : ℕ)
      → (write_addr8 os h offset v s ≡ write_outcome os has 1 offset v)
        × (write_addr16 os h offset v s ≡ write_outcome os has 2 offset v)
        × (write_addr32 os h offset v s ≡ write_outcome os has 4 offset v)
        × (write_addr64 os h offset v s ≡ write_outcome os has 8 offset v)
  unfolding write_addr8 write_addr16 write_addr32 write_addr64
  write_addr_bounds offset v = (
    write_width-outcome os has 1 offset v,
    write_width-outcome os has 2 offset v,
    write_width-outcome os has 4 offset v,
    write_width-outcome os has 8 offset v,
  )

  -- A byte among the last seven of BAR 0 can be written but not read.
  pub tail_write_only :
      (offset v w : ℕ)
      → offset < b.length
      → b.length < offset + 8
      → (write_addr8 os h offset v s
          ≡ some (success, record s { world = os.store 1 (b.user_address + offset) v s.world }))
        × (read_addr8 os h offset (some w) s ≡ some ((minus enomem, some w), s))
  unfolding write_addr8 read_addr8
  tail_write_only offset v w inside tail = (
    write_width-fits os has 1 offset v (omega arith),
    read_width-refuses os has 1 offset w (omega arith),
  )
