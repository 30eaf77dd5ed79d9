-- ===== src/Device/Handle.antt =====
-- Handles: NULL, and those of an open device.
use crono_pci_linux.Base.{
  ℕ, ◌≡◌, refl, ◌≢◌, inl, inr, Bool-cases, if◌then◌else◌, false, none, some, ◌==◌, arith,
}
use crono_pci_linux.Types.{Ptr, Device, device, minus, einval}
use crono_pci_linux.Machine.{Process, M, ◌>>=◌, read}
use crono_pci_linux.Device.{read_device, init_hdev}

-- `h` points to the live device `d`.
pub record Holds {W : Type 0} (h : Ptr) (d : Device) (s : Process W) : Type 0 where
  pub ne_null : h ≢ 0
  pub cell : s.cells h ≡ some (device d)

-- `h` is the handle of the device `d`, whose id was read.
pub record IsHandle {W : Type 0} (h : Ptr) (d : Device) (s : Process W) : Type 0 where
  pub holds : Holds h d s
  pub has_id : d.device_id ≢ 0

module _ {W : Type 0} {h : Ptr} {d : Device} {s : Process W} where
  pub not_null : Holds h d s → (h == 0) ≡ false
  not_null v = let ne = v.ne_null in ground arith

  pub read-Holds : Holds h d s → read h s ≡ some (device d, s)
  unfolding read
  read-Holds v = rw (v.cell, read, not_null v)

  pub read_device-Holds : Holds h d s → read_device h s ≡ some (d, s)
  unfolding read_device
  read_device-Holds v = rw (read-Holds v, ◌>>=◌)

  pub init_hdev-IsHandle :
      {A : Type 0} (refuse : ℕ → A) (body : Device → M W A)
      → IsHandle h d s
      → init_hdev h refuse body s ≡ body d s
  unfolding init_hdev
  init_hdev-IsHandle refuse body v =
      let id = v.has_id in
      let named : (d.device_id == 0) ≡ false = ground arith in
      rw (not_null v.holds, read_device-Holds v.holds, ◌>>=◌, named)

-- NULL is refused before anything is read.
pub init_hdev-null :
    {W A : Type 0} (refuse : ℕ → A) (body : Device → M W A) (s : Process W)
    → init_hdev 0 refuse body s ≡ some (refuse (minus einval), s)
unfolding init_hdev
init_hdev-null refuse body s = refl

module _ {W : Type 0} where
  read_device-dead : (h : Ptr) (s : Process W) → s.cells h ≡ none → read_device h s ≡ none
  unfolding read_device read
  read_device-dead h s dead = rw (dead, ◌>>=◌, read)

  -- A handle whose block is not live: NULL is refused, and any other is undefined.
  pub init_hdev-dead :
      {A : Type 0} (h : Ptr) (refuse : ℕ → A) (body : Device → M W A) (s : Process W)
      → s.cells h ≡ none
      → init_hdev h refuse body s ≡ (if h == 0 then some (refuse (minus einval), s) else none)
  unfolding init_hdev
  init_hdev-dead h refuse body s dead = elim (Bool-cases (h == 0)) [
    | inl null ↦ rw null refl
    | inr set_ ↦ rw (set_, read_device-dead h s dead, ◌>>=◌)
  ]

  -- The same with a rest.
  pub init_hdev-dead_bind :
      {A B : Type 0} (h : Ptr) (refuse : ℕ → A) (body : Device → M W A) (rest : A → M W B)
      (s : Process W)
      → s.cells h ≡ none
      → (init_hdev h refuse body >>= rest) s
        ≡ (if h == 0 then rest (refuse (minus einval)) s else none)
  unfolding init_hdev
  init_hdev-dead_bind h refuse body rest s dead = elim (Bool-cases (h == 0)) [
    | inl null ↦ rw null refl
    | inr set_ ↦ rw (◌>>=◌, set_, read_device-dead h s dead)
  ]
