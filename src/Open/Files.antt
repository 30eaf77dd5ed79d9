-- ===== src/Open/Files.antt =====
-- Opening a device closes the directory and every file but the misc device.
use crono_pci_linux.Base.{
  ℕ, ◌+◌, not, ◌≡◌, refl, inl, inr, ◌⊎◌, Option, none, some, List, [], ◌∷◌, ◌++◌, ◌==◌, ==-eq,
  codes,
}
use crono_pci_linux.Types.{Ptr, PciSlot, Device, raw, success, minus, einval, try_again}
use crono_pci_linux.Format.{scan_name, sys_bus_pcidevs_path}
use crono_pci_linux.Os.{Os, Dirent, rdwr}
use crono_pci_linux.Machine.Files.{
  Files, Moves, Stays, Opened, Tried, Entered, Listed, Closed, Moves-bind, Moves-from, Moves-test,
  Moves-pure, Moves-if, Moves-branch, Moves-reply, Stays-reply,
}
use crono_pci_linux.Machine.Files.Calls.{
  Stays-gets, Stays-modify, Stays-get_errno, Stays-call, Stays-write, Stays-free, Stays-malloc,
  open_file-Moves, opendir-Moves, close-Opened, close-Closed, closedir-Moves,
}
use crono_pci_linux.Device.Files.{init_hdev-Moves}
use crono_pci_linux.Sysfs.Files.{crono_read_vendor_device-Stays}
use crono_pci_linux.Bars.Files.{fill_device_bar_descriptions-Stays}
use crono_pci_linux.Table.Files.{set_slot-Stays, free_device_mem-Stays}
use crono_pci_linux.Open.{
  same_slot, unset_slot, open_error, register, device_error, finish_fill, finish_open, open_miscdev,
  open_matching, open_entries, pci_device_open, pci_device_close,
}

-- Behind opening: nothing is open that was not, or one descriptor is, of an open device or 0.
abbrev pub Kept : Files → ℕ → Files
Kept I ret fds dirs = I fds dirs ⊎ ((fd : ℕ) × Opened fd I fds dirs × ((ret ≡ success) ⊎ (fd ≡ 0)))

-- Behind closing: nothing is closed, or one descriptor is.
abbrev pub Dropped : Files → Files
Dropped I fds dirs = I fds dirs ⊎ ((fd : ℕ) × Closed fd I fds dirs)

-- The order of opening does not matter.
swap :
    (fd : ℕ) {I : Files} (fds : List ℕ) (dirs : ℕ)
    → Opened fd (Entered I) fds dirs
    → Entered (Opened fd I) fds dirs
swap fd fds dirs (before, (n, i, more), one) = (n, (before, i, one), more)

module _ {W : Type 0} where
  register-Stays : {I : Files} (p : Ptr) → Stays {W = W} I (register p)
  unfolding register
  register-Stays p = Moves-bind (Stays-gets λ s. s.i_new_dev) λ n.
      Moves-bind (Stays-modify (λ s. record s { i_new_dev = n + 1 }) λ s i. i)
        λ _. set_slot-Stays n p

  device_error-Moves :
      {I : Files} {J : ℕ × Ptr → Files} (p : Ptr) (ret : ℕ) (handle : Ptr)
      → ((fds : List ℕ) (dirs : ℕ) → I fds dirs → J (ret, handle) fds dirs)
      → Moves {W = W} (Entered I) J (device_error p ret handle)
  unfolding device_error
  device_error-Moves p ret handle weaken = Moves-bind closedir-Moves λ _.
      Moves-bind (Stays-free p) λ _. Moves-bind (Stays-modify _ λ s i. i) λ _. Moves-pure _ weaken

module _ {W : Type 0} (os : Os W) {I : Files} where
  finish_fill-Moves :
      (p : Ptr) (fd ret : ℕ)
      → Moves (Opened fd (Entered I)) (λ (ret, _). Kept I ret) (finish_fill os p fd ret)
  unfolding finish_fill
  finish_fill-Moves p fd ret =
      Moves-if (not (ret == success))
        (Moves-bind (close-Opened os fd) λ _. device_error-Moves p ret p λ _ _ i. inl i)
        (Moves-from (swap fd)
          (Moves-bind closedir-Moves λ _. Moves-pure _ λ _ _ i. inr (fd, i, inl refl)))

  finish_open-Moves :
      (p : Ptr) (d : Device) (fd : ℕ)
      → Moves (Opened fd (Entered I)) (λ (ret, _). Kept I ret) (finish_open os p d fd)
  unfolding finish_open
  finish_open-Moves p d fd =
      Moves-bind (Stays-write p _)
        λ _. Moves-bind (fill_device_bar_descriptions-Stays os p) λ ret. finish_fill-Moves p fd ret

  refused :
      (p : Ptr) (ret : ℕ) (handle : Ptr)
      → Moves {W = W} (Entered I) (λ (ret, _). Kept I ret) (device_error p ret handle)
  refused p ret handle = device_error-Moves p ret handle λ _ _ i. inl i

  open_miscdev-Moves :
      (p : Ptr) (d : Device) → Moves (Entered I) (λ (ret, _). Kept I ret) (open_miscdev os p d)
  unfolding open_miscdev
  open_miscdev-Moves p d =
      let path = codes "/dev/" ++ d.miscdev_name in
      Moves-bind (Stays-call (os.stat path)) λ st.
        Stays-reply st
          (λ _. Moves-bind (open_file-Moves os path rdwr) λ opened.
            Moves-reply (Tried (Entered I)) opened
              (λ fd.
                Moves-test (fd == 0)
                  (λ null. Moves-bind Stays-get_errno λ err. Moves-from (swap fd) (
                    device_error-Moves p (open_error err) 0
                      λ _ _ i. inr (fd, i, inr (==-eq fd 0 null))))
                  λ _. finish_open-Moves p d fd)
              λ _. Moves-bind Stays-get_errno λ err. refused p (open_error err) 0)
          λ _. refused p (minus einval) 0

  open_matching-Moves :
      (info d : PciSlot) → Moves (Entered I) (λ (ret, _). Kept I ret) (open_matching os info d)
  unfolding open_matching
  open_matching-Moves info d = Moves-bind (Stays-malloc os raw) λ p.
      Moves-bind (register-Stays p) λ _. Moves-bind (Stays-write p _) λ _.
        Moves-bind (Stays-write p _) λ _.
          Moves-bind (crono_read_vendor_device-Stays os d _) λ (ret, (vendor_id, device_id)).
            Moves-if (not (ret == success)) (refused p try_again 0)
              (Moves-bind (Stays-write p _) λ _. open_miscdev-Moves p _)

  open_entries-Moves :
      (info d : PciSlot) (es : List Dirent)
      → Moves (Entered I) (λ (ret, _). Kept I ret) (open_entries os info d es)
  unfolding open_entries
  open_entries-Moves info d [] = Moves-bind closedir-Moves λ _. Moves-pure _ λ _ _ i. inl i
  open_entries-Moves info d (e ∷ es) =
      Moves-branch e.is_link
        (Moves-branch (same_slot info (scan_name d e.name))
          (open_matching-Moves info (scan_name d e.name))
          (open_entries-Moves info (scan_name d e.name) es))
        (open_entries-Moves info d es)

  pub pci_device_open-Moves :
      (h : Option Ptr) (info : Option PciSlot)
      → Moves I (λ (ret, _). Kept I ret) (pci_device_open os h info)
  unfolding pci_device_open
  pci_device_open-Moves none info = Moves-pure _ λ _ _ i. inl i
  pci_device_open-Moves (some h) none = Moves-pure _ λ _ _ i. inl i
  pci_device_open-Moves (some h) (some info) =
      Moves-bind (opendir-Moves os sys_bus_pcidevs_path) λ dr.
        Moves-reply (Listed I) dr
          (λ entries.
            Moves-bind (open_entries-Moves info (unset_slot os.garbage) entries)
              λ _. Moves-pure _ λ _ _ k. k)
          λ _. Moves-bind Stays-get_errno λ _. Moves-pure _ λ _ _ i. inl i

  pub pci_device_close-Moves : (h : Ptr) → Moves I (λ _. Dropped I) (pci_device_close os h)
  unfolding pci_device_close
  pci_device_close-Moves h =
      init_hdev-Moves h _ _ (λ _ _ i. inl i)
        λ d. Moves-bind (close-Closed os d.miscdev_fd) λ closed.
          Moves-from (λ _ _ c. inr (d.miscdev_fd, c))
            (Stays-reply closed (λ _. free_device_mem-Stays os h) λ _. Stays-get_errno)
