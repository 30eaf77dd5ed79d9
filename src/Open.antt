-- ===== src/Open.antt =====
-- `CRONO_KERNEL_PciDeviceOpen` and `CRONO_KERNEL_PciDeviceClose` of
-- src/crono_kernel_interface.cpp.
pub mod Keeps
pub mod Files
pub mod Close
pub mod Exits
pub mod Matching
pub mod Outcome
pub mod Overflow
pub mod RoundTrip
use crono_pci_linux.Base.{
  ℕ, ◌+◌, ◌-◌, ◌%◌, ◌^◌, ◌&&◌, not, Bool, true, false, Option, none, some, List, [], ◌∷◌, ◌++◌,
  ◌==◌, if◌then◌else◌, codes,
}
use crono_pci_linux.Types.{
  Ptr, PciSlot, Device, raw, device, zero_device, success, minus, einval, ebusy, enodev, try_again,
  no_device_object, insufficient_resources,
}
use crono_pci_linux.Format.{scan_name, sys_bus_pcidevs_path, construct_miscdev_name}
use crono_pci_linux.Os.{done, fail, Dirent, Os, rdwr}
use crono_pci_linux.Machine.{
  M, pure, ◌>>=◌, ◌>>◌, gets, modify, get_errno, call, open_file, close, opendir, closedir, malloc,
  write, free,
}
use crono_pci_linux.Device.{init_hdev}
use crono_pci_linux.Sysfs.{crono_read_vendor_device}
use crono_pci_linux.Bars.{fill_device_bar_descriptions}
use crono_pci_linux.Table.{set_slot, free_device_mem}

abbrev pub same_slot : PciSlot → PciSlot → Bool
same_slot a b =
    (a.domain == b.domain)
    && ((a.bus == b.bus) && ((a.slot == b.slot) && (a.function == b.function)))

-- What the variables of `sscanf` hold before the first entry.
abbrev pub unset_slot : ℕ → PciSlot
unset_slot g = record { domain = g; bus = g; slot = g; function = g }

-- The code for an `errno` of `open`.
abbrev pub open_error : ℕ → ℕ
open_error err =
    if err == ebusy
    then try_again
    else if err == enodev
    then no_device_object
    else insufficient_resources

module _ {W : Type 0} where
  -- `devices[iNewDev++] = pDevice`.
  unfoldable pub register : Ptr → M W (Unit {0})
  register p = do
    n ← gets λ s. s.i_new_dev
    modify λ s. record s { i_new_dev = n + 1 }
    set_slot n p

  -- `device_error`, with `*phDev` as it is there.
  unfoldable pub device_error : Ptr → ℕ → Ptr → M W (ℕ × Ptr)
  device_error p ret handle = do
    closedir
    free p
    modify λ s. record s { i_new_dev = s.i_new_dev - 1 }
    pure (ret, handle)

module _ {W : Type 0} (os : Os W) where
  open os use {garbage}

  -- Behind `fill_device_bar_descriptions`, with its code.
  unfoldable pub finish_fill : Ptr → ℕ → ℕ → M W (ℕ × Ptr)
  finish_fill p miscdev_fd ret =
      if not (ret == success)
      then (do close os miscdev_fd; device_error p ret p)
      else do closedir; pure (success, p)

  -- From the opened misc device on: the handle is set, and the BARs are filled.
  unfoldable pub finish_open : Ptr → Device → ℕ → M W (ℕ × Ptr)
  finish_open p d miscdev_fd = do
    write p (device (record d { miscdev_fd = miscdev_fd }))
    ret ← fill_device_bar_descriptions os p
    finish_fill p miscdev_fd ret

  -- Opening the misc device of the device `d` at `p`; 0 counts as an error there.
  unfoldable pub open_miscdev : Ptr → Device → M W (ℕ × Ptr)
  open_miscdev p d = do
    let path = codes "/dev/" ++ d.miscdev_name
    st ← call (os.stat path)
    elim st [
      | fail _ ↦ device_error p (minus einval) 0
      | done _ ↦ do
        opened ← open_file os path rdwr
        elim opened [
          | fail _ ↦ do err ← get_errno; device_error p (open_error err) 0
          | done fd ↦
              if fd == 0
              then (do err ← get_errno; device_error p (open_error err) 0)
              else finish_open p d fd
        ]
    ]

  -- The body of the loop for the entry that matches: `d` is what `sscanf` read.
  unfoldable pub open_matching : PciSlot → PciSlot → M W (ℕ × Ptr)
  open_matching info d = do
    p ← malloc os raw
    register p
    write p (device zero_device)
    write p (device (record zero_device { pci_slot = info }))
    (ret, (vendor_id, device_id)) ←
        crono_read_vendor_device os d (garbage % 2 ^ 16, garbage % 2 ^ 16)
    if not (ret == success) then device_error p try_again 0 else do
      let opened = record zero_device {
        pci_slot = info;
        vendor_id = vendor_id;
        device_id = device_id;
        miscdev_name = construct_miscdev_name device_id d;
      }
      write p (device opened)
      open_miscdev p opened

  -- The loop over the directory, with the variables of `sscanf`.
  unfoldable pub open_entries : PciSlot → PciSlot → List Dirent → M W (ℕ × Ptr)
  open_entries info d [] = do closedir; pure (success, 0)
  open_entries info d (e ∷ es) = elim e.is_link [
    | false ↦ open_entries info d es
    | true ↦
        let d' = scan_name d e.name in
        elim (same_slot info d') [ true ↦ open_matching info d' | false ↦ open_entries info d' es ]
  ]

  -- The code and `*phDev`.
  unfoldable pub pci_device_open : Option Ptr → Option PciSlot → M W (ℕ × Option Ptr)
  pci_device_open none info = pure (minus einval, none)
  pci_device_open (some h) none = pure (minus einval, some h)
  pci_device_open (some h) (some info) = do
    dr ← opendir os sys_bus_pcidevs_path
    elim dr [
      | fail _ ↦ do err ← get_errno; pure (err, some 0)
      | done entries ↦ do
        (ret, handle) ← open_entries info (unset_slot garbage) entries
        pure (ret, some handle)
    ]

  unfoldable pub pci_device_close : Ptr → M W ℕ
  pci_device_close h_dev =
      init_hdev h_dev (λ code. code)
        λ d. do
          closed ← close os d.miscdev_fd
          elim closed [ fail _ ↦ get_errno | done _ ↦ free_device_mem os h_dev ]
