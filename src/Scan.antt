-- ===== src/Scan.antt =====
-- `CRONO_KERNEL_PciScanDevices` of src/crono_kernel_interface.cpp.
pub mod Overflow
pub mod Keeps
pub mod Files
pub mod Listed
pub mod Filter
use crono_pci_linux.Base.{
  ℕ, ◌+◌, ◌%◌, ◌^◌, ◌&&◌, ◌||◌, not, Bool, true, false, List, [], ◌∷◌, ltb, ◌==◌, if◌then◌else◌,
  set,
}
use crono_pci_linux.Types.{PciSlot, PciId, ScanResult, success, pci_any_id, pci_cards}
use crono_pci_linux.Format.{scan_name, sys_bus_pcidevs_path}
use crono_pci_linux.Os.{done, fail, Dirent, Os}
use crono_pci_linux.Machine.{M, pure, ◌>>=◌, ◌>>◌, undefined, get_errno, call, opendir, closedir}
use crono_pci_linux.Sysfs.{crono_read_vendor_device}
use crono_pci_linux.Open.{unset_slot}

-- Whether a device has the ids asked for; `PCI_ANY_ID` fits all.
abbrev pub is_match : ℕ → ℕ → PciId → Bool
is_match vendor_id device_id id =
    (id.vendor_id == vendor_id || (pci_any_id == vendor_id))
    && (id.device_id == device_id || (pci_any_id == device_id))

module _ {W : Type 0} where
  -- The matching device is stored at `index`; past the arrays the write is out of bounds.
  unfoldable pub add_result : PciId → PciSlot → ℕ → ScanResult → M W ScanResult
  add_result id d index r =
      if ltb index pci_cards
      then pure (record {
        num_devices = index + 1;
        device_id = set r.device_id index id;
        device_slot = set r.device_slot index d;
      })
      else undefined

  -- The device `d` whose ids were read, or not: the next index and the result.
  unfoldable pub scan_match : ℕ → ℕ → PciSlot → ℕ → PciId → ℕ → ScanResult → M W (ℕ × ScanResult)
  scan_match vendor_id device_id d ret id index r =
      if not (ret == success)
      then pure (index, r)
      else if not (is_match vendor_id device_id id)
      then pure (index, r)
      else do r' ← add_result id d index r; pure (index + 1, r')

module _ {W : Type 0} (os : Os W) where
  open os use {garbage}

  -- The body of the loop for a link to the device `d`: `ids` are the variables for the ids, and
  -- `index` is `index_in_result`. Both are given back.
  unfoldable pub scan_device :
      ℕ → ℕ → PciSlot → ℕ × ℕ → ℕ → ScanResult → M W ((ℕ × ℕ) × (ℕ × ScanResult))
  scan_device vendor_id device_id d ids index r = do
    (ret, ids') ← crono_read_vendor_device os d ids
    found ←
        scan_match vendor_id device_id d ret (record { vendor_id = ids'.0; device_id = ids'.1 })
          index r
    pure (ids', found)

  -- The loop over the directory, with the variables `d` of `sscanf`.
  unfoldable pub scan_entries :
      ℕ → ℕ → PciSlot → ℕ × ℕ → ℕ → ScanResult → List Dirent → M W ScanResult
  scan_entries vendor_id device_id d ids index r [] = pure r
  scan_entries vendor_id device_id d ids index r (e ∷ es) = elim e.is_link [
    | false ↦ scan_entries vendor_id device_id d ids index r es
    | true ↦ do
      (ids', (index', r')) ← scan_device vendor_id device_id (scan_name d e.name) ids index r
      scan_entries vendor_id device_id (scan_name d e.name) ids' index' r' es
  ]

  -- The code and `*pPciScanResult`.
  unfoldable pub pci_scan_devices : ℕ → ℕ → ScanResult → M W (ℕ × ScanResult)
  pci_scan_devices vendor_id device_id r = do
    st ← call (os.stat sys_bus_pcidevs_path)
    elim st [
      | fail _ ↦ do err ← get_errno; pure (err, r)
      | done st ↦ if not st.is_dir then (do err ← get_errno; pure (err, r)) else do
        dr ← opendir os sys_bus_pcidevs_path
        elim dr [
          | fail _ ↦ do err ← get_errno; pure (err, r)
          | done entries ↦ do
            r' ←
                scan_entries vendor_id device_id (unset_slot garbage)
                  (garbage % 2 ^ 16, garbage % 2 ^ 16) 0 r entries
            closedir
            pure (success, r')
        ]
    ]
