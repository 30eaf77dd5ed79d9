-- ===== src/Scan/Files.antt =====
-- A scan closes its directory stream, and every file that it opens.
use crono_pci_linux.Base.{ℕ, ◌%◌, ◌^◌, not, List, [], ◌∷◌, ltb, ◌==◌}
use crono_pci_linux.Types.{PciSlot, PciId, ScanResult, success, pci_cards}
use crono_pci_linux.Format.{scan_name, sys_bus_pcidevs_path}
use crono_pci_linux.Os.{Os, Dirent}
use crono_pci_linux.Machine.Files.{
  Stays, Files, Listed, Moves-reply, Moves-bind, Stays-pure, Moves-if, Moves-branch, Stays-reply,
  Moves-undefined,
}
use crono_pci_linux.Machine.Files.Calls.{Stays-get_errno, Stays-call, opendir-Moves, closedir-Moves}
use crono_pci_linux.Sysfs.Files.{crono_read_vendor_device-Stays}
use crono_pci_linux.Open.{unset_slot}
use crono_pci_linux.Scan.{
  is_match, add_result, scan_match, scan_device, scan_entries, pci_scan_devices,
}

module _ {W : Type 0} {I : Files} where
  add_result-Stays :
      (id : PciId) (d : PciSlot) (index : ℕ) (r : ScanResult)
      → Stays I (add_result {W = W} id d index r)
  unfolding add_result
  add_result-Stays id d index r = Moves-if (ltb index pci_cards) (Stays-pure _) Moves-undefined

  scan_match-Stays :
      (vendor_id device_id : ℕ) (d : PciSlot) (ret : ℕ) (id : PciId) (index : ℕ) (r : ScanResult)
      → Stays I (scan_match {W = W} vendor_id device_id d ret id index r)
  unfolding scan_match
  scan_match-Stays vendor_id device_id d ret id index r =
      Moves-if (not (ret == success)) (Stays-pure _) (
        Moves-if (not (is_match vendor_id device_id id)) (Stays-pure _)
          (Moves-bind (add_result-Stays id d index r) λ _. Stays-pure _))

module _ {W : Type 0} (os : Os W) {I : Files} where
  scan_device-Stays :
      (vendor_id device_id : ℕ) (d : PciSlot) (ids : ℕ × ℕ) (index : ℕ) (r : ScanResult)
      → Stays I (scan_device os vendor_id device_id d ids index r)
  unfolding scan_device
  scan_device-Stays vendor_id device_id d ids index r =
      Moves-bind (crono_read_vendor_device-Stays os d ids) λ (ret, ids').
        Moves-bind (scan_match-Stays vendor_id device_id d ret _ index r) λ _. Stays-pure _

  scan_entries-Stays :
      (vendor_id device_id : ℕ) (d : PciSlot) (ids : ℕ × ℕ) (index : ℕ) (r : ScanResult)
      (es : List Dirent)
      → Stays I (scan_entries os vendor_id device_id d ids index r es)
  unfolding scan_entries
  scan_entries-Stays vendor_id device_id d ids index r [] = Stays-pure _
  scan_entries-Stays vendor_id device_id d ids index r (e ∷ es) =
      Moves-branch e.is_link
        (Moves-bind (scan_device-Stays vendor_id device_id (scan_name d e.name) ids index r)
          λ _. scan_entries-Stays vendor_id device_id (scan_name d e.name) _ _ _ es)
        (scan_entries-Stays vendor_id device_id d ids index r es)

module _ {W : Type 0} (os : Os W) {I : Files} where
  pub pci_scan_devices-Stays :
      (vendor_id device_id : ℕ) (r : ScanResult)
      → Stays I (pci_scan_devices os vendor_id device_id r)
  unfolding pci_scan_devices
  pci_scan_devices-Stays vendor_id device_id r =
      Moves-bind (Stays-call (os.stat sys_bus_pcidevs_path)) λ st.
        Stays-reply st
          (λ st. Moves-if (not st.is_dir) (Moves-bind Stays-get_errno λ err. Stays-pure (err, r)) (
            Moves-bind (opendir-Moves os sys_bus_pcidevs_path) λ dr.
              Moves-reply (Listed I) dr
                (λ entries.
                  Moves-bind
                    (scan_entries-Stays os vendor_id device_id (unset_slot os.garbage)
                      (os.garbage % 2 ^ 16, os.garbage % 2 ^ 16) 0 r entries)
                    λ r'. Moves-bind closedir-Moves λ _. Stays-pure (success, r'))
                λ _. Moves-bind Stays-get_errno λ err. Stays-pure (err, r)))
          λ _. Moves-bind Stays-get_errno λ err. Stays-pure (err, r)
