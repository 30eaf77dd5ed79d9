-- ===== src/Scan/Keeps.antt =====
-- A scan does not change the heap or the table of devices.
use crono_pci_linux.Base.{ℕ, ◌%◌, ◌^◌, not, List, [], ◌∷◌, ltb, ◌==◌}
use crono_pci_linux.Types.{PciSlot, PciId, ScanResult, success, pci_cards}
use crono_pci_linux.Format.{scan_name, sys_bus_pcidevs_path}
use crono_pci_linux.Os.{Os, Dirent}
use crono_pci_linux.Machine.Keeps.{
  Keeps, Predicate, Leads-bind, Keeps-pure, Leads-if, Leads-branch, Leads-reply, Leads-undefined,
  Keeps-get_errno, Keeps-call, Keeps-opendir, Keeps-closedir,
}
use crono_pci_linux.Sysfs.Keeps.{crono_read_vendor_device-Keeps}
use crono_pci_linux.Open.{unset_slot}
use crono_pci_linux.Scan.{
  is_match, add_result, scan_match, scan_device, scan_entries, pci_scan_devices,
}

module _ {W : Type 0} {I : Predicate} where
  add_result-Keeps :
      (id : PciId) (d : PciSlot) (index : ℕ) (r : ScanResult)
      → Keeps I (add_result {W = W} id d index r)
  unfolding add_result
  add_result-Keeps id d index r = Leads-if (ltb index pci_cards) (Keeps-pure _) Leads-undefined

  scan_match-Keeps :
      (vendor_id device_id : ℕ) (d : PciSlot) (ret : ℕ) (id : PciId) (index : ℕ) (r : ScanResult)
      → Keeps I (scan_match {W = W} vendor_id device_id d ret id index r)
  unfolding scan_match
  scan_match-Keeps vendor_id device_id d ret id index r =
      Leads-if (not (ret == success)) (Keeps-pure _) (
        Leads-if (not (is_match vendor_id device_id id)) (Keeps-pure _)
          (Leads-bind (add_result-Keeps id d index r) λ _. Keeps-pure _))

module _ {W : Type 0} (os : Os W) {I : Predicate} where
  scan_device-Keeps :
      (vendor_id device_id : ℕ) (d : PciSlot) (ids : ℕ × ℕ) (index : ℕ) (r : ScanResult)
      → Keeps I (scan_device os vendor_id device_id d ids index r)
  unfolding scan_device
  scan_device-Keeps vendor_id device_id d ids index r =
      Leads-bind (crono_read_vendor_device-Keeps os d ids) λ (ret, ids').
        Leads-bind (scan_match-Keeps vendor_id device_id d ret _ index r) λ _. Keeps-pure _

  scan_entries-Keeps :
      (vendor_id device_id : ℕ) (d : PciSlot) (ids : ℕ × ℕ) (index : ℕ) (r : ScanResult)
      (es : List Dirent)
      → Keeps I (scan_entries os vendor_id device_id d ids index r es)
  unfolding scan_entries
  scan_entries-Keeps vendor_id device_id d ids index r [] = Keeps-pure _
  scan_entries-Keeps vendor_id device_id d ids index r (e ∷ es) =
      Leads-branch e.is_link
        (Leads-bind (scan_device-Keeps vendor_id device_id (scan_name d e.name) ids index r)
          λ _. scan_entries-Keeps vendor_id device_id (scan_name d e.name) _ _ _ es)
        (scan_entries-Keeps vendor_id device_id d ids index r es)

  pub pci_scan_devices-Keeps :
      (vendor_id device_id : ℕ) (r : ScanResult)
      → Keeps I (pci_scan_devices os vendor_id device_id r)
  unfolding pci_scan_devices
  pci_scan_devices-Keeps vendor_id device_id r =
      Leads-bind (Keeps-call (os.stat sys_bus_pcidevs_path)) λ st.
        Leads-reply st
          (λ st. Leads-if (not st.is_dir) (Leads-bind Keeps-get_errno λ err. Keeps-pure (err, r)) (
            Leads-bind (Keeps-opendir os sys_bus_pcidevs_path) λ dr.
              Leads-reply dr
                (λ entries.
                  Leads-bind
                    (scan_entries-Keeps vendor_id device_id (unset_slot os.garbage)
                      (os.garbage % 2 ^ 16, os.garbage % 2 ^ 16) 0 r entries)
                    λ r'. Leads-bind Keeps-closedir λ _. Keeps-pure (success, r'))
                λ _. Leads-bind Keeps-get_errno λ err. Keeps-pure (err, r)))
          λ _. Leads-bind Keeps-get_errno λ err. Keeps-pure (err, r)
