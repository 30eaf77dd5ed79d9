-- ===== src/Config/Keeps.antt =====
-- Accesses to the configuration space and the name of a device do not change the heap or the table
-- of devices.
use crono_pci_linux.Base.{ℕ, ◌+◌, ◌||◌, not, Option, some, ltb, ◌==◌, length}
use crono_pci_linux.Types.{Ptr, Text, success}
use crono_pci_linux.Os.{Os}
use crono_pci_linux.Machine.Keeps.{
  Keeps, Predicate, Leads-bind, Keeps-pure, Leads-if, Leads-option, Leads-undefined,
}
use crono_pci_linux.Device.Keeps.{init_hdev-Keeps}
use crono_pci_linux.Sysfs.Keeps.{
  crono_get_config_space_size-Keeps, crono_read_config-Keeps, crono_write_config-Keeps,
}
use crono_pci_linux.Config.{pci_read_cfg32, pci_write_cfg32, get_device_misc_name}

module _ {W : Type 0} (os : Os W) {I : Predicate} where
  pub pci_read_cfg32-Keeps :
      (h : Ptr) (offset : ℕ) (val : Option ℕ) → Keeps I (pci_read_cfg32 os h offset val)
  unfolding pci_read_cfg32
  pci_read_cfg32-Keeps h offset val = init_hdev-Keeps I h _ _ λ d.
      Leads-option val (Keeps-pure _) λ old.
        Leads-bind (crono_get_config_space_size-Keeps os d.pci_slot (some 0)) λ (ret, size).
          Leads-if (not (ret == success)) (Keeps-pure _) (
            Leads-option size Leads-undefined λ size.
              Leads-if (ltb size (offset + 4)) (Keeps-pure _) (
                Leads-bind (crono_read_config-Keeps os d.pci_slot _ offset 4 _)
                  λ (ret, value, bytes_read).
                    Leads-option bytes_read Leads-undefined
                      λ n. Leads-if (not (n == 4) || not (ret == 0)) (Keeps-pure _) (Keeps-pure _)))

  pub pci_write_cfg32-Keeps : (h : Ptr) (offset val : ℕ) → Keeps I (pci_write_cfg32 os h offset val)
  unfolding pci_write_cfg32
  pci_write_cfg32-Keeps h offset val = init_hdev-Keeps I h _ _ λ d.
      Leads-bind (crono_get_config_space_size-Keeps os d.pci_slot (some 0)) λ (ret, size).
        Leads-if (not (ret == success)) (Keeps-pure _) (
          Leads-option size Leads-undefined λ size.
            Leads-if (ltb size (offset + 4)) (Keeps-pure _) (
              Leads-bind (crono_write_config-Keeps os d.pci_slot _ offset 4 _)
                λ (ret, bytes_written).
                  Leads-option bytes_written Leads-undefined
                    λ n. Leads-if (not (n == 4) || not (ret == 0)) (Keeps-pure _) (Keeps-pure _)))

module _ {W : Type 0} {I : Predicate} where
  pub get_device_misc_name-Keeps :
      (h : Ptr) (name : Option Text) (size : ℕ) → Keeps I (get_device_misc_name {W = W} h name size)
  unfolding get_device_misc_name
  get_device_misc_name-Keeps h name size = init_hdev-Keeps I h _ _ λ d.
      Leads-option name (Keeps-pure _)
        λ buffer. Leads-if (ltb (length buffer) size) Leads-undefined (Keeps-pure _)
