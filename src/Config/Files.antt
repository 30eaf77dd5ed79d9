-- ===== src/Config/Files.antt =====
-- Accesses to the configuration space close the file that they open.
use crono_pci_linux.Base.{ℕ, ◌+◌, ◌||◌, not, Option, some, ltb, ◌==◌, length}
use crono_pci_linux.Types.{Ptr, Text, success}
use crono_pci_linux.Os.{Os}
use crono_pci_linux.Machine.Files.{
  Stays, Files, Moves-bind, Stays-pure, Moves-if, Moves-option, Moves-undefined,
}
use crono_pci_linux.Device.Files.{init_hdev-Stays}
use crono_pci_linux.Sysfs.Files.{
  crono_get_config_space_size-Stays, crono_read_config-Stays, crono_write_config-Stays,
}
use crono_pci_linux.Config.{pci_read_cfg32, pci_write_cfg32, get_device_misc_name}

module _ {W : Type 0} (os : Os W) {I : Files} where
  pub pci_read_cfg32-Stays :
      (h : Ptr) (offset : ℕ) (val : Option ℕ) → Stays I (pci_read_cfg32 os h offset val)
  unfolding pci_read_cfg32
  pci_read_cfg32-Stays h offset val = init_hdev-Stays h _ _ λ d.
      Moves-option val (Stays-pure _) λ old.
        Moves-bind (crono_get_config_space_size-Stays os d.pci_slot (some 0)) λ (ret, size).
          Moves-if (not (ret == success)) (Stays-pure _) (
            Moves-option size Moves-undefined λ size.
              Moves-if (ltb size (offset + 4)) (Stays-pure _) (
                Moves-bind (crono_read_config-Stays os d.pci_slot _ offset 4 _)
                  λ (ret, value, bytes_read).
                    Moves-option bytes_read Moves-undefined
                      λ n. Moves-if (not (n == 4) || not (ret == 0)) (Stays-pure _) (Stays-pure _)))

  pub pci_write_cfg32-Stays : (h : Ptr) (offset val : ℕ) → Stays I (pci_write_cfg32 os h offset val)
  unfolding pci_write_cfg32
  pci_write_cfg32-Stays h offset val = init_hdev-Stays h _ _ λ d.
      Moves-bind (crono_get_config_space_size-Stays os d.pci_slot (some 0)) λ (ret, size).
        Moves-if (not (ret == success)) (Stays-pure _) (
          Moves-option size Moves-undefined λ size.
            Moves-if (ltb size (offset + 4)) (Stays-pure _) (
              Moves-bind (crono_write_config-Stays os d.pci_slot _ offset 4 _)
                λ (ret, bytes_written).
                  Moves-option bytes_written Moves-undefined
                    λ n. Moves-if (not (n == 4) || not (ret == 0)) (Stays-pure _) (Stays-pure _)))

module _ {W : Type 0} {I : Files} where
  pub get_device_misc_name-Stays :
      (h : Ptr) (name : Option Text) (size : ℕ) → Stays I (get_device_misc_name {W = W} h name size)
  unfolding get_device_misc_name
  get_device_misc_name-Stays h name size = init_hdev-Stays h _ _ λ d.
      Moves-option name (Stays-pure _)
        λ buffer. Moves-if (ltb (length buffer) size) Moves-undefined (Stays-pure _)
