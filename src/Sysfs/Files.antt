-- ===== src/Sysfs/Files.antt =====
-- Every function of src/sysfs.cpp closes what it opens.
use crono_pci_linux.Base.{
  ℕ, zero, suc, ◌||◌, not, List, [], ◌++◌, Option, none, some, ◌==◌, length, ltb, take, drop, codes,
}
use crono_pci_linux.Types.{Text, PciSlot, success}
use crono_pci_linux.Format.{construct_config_file_path, construct_dev_slink_path}
use crono_pci_linux.Os.{Os}
use crono_pci_linux.Machine.Files.{
  Stays, Files, Tried, Moves-reply, Moves-bind, Stays-pure, Moves-if, Stays-reply, Moves-option,
  Moves-undefined,
}
use crono_pci_linux.Machine.Files.Calls.{
  Stays-get_errno, Stays-call, open_file-Moves, close-Opened, Stays-pread, Stays-pwrite,
}
use crono_pci_linux.Sysfs.{
  assign, read_loop, crono_read_config, crono_read_vendor_device, crono_get_config_space_size,
  write_loop, crono_write_config, crono_get_sys_devices_directory_path,
}

module _ {W : Type 0} (os : Os W) {I : Files} where
  read_loop-Stays :
      (k fd : ℕ) (front data_bytes : List ℕ) (temp_size offset : ℕ)
      → Stays I (read_loop os k fd front data_bytes temp_size offset)
  unfolding read_loop
  read_loop-Stays zero fd front data_bytes temp_size offset = Moves-undefined
  read_loop-Stays (suc k) fd front data_bytes temp_size offset =
      Moves-if (temp_size == 0) (Stays-pure _) (
        Moves-bind (Stays-pread os fd temp_size offset) λ bytes.
          Stays-reply bytes
            (λ bs. Moves-if (length bs == 0) (Stays-pure _) (
              Moves-if (ltb (length data_bytes) (length bs)) Moves-undefined
                (read_loop-Stays k fd _ _ _ _)))
            λ _. Moves-bind Stays-get_errno λ _. Stays-pure _)

  write_loop-Stays :
      (k fd : ℕ) (data_bytes : List ℕ) (temp_size offset : ℕ)
      → Stays I (write_loop os k fd data_bytes temp_size offset)
  unfolding write_loop
  write_loop-Stays zero fd data_bytes temp_size offset = Moves-undefined
  write_loop-Stays (suc k) fd data_bytes temp_size offset =
      Moves-if (temp_size == 0) (Stays-pure _) (
        Moves-if (ltb (length data_bytes) temp_size) Moves-undefined (
          Moves-bind (Stays-pwrite os fd (take temp_size data_bytes) offset) λ bytes.
            Stays-reply bytes (λ n. Moves-if (n == 0) (Stays-pure _) (write_loop-Stays k fd _ _ _))
              λ _. Moves-bind Stays-get_errno λ _. Stays-pure _))

module _ {W : Type 0} (os : Os W) {I : Files} where
  pub crono_read_config-Stays :
      (d : PciSlot) (data_ : List ℕ) (offset size : ℕ) (out : Option ℕ)
      → Stays I (crono_read_config os d data_ offset size out)
  unfolding crono_read_config
  crono_read_config-Stays d data_ offset size out = Moves-bind (open_file-Moves os _ _) λ opened.
      Moves-reply (Tried I) opened
        (λ fd.
          Moves-bind (read_loop-Stays os (suc size) fd [] data_ size offset)
            λ _. Moves-bind (close-Opened os fd) λ _. Stays-pure _)
        λ _. Moves-bind Stays-get_errno λ _. Stays-pure _

  pub crono_read_vendor_device-Stays :
      (d : PciSlot) (ids : ℕ × ℕ) → Stays I (crono_read_vendor_device os d ids)
  unfolding crono_read_vendor_device
  crono_read_vendor_device-Stays d ids =
      Moves-bind (crono_read_config-Stays d _ 0 4 _) λ (err, value, bytes_read).
        Moves-option bytes_read Moves-undefined
          λ n. Moves-if (not (n == 4) || not (err == 0)) (Stays-pure _) (Stays-pure _)

  pub crono_get_config_space_size-Stays :
      (d : PciSlot) (p_size : Option ℕ) → Stays I (crono_get_config_space_size os d p_size)
  unfolding crono_get_config_space_size
  crono_get_config_space_size-Stays d p_size =
      Moves-bind (Stays-call (os.stat (construct_config_file_path d))) λ st.
        Stays-reply st (λ st. Stays-pure (success, assign st.size p_size))
          λ _. Moves-bind Stays-get_errno λ err. Stays-pure (err, p_size)

  pub crono_write_config-Stays :
      (d : PciSlot) (data_ : List ℕ) (offset size : ℕ) (out : Option ℕ)
      → Stays I (crono_write_config os d data_ offset size out)
  unfolding crono_write_config
  crono_write_config-Stays d data_ offset size out = Moves-bind (open_file-Moves os _ _) λ opened.
      Moves-reply (Tried I) opened
        (λ fd.
          Moves-bind (write_loop-Stays os (suc size) fd data_ size offset)
            λ _. Moves-bind (close-Opened os fd) λ _. Stays-pure _)
        λ _. Moves-bind Stays-get_errno λ _. Stays-pure _

  pub crono_get_sys_devices_directory_path-Stays :
      (d : PciSlot) (path : Option Text) → Stays I (crono_get_sys_devices_directory_path os d path)
  unfolding crono_get_sys_devices_directory_path
  crono_get_sys_devices_directory_path-Stays d none = Stays-pure _
  crono_get_sys_devices_directory_path-Stays d (some path) =
      Moves-bind (Stays-call (os.readlink (construct_dev_slink_path d))) λ content.
        Stays-reply content
          (λ link.
            Moves-if (length (take 4080 link) == 4080 || ltb (length (take 4080 link)) 9)
              Moves-undefined
              (Stays-pure (success, some (codes "/sys/" ++ drop 9 (take 4080 link)))))
          λ _. Moves-bind Stays-get_errno λ err. Stays-pure (err, some path)
