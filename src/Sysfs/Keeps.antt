-- ===== src/Sysfs/Keeps.antt =====
-- No function of src/sysfs.cpp changes the heap or the table of devices.
use crono_pci_linux.Base.{
  ℕ, zero, suc, ◌||◌, not, List, [], ◌++◌, Option, none, some, ◌==◌, length, ltb, take, drop, codes,
}
use crono_pci_linux.Types.{Text, PciSlot, success}
use crono_pci_linux.Format.{construct_config_file_path, construct_dev_slink_path}
use crono_pci_linux.Os.{Os}
use crono_pci_linux.Machine.Keeps.{
  Keeps, Predicate, Leads-bind, Keeps-pure, Leads-if, Leads-reply, Leads-option, Leads-undefined,
  Keeps-get_errno, Keeps-call, Keeps-open_file, Keeps-close, Keeps-pread, Keeps-pwrite,
}
use crono_pci_linux.Sysfs.{
  assign, read_loop, crono_read_config, crono_read_vendor_device, crono_get_config_space_size,
  write_loop, crono_write_config, crono_get_sys_devices_directory_path,
}

module _ {W : Type 0} (os : Os W) {I : Predicate} where
  read_loop-Keeps :
      (k fd : ℕ) (front data_bytes : List ℕ) (temp_size offset : ℕ)
      → Keeps I (read_loop os k fd front data_bytes temp_size offset)
  unfolding read_loop
  read_loop-Keeps zero fd front data_bytes temp_size offset = Leads-undefined
  read_loop-Keeps (suc k) fd front data_bytes temp_size offset =
      Leads-if (temp_size == 0) (Keeps-pure _) (
        Leads-bind (Keeps-pread os fd temp_size offset) λ bytes.
          Leads-reply bytes
            (λ bs. Leads-if (length bs == 0) (Keeps-pure _) (
              Leads-if (ltb (length data_bytes) (length bs)) Leads-undefined
                (read_loop-Keeps k fd _ _ _ _)))
            λ _. Leads-bind Keeps-get_errno λ _. Keeps-pure _)

  pub crono_read_config-Keeps :
      (d : PciSlot) (data_ : List ℕ) (offset size : ℕ) (out : Option ℕ)
      → Keeps I (crono_read_config os d data_ offset size out)
  unfolding crono_read_config
  crono_read_config-Keeps d data_ offset size out = Leads-bind (Keeps-open_file os _ _) λ opened.
      Leads-reply opened
        (λ fd.
          Leads-bind (read_loop-Keeps (suc size) fd [] data_ size offset)
            λ _. Leads-bind (Keeps-close os fd) λ _. Keeps-pure _)
        λ _. Leads-bind Keeps-get_errno λ _. Keeps-pure _

  pub crono_read_vendor_device-Keeps :
      (d : PciSlot) (ids : ℕ × ℕ) → Keeps I (crono_read_vendor_device os d ids)
  unfolding crono_read_vendor_device
  crono_read_vendor_device-Keeps d ids =
      Leads-bind (crono_read_config-Keeps d _ 0 4 _) λ (err, value, bytes_read).
        Leads-option bytes_read Leads-undefined
          λ n. Leads-if (not (n == 4) || not (err == 0)) (Keeps-pure _) (Keeps-pure _)

  pub crono_get_config_space_size-Keeps :
      (d : PciSlot) (p_size : Option ℕ) → Keeps I (crono_get_config_space_size os d p_size)
  unfolding crono_get_config_space_size
  crono_get_config_space_size-Keeps d p_size =
      Leads-bind (Keeps-call (os.stat (construct_config_file_path d))) λ st.
        Leads-reply st (λ st. Keeps-pure (success, assign st.size p_size))
          λ _. Leads-bind Keeps-get_errno λ err. Keeps-pure (err, p_size)

  write_loop-Keeps :
      (k fd : ℕ) (data_bytes : List ℕ) (temp_size offset : ℕ)
      → Keeps I (write_loop os k fd data_bytes temp_size offset)
  unfolding write_loop
  write_loop-Keeps zero fd data_bytes temp_size offset = Leads-undefined
  write_loop-Keeps (suc k) fd data_bytes temp_size offset =
      Leads-if (temp_size == 0) (Keeps-pure _) (
        Leads-if (ltb (length data_bytes) temp_size) Leads-undefined (
          Leads-bind (Keeps-pwrite os fd (take temp_size data_bytes) offset) λ bytes.
            Leads-reply bytes (λ n. Leads-if (n == 0) (Keeps-pure _) (write_loop-Keeps k fd _ _ _))
              λ _. Leads-bind Keeps-get_errno λ _. Keeps-pure _))

  pub crono_write_config-Keeps :
      (d : PciSlot) (data_ : List ℕ) (offset size : ℕ) (out : Option ℕ)
      → Keeps I (crono_write_config os d data_ offset size out)
  unfolding crono_write_config
  crono_write_config-Keeps d data_ offset size out = Leads-bind (Keeps-open_file os _ _) λ opened.
      Leads-reply opened
        (λ fd.
          Leads-bind (write_loop-Keeps (suc size) fd data_ size offset)
            λ _. Leads-bind (Keeps-close os fd) λ _. Keeps-pure _)
        λ _. Leads-bind Keeps-get_errno λ _. Keeps-pure _

  pub crono_get_sys_devices_directory_path-Keeps :
      (d : PciSlot) (path : Option Text) → Keeps I (crono_get_sys_devices_directory_path os d path)
  unfolding crono_get_sys_devices_directory_path
  crono_get_sys_devices_directory_path-Keeps d none = Keeps-pure _
  crono_get_sys_devices_directory_path-Keeps d (some path) =
      Leads-bind (Keeps-call (os.readlink (construct_dev_slink_path d))) λ content.
        Leads-reply content
          (λ link.
            Leads-if (length (take 4080 link) == 4080 || ltb (length (take 4080 link)) 9)
              Leads-undefined
              (Keeps-pure (success, some (codes "/sys/" ++ drop 9 (take 4080 link)))))
          λ _. Leads-bind Keeps-get_errno λ err. Keeps-pure (err, some path)
