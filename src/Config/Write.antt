-- ===== src/Config/Write.antt =====
-- `CRONO_KERNEL_PciWriteCfg32` on an open device.
use crono_pci_linux.Base.{
  ℕ, ◌+◌, ◌%◌, ◌^◌, ◌≤◌, ◌<◌, ◌≡◌, refl, ap, ◌∙◌, false, true, some, List, ltb, length, arith,
}
use crono_pci_linux.Types.{Ptr, Device, success, minus, einval}
use crono_pci_linux.Format.{construct_config_file_path}
use crono_pci_linux.Os.{Os, Stat, done, wronly}
use crono_pci_linux.Machine.{Process, ◌>>=◌}
use crono_pci_linux.Machine.Frame.{Framed, Framed-call, Framed-trans}
use crono_pci_linux.Machine.Returns
use crono_pci_linux.Machine.Returns.{Returns, returns}
use crono_pci_linux.Device.Handle.{IsHandle, init_hdev-IsHandle}
use crono_pci_linux.Sysfs.{to_bytes, crono_get_config_space_size, crono_write_config}
use crono_pci_linux.Sysfs.Write.{Stores, overwrite, crono_write_config-overwrite}
use crono_pci_linux.Config.{pci_write_cfg32}

module _ {W : Type 0} (os : Os W) {h : Ptr} {d : Device} {s : Process W} (v : IsHandle h d s)
    {size : Stat}
    (sized : (os.stat (construct_config_file_path d.pci_slot) s.world).0 ≡ done size) where
  abbrev stat_world : W
  stat_world = (os.stat (construct_config_file_path d.pci_slot) s.world).1

  pub pci_write_cfg32-range :
      (offset val : ℕ)
      → size.size < offset + 4
      → pci_write_cfg32 os h offset val s ≡ some (minus einval, record s { world = stat_world })
  unfolding pci_write_cfg32 crono_get_config_space_size
  pci_write_cfg32-range offset val beyond =
      let out : ltb size.size (offset + 4) ≡ true = ground arith in
      rw (init_hdev-IsHandle {A = ℕ} _ _ v, sized, ◌>>=◌, out)

  -- A 32-bit write to the configuration space succeeds and puts the four little-endian bytes of the
  -- value at the offset, and leaves the other bytes of the file as they are, if the offset and four
  -- bytes fit the size that `stat` gives and the file has that size.
  pub pci_write_cfg32-overwrite :
      {fd : ℕ} {file : W → List ℕ} (offset val : ℕ)
      → Stores os fd file
      → (os.open_file (construct_config_file_path d.pci_slot) wronly stat_world).0 ≡ done fd
      → size.size ≡ length (file s.world)
      → size.size < 2 ^ 64
      → offset + 4 ≤ size.size
      → Returns
          (λ ret u.
            (ret ≡ success)
            × (file u.world ≡ overwrite (file s.world) offset (to_bytes 4 val))
            × Framed s u)
          (pci_write_cfg32 os h offset val s)
  unfolding pci_write_cfg32 crono_get_config_space_size to_bytes
  pci_write_cfg32-overwrite {fd} {file} offset val store opens whole small inside =
      let fits : ltb size.size (offset + 4) ≡ false = ground arith in
      let same : file stat_world ≡ file s.world =
        store.stats (construct_config_file_path d.pci_slot) s.world in
      rw (init_hdev-IsHandle {A = ℕ} _ _ v, sized, ◌>>=◌, fits)
        (Returns.bind
          (crono_write_config os d.pci_slot (to_bytes 4 val) offset 4 (some (os.garbage % 2 ^ 64)))
          _ _
          (crono_write_config-overwrite os store d.pci_slot (to_bytes 4 val) offset 4 _
            (record s { world = stat_world }) opens (omega arith) (omega (arith, ap length same))
            (omega arith))
          λ (ret, n) t (ok, stored, f).
            rw (ap (λ x. x.1) ok, ap (λ x. x.0) ok)
              (returns (
                refl,
                stored ∙ ap (λ c. overwrite c offset (to_bytes 4 val)) same,
                Framed-trans (Framed-call s stat_world s.errno) f,
              )))
