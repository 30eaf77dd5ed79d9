-- ===== src/Config/Read.antt =====
-- `CRONO_KERNEL_PciReadCfg32` on an open device.
use crono_pci_linux.Base.{
  ℕ, ◌+◌, ◌%◌, ◌^◌, ◌≤◌, ◌<◌, ◌≡◌, refl, inl, inr, Bool-cases, true, false, Option, some, List,
  ◌++◌, ltb, ◌==◌, length, take, drop, arith,
}
use crono_pci_linux.Types.{Ptr, Device, success, minus, einval}
use crono_pci_linux.Format.{construct_config_file_path}
use crono_pci_linux.Os.{Os, Stat, done, rdonly}
use crono_pci_linux.Machine.{Process, ◌>>=◌}
use crono_pci_linux.Machine.Frame.{Framed, Framed-call, Framed-trans}
use crono_pci_linux.Machine.Returns
use crono_pci_linux.Machine.Returns.{Returns, returns}
use crono_pci_linux.Device.Handle.{IsHandle, init_hdev-IsHandle}
use crono_pci_linux.Sysfs.{from_bytes, to_bytes, crono_get_config_space_size, crono_read_config}
use crono_pci_linux.Sysfs.Slice.{Serves, ServesWhile, always, crono_read_config-slice_while}
use crono_pci_linux.Config.{pci_read_cfg32}

module _ {W : Type 0} (os : Os W) {h : Ptr} {d : Device} {s : Process W} (v : IsHandle h d s)
    {size : Stat}
    (sized : (os.stat (construct_config_file_path d.pci_slot) s.world).0 ≡ done size) where
  abbrev stat_world : W
  stat_world = (os.stat (construct_config_file_path d.pci_slot) s.world).1

  -- An offset whose four bytes do not fit the size of the configuration file is refused with
  -- -EINVAL, and `*val` and the process but for the world are as before.
  pub pci_read_cfg32-range :
      (offset old : ℕ)
      → size.size < offset + 4
      → pci_read_cfg32 os h offset (some old) s
        ≡ some ((minus einval, some old), record s { world = stat_world })
  unfolding pci_read_cfg32 crono_get_config_space_size
  pci_read_cfg32-range offset old beyond =
      let out : ltb size.size (offset + 4) ≡ true = ground arith in
      rw (init_hdev-IsHandle {A = ℕ × Option ℕ} _ _ v, sized, ◌>>=◌, out)

  -- In the states of the system that have `P`.
  pub pci_read_cfg32-word_while :
      {P : W → Type 0} (content : List ℕ) (fd offset old : ℕ)
      → ServesWhile os P fd content
      → P stat_world
      → length content < 2 ^ 64
      → (os.open_file (construct_config_file_path d.pci_slot) rdonly stat_world).0 ≡ done fd
      → offset + 4 ≤ size.size
      → let got = take 4 (drop offset content) in
        Returns
          (λ r u.
            (r ≡ (success, some (from_bytes (got ++ drop (length got) (to_bytes 4 old)))))
            × Framed s u
            × P u.world)
          (pci_read_cfg32 os h offset (some old) s)
  unfolding pci_read_cfg32 crono_get_config_space_size
  pci_read_cfg32-word_while content fd offset old file there short opens inside =
      let fits : ltb size.size (offset + 4) ≡ false = ground arith in
      rw (init_hdev-IsHandle {A = ℕ × Option ℕ} _ _ v, sized, ◌>>=◌, fits)
        (Returns.bind
          (crono_read_config os d.pci_slot (to_bytes 4 old) offset 4 (some (os.garbage % 2 ^ 64))) _
          _
          (crono_read_config-slice_while os file short d.pci_slot (to_bytes 4 old) offset 4 _
            (record s { world = stat_world }) there opens (unfold to_bytes in omega arith))
          λ (err, buf, n) t ((ok, same, count, f), kept).
            let whole = Framed-trans (Framed-call s stat_world s.errno) f in
            rw (count, ok, same)
              (elim (Bool-cases (length (take 4 (drop offset content)) == 4)) [
                | inl four ↦ rw four (returns (refl, whole, kept))
                | inr fewer ↦ rw fewer (returns (refl, whole, kept))
              ]))

  -- For every other offset the code is that of success, and `*val` is the little-endian word of the
  -- bytes of the file from the offset on. Bytes that the file does not have are those of the old
  -- value, without an error. Of the process only the world and `errno` change.
  pub pci_read_cfg32-word :
      (content : List ℕ) (fd offset old : ℕ)
      → Serves os fd content
      → length content < 2 ^ 64
      → (os.open_file (construct_config_file_path d.pci_slot) rdonly stat_world).0 ≡ done fd
      → offset + 4 ≤ size.size
      → let got = take 4 (drop offset content) in
        Returns
          (λ r u.
            (r ≡ (success, some (from_bytes (got ++ drop (length got) (to_bytes 4 old)))))
            × Framed s u)
          (pci_read_cfg32 os h offset (some old) s)
  pci_read_cfg32-word content fd offset old file short opens inside =
      Returns.mono
        (pci_read_cfg32-word_while content fd offset old (always file) tt short opens inside)
        λ r u (is, f, _). (is, f)
