-- ===== src/Sysfs/Vendor.antt =====
-- `crono_read_vendor_device` of src/sysfs.cpp on a configuration space of four bytes and more, and
-- on a shorter one.
use crono_pci_linux.Base.{
  ℕ, ◌+◌, ◌*◌, ◌%◌, ◌^◌, ◌<◌, ◌≡◌, refl, some, List, ◌∷◌, ◌==◌, false, length, take, replicate,
  length-take, arith,
}
use crono_pci_linux.Types.{PciSlot, success}
use crono_pci_linux.Format.{construct_config_file_path}
use crono_pci_linux.Os.{done, Os, rdonly}
use crono_pci_linux.Machine.{Process}
use crono_pci_linux.Machine.Returns
use crono_pci_linux.Machine.Returns.{Returns, returns}
use crono_pci_linux.Sysfs.{crono_read_config, crono_read_vendor_device, from_bytes}
use crono_pci_linux.Machine.Frame.{Framed}
use crono_pci_linux.Sysfs.Slice.{
  Serves, ServedIn, crono_read_config-slice_in, crono_read_config-slice,
}

module _ {W : Type 0} (os : Os W) {fd : ℕ} where
  -- The same when the file is served in the states with `Q`, opening leads to one and closing from
  -- there to one with `R`.
  pub crono_read_vendor_device-ids_in :
      {Q : W → Type 0} (R : W → Type 0) (closes : (w : W) → Q w → R (os.close fd w).1)
      (b0 b1 b2 b3 : ℕ) (rest : List ℕ) (d : PciSlot) (ids : ℕ × ℕ) (s : Process W)
      → ServedIn os Q fd (b0 ∷ b1 ∷ b2 ∷ b3 ∷ rest)
      → length (b0 ∷ b1 ∷ b2 ∷ b3 ∷ rest) < 2 ^ 64
      → b0 < 256
      → b1 < 256
      → b2 < 256
      → b3 < 256
      → Q (os.open_file (construct_config_file_path d) rdonly s.world).1
      → (os.open_file (construct_config_file_path d) rdonly s.world).0 ≡ done fd
      → Returns
          (λ r s'. (r ≡ (success, (b0 + 256 * b1, b2 + 256 * b3))) × (Framed s s' × R s'.world))
          (crono_read_vendor_device os d ids s)
  unfolding crono_read_vendor_device from_bytes
  crono_read_vendor_device-ids_in R closes b0 b1 b2 b3 rest d ids s file short h0 h1 h2 h3 there
        opens =
      Returns.bind
        (crono_read_config os d (replicate 4 (os.garbage % 256)) 0 4 (some (os.garbage % 2 ^ 64))) _
        s (crono_read_config-slice_in os file short R closes d _ 0 4 _ s there opens (omega arith))
        λ (err, buf, n) t ((ok, same, count, f), kept).
          rw (count, ok, same) (returns (ground arith, (f, kept)))

  -- The first two words of the configuration space are the vendor and the device.
  pub crono_read_vendor_device-ids :
      (b0 b1 b2 b3 : ℕ) (rest : List ℕ) (d : PciSlot) (ids : ℕ × ℕ) (s : Process W)
      → Serves os fd (b0 ∷ b1 ∷ b2 ∷ b3 ∷ rest)
      → length (b0 ∷ b1 ∷ b2 ∷ b3 ∷ rest) < 2 ^ 64
      → b0 < 256
      → b1 < 256
      → b2 < 256
      → b3 < 256
      → (os.open_file (construct_config_file_path d) rdonly s.world).0 ≡ done fd
      → Returns
          (λ r s'. (r ≡ (success, (b0 + 256 * b1, b2 + 256 * b3))) × Framed s s')
          (crono_read_vendor_device os d ids s)
  unfolding crono_read_vendor_device from_bytes
  crono_read_vendor_device-ids b0 b1 b2 b3 rest d ids s file short h0 h1 h2 h3 opens =
      Returns.bind
        (crono_read_config os d (replicate 4 (os.garbage % 256)) 0 4 (some (os.garbage % 2 ^ 64))) _
        s (crono_read_config-slice os file short d _ 0 4 _ s opens (omega arith))
        λ (err, buf, n) t (ok, same, count, f). rw (count, ok, same) (returns (ground arith, f))

  -- A file that ends early is no error, and the ids are not written.
  pub crono_read_vendor_device-short :
      (content : List ℕ) (d : PciSlot) (ids : ℕ × ℕ) (s : Process W)
      → Serves os fd content
      → length content < 4
      → (os.open_file (construct_config_file_path d) rdonly s.world).0 ≡ done fd
      → Returns (λ r s'. (r ≡ (success, ids)) × Framed s s') (crono_read_vendor_device os d ids s)
  unfolding crono_read_vendor_device
  crono_read_vendor_device-short content d ids s file short opens =
      Returns.bind
        (crono_read_config os d (replicate 4 (os.garbage % 256)) 0 4 (some (os.garbage % 2 ^ 64))) _
        s (crono_read_config-slice os file (omega arith) d _ 0 4 _ s opens (omega arith))
        λ (err, buf, n) t (ok, same, count, f).
          let few : (length (take 4 content) == 4) ≡ false =
            ground (arith, length-take 4 content) in
          rw (count, few, ok) (returns (refl, f))
