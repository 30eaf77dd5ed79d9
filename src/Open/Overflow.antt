-- ===== src/Open/Overflow.antt =====
-- `CRONO_KERNEL_PciDeviceOpen` with a full table.
use crono_pci_linux.Base.{
  ◌≤◌, ◌≡◌, sym, ap, ◌∙◌, inl, inr, true, false, some, none, Bool-cases, List, if◌then◌else◌,
  length, length, get_elem?-none, arith,
}
use crono_pci_linux.Types.{Ptr, PciSlot, raw}
use crono_pci_linux.Format.{scan_name, sys_bus_pcidevs_path}
use crono_pci_linux.Format.RoundTrip.{scan_name-slot_name}
use crono_pci_linux.Os.{Os, Dirent, done}
use crono_pci_linux.Machine.{Process, malloc, ◌>>=◌, opendir}
use crono_pci_linux.Machine.Heap.{Fresh}
use crono_pci_linux.Table.{set_slot}
use crono_pci_linux.Open.{
  same_slot, open_entries, open_matching, register, pci_device_open, unset_slot,
}
use crono_pci_linux.Open.Outcome.{listing}
use crono_pci_linux.Scan.Listed.{has_slot}
use crono_pci_linux.Scan.Listed.{Lists, none_left, other, link}

module _ {W : Type 0} (os : Os W) (info : PciSlot) where
  open_matching-full :
      (d : PciSlot) (s : Process W)
      → Fresh raw s (malloc os raw s)
      → length s.devices ≤ s.i_new_dev
      → open_matching os info d s ≡ none
  unfolding open_matching register set_slot
  open_matching-full d s m full = rw (m.run, ◌>>=◌, get_elem?-none s.devices s.i_new_dev full)

  absurd_match : {A : Type 0} → false ≡ true → A
  absurd_match h = absurd (ground arith)

  open_entries-full :
      (es : List Dirent) (ds : List PciSlot) (d0 : PciSlot) (s : Process W)
      → Lists es ds
      → has_slot info ds ≡ true
      → Fresh raw s (malloc os raw s)
      → length s.devices ≤ s.i_new_dev
      → open_entries os info d0 es s ≡ none
  unfolding open_entries
  open_entries-full _ _ d0 s none_left there m full = absurd_match there
  open_entries-full _ ds d0 s (other {e} {es} not_link rest) there m full =
      rw not_link (open_entries-full es ds d0 s rest there m full)
  open_entries-full _ _ d0 s (link {e} {es} {d} {ds} is_link named slot rest) there m full =
      let read : scan_name d0 e.name ≡ d =
        ap (scan_name d0) named ∙ scan_name-slot_name d d0 slot in
      rw (is_link, read)
        (elim (Bool-cases (same_slot info d)) [
          | inl same ↦ rw same (open_matching-full (scan_name d0 e.name) s m full)
          | inr apart ↦
              let later : has_slot info ds ≡ true =
                sym (ap (λ b. if b then true else has_slot info ds) apart) ∙ there in
              rw apart (open_entries-full es ds (scan_name d0 e.name) s rest later m full)
        ])

  -- Opening one more device with a table of which all slots are counted is undefined behaviour: the
  -- address of the new block is stored behind the table.
  pub pci_device_open-full :
      (h : Ptr) (es : List Dirent) (ds : List PciSlot) (s : Process W)
      → (os.opendir sys_bus_pcidevs_path s.world).0 ≡ done es
      → Lists es ds
      → has_slot info ds ≡ true
      → Fresh raw (listing os info s) (malloc os raw (listing os info s))
      → length s.devices ≤ s.i_new_dev
      → pci_device_open os (some h) (some info) s ≡ none
  unfolding pci_device_open opendir
  pci_device_open-full h es ds s opens lists there m full = rw (
    opens,
    ◌>>=◌,
    open_entries-full es ds (unset_slot os.garbage) (listing os info s) lists there m full,
  )
