-- ===== src/Open/Outcome.antt =====
-- `CRONO_KERNEL_PciDeviceOpen` as a whole.
use crono_pci_linux.Base.{
  ℕ, ◌+◌, ◌-◌, ◌<◌, ◌≡◌, refl, sym, subst, ap, ◌∙◌, inl, inr, Bool, true, false, some, List,
  Bool-cases, length, arith,
}
use crono_pci_linux.Types.{Ptr, PciSlot, Device, raw, success}
use crono_pci_linux.Format.{construct_miscdev_name, scan_name, sys_bus_pcidevs_path}
use crono_pci_linux.Format.RoundTrip.{scan_name-slot_name}
use crono_pci_linux.Os.{Dirent, Os, done}
use crono_pci_linux.Machine.{Process, malloc, ◌>>=◌, opendir, closedir}
use crono_pci_linux.Machine.Frame.{Framed, Framed-refl}
use crono_pci_linux.Machine.Heap.{Fresh}
use crono_pci_linux.Machine.Returns
use crono_pci_linux.Machine.Returns.{Returns, returns}
use crono_pci_linux.Bars.Fill.{FitsLink}
use crono_pci_linux.Sysfs.Total.{crono_read_vendor_device-Framed}
use crono_pci_linux.Open.{same_slot, unset_slot, open_entries, pci_device_open}
use crono_pci_linux.Open.Matching.{ReadsIds, Named, open_matching-Returns}
use crono_pci_linux.Open.Exits.{OpenPost, Positive}
use crono_pci_linux.Scan.Listed.{has_slot, Lists, none_left, other, link}

-- Without the slot in the directory the code is that of success, and the handle is NULL.
abbrev pub EntriesPost : {W : Type 0} → PciSlot → Bool → Process W → ℕ × Ptr → Process W → Type 0
EntriesPost info false s x t = (x ≡ (success, 0)) × Framed (record s { dirs = s.dirs - 1 }) t
EntriesPost info true s x t = (opened : Device) × (opened.pci_slot ≡ info) × OpenPost opened s x t

-- The same with the ids and the name of the device.
abbrev pub NamedPost :
    {W : Type 0} → (ℕ × ℕ → Type 0) → PciSlot → Bool → Process W → ℕ × Ptr → Process W → Type 0
NamedPost Ids info false s x t = EntriesPost info false s x t
NamedPost Ids info true s x t =
    (opened : Device) × (opened.pci_slot ≡ info) × Named Ids info opened × OpenPost opened s x t

EntriesPost-NamedPost :
    {W : Type 0} (Ids : ℕ × ℕ → Type 0) (info : PciSlot) (found : Bool) (s : Process W)
    (x : ℕ × Ptr) (t : Process W)
    → NamedPost Ids info found s x t
    → EntriesPost info found s x t
EntriesPost-NamedPost Ids info false s x t post = post
EntriesPost-NamedPost Ids info true s x t (opened, same, named, post) = (opened, same, post)

-- Slots that compare equal are equal.
pub same_slot_eq : (a b : PciSlot) → same_slot a b ≡ true → a ≡ b
same_slot_eq a b same =
    let e1 : a.domain ≡ b.domain = ground arith in
    let e2 : a.bus ≡ b.bus = ground arith in
    let e3 : a.slot ≡ b.slot = ground arith in
    let e4 : a.function ≡ b.function = ground arith in
    ap (λ n. record { domain = n; bus = a.bus; slot = a.slot; function = a.function }) e1
    ∙ ap (λ n. record { domain = b.domain; bus = n; slot = a.slot; function = a.function }) e2
    ∙ ap (λ n. record { domain = b.domain; bus = b.bus; slot = n; function = a.function }) e3
    ∙ ap (λ n. record { domain = b.domain; bus = b.bus; slot = b.slot; function = n }) e4

module _ {W : Type 0} (os : Os W) (Ids : ℕ × ℕ → Type 0) (info : PciSlot) (s : Process W)
    (m : Fresh raw s (malloc os raw s)) (reads : ReadsIds os Ids info m.world)
    (room : s.i_new_dev < length s.devices) (link_fits : (w : W) → FitsLink os info w)
    (positive : Positive os) where
  open_entries-Returns :
      (es : List Dirent) (ds : List PciSlot) (d0 : PciSlot)
      → Lists es ds
      → Returns (NamedPost Ids info (has_slot info ds) s) (open_entries os info d0 es s)
  unfolding open_entries closedir
  open_entries-Returns _ _ d0 none_left = returns (refl, Framed-refl _)
  open_entries-Returns _ ds d0 (other {e} {es} not_link rest) =
      rw not_link (open_entries-Returns es ds d0 rest)
  open_entries-Returns _ _ d0 (link {e} {es} {d} {ds} is_link named slot rest) =
      let read : scan_name d0 e.name ≡ d =
        ap (scan_name d0) named ∙ scan_name-slot_name d d0 slot in
      rw (is_link, read)
        (elim (Bool-cases (same_slot info d)) [
          | inl same ↦
              let is_info : scan_name d0 e.name ≡ info = read ∙ sym (same_slot_eq info d same) in
              rw same (
                Returns.mono
                  (open_matching-Returns os Ids info (scan_name d0 e.name) s m
                    (subst (λ x. ReadsIds os Ids x m.world) (sym is_info) reads) room link_fits
                    positive)
                  λ x t (opened, slot', (ids, name), post). (
                    opened,
                    slot',
                    (ids, name ∙ ap (construct_miscdev_name opened.device_id) is_info),
                    post,
                  ))
          | inr apart ↦ rw apart (open_entries-Returns es ds (scan_name d0 e.name) rest)
        ])

module _ {W : Type 0} (os : Os W) (info : PciSlot) (s : Process W) where
  -- The process behind `opendir`.
  abbrev pub listing : Process W
  listing = record s { world = (os.opendir sys_bus_pcidevs_path s.world).1; dirs = s.dirs + 1 }

  pub pci_device_open-NamedPost :
      (Ids : ℕ × ℕ → Type 0) (h : Ptr) (es : List Dirent) (ds : List PciSlot)
      → (os.opendir sys_bus_pcidevs_path s.world).0 ≡ done es
      → Lists es ds
      → (m : Fresh raw listing (malloc os raw listing)) → ReadsIds os Ids info m.world
      → s.i_new_dev < length s.devices
      → ((w : W) → FitsLink os info w)
      → Positive os
      → Returns
          (λ (ret, handle) t.
            (p : Ptr) × (handle ≡ some p)
            × NamedPost Ids info (has_slot info ds) listing (ret, p) t)
          (pci_device_open os (some h) (some info) s)
  unfolding pci_device_open opendir
  pci_device_open-NamedPost Ids h es ds opens lists m reads room fits positive =
      rw (opens, ◌>>=◌)
        (Returns.bind (open_entries os info (unset_slot os.garbage) es) _ _
          (open_entries-Returns os Ids info listing m reads room fits positive es ds
            (unset_slot os.garbage) lists)
          λ (ret, p) t post. returns (p, refl, post))

  -- Opening a device returns when the directory opens, its links are the names of slots, the
  -- allocator gives a block, the table has a free slot, the link of the device fits its buffer and
  -- standard input is open. If the slot is not in the directory, the code is that of success, the
  -- handle is NULL, and only the world and `errno` change. If it is, then either the device is
  -- open, the code is that of success, its block and its descriptor are the only new ones and it is
  -- counted; or the code is not that of success, every block, every descriptor and the count are as
  -- before, and the slot of the table keeps the address of the freed block, and so may the handle.
  -- The directory is closed on every exit.
  pub pci_device_open-Returns :
      (h : Ptr) (es : List Dirent) (ds : List PciSlot)
      → (os.opendir sys_bus_pcidevs_path s.world).0 ≡ done es
      → Lists es ds
      → Fresh raw listing (malloc os raw listing)
      → s.i_new_dev < length s.devices
      → ((w : W) → FitsLink os info w)
      → Positive os
      → Returns
          (λ (ret, handle) t.
            (p : Ptr) × (handle ≡ some p) × EntriesPost info (has_slot info ds) listing (ret, p) t)
          (pci_device_open os (some h) (some info) s)
  pci_device_open-Returns h es ds opens lists m room fits positive =
      Returns.mono
        (pci_device_open-NamedPost (λ _. Unit {0}) h es ds opens lists m
          (λ ids u _. Returns.mono (crono_read_vendor_device-Framed os info ids u) λ r t f. (tt, f))
          room fits positive)
        λ (ret, handle) t (p, is_p, post). (
          p,
          is_p,
          EntriesPost-NamedPost (λ _. Unit {0}) info (has_slot info ds) listing (ret, p) t post,
        )
