-- ===== src/Open/Keeps.antt =====
-- Opening and closing devices keeps the heap and the table well-formed.
use crono_pci_linux.Base.{
  ℕ, ◌+◌, ◌-◌, ◌≤◌, ◌<◌, ◌≡◌, ◌≢◌, refl, sym, ap, ◌∙◌, inl, inr, not, true, Option, none, some,
  List, [], ◌∷◌, ◌++◌, ◌==◌, ltb, ==-ne, ==-refl, Bool-cases, get_elem?-get_or, get_elem?-none,
  get_or, get_or-set_self, length, set, codes, arith,
}
use crono_pci_linux.Types.{
  Ptr, Obj, raw, Device, device, zero_device, PciSlot, success, minus, einval, try_again,
}
use crono_pci_linux.Format.{scan_name, sys_bus_pcidevs_path}
use crono_pci_linux.Os.{Os, Dirent, update, is_live, rdwr}
use crono_pci_linux.Machine.{Process, malloc, write, free}
use crono_pci_linux.Machine.Keeps.{
  Leads, Keeps, Predicate, At, Ends, stuck, ends, Ends-bind, Ends-if, Leads-bind, Leads-pure,
  Keeps-pure, Leads-if, Leads-branch, Leads-reply, Keeps-get_errno, Keeps-call, Keeps-close,
  Keeps-open_file, Keeps-opendir, Keeps-closedir,
}
use crono_pci_linux.Machine.Heap.{malloc-cases}
use crono_pci_linux.Device.Keeps.{Rewrites, write_device-Keeps, init_hdev-Keeps}
use crono_pci_linux.Sysfs.Keeps.{crono_read_vendor_device-Keeps}
use crono_pci_linux.Bars.Keeps.{fill_device_bar_descriptions-Keeps}
use crono_pci_linux.Valid.{
  WellFormed, Change-WellFormed, update-Change, Change, is_device, is_pages, found_some, true-false,
}
use crono_pci_linux.Valid.Slots.{add-WellFormed, free-WellFormed, fewer-WellFormed}
use crono_pci_linux.Table.{set_slot}
use crono_pci_linux.Table.Keeps.{device-WellFormed, free_device_mem-Keeps}
use crono_pci_linux.Open.{
  same_slot, unset_slot, open_error, register, device_error, finish_fill, finish_open, open_miscdev,
  open_matching, open_entries, pci_device_open, pci_device_close,
}

-- The device at `p` is in the last counted slot.
abbrev Last : Ptr → Predicate
Last p f ds n = WellFormed f ds n × (0 < n) × (get_or ds (n - 1) 0 ≡ p) × (is_device (f p) ≡ true)

-- The count is one too many.
abbrev Over : Predicate
Over f ds n = WellFormed f ds (n - 1)

Last-Rewrites : (p : Ptr) → Rewrites (Last p) p
Last-Rewrites p f ds n d fit (h, some_, here, live) =
    (device-WellFormed p d h live fit, some_, here, rw ==-refl)

Last-WellFormed :
    (p : Ptr) (f : Ptr → Option Obj) (ds : List Ptr) (n : ℕ) → Last p f ds n → WellFormed f ds n
Last-WellFormed p f ds n c = c.0

-- A new block at `p`, unless that is NULL, which no counted slot holds.
abbrev New : Ptr → Predicate
New p f ds n =
    WellFormed f ds n × (p ≢ 0 → (f p ≡ some raw) × ((j : ℕ) → j < n → get_or ds j 0 ≢ p))

-- It is in the last counted slot, and about to become a device.
abbrev Added : Ptr → Predicate
Added p f ds n =
    p ≢ 0
    → (d : Device) → d.bar_count ≤ length d.bar_descs
    → Last p (update f p (some (device d))) ds n

New-Added :
    (p : Ptr) (f : Ptr → Option Obj) (ds : List Ptr) (n : ℕ)
    → n < 8
    → New p f ds n
    → Added p f (set ds n p) (n + 1)
New-Added p f ds n room (h, new_) set_ d fit =
    let (at_p, out) = new_ set_ in
    let change : Change f (update f p (some (device d))) =
      update-Change f p (some (device d)) (λ _. refl)
        (λ there. absurd (true-false (sym there ∙ ap is_pages at_p))) refl (ground arith) in
    let size = h.eight in
    let last : n + 1 - 1 ≡ n = omega arith in
    (
      add-WellFormed (Change-WellFormed change h) p room (rw ==-refl) out,
      omega arith,
      rw last (get_or-set_self ds n p 0 (omega arith)),
      rw ==-refl,
    )

malloc-New :
    {W : Type 0} (os : Os W) (s : Process W)
    → At WellFormed s
    → Ends (λ p t. At (New p) t) (malloc os raw s)
malloc-New os s h = elim (malloc-cases os raw s) [
  | inr no_block ↦ rw no_block (ends (h, λ ne. absurd (ne refl)))
  | inl m ↦ rw m.run (
      ends (
        Change-WellFormed
            (update-Change s.cells m.at (some raw)
              (λ live. absurd (found_some is_device _ refl m.unused live))
              (λ there. absurd (found_some is_pages _ refl m.unused there)) refl refl)
            h,
        λ set_. (
          rw ==-refl,
          λ j low same.
              found_some is_device _ refl (ap s.cells same ∙ m.unused)
                (h.tracked j low λ z. set_ (sym same ∙ z)),
        ),
      ))
]

module _ {W : Type 0} where
  register-Leads : (p : Ptr) → Leads {W = W} (New p) (Added p) (register p)
  unfolding register set_slot
  register-Leads p = record {
    run = λ s (h, new_).
        let size = h.eight in
        elim (Bool-cases (ltb s.i_new_dev 8)) [
          | inr full ↦ rw (get_elem?-none s.devices s.i_new_dev (ground arith), set_slot) stuck
          | inl room ↦
              rw (get_elem?-get_or s.devices s.i_new_dev 0 (ground arith), set_slot)
                (ends (New-Added p s.cells s.devices s.i_new_dev (ground arith) (h, new_)))
        ];
  }

  first_write-Leads :
      (p : Ptr) (d : Device)
      → d.bar_count ≤ length d.bar_descs
      → Leads {W = W} (Added p) (Last p) (write p (device d))
  unfolding write
  first_write-Leads p d fit = record {
    run = λ s added. elim (Bool-cases (p == 0)) [
      | inl null ↦ rw null stuck
      | inr used ↦
          rw used (Ends-if (is_live (s.cells p)) (ends (added (==-ne p 0 used) d fit)) stuck)
    ];
  }

  free-Leads : (p : Ptr) → Leads {W = W} (Last p) Over (free p)
  unfolding free
  free-Leads p = record {
    run = λ s (h, some_, here, live). elim (Bool-cases (p == 0)) [
      | inl null ↦ rw null (ends (fewer-WellFormed h (s.i_new_dev - 1) (omega arith)))
      | inr used ↦ rw used (
          Ends-if (is_live (s.cells p))
            (ends (
              free-WellFormed (fewer-WellFormed h (s.i_new_dev - 1) (omega arith)) p live
                λ j low same.
                  let e : j ≡ s.i_new_dev - 1 =
                    h.apart j (s.i_new_dev - 1) (omega arith) (omega arith)
                      (λ z. ==-ne p 0 used (sym same ∙ z)) (same ∙ sym here) in
                  omega arith))
            stuck)
    ];
  }

  device_error-Leads :
      (p : Ptr) (ret : ℕ) (handle : Ptr)
      → Leads {W = W} (Last p) WellFormed (device_error p ret handle)
  unfolding device_error
  device_error-Leads p ret handle =
      Leads-bind Keeps-closedir λ _. Leads-bind (free-Leads p) λ _. record { run = λ s h. ends h }

module _ {W : Type 0} (os : Os W) where
  finish_fill-Leads : (p : Ptr) (fd ret : ℕ) → Leads (Last p) WellFormed (finish_fill os p fd ret)
  unfolding finish_fill
  finish_fill-Leads p fd ret =
      Leads-if (not (ret == success))
        (Leads-bind (Keeps-close os fd) λ _. device_error-Leads p ret p)
        (Leads-bind Keeps-closedir λ _. Leads-pure (success, p) (Last-WellFormed p))

  finish_open-Leads :
      (p : Ptr) (d : Device) (fd : ℕ)
      → d.bar_count ≤ length d.bar_descs
      → Leads (Last p) WellFormed (finish_open os p d fd)
  unfolding finish_open
  finish_open-Leads p d fd fit =
      Leads-bind (write_device-Keeps p (Last-Rewrites p) (record d { miscdev_fd = fd }) fit) λ _.
        Leads-bind (fill_device_bar_descriptions-Keeps os p (Last-Rewrites p))
          λ ret. finish_fill-Leads p fd ret

  open_miscdev-Leads :
      (p : Ptr) (d : Device)
      → d.bar_count ≤ length d.bar_descs
      → Leads (Last p) WellFormed (open_miscdev os p d)
  unfolding open_miscdev
  open_miscdev-Leads p d fit =
      let path = codes "/dev/" ++ d.miscdev_name in
      Leads-bind (Keeps-call (os.stat path)) λ st.
        Leads-reply st
          (λ _. Leads-bind (Keeps-open_file os path rdwr) λ opened.
            Leads-reply opened
              (λ fd.
                Leads-if (fd == 0)
                  (Leads-bind Keeps-get_errno λ err. device_error-Leads p (open_error err) 0)
                  (finish_open-Leads p d fd fit))
              λ _. Leads-bind Keeps-get_errno λ err. device_error-Leads p (open_error err) 0)
          λ _. device_error-Leads p (minus einval) 0

  open_matching-Leads : (info d : PciSlot) → Keeps WellFormed (open_matching os info d)
  unfolding open_matching
  open_matching-Leads info d = record {
    run = λ s h. Ends-bind (malloc os raw) _ s (malloc-New os s h) λ p t new_.
        (Leads-bind (register-Leads p) λ _.
            Leads-bind (first_write-Leads p zero_device (omega arith)) λ _.
              Leads-bind (write_device-Keeps p (Last-Rewrites p) _ (omega arith)) λ _.
                Leads-bind (crono_read_vendor_device-Keeps os d _) λ (ret, (vendor_id, device_id)).
                  Leads-if (not (ret == success)) (device_error-Leads p try_again 0) (
                    Leads-bind (write_device-Keeps p (Last-Rewrites p) _ (omega arith))
                      λ _. open_miscdev-Leads p _ (omega arith))).run
          t new_;
  }

  open_entries-Keeps :
      (info d : PciSlot) (es : List Dirent) → Keeps WellFormed (open_entries os info d es)
  unfolding open_entries
  open_entries-Keeps info d [] = Leads-bind Keeps-closedir λ _. Keeps-pure _
  open_entries-Keeps info d (e ∷ es) =
      Leads-branch e.is_link
        (Leads-branch (same_slot info (scan_name d e.name))
          (open_matching-Leads info (scan_name d e.name))
          (open_entries-Keeps info (scan_name d e.name) es))
        (open_entries-Keeps info d es)

  pub pci_device_open-Keeps :
      (h : Option Ptr) (info : Option PciSlot) → Keeps WellFormed (pci_device_open os h info)
  unfolding pci_device_open
  pci_device_open-Keeps none info = Keeps-pure _
  pci_device_open-Keeps (some h) none = Keeps-pure _
  pci_device_open-Keeps (some h) (some info) =
      Leads-bind (Keeps-opendir os sys_bus_pcidevs_path) λ dr.
        Leads-reply dr
          (λ entries.
            Leads-bind (open_entries-Keeps info (unset_slot os.garbage) entries) λ _. Keeps-pure _)
          λ _. Leads-bind Keeps-get_errno λ _. Keeps-pure _

  pub pci_device_close-Keeps : (h : Ptr) → Keeps WellFormed (pci_device_close os h)
  unfolding pci_device_close
  pci_device_close-Keeps h = init_hdev-Keeps WellFormed h _ _ λ d.
      Leads-bind (Keeps-close os d.miscdev_fd)
        λ closed. Leads-reply closed (λ _. free_device_mem-Keeps os h) λ _. Keeps-get_errno
