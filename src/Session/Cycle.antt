-- ===== src/Session/Cycle.antt =====
-- A device that is opened and closed.
use crono_pci_linux.Base.{
  ℕ, ◌+◌, ◌<◌, ◌≡◌, refl, sym, ap, ◌∙◌, ◌⊎◌, inl, inr, true, false, Bool, some, Option, List, ◌==◌,
  ==-eq, ==-ne, subst, ==-refl, Bool-cases, get_or, get_or-set_self, arith,
}
use crono_pci_linux.Types.{Ptr, PciSlot, Obj, Device, device, zero_device, raw, success}
use crono_pci_linux.Format.{sys_bus_pcidevs_path}
use crono_pci_linux.Os.{Os, Dirent, done}
use crono_pci_linux.Machine.{Process, malloc}
use crono_pci_linux.Machine.Heap.{Fresh, some-none}
use crono_pci_linux.Machine.Returns
use crono_pci_linux.Machine.Returns.{Returns, returned}
use crono_pci_linux.Device.Handle.{IsHandle}
use crono_pci_linux.Bars.Fill.{FitsLink}
use crono_pci_linux.Valid.{device-fits}
use crono_pci_linux.Scan.Listed.{Lists}
use crono_pci_linux.Table.Free.{slot}
use crono_pci_linux.Table.Unmap.{OnlyDevice}
use crono_pci_linux.Table.Release.{InSlot, FreePost}
use crono_pci_linux.Open.{pci_device_open, pci_device_close}
use crono_pci_linux.Open.Close.{fd_closed, pci_device_close-Returns}
use crono_pci_linux.Open.Exits.{Opened, Positive}
use crono_pci_linux.Scan.Listed.{has_slot}
use crono_pci_linux.Open.Outcome.{listing, EntriesPost, pci_device_open-Returns}
use crono_pci_linux.Session.{Reach}
use crono_pci_linux.Session.Invariant.{Reach-WellFormed}

abbrev the_device : Option Obj → Device
the_device (some (device d)) = d
the_device _ = zero_device

some_eq : (p q : Ptr) → some p ≡ some q → p ≡ q
some_eq p q e = ground arith

module _ {W : Type 0} (os : Os W) where
  abbrev OpenResult : PciSlot → List PciSlot → Process W → ℕ × Option Ptr → Process W → Type 0
  OpenResult info ds s (ret, handle) t =
      (p : Ptr) × (handle ≡ some p)
      × EntriesPost info (has_slot info ds) (listing os info s) (ret, p) t

  -- The device that an open call gave is open.
  handle-Opened :
      (info : PciSlot) (found : Bool) {s t : Process W} {ret : ℕ} {p : Ptr} {d : Device}
      → EntriesPost info found s (ret, p) t
      → IsHandle p d t
      → (new : Device) × Opened new s ret p t
  handle-Opened info false (is, f) v = absurd (v.holds.ne_null (ap (λ x. x.1) is))
  handle-Opened info true (new, _, inl o) v = (new, o)
  handle-Opened info true {s = s} {p = p} {d = d} (new, _, inr r) v = elim r.handle_is [
    | inl null ↦ absurd (v.holds.ne_null null)
    | inr freed ↦
        absurd (some-none (device d) (sym v.holds.cell ∙ r.same p ∙ ap s.cells freed ∙ r.was_new))
  ]

  module _ (info : PciSlot) (s : Process W) (reach : Reach os s) (p : Ptr) (t : Process W)
      (reach' : Reach os t) (d : Device) (v : IsHandle p d t) where
    in_slot :
        (new : Device) (ret : ℕ)
        → Opened new (listing os info s) ret p t
        → s.i_new_dev + 1 < 8
        → InSlot s.i_new_dev p d t
    in_slot new ret o room =
        let before = Reach-WellFormed os reach in
        let valid = Reach-WellFormed os reach' in
        let size = valid.eight in
        let size' = before.eight in
        let count = o.count in
        let here : slot t s.i_new_dev ≡ p =
          ap (λ ds. get_or ds s.i_new_dev 0) o.slots
          ∙ get_or-set_self s.devices s.i_new_dev p 0 (omega arith) in
        record {
          holds = v.holds;
          bars = device-fits valid p d v.holds.cell;
          here = here;
          counted = omega arith;
          room = omega arith;
          once = λ j low same.
              valid.apart j s.i_new_dev low (omega arith) (rw same v.holds.ne_null)
                (rw (same, here) refl);
        }

  closed_again :
      (info : PciSlot) (s : Process W) (p : Ptr) (t : Process W) (d : Device)
      → IsHandle p d t
      → (new : Device) (o : Opened new (listing os info s) success p t) → (ret : ℕ) (u : Process W)
      → FreePost s.i_new_dev p d (fd_closed os d t) ret u
      → ((ret ≡ success)
          × ((q : Ptr) → u.cells q ≡ s.cells q)
          × (u.fds ≡ s.fds)
          × (u.dirs ≡ s.dirs))
        ⊎ ((ret ≡ u.errno) × OnlyDevice p (fd_closed os d t) u)
  closed_again info s p t d v new o ret u (inr failed) = inr failed
  closed_again info s p t d v new o ret u (inl c) =
      let same : o.new ≡ d = ap the_device (sym o.at_handle ∙ v.holds.cell) in
      inl (
        c.code,
        (λ q. elim (Bool-cases (p == q)) [
          | inl e ↦ rw (sym (==-eq p q e)) (c.gone ∙ sym o.is_new)
          | inr ne ↦ c.others q (==-ne p q ne) ∙ o.others q ne
        ]),
        c.same_fds ∙ rw (o.fds, same, ==-refl d.miscdev_fd) refl,
        omega (arith, c.same_dirs, o.dirs),
      )

  -- A device that was opened in a reachable state can be closed: the call returns. Either the code
  -- is that of success, and every block, the open descriptors and the directory streams are as
  -- before the device was opened; or the code is `errno`, and the device is still there. The
  -- conditions are those of opening, that its code was that of success, that the device id of the
  -- opened device is not 0, and that two slots of the table were left.
  pub pci_device_close-pci_device_open :
      (info : PciSlot) (h : Ptr) (es : List Dirent) (ds : List PciSlot) (s t : Process W) (p : Ptr)
      (d : Device)
      → Reach os s
      → Reach os t
      → pci_device_open os (some h) (some info) s ≡ some ((success, some p), t)
      → IsHandle p d t
      → s.i_new_dev + 1 < 8
      → (os.opendir sys_bus_pcidevs_path s.world).0 ≡ done es
      → Lists es ds
      → Fresh raw (listing os info s) (malloc os raw (listing os info s))
      → ((w : W) → FitsLink os info w)
      → Positive os
      → Returns
          (λ ret u.
            ((ret ≡ success)
              × ((q : Ptr) → u.cells q ≡ s.cells q)
              × (u.fds ≡ s.fds)
              × (u.dirs ≡ s.dirs))
            ⊎ ((ret ≡ u.errno) × OnlyDevice p (fd_closed os d t) u))
          (pci_device_close os p t)
  pci_device_close-pci_device_open info h es ds s t p d reach reach' run v room opens lists m fits
        positive =
      let before = Reach-WellFormed os reach in
      let size = before.eight in
      let post = returned {P = OpenResult info ds s} (
        subst (Returns (OpenResult info ds s)) run
          (pci_device_open-Returns os info s h es ds opens lists m (omega arith) fits positive)) in
      let found = has_slot info ds in
      let (new, o) =
        handle-Opened info found {s = listing os info s} {t = t} {ret = success} {p = p}
          (subst (λ x. EntriesPost info found (listing os info s) (success, x) t)
            (sym (some_eq p post.0 post.1)) post.2)
          v in
      Returns.mono
        (pci_device_close-Returns os s.i_new_dev p d t v
          (in_slot info s reach p t reach' d v new success o room))
        (closed_again info s p t d v new o)
