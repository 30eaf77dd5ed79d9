-- ===== src/Open/Matching.antt =====
-- `CRONO_KERNEL_PciDeviceOpen` from the entry of the device on.
use crono_pci_linux.Base.{
  ℕ, ◌+◌, ◌<◌, ◌≡◌, refl, ap, ◌∙◌, inl, inr, some, ◌∷◌, ◌++◌, ◌==◌, ==-eq, ==-ne, ==-refl,
  Bool-cases, length, set, get_elem?-get_or, ◌%◌, ◌^◌, codes, arith,
}
use crono_pci_linux.Types.{Ptr, PciSlot, Device, raw, device, zero_device, success, try_again}
use crono_pci_linux.Format.{construct_miscdev_name}
use crono_pci_linux.Os.{Os, rdwr}
use crono_pci_linux.Machine.{Process, malloc, ◌>>=◌, open_file, put}
use crono_pci_linux.Machine.Frame.{Framed, Reply-cases}
use crono_pci_linux.Machine.Heap.{Fresh, ne_false, write-run}
use crono_pci_linux.Machine.Returns
use crono_pci_linux.Machine.Returns.{Returns, returns}
use crono_pci_linux.Bars.{fill_device_bar_descriptions}
use crono_pci_linux.Bars.Fill.{FitsLink, fill_device_bar_descriptions-Returns}
use crono_pci_linux.Sysfs.{crono_read_vendor_device}
use crono_pci_linux.Table.{set_slot}
use crono_pci_linux.Open.{register, open_matching, finish_fill, finish_open, open_miscdev}
use crono_pci_linux.Open.Exits.{
  InFlight, InFlight-call, InFlight-write, OpenPost, open_error-ne, device_error-Rejected, Positive,
  AfterFill-FillPost, finish_fill-Returns,
}

module _ {W : Type 0} (os : Os W) {p : Ptr} {d : Device} {s : Process W} where
  finish_open-Returns :
      (fd : ℕ) (t : Process W)
      → InFlight p d (fd ∷ s.fds) s t
      → d.bar_count ≡ 0
      → ((w : W) → FitsLink os d.pci_slot w)
      → Returns (OpenPost d s) (finish_open os p d fd t)
  unfolding finish_open
  finish_open-Returns fd t f bare fits =
      let d' : Device = record d { miscdev_fd = fd } in
      let u : Process W = put p (some (device d')) t in
      let at_p : u.cells p ≡ some (device d') = rw ==-refl in
      let g : InFlight p d' (fd ∷ s.fds) s u = InFlight-write d d' f in
      rw (write-run p (device d) (device d') t f.p_set f.at_p, ◌>>=◌)
        (Returns.bind (fill_device_bar_descriptions os p) (finish_fill os p fd) u
          (fill_device_bar_descriptions-Returns os
            (record { ne_null = ==-ne p 0 f.p_set; cell = at_p }) bare (fits u.world))
          λ ret v post. finish_fill-Returns os fd u g ret v (AfterFill-FillPost os at_p ret v post))

  open_miscdev-Returns :
      (t : Process W)
      → InFlight p d s.fds s t
      → d.bar_count ≡ 0
      → ((w : W) → FitsLink os d.pci_slot w)
      → Positive os
      → Returns (OpenPost d s) (open_miscdev os p d t)
  unfolding open_miscdev open_file
  open_miscdev-Returns t f bare fits positive =
      let path = codes "/dev/" ++ d.miscdev_name in
      let stats = os.stat path t.world in
      let opened = os.open_file path rdwr stats.1 in
      elim (Reply-cases stats.0) [
        | inr (e, missing) ↦
            rw (missing, ◌>>=◌)
              (device_error-Rejected {d = d} _ 0 (InFlight-call stats.1 e f) (inl refl)
                (omega arith))
        | inl (st, there) ↦
            rw (there, ◌>>=◌)
              (elim (Reply-cases opened.0) [
                | inr (e, refused) ↦
                    rw (refused, ◌>>=◌)
                      (device_error-Rejected {d = d} _ 0 (InFlight-call opened.1 e f) (inl refl)
                        (open_error-ne e))
                | inl (fd, ok) ↦
                    rw (ok, ◌>>=◌)
                      (elim (Bool-cases (fd == 0)) [
                        | inl zero_fd ↦
                            absurd (positive path rdwr stats.1 fd ok (==-eq fd 0 zero_fd))
                        | inr good ↦ rw good (
                            finish_open-Returns fd _
                              (record {
                                p_set = f.p_set;
                                p_new = f.p_new;
                                at_p = f.at_p;
                                others = f.others;
                                same_fds = ap (λ x. fd ∷ x) f.same_fds;
                                same_dirs = f.same_dirs;
                                count = f.count;
                                slots = f.slots;
                              })
                              bare fits)
                      ])
              ])
      ]

-- Reading the ids of the device `d` in the state `w` of the system gives `Ids` of them.
abbrev pub ReadsIds : {W : Type 0} → Os W → (ℕ × ℕ → Type 0) → PciSlot → W → Type 0
ReadsIds {W} os Ids d w =
    (ids : ℕ × ℕ) (s : Process W)
    → s.world ≡ w
    → Returns (λ r t. Ids r.1 × Framed s t) (crono_read_vendor_device os d ids s)

-- The device has ids with `Ids`, and the name that is made of its device id and the slot `d`.
abbrev pub Named : (ℕ × ℕ → Type 0) → PciSlot → Device → Type 0
Named Ids d opened =
    Ids (opened.vendor_id, opened.device_id)
    × (opened.miscdev_name ≡ construct_miscdev_name opened.device_id d)

-- Opening the device of an entry that matches returns, on every answer of the system but a failed
-- allocation, if the table has a free slot. Either the device is open, or every block, descriptor
-- and the count are as before and the directory is closed, but the slot keeps the address of the
-- freed block, and so may the handle.
pub open_matching-Returns :
    {W : Type 0} (os : Os W) (Ids : ℕ × ℕ → Type 0) (info d : PciSlot) (s : Process W)
    → (m : Fresh raw s (malloc os raw s)) → ReadsIds os Ids d m.world
    → s.i_new_dev < length s.devices
    → ((w : W) → FitsLink os info w)
    → Positive os
    → Returns
        (λ x t.
          (opened : Device) × (opened.pci_slot ≡ info) × Named Ids d opened × OpenPost opened s x t)
        (open_matching os info d s)
unfolding open_matching register set_slot
open_matching-Returns os Ids info d s m reads room fits positive =
    let p = m.at in
    let p_set = ne_false p 0 m.ne_null in
    let n = s.i_new_dev in
    let d0 : Device = record zero_device { pci_slot = info } in
    let t0 : Process _ = record (put p (some raw) (record s { world = m.world })) {
      i_new_dev = n + 1;
      devices = set s.devices n p;
    } in
    let t1 : Process _ = put p (some (device zero_device)) t0 in
    let t2 : Process _ = put p (some (device d0)) t1 in
    let at0 : t0.cells p ≡ some raw = rw ==-refl in
    let at1 : t1.cells p ≡ some (device zero_device) = rw ==-refl in
    let here = get_elem?-get_or s.devices n 0 room in
    rw
      (
        m.run,
        ◌>>=◌,
        here,
        write-run p raw (device zero_device) t0 p_set at0,
        write-run p (device zero_device) (device d0) t1 p_set at1,
      )
      (Returns.bind (crono_read_vendor_device os d (os.garbage % 2 ^ 16, os.garbage % 2 ^ 16)) _ t2
        (reads _ t2 refl)
        λ (ret, (vendor_id, device_id)) t (ids, f).
          let g : InFlight p d0 s.fds s t = record {
            p_set = p_set;
            p_new = m.unused;
            at_p = ap (λ c. c p) f.cells ∙ rw ==-refl;
            others = λ q apart. ap (λ c. c q) f.cells ∙ rw apart;
            same_fds = f.fds;
            same_dirs = f.dirs;
            count = f.i_new_dev;
            slots = f.devices;
          } in
          let d1 : Device = record d0 {
            vendor_id = vendor_id;
            device_id = device_id;
            miscdev_name = construct_miscdev_name device_id d;
          } in
          elim (Bool-cases (ret == success)) [
            | inr bad ↦ rw bad (
                Returns.mono (device_error-Rejected {d = d1} try_again 0 g (inl refl) (omega arith))
                  λ x u post. (d1, refl, (ids, refl), post))
            | inl ok ↦
                rw (ok, write-run p (device d0) (device d1) t p_set g.at_p, ◌>>=◌)
                  (Returns.mono
                    (open_miscdev-Returns os (put p (some (device d1)) t) (InFlight-write d0 d1 g)
                      refl fits positive)
                    λ x u post. (d1, refl, (ids, refl), post))
          ])
