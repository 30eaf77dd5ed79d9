-- ===== src/Open/Exits.antt =====
-- The exits of `CRONO_KERNEL_PciDeviceOpen` and what each leaves behind.
use crono_pci_linux.Base.{
  ℕ, ◌+◌, ◌-◌, ◌≡◌, ◌≢◌, refl, sym, ap, ◌∙◌, ◌⊎◌, inl, inr, false, some, none, List, ◌∷◌, ◌==◌,
  ==-eq, ==-ne, ==-refl, Bool-cases, set, arith,
}
use crono_pci_linux.Types.{Ptr, Device, device, success, ebusy, enodev}
use crono_pci_linux.Os.{Access, Os, done, drop_fd}
use crono_pci_linux.Machine.{Process, ◌>>=◌, close, closedir, put}
use crono_pci_linux.Machine.Heap.{free-run}
use crono_pci_linux.Machine.Returns.{Returns, returns}
use crono_pci_linux.Bars.Fill.{FillPost}
use crono_pci_linux.Open.{open_error, finish_fill, device_error}

-- The codes for an error in `open` are no success.
pub open_error-ne : (err : ℕ) → open_error err ≢ success
open_error-ne err = elim (Bool-cases (err == ebusy)) [
  | inl busy ↦ rw busy (omega arith)
  | inr other ↦ rw other (elim (Bool-cases (err == enodev)) [
    | inl none_ ↦ rw none_ (omega arith)
    | inr rest ↦ rw rest (omega arith)
  ])
]

module _ {W : Type 0} where
  -- The device `d` was allocated at `p` and registered since the state `s`, and nothing else
  -- changed but the descriptors, which are `fds` now.
  pub record InFlight (p : Ptr) (d : Device) (fds : List ℕ) (s t : Process W) : Type 0 where
    pub p_set : (p == 0) ≡ false
    pub p_new : s.cells p ≡ none
    pub at_p : t.cells p ≡ some (device d)
    pub others : (q : Ptr) → (p == q) ≡ false → t.cells q ≡ s.cells q
    pub same_fds : t.fds ≡ fds
    pub same_dirs : t.dirs ≡ s.dirs
    pub count : t.i_new_dev ≡ s.i_new_dev + 1
    pub slots : t.devices ≡ set s.devices s.i_new_dev p

  -- The device is open: its descriptor is the only new one, its block the only new block, and it is
  -- counted.
  pub record Opened (d : Device) (s : Process W) (ret handle : ℕ) (t : Process W) : Type 0 where
    pub code : ret ≡ success
    pub new : Device
    pub at_handle : t.cells handle ≡ some (device new)
    pub is_new : s.cells handle ≡ none
    pub same_slot : new.pci_slot ≡ d.pci_slot
    pub same_vendor : new.vendor_id ≡ d.vendor_id
    pub same_device : new.device_id ≡ d.device_id
    pub same_name : new.miscdev_name ≡ d.miscdev_name
    pub others : (q : Ptr) → (handle == q) ≡ false → t.cells q ≡ s.cells q
    pub fds : t.fds ≡ new.miscdev_fd ∷ s.fds
    pub dirs : t.dirs ≡ s.dirs - 1
    pub count : t.i_new_dev ≡ s.i_new_dev + 1
    pub slots : t.devices ≡ set s.devices s.i_new_dev handle

  -- The device is not open: the blocks, the descriptors and the count are as before, the directory
  -- is closed, and the slot behind the count keeps the address of the freed block, which may also
  -- be the handle. The code is an error.
  pub record Rejected (s : Process W) (ret handle : ℕ) (t : Process W) : Type 0 where
    pub code : ret ≢ success
    pub freed : Ptr
    pub handle_is : (handle ≡ 0) ⊎ (handle ≡ freed)
    pub was_new : s.cells freed ≡ none
    pub same : (q : Ptr) → t.cells q ≡ s.cells q
    pub same_fds : t.fds ≡ s.fds
    pub dirs : t.dirs ≡ s.dirs - 1
    pub count : t.i_new_dev ≡ s.i_new_dev
    pub slots : t.devices ≡ set s.devices s.i_new_dev freed

  abbrev pub OpenPost : Device → Process W → ℕ × Ptr → Process W → Type 0
  OpenPost d s (ret, handle) t = Opened d s ret handle t ⊎ Rejected s ret handle t

  pub InFlight-call :
      {p : Ptr} {d : Device} {fds : List ℕ} {s t : Process W} (w : W) (e : ℕ)
      → InFlight p d fds s t
      → InFlight p d fds s (record t { world = w; errno = e })
  InFlight-call w e f = record {
    p_set = f.p_set;
    p_new = f.p_new;
    at_p = f.at_p;
    others = f.others;
    same_fds = f.same_fds;
    same_dirs = f.same_dirs;
    count = f.count;
    slots = f.slots;
  }

  -- The device is overwritten.
  pub InFlight-write :
      {p : Ptr} (d d' : Device) {fds : List ℕ} {s t : Process W}
      → InFlight p d fds s t
      → InFlight p d' fds s (put p (some (device d')) t)
  InFlight-write d d' f = record {
    p_set = f.p_set;
    p_new = f.p_new;
    at_p = rw ==-refl;
    others = λ q apart. rw apart (f.others q apart);
    same_fds = f.same_fds;
    same_dirs = f.same_dirs;
    count = f.count;
    slots = f.slots;
  }

  pub device_error-Rejected :
      {p : Ptr} {d d' : Device} {s t : Process W} (ret handle : ℕ)
      → InFlight p d' s.fds s t
      → (handle ≡ 0) ⊎ (handle ≡ p)
      → ret ≢ success
      → Returns (OpenPost d s) (device_error p ret handle t)
  unfolding device_error closedir
  device_error-Rejected {p} {d} {d'} {s} {t} ret handle f is error =
      let t1 : Process W = record t { dirs = t.dirs - 1 } in
      rw (◌>>=◌, free-run p (device d') t1 f.p_set f.at_p)
        (returns (
          inr (record {
            code = error;
            freed = p;
            handle_is = is;
            was_new = f.p_new;
            same = λ q. elim (Bool-cases (p == q)) [
              | inl e ↦ rw e (sym (ap s.cells (sym (==-eq p q e)) ∙ f.p_new))
              | inr c ↦ rw c (f.others q c)
            ];
            same_fds = f.same_fds;
            dirs = ap (λ n. n - 1) f.same_dirs;
            count = omega (arith, f.count);
            slots = f.slots;
          })))

-- Standard input is open, so that a new descriptor is not 0.
abbrev pub Positive : {W : Type 0} → Os W → Type 0
Positive {W} os =
    (path : List ℕ) (a : Access) (w : W) (fd : ℕ) → (os.open_file path a w).0 ≡ done fd → fd ≢ 0

-- What filling the device leaves, on every exit.
pub record AfterFill {W : Type 0} (p : Ptr) (d : Device) (t u : Process W) : Type 0 where
  pub new : Device
  pub at_p : u.cells p ≡ some (device new)
  pub same_slot : new.pci_slot ≡ d.pci_slot
  pub same_vendor : new.vendor_id ≡ d.vendor_id
  pub same_device : new.device_id ≡ d.device_id
  pub same_name : new.miscdev_name ≡ d.miscdev_name
  pub same_fd : new.miscdev_fd ≡ d.miscdev_fd
  pub others : (q : Ptr) → (p == q) ≡ false → u.cells q ≡ t.cells q
  pub same_fds : u.fds ≡ t.fds
  pub same_dirs : u.dirs ≡ t.dirs
  pub same_count : u.i_new_dev ≡ t.i_new_dev
  pub same_devices : u.devices ≡ t.devices

pub AfterFill-FillPost :
    {W : Type 0} (os : Os W) {p : Ptr} {d : Device} {t : Process W}
    → t.cells p ≡ some (device d)
    → (ret : ℕ) (u : Process W) → FillPost os p d t ret u
    → AfterFill p d t u
AfterFill-FillPost os {p} {d} {t} at ret u (inl f) = record {
  new = record d { bar_descs = f.descs; bar_count = f.count };
  at_p = ap (λ c. c p) f.stored ∙ rw ==-refl;
  same_slot = refl;
  same_vendor = refl;
  same_device = refl;
  same_name = refl;
  same_fd = refl;
  others = λ q apart. ap (λ c. c q) f.stored ∙ rw apart;
  same_fds = f.same_fds;
  same_dirs = f.same_dirs;
  same_count = f.same_count;
  same_devices = f.same_devices;
}
AfterFill-FillPost os {p} {d} {t} at ret u (inr f) = record {
  new = d;
  at_p = ap (λ c. c p) f.failed.rest.cells ∙ at;
  same_slot = refl;
  same_vendor = refl;
  same_device = refl;
  same_name = refl;
  same_fd = refl;
  others = λ q apart. ap (λ c. c q) f.failed.rest.cells;
  same_fds = f.failed.same_fds;
  same_dirs = f.failed.rest.dirs;
  same_count = f.failed.rest.i_new_dev;
  same_devices = f.failed.rest.devices;
}

module _ {W : Type 0} (os : Os W) {p : Ptr} {d : Device} {s : Process W} where
  pub finish_fill-Returns :
      (fd : ℕ) (t : Process W)
      → InFlight p (record d { miscdev_fd = fd }) (fd ∷ s.fds) s t
      → (ret : ℕ) (u : Process W) → AfterFill p (record d { miscdev_fd = fd }) t u
      → Returns (OpenPost d s) (finish_fill os p fd ret u)
  unfolding finish_fill close closedir
  finish_fill-Returns fd t f ret u a = elim (Bool-cases (ret == success)) [
    | inl ok ↦ rw ok (
        returns (
          inl (record {
            code = refl;
            new = a.new;
            at_handle = a.at_p;
            is_new = f.p_new;
            same_slot = a.same_slot;
            same_vendor = a.same_vendor;
            same_device = a.same_device;
            same_name = a.same_name;
            others = λ q apart. a.others q apart ∙ f.others q apart;
            fds = a.same_fds ∙ f.same_fds ∙ ap (λ n. n ∷ s.fds) (sym a.same_fd);
            dirs = ap (λ n. n - 1) (a.same_dirs ∙ f.same_dirs);
            count = a.same_count ∙ f.count;
            slots = a.same_devices ∙ f.slots;
          })))
    | inr bad ↦
        rw (bad, ◌>>=◌)
          (device_error-Rejected {d = d} {d' = a.new} ret p
            (record {
              p_set = f.p_set;
              p_new = f.p_new;
              at_p = a.at_p;
              others = λ q apart. a.others q apart ∙ f.others q apart;
              same_fds = ap (drop_fd fd) (a.same_fds ∙ f.same_fds) ∙ rw ==-refl;
              same_dirs = a.same_dirs ∙ f.same_dirs;
              count = a.same_count ∙ f.count;
              slots = a.same_devices ∙ f.slots;
            })
            (inr refl) (==-ne ret success bad))
  ]
