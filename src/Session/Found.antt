-- ===== src/Session/Found.antt =====
-- A scan, and opening a device that it found.
use crono_pci_linux.Base.{
  ℕ, zero, suc, ◌<◌, ◌≤◌, ◌≡◌, refl, sym, ap, ◌∙◌, inl, inr, true, some, Option, List, [], ◌∷◌,
  Bool-cases, length, get_or, take, subst, arith,
}
use crono_pci_linux.Types.{Ptr, PciSlot, PciId, ScanResult, Device, raw, zero_slot, pci_cards}
use crono_pci_linux.Format.{construct_miscdev_name, sys_bus_pcidevs_path}
use crono_pci_linux.Os.{Os, Dirent, Stat, done}
use crono_pci_linux.Machine.{Process, M, malloc, ◌>>=◌}
use crono_pci_linux.Machine.Frame.{Framed}
use crono_pci_linux.Machine.Heap.{Fresh}
use crono_pci_linux.Machine.Returns
use crono_pci_linux.Machine.Returns.{Returns}
use crono_pci_linux.Bars.Fill.{FitsLink}
use crono_pci_linux.Scan.{is_match, pci_scan_devices}
use crono_pci_linux.Scan.Listed.{
  Bus, has_slot, has_slot-here, has_slot-behind, Lists, matching, matching_nil, matching_hit,
  matching_miss,
}
use crono_pci_linux.Scan.Filter.{read_ids, pci_scan_devices-matching}
use crono_pci_linux.Open.{pci_device_open}
use crono_pci_linux.Open.Exits.{OpenPost, Positive}
use crono_pci_linux.Open.Outcome.{listing, NamedPost, pci_device_open-NamedPost}

-- A scan, and opening the device at index `k` of its result.
abbrev pub scan_and_open : {W : Type 0} → Os W → ℕ → ℕ → ScanResult → Ptr → ℕ → M W (ℕ × Option Ptr)
scan_and_open os vendor_id device_id r h k = do
  (ret, found) ← pci_scan_devices os vendor_id device_id r
  pci_device_open os (some h) (some (get_or found.device_slot k zero_slot))

has_slot-among :
    (d : PciSlot) (xs ds : List PciSlot)
    → ((k : ℕ) → k < length xs → has_slot (get_or xs k zero_slot) ds ≡ true)
    → (k : ℕ) → k < length (d ∷ xs)
    → has_slot (get_or (d ∷ xs) k zero_slot) (d ∷ ds) ≡ true
has_slot-among d xs ds there zero low = has_slot-here d ds
has_slot-among d xs ds there (suc k) low = has_slot-behind _ d ds (there k (omega arith))

-- A device that a scan matches is in the directory.
has_slot-matching :
    (vendor_id device_id : ℕ) (id : PciSlot → PciId) (ds : List PciSlot) (k : ℕ)
    → k < length (matching vendor_id device_id id ds)
    → has_slot (get_or (matching vendor_id device_id id ds) k zero_slot) ds ≡ true
has_slot-matching v i id [] k low = absurd (omega (arith, ap length (matching_nil v i id)))
has_slot-matching v i id (d ∷ ds) k low = elim (Bool-cases (is_match v i (id d))) [
  | inr miss ↦
      let e = matching_miss v i id d ds miss in
      has_slot-behind _ d ds
        (rw e (has_slot-matching v i id ds k (subst (λ xs. k < length xs) e low)))
  | inl hit ↦
      let e = matching_hit v i id d ds hit in
      subst (λ xs. has_slot (get_or xs k zero_slot) (d ∷ ds) ≡ true) (sym e)
        (has_slot-among d (matching v i id ds) ds (λ j. has_slot-matching v i id ds j) k
          (subst (λ xs. k < length xs) e low))
]

get_or-take :
    {A : Type 0} (n k : ℕ) (xs : List A) (d : A) → k < n → get_or (take n xs) k d ≡ get_or xs k d
get_or-take zero k xs d low = absurd (omega arith)
get_or-take (suc n) k [] d low = refl
get_or-take (suc n) zero (x ∷ xs) d low = refl
get_or-take (suc n) (suc k) (x ∷ xs) d low = get_or-take n k xs d (omega arith)

-- What opening gives, with the ids that a scan reports and the name that follows from them: the
-- device is open or was rejected. `s` is the process in front of both calls.
abbrev pub FoundPost :
    {W : Type 0}
    → Os W
    → (PciSlot → PciId)
    → PciSlot
    → Process W
    → ℕ × Option Ptr
    → Process W
    → Type 0
FoundPost {W} os id info s (ret, handle) t =
    (p : Ptr) × (handle ≡ some p)
    × (u : Process W) × Framed s u
    × (opened : Device) × (opened.pci_slot ≡ info)
    × (opened.vendor_id ≡ (id info).vendor_id)
    × (opened.device_id ≡ (id info).device_id)
    × (opened.miscdev_name ≡ construct_miscdev_name (id info).device_id info)
    × OpenPost opened (listing os info u) (ret, p) t

module _ {W : Type 0} (os : Os W) {ds : List PciSlot} {id : PciSlot → PciId}
    (bus : Bus os ds id) where
  -- Opening a device of the result of a scan finds it: when the configuration files of the slots
  -- can be opened behind `stat`, opening the directory gives the same entries as long as they can,
  -- and, like the allocator, keeps them so, the links of the directory are the names of these
  -- slots, at most 100 devices match, the table has a free slot, the allocator gives a block, the
  -- link of the device fits its buffer and standard input is open, a scan and then opening the
  -- device at an index below the number of matches returns. Either this device is open, with the
  -- ids that the scan reports and the name made of them, or it was rejected with every block, every
  -- descriptor and the count as before; the code is never that of success with NULL for want of the
  -- slot.
  pub pci_device_open-pci_scan_devices :
      (vendor_id device_id : ℕ) (es : List Dirent) (r : ScanResult) (s : Process W) (st : Stat)
      (h : Ptr) (k : ℕ)
      → (os.stat sys_bus_pcidevs_path s.world).0 ≡ done st
      → st.is_dir ≡ true
      → bus.ready (os.stat sys_bus_pcidevs_path s.world).1
      → ((w : W)
          → bus.ready w
          → ((os.opendir sys_bus_pcidevs_path w).0 ≡ done es)
            × bus.ready (os.opendir sys_bus_pcidevs_path w).1)
      → Lists es ds
      → length r.device_slot ≡ pci_cards
      → length r.device_id ≡ pci_cards
      → length (matching vendor_id device_id id ds) ≤ pci_cards
      → k < length (matching vendor_id device_id id ds)
      → s.i_new_dev < length s.devices
      → ((w : W) → FitsLink os (get_or (matching vendor_id device_id id ds) k zero_slot) w)
      → ((info : PciSlot) (u : Process W)
          → Framed s u
          → bus.ready (listing os info u).world
          → (m : Fresh raw (listing os info u) (malloc os raw (listing os info u))) × bus.ready
              m.world)
      → Positive os
      → Returns
          (FoundPost os id (get_or (matching vendor_id device_id id ds) k zero_slot) s)
          (scan_and_open os vendor_id device_id r h k s)
  pci_device_open-pci_scan_devices vendor_id device_id es r s st h k stats dir ready opens lists
        slots ids few low room fits block positive =
      let found = matching vendor_id device_id id ds in
      let info = get_or found k zero_slot in
      Returns.bind (pci_scan_devices os vendor_id device_id r) _ s
        (pci_scan_devices-matching os bus vendor_id device_id es r s st stats dir (opens _ ready).0
          lists (opens _ ready).1 slots ids few)
        λ (ret, r') u (_, (listed, _, (f, ready'))).
          let (reopens, ready'') = opens u.world ready' in
          let (m, can_read) = block info u f ready'' in
          let there = has_slot-matching vendor_id device_id id ds k low in
          let at_k : get_or r'.device_slot k zero_slot ≡ info =
            sym (get_or-take (length found) k r'.device_slot zero_slot low)
            ∙ ap (λ xs. get_or xs k zero_slot) listed.slots in
          let Ids = λ (ids : ℕ × ℕ). ids ≡ ((id info).vendor_id, (id info).device_id) in
          rw at_k (
            Returns.mono
              (pci_device_open-NamedPost os info u Ids h es ds reopens lists m
                (λ ids v at_v.
                  Returns.mono
                    (read_ids os bus info ids v there (subst bus.ready (sym at_v) can_read))
                    λ r t (is, g). (ap (λ x. x.1) is, g.0))
                (rw (f.i_new_dev, f.devices) room) fits positive)
              λ (code, handle) t (p, is_p, post).
                let (opened, same, (ids, name), outcome) =
                  subst (λ found. NamedPost Ids info found (listing os info u) (code, p) t) there
                    post in
                let has_id : opened.device_id ≡ (id info).device_id = ap (λ x. x.1) ids in
                (
                  p,
                  is_p,
                  u,
                  f,
                  opened,
                  same,
                  ap (λ x. x.0) ids,
                  has_id,
                  name ∙ ap (λ n. construct_miscdev_name n info) has_id,
                  outcome,
                ))
