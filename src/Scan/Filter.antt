-- ===== src/Scan/Filter.antt =====
-- `CRONO_KERNEL_PciScanDevices` and the devices that have the ids asked for.
use crono_pci_linux.Base.{
  ℕ, suc, subst, ◌+◌, ◌%◌, ◌^◌, ◌≤◌, ◌<◌, ◌≡◌, refl, sym, ap, ◌∙◌, ◌⊎◌, inl, inr, true, false, List,
  [], ◌∷◌, ◌++◌, length, length-append, append_assoc, append-nil, ltb, Bool-cases, arith,
}
use crono_pci_linux.Types.{PciSlot, PciId, ScanResult, success, pci_cards}
use crono_pci_linux.Format.{scan_name, sys_bus_pcidevs_path}
use crono_pci_linux.Format.RoundTrip.{scan_name-slot_name}
use crono_pci_linux.Os.{Os, Dirent, Stat, done}
use crono_pci_linux.Machine.{Process, ◌>>=◌, opendir, closedir}
use crono_pci_linux.Machine.Frame.{Framed, Framed-refl, Framed-trans}
use crono_pci_linux.Machine.Returns
use crono_pci_linux.Machine.Returns.{Returns, returns}
use crono_pci_linux.Sysfs.{crono_read_vendor_device}
use crono_pci_linux.Sysfs.Slice.{ServedIn}
use crono_pci_linux.Sysfs.Vendor.{crono_read_vendor_device-ids_in}
use crono_pci_linux.Open.{unset_slot}
use crono_pci_linux.Scan.{
  scan_match, scan_device, is_match, add_result, scan_entries, pci_scan_devices,
}
use crono_pci_linux.Scan.Listed.{
  Bus, has_slot, has_slot-here, has_slot-behind, Lists, none_left, other, link, matching,
  matching_nil, matching_hit, matching_miss, num_after, Listed, Listed-add,
}

module _ {W : Type 0} (os : Os W) {all : List PciSlot} {id : PciSlot → PciId}
    (bus : Bus os all id) where
  pub read_ids :
      (d : PciSlot) (ids : ℕ × ℕ) (s : Process W)
      → has_slot d all ≡ true
      → bus.ready s.world
      → Returns
          (λ r t.
            (r ≡ (success, ((id d).vendor_id, (id d).device_id)))
            × (Framed s t × bus.ready t.world))
          (crono_read_vendor_device os d ids s)
  read_ids d ids s listed ready =
      let hd = bus.header d listed in
      let (fd, opens, reading) = bus.opens d s.world listed ready in
      rw (hd.vendor, hd.device)
        (crono_read_vendor_device-ids_in os bus.ready (bus.closes d fd) hd.b0 hd.b1 hd.b2 hd.b3
          hd.rest d ids s (subst (ServedIn os (bus.reading d fd) fd) hd.bytes (bus.serves d fd))
          (subst (λ c. length c < 2 ^ 64) hd.bytes hd.short) hd.b0_byte hd.b1_byte hd.b2_byte
          hd.b3_byte reading opens)

  module _ (vendor_id device_id : ℕ) where
    -- One device: it is listed if it matches.
    abbrev pub DevicePost :
        List PciSlot → PciSlot → ScanResult → Process W → ℕ × ScanResult → Process W → Type 0
    DevicePost before d r s (index, r') t =
        ((is_match vendor_id device_id (id d) ≡ true)
          × (index ≡ length (before ++ d ∷ []))
          × (r'.num_devices ≡ index)
          × Listed id (before ++ d ∷ []) r'
          × (Framed s t × bus.ready t.world))
        ⊎ ((is_match vendor_id device_id (id d) ≡ false)
            × (index ≡ length before)
            × (r' ≡ r)
            × (Framed s t × bus.ready t.world))

    scan_match-DevicePost :
        (before : List PciSlot) (d : PciSlot) (r : ScanResult) (s t : Process W)
        → Listed id before r
        → length before < pci_cards ⊎ (is_match vendor_id device_id (id d) ≡ false)
        → Framed s t × bus.ready t.world
        → Returns
            (DevicePost before d r s)
            (scan_match vendor_id device_id d success (id d) (length before) r t)
    unfolding scan_match add_result
    scan_match-DevicePost before d r s t l (inr misses) f =
        rw misses (returns (inr (misses, refl, refl, f)))
    scan_match-DevicePost before d r s t l (inl room) f =
        elim (Bool-cases (is_match vendor_id device_id (id d))) [
          | inr misses ↦ rw misses (returns (inr (misses, refl, refl, f)))
          | inl fits ↦
              let space : ltb (length before) pci_cards ≡ true = ground arith in
              rw (fits, space, ◌>>=◌)
                (returns (
                  inl (
                    fits,
                    omega (arith, length-append before (d ∷ [])),
                    refl,
                    Listed-add id before r d _ room l,
                    f,
                  )))
        ]

    pub scan_device-DevicePost :
        (before : List PciSlot) (d : PciSlot) (ids : ℕ × ℕ) (r : ScanResult) (s : Process W)
        → Listed id before r
        → length before < pci_cards ⊎ (is_match vendor_id device_id (id d) ≡ false)
        → has_slot d all ≡ true
        → bus.ready s.world
        → Returns
            (λ x t. DevicePost before d r s x.1 t)
            (scan_device os vendor_id device_id d ids (length before) r s)
    unfolding scan_device
    scan_device-DevicePost before d ids r s l room listed ready =
        Returns.bind (crono_read_vendor_device os d ids) _ s (read_ids d ids s listed ready)
          λ (ret, ids') t (is, f).
            let ok = ap (λ x. x.0) is in
            let same : record { vendor_id = ids'.0; device_id = ids'.1 } ≡ id d =
              ap (λ x. record { vendor_id = x.1.0; device_id = x.1.1 }) is in
            let found : Returns (DevicePost before d r s) (
                scan_match vendor_id device_id d ret
                  (record { vendor_id = ids'.0; device_id = ids'.1 }) (length before) r t) =
              rw (ok, same) (scan_match-DevicePost before d r s t l room f) in
            Returns.bind
              (scan_match vendor_id device_id d ret
                (record { vendor_id = ids'.0; device_id = ids'.1 }) (length before) r)
              _ t found λ x u post. returns post

    abbrev pub ScanPost :
        List PciSlot → List PciSlot → ℕ → Process W → ScanResult → Process W → Type 0
    ScanPost before found num s r t =
        Listed id (before ++ found) r
        × (r.num_devices ≡ num_after found num (length before))
        × (Framed s t × bus.ready t.world)

    ScanPost-hit :
        (before found : List PciSlot) (d : PciSlot) (num num' : ℕ) (s t : Process W)
        → num' ≡ length (before ++ d ∷ [])
        → Framed s t
        → (r : ScanResult) (u : Process W) → ScanPost (before ++ d ∷ []) found num' t r u
        → ScanPost before (d ∷ found) num s r u
    ScanPost-hit before found d num num' s t e f r u (l, n, (g, ready)) = (
      subst (λ xs. Listed id xs r) (append_assoc before (d ∷ []) found) l,
      n ∙ count found,
      (Framed-trans f g, ready),
    )
      where
        count :
            (xs : List PciSlot)
            → num_after xs num' (length (before ++ d ∷ [])) ≡ length before + suc (length xs)
        count [] = omega (arith, e, length-append before (d ∷ []))
        count (x ∷ xs) = omega (arith, length-append before (d ∷ []))

    matching_room :
        (before : List PciSlot) (d : PciSlot) (ds : List PciSlot)
        → length before + length (matching vendor_id device_id id (d ∷ ds)) ≤ pci_cards
        → length before < pci_cards ⊎ (is_match vendor_id device_id (id d) ≡ false)
    matching_room before d ds room = elim (Bool-cases (is_match vendor_id device_id (id d))) [
      | inr misses ↦ inr misses
      | inl fits ↦
          let room' : length before + suc (length (matching vendor_id device_id id ds))
              ≤ pci_cards =
            subst (λ xs. length before + length xs ≤ pci_cards)
              (matching_hit vendor_id device_id id d ds fits) room in
          inl (omega arith)
    ]

    scan_entries-matching :
        (es : List Dirent) (ds : List PciSlot) (d0 : PciSlot) (ids : ℕ × ℕ) (before : List PciSlot)
        (k : ℕ) (r : ScanResult) (s : Process W)
        → k ≡ length before
        → Lists es ds
        → Listed id before r
        → length before + length (matching vendor_id device_id id ds) ≤ pci_cards
        → ((x : PciSlot) → has_slot x ds ≡ true → has_slot x all ≡ true)
        → bus.ready s.world
        → Returns
            (ScanPost before (matching vendor_id device_id id ds) r.num_devices s)
            (scan_entries os vendor_id device_id d0 ids k r es s)
    unfolding scan_entries
    scan_entries-matching _ _ d0 ids before k r s at none_left l room known ready =
        rw (matching_nil vendor_id device_id id) (
          returns (
            subst (λ xs. Listed id xs r) (sym (append-nil before)) l,
            refl,
            (Framed-refl s, ready),
          ))
    scan_entries-matching _ ds d0 ids before k r s at (other {e} {es} not_link rest) l room known
          ready =
        rw not_link (scan_entries-matching es ds d0 ids before k r s at rest l room known ready)
    scan_entries-matching _ _ d0 ids before k r s at
          (link {e} {es} {d} {ds} is_link named slot rest) l room known ready =
        let read : scan_name d0 e.name ≡ d =
          ap (scan_name d0) named ∙ scan_name-slot_name d d0 slot in
        rw is_link (
          Returns.bind {P = λ x t. DevicePost before d r s x.1 t}
            (scan_device os vendor_id device_id (scan_name d0 e.name) ids k r) _ s
            (rw (read, at)
              (scan_device-DevicePost before d ids r s l (matching_room before d ds room)
                (known d (has_slot-here d ds)) ready))
            λ (ids', (k', r')) t post. elim post [
              | inl (fits, at', num, l', (f, ready')) ↦
                  let hit = matching_hit vendor_id device_id id d ds fits in
                  let room' : length before + suc (length (matching vendor_id device_id id ds))
                      ≤ pci_cards =
                    subst (λ xs. length before + length xs ≤ pci_cards) hit room in
                  rw hit (
                    Returns.mono
                      (scan_entries-matching es ds (scan_name d0 e.name) ids' (before ++ d ∷ []) k'
                        r' t at' rest l' (omega (arith, length-append before (d ∷ [])))
                        (λ x there. known x (has_slot-behind x d ds there)) ready')
                      (ScanPost-hit before (matching vendor_id device_id id ds) d r.num_devices
                        r'.num_devices s t (num ∙ at') f))
              | inr (misses, at', same, (f, ready')) ↦
                  let miss = matching_miss vendor_id device_id id d ds misses in
                  rw miss (
                    Returns.mono
                      (scan_entries-matching es ds (scan_name d0 e.name) ids' before k' r' t at'
                        rest (subst (Listed id before) (sym same) l)
                        (subst (λ xs. length before + length xs ≤ pci_cards) miss room)
                        (λ x there. known x (has_slot-behind x d ds there)) ready')
                      λ r'' u (listed, num, (g, ready'')). (
                        listed,
                        num
                            ∙ ap
                                (λ x.
                                  num_after (matching vendor_id device_id id ds) x.num_devices
                                    (length before))
                                same,
                        (Framed-trans f g, ready''),
                      ))
            ])

    -- A scan of a PCI directory whose links are the names of slots that have configuration files
    -- with their ids, which open once the directory is open, succeeds if at most 100 devices have
    -- the ids asked for. The result starts with these devices in the order of the directory, with
    -- their ids. The count is their number, but stays as it was if there is none. Of the process
    -- only the world and `errno` change.
    pub pci_scan_devices-matching :
        (es : List Dirent) (r : ScanResult) (s : Process W) (st : Stat)
        → (os.stat sys_bus_pcidevs_path s.world).0 ≡ done st
        → st.is_dir ≡ true
        → (os.opendir sys_bus_pcidevs_path (os.stat sys_bus_pcidevs_path s.world).1).0 ≡ done es
        → Lists es all
        → bus.ready (os.opendir sys_bus_pcidevs_path (os.stat sys_bus_pcidevs_path s.world).1).1
        → length r.device_slot ≡ pci_cards
        → length r.device_id ≡ pci_cards
        → length (matching vendor_id device_id id all) ≤ pci_cards
        → Returns
            (λ x t.
              (x.0 ≡ success)
              × ScanPost [] (matching vendor_id device_id id all) r.num_devices s x.1 t)
            (pci_scan_devices os vendor_id device_id r s)
    unfolding pci_scan_devices opendir closedir
    pci_scan_devices-matching es r s st stats dir opens lists ready slots ids room =
        rw (stats, dir, ◌>>=◌, opens)
          (Returns.bind
            (scan_entries os vendor_id device_id (unset_slot os.garbage)
              (os.garbage % 2 ^ 16, os.garbage % 2 ^ 16) 0 r es)
            _ _
            (scan_entries-matching es all (unset_slot os.garbage) _ [] 0 r _ refl lists
              (record { slots = refl; ids = refl; slots_length = slots; ids_length = ids })
              (omega arith) (λ x there. there) ready)
            λ r' t (listed, num, (f, ready')). returns (
              refl,
              (
                listed,
                num,
                (
                  record {
                    fds = f.fds;
                    dirs = omega (arith, f.dirs);
                    maps = f.maps;
                    cells = f.cells;
                    devices = f.devices;
                    i_new_dev = f.i_new_dev;
                  },
                  ready',
                ),
              ),
            ))
