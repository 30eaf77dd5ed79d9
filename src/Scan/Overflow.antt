-- ===== src/Scan/Overflow.antt =====
-- `CRONO_KERNEL_PciScanDevices` when more devices match than the result has room for.
use crono_pci_linux.Base.{
  ℕ, suc, ◌+◌, ◌%◌, ◌^◌, ◌≤◌, ◌<◌, ◌≡◌, refl, sym, ap, ◌∙◌, ◌⊎◌, inl, inr, true, false, none, List,
  [], ◌∷◌, ◌++◌, length, length-append, ltb, Bool-cases, subst, arith,
}
use crono_pci_linux.Types.{PciSlot, PciId, ScanResult, success, pci_cards}
use crono_pci_linux.Format.{scan_name, sys_bus_pcidevs_path}
use crono_pci_linux.Format.RoundTrip.{scan_name-slot_name}
use crono_pci_linux.Os.{Os, Dirent, Stat, done}
use crono_pci_linux.Machine.{Process, ◌>>=◌, opendir}
use crono_pci_linux.Machine.Returns.{Returns, elim_run}
use crono_pci_linux.Open.{unset_slot}
use crono_pci_linux.Scan.{
  scan_match, scan_device, is_match, add_result, scan_entries, pci_scan_devices,
}
use crono_pci_linux.Scan.Listed.{
  Bus, has_slot, has_slot-here, has_slot-behind, Lists, none_left, other, link, matching,
  matching_nil, matching_hit, matching_miss, Listed,
}
use crono_pci_linux.Valid.{true-false}
use crono_pci_linux.Scan.Filter.{DevicePost, read_ids, scan_device-DevicePost}

module _ {W : Type 0} (os : Os W) {all : List PciSlot} {id : PciSlot → PciId} (bus : Bus os all id)
    (vendor_id device_id : ℕ) where
  -- A match behind a full result is written out of bounds.
  scan_match-full :
      (d : PciSlot) (ret : ℕ) (x : PciId) (k : ℕ) (r : ScanResult) (t : Process W)
      → pci_cards ≤ k
      → ret ≡ success
      → is_match vendor_id device_id x ≡ true
      → scan_match vendor_id device_id d ret x k r t ≡ none
  unfolding scan_match add_result
  scan_match-full d ret x k r t full ok fits =
      let out : ltb k pci_cards ≡ false = ground arith in rw (ok, fits, ◌>>=◌, out) refl

  scan_device-full :
      (d : PciSlot) (ids : ℕ × ℕ) (k : ℕ) (r : ScanResult) (s : Process W)
      → pci_cards ≤ k
      → is_match vendor_id device_id (id d) ≡ true
      → has_slot d all ≡ true
      → bus.ready s.world
      → scan_device os vendor_id device_id d ids k r s ≡ none
  unfolding scan_device
  scan_device-full d ids k r s full fits listed ready =
      let ((ret, ids'), t, run, (is, _)) = elim_run (read_ids os bus d ids s listed ready) in
      let x : PciId = record { vendor_id = ids'.0; device_id = ids'.1 } in
      let same : x ≡ id d = ap (λ x. record { vendor_id = x.1.0; device_id = x.1.1 }) is in
      rw
        (
          run,
          ◌>>=◌,
          scan_match-full d ret x k r t full (ap (λ x. x.0) is)
              (ap (is_match vendor_id device_id) same ∙ fits),
        )
        refl

  scan_entries-full :
      (es : List Dirent) (ds : List PciSlot) (d0 : PciSlot) (ids : ℕ × ℕ) (before : List PciSlot)
      (k : ℕ) (r : ScanResult) (s : Process W)
      → k ≡ length before
      → Lists es ds
      → Listed id before r
      → pci_cards < length before + length (matching vendor_id device_id id ds)
      → length before ≤ pci_cards
      → ((x : PciSlot) → has_slot x ds ≡ true → has_slot x all ≡ true)
      → bus.ready s.world
      → scan_entries os vendor_id device_id d0 ids k r es s ≡ none
  unfolding scan_entries
  scan_entries-full _ _ d0 ids before k r s at none_left l more room known ready =
      absurd (none_more more)
    where
      none_more : pci_cards < length before + length (matching vendor_id device_id id []) → ⊥
      none_more = rw (matching_nil vendor_id device_id id) λ h. absurd (omega arith)
  scan_entries-full _ ds d0 ids before k r s at (other {e} {es} not_link rest) l more room known
        ready =
      rw not_link (scan_entries-full es ds d0 ids before k r s at rest l more room known ready)
  scan_entries-full _ _ d0 ids before k r s at (link {e} {es} {d} {ds} is_link named slot rest) l
        more room known ready =
      let listed = known d (has_slot-here d ds) in
      let known' =
        λ (x : PciSlot) (there : has_slot x ds ≡ true). known x (has_slot-behind x d ds there) in
      let read : scan_name d0 e.name ≡ d =
        ap (scan_name d0) named ∙ scan_name-slot_name d d0 slot in
      let at_d : scan_device os vendor_id device_id (scan_name d0 e.name) ids k r s
          ≡ scan_device os vendor_id device_id d ids k r s =
        ap (λ x. scan_device os vendor_id device_id x ids k r s) read in
      let behind =
        λ (free_ : length before < pci_cards ⊎ (is_match vendor_id device_id (id d) ≡ false)).
          elim_run (
            subst
              (λ n.
                Returns (λ x t. DevicePost os bus vendor_id device_id before d r s x.1 t)
                  (scan_device os vendor_id device_id d ids n r s))
              (sym at)
              (scan_device-DevicePost os bus vendor_id device_id before d ids r s l free_ listed
                ready)) in
      rw is_link (elim (Bool-cases (is_match vendor_id device_id (id d))) [
        | inr misses ↦
            let (x, t, run, post) = behind (inr misses) in
            rw (◌>>=◌, at_d ∙ run)
              (elim post [
                | inl (fits, _, _, _, _) ↦ absurd (true-false (sym fits ∙ misses))
                | inr (_, at', same, (_, ready')) ↦
                    scan_entries-full es ds (scan_name d0 e.name) x.0 before x.1.0 x.1.1 t at' rest
                      (subst (Listed id before) (sym same) l)
                      (subst (λ xs. pci_cards < length before + length xs)
                        (matching_miss vendor_id device_id id d ds misses) more)
                      room known' ready'
              ])
        | inl fits ↦ elim (Bool-cases (ltb (length before) pci_cards)) [
          | inr full ↦
              rw (◌>>=◌, at_d ∙ scan_device-full d ids k r s (ground arith) fits listed ready) refl
          | inl free_ ↦
              let (x, t, run, post) = behind (inl (ground arith)) in
              rw (◌>>=◌, at_d ∙ run)
                (elim post [
                  | inr (misses, _, _, _) ↦ absurd (true-false (sym fits ∙ misses))
                  | inl (_, at', _, l', (_, ready')) ↦
                      let more' : pci_cards
                          < length before + suc (length (matching vendor_id device_id id ds)) =
                        subst (λ xs. pci_cards < length before + length xs)
                          (matching_hit vendor_id device_id id d ds fits) more in
                      let one = length-append before (d ∷ []) in
                      scan_entries-full es ds (scan_name d0 e.name) x.0 (before ++ d ∷ []) x.1.0
                        x.1.1 t at' rest l' (omega arith) (ground arith) known' ready'
                ])
        ]
      ])

  -- A scan in which more than 100 devices have the ids asked for is undefined behaviour: the
  -- hundred-and-first is stored behind the arrays of the result. The links of the directory are the
  -- names of slots that have configuration files with their ids, which open once the directory is
  -- open.
  pub pci_scan_devices-full :
      (es : List Dirent) (r : ScanResult) (s : Process W) (st : Stat)
      → (os.stat sys_bus_pcidevs_path s.world).0 ≡ done st
      → st.is_dir ≡ true
      → (os.opendir sys_bus_pcidevs_path (os.stat sys_bus_pcidevs_path s.world).1).0 ≡ done es
      → Lists es all
      → bus.ready (os.opendir sys_bus_pcidevs_path (os.stat sys_bus_pcidevs_path s.world).1).1
      → length r.device_slot ≡ pci_cards
      → length r.device_id ≡ pci_cards
      → pci_cards < length (matching vendor_id device_id id all)
      → pci_scan_devices os vendor_id device_id r s ≡ none
  unfolding pci_scan_devices opendir
  pci_scan_devices-full es r s st stats dir opens lists ready slots ids more =
      let u : Process W = record s {
        world = (os.opendir sys_bus_pcidevs_path (os.stat sys_bus_pcidevs_path s.world).1).1;
        dirs = s.dirs + 1;
      } in
      rw (stats, dir, ◌>>=◌, opens)
        (rw
          (
            ◌>>=◌,
            scan_entries-full es all (unset_slot os.garbage)
                (os.garbage % 2 ^ 16, os.garbage % 2 ^ 16) [] 0 r u refl lists
                (record { slots = refl; ids = refl; slots_length = slots; ids_length = ids })
                (omega arith) (omega arith) (λ x there. there) ready,
          )
          refl)
