-- ===== src/Scan/Listed.antt =====
-- What a scan of the PCI directory is to find, apart from the code that scans.
use crono_pci_linux.Base.{
  ℕ, suc, inl, inr, Bool, Bool-cases, ==-refl, ◌+◌, ◌*◌, ◌^◌, ◌<◌, ◌≡◌, refl, sym, ◌∙◌, true, false,
  List, [], ◌∷◌, ◌++◌, map, length, take, set, length-set, length-append, take-set, if◌then◌else◌,
  arith,
}
use mathlib.Core.List.{map-append}
use crono_pci_linux.Types.{PciSlot, PciId, ScanResult, pci_cards}
use crono_pci_linux.Format.{slot_name, construct_config_file_path}
use crono_pci_linux.Format.RoundTrip.{IsSlot}
use crono_pci_linux.Os.{Os, Dirent, done, rdonly}
use crono_pci_linux.Sysfs.Slice.{ServedIn}
use crono_pci_linux.Open.{same_slot}
use crono_pci_linux.Scan.{is_match}

-- A configuration space whose first words are the ids.
pub record Header (content : List ℕ) (id : PciId) : Type 0 where
  pub b0 : ℕ
  pub b1 : ℕ
  pub b2 : ℕ
  pub b3 : ℕ
  pub rest : List ℕ
  pub bytes : content ≡ b0 ∷ b1 ∷ b2 ∷ b3 ∷ rest
  pub b0_byte : b0 < 256
  pub b1_byte : b1 < 256
  pub b2_byte : b2 < 256
  pub b3_byte : b3 < 256
  pub vendor : id.vendor_id ≡ b0 + 256 * b1
  pub device : id.device_id ≡ b2 + 256 * b3
  pub short : length content < 2 ^ 64

-- Whether some slot of the list is `info`.
abbrev pub has_slot : PciSlot → List PciSlot → Bool
has_slot info [] = false
has_slot info (d ∷ ds) = if same_slot info d then true else has_slot info ds

same_slot_refl : (d : PciSlot) → same_slot d d ≡ true
same_slot_refl d = rw (==-refl, ==-refl, ==-refl, ==-refl) refl

pub has_slot-here : (d : PciSlot) (ds : List PciSlot) → has_slot d (d ∷ ds) ≡ true
has_slot-here d ds = rw (same_slot_refl d) refl

pub has_slot-behind :
    (x d : PciSlot) (ds : List PciSlot) → has_slot x ds ≡ true → has_slot x (d ∷ ds) ≡ true
has_slot-behind x d ds there = elim (Bool-cases (same_slot x d)) [
  | inl same ↦ rw same refl
  | inr apart ↦ rw apart there
]

-- The slots in `ds` have configuration files that start with the ids of their devices. In a state
-- of the system that is `ready`, the file of a slot in `ds` opens. The descriptor may be that of a
-- file closed before; while it stands for the file of `d`, which is `reading d fd`, it serves that
-- file, and when it is closed the state is `ready` again. Nothing is said of other slots.
pub record Bus {W : Type 0} (os : Os W) (ds : List PciSlot) (id : PciSlot → PciId) : Type 1 where
  pub content : PciSlot → List ℕ
  pub header : (d : PciSlot) → has_slot d ds ≡ true → Header (content d) (id d)
  pub ready : W → Type 0
  pub reading : PciSlot → ℕ → W → Type 0
  pub opens :
      (d : PciSlot) (w : W)
      → has_slot d ds ≡ true
      → ready w
      → (fd : ℕ) × ((os.open_file (construct_config_file_path d) rdonly w).0 ≡ done fd)
        × reading d fd (os.open_file (construct_config_file_path d) rdonly w).1
  pub serves : (d : PciSlot) (fd : ℕ) → ServedIn os (reading d fd) fd (content d)
  pub closes : (d : PciSlot) (fd : ℕ) (w : W) → reading d fd w → ready (os.close fd w).1

-- The directory has a link for each of the slots, in this order, and other entries that are no
-- links.
pub data Lists : List Dirent → List PciSlot → Type 0 where
  none_left : Lists [] []
  other :
      {e : Dirent} {es : List Dirent} {ds : List PciSlot}
      → e.is_link ≡ false
      → Lists es ds
      → Lists (e ∷ es) ds
  link :
      {e : Dirent} {es : List Dirent} {d : PciSlot} {ds : List PciSlot}
      → e.is_link ≡ true
      → e.name ≡ slot_name d
      → IsSlot d
      → Lists es ds
      → Lists (e ∷ es) (d ∷ ds)

-- The slots whose devices have the ids asked for.
unfoldable pub matching : ℕ → ℕ → (PciSlot → PciId) → List PciSlot → List PciSlot
matching vendor_id device_id id [] = []
matching vendor_id device_id id (d ∷ ds) =
    if is_match vendor_id device_id (id d)
    then d ∷ matching vendor_id device_id id ds
    else matching vendor_id device_id id ds

pub matching_nil : (v i : ℕ) (id : PciSlot → PciId) → matching v i id [] ≡ []
unfolding matching
matching_nil v i id = refl

pub matching_hit :
    (v i : ℕ) (id : PciSlot → PciId) (d : PciSlot) (ds : List PciSlot)
    → is_match v i (id d) ≡ true
    → matching v i id (d ∷ ds) ≡ d ∷ matching v i id ds
unfolding matching
matching_hit v i id d ds e = rw e

pub matching_miss :
    (v i : ℕ) (id : PciSlot → PciId) (d : PciSlot) (ds : List PciSlot)
    → is_match v i (id d) ≡ false
    → matching v i id (d ∷ ds) ≡ matching v i id ds
unfolding matching
matching_miss v i id d ds e = rw e

-- `dwNumDevices`, which is set when a device is listed behind `before` others.
abbrev pub num_after : List PciSlot → ℕ → ℕ → ℕ
num_after [] num before = num
num_after (d ∷ ds) num before = before + suc (length ds)

-- The result lists the devices in `found` first.
pub record Listed (id : PciSlot → PciId) (found : List PciSlot) (r : ScanResult) : Type 0 where
  pub slots : take (length found) r.device_slot ≡ found
  pub ids : take (length found) r.device_id ≡ map id found
  pub slots_length : length r.device_slot ≡ pci_cards
  pub ids_length : length r.device_id ≡ pci_cards

pub Listed-add :
    (id : PciSlot → PciId) (found : List PciSlot) (r : ScanResult) (d : PciSlot) (n : ℕ)
    → length found < pci_cards
    → Listed id found r
    → Listed id (found ++ d ∷ []) (record {
      num_devices = n;
      device_id = set r.device_id (length found) (id d);
      device_slot = set r.device_slot (length found) d;
    })
Listed-add id found r d n room l =
    let size : length (found ++ d ∷ []) ≡ suc (length found) =
      omega (arith, length-append found (d ∷ [])) in
    let some_ = l.slots_length in
    let ids = l.ids_length in
    record {
      slots = rw (size, take-set r.device_slot (length found) d (omega arith), l.slots);
      ids =
          rw (size, take-set r.device_id (length found) (id d) (omega arith), l.ids)
            (sym (map-append id found (d ∷ [])));
      slots_length = length-set r.device_slot (length found) d ∙ l.slots_length;
      ids_length = length-set r.device_id (length found) (id d) ∙ l.ids_length;
    }
