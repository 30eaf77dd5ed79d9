-- ===== src/Tests/Crowded.antt =====
-- A scan of a directory with a device on each of 101 buses.
use crono_pci_linux.Base.{
  ℕ, zero, suc, ◌+◌, ◌<◌, ◌≡◌, refl, ap, ◌∙◌, true, none, List, [], ◌∷◌, length, min, arith,
}
use crono_pci_linux.Types.{PciSlot, PciId}
use crono_pci_linux.Os.{done, Dirent, Os}
use crono_pci_linux.Format.{slot_name}
use crono_pci_linux.Format.RoundTrip.{IsSlot}
use crono_pci_linux.Scan.{pci_scan_devices}
use crono_pci_linux.Scan.Listed.{Bus, Lists, link, none_left, matching, matching_nil, matching_hit}
use crono_pci_linux.Scan.Overflow.{pci_scan_devices-full}
use crono_pci_linux.Tests.Sim.{sim, start, content}
use crono_pci_linux.Tests.Scanning.{empty_result}
use crono_pci_linux.Tests.Cards.{content-Header}

abbrev on_bus : ℕ → PciSlot
on_bus n = record { domain = 0; bus = n; slot = 0; function = 0 }

-- One device on each bus below `n`.
unfoldable slots : ℕ → List PciSlot
slots zero = []
slots (suc n) = on_bus n ∷ slots n

unfoldable links : ℕ → List Dirent
links zero = []
links (suc n) = record { is_link = true; name = slot_name (on_bus n) } ∷ links n

on_bus-IsSlot : (n : ℕ) → n < 256 → IsSlot (on_bus n)
on_bus-IsSlot n h = omega arith

links-Lists : (n : ℕ) → n < 256 → Lists (links n) (slots n)
unfolding links slots
links-Lists zero h = none_left
links-Lists (suc n) h = link refl refl (on_bus-IsSlot n (omega arith)) (links-Lists n (omega arith))

abbrev same_id : PciSlot → PciId
same_id d = record { vendor_id = 0x1A13; device_id = 0x15 }

all_match : (n : ℕ) → length (matching 0x1A13 0xffffffff same_id (slots n)) ≡ n
unfolding slots
all_match zero = ap length (matching_nil 0x1A13 0xffffffff same_id)
all_match (suc n) =
    ap length (matching_hit 0x1A13 0xffffffff same_id (on_bus n) (slots n) refl)
    ∙ ap suc (all_match n)

abbrev crowded : Os ℕ
crowded = record sim {
  opendir = λ p w. (done (links 101), w + 1);
  open_file = λ p a w. (done 3, w + 1);
}

abbrev crowded_bus : Bus crowded (slots 101) same_id
crowded_bus = record {
  content = λ d. content;
  header = λ d _. content-Header;
  ready = λ w. Unit {0};
  reading = λ d fd w. Unit {0};
  opens = λ d w listed _. (3, refl, tt);
  serves = λ d fd. record {
    reply = λ n offset w'. min n 3;
    serves = λ n offset w' _. refl;
    at_most_asked = λ n offset w'. omega arith;
    progress = λ n offset w' _ h k. omega arith;
    reads = λ n offset w' _. tt;
  };
  closes = λ d fd w _. tt;
}

pci_scan_devices-full_example : pci_scan_devices crowded 0x1A13 0xffffffff empty_result start ≡ none
pci_scan_devices-full_example =
    pci_scan_devices-full crowded crowded_bus 0x1A13 0xffffffff (links 101) empty_result start
      (record { is_dir = true; size = 256 }) refl refl refl (links-Lists 101 (omega arith)) tt refl
      refl (omega (arith, all_match 101))
