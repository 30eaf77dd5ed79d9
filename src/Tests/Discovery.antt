-- ===== src/Tests/Discovery.antt =====
-- A scan of the simulated directory, and opening the device that it found.
use crono_pci_linux.Base.{ℕ, ◌<◌, refl, true, List, get_or, length, subst, arith}
use crono_pci_linux.Types.{PciSlot, raw, zero_slot}
use crono_pci_linux.Machine.{Process, malloc}
use crono_pci_linux.Machine.Frame.{Framed}
use crono_pci_linux.Machine.Heap.{Fresh}
use crono_pci_linux.Machine.Returns.{Returns}
use crono_pci_linux.Bars.Fill.{FitsLink}
use crono_pci_linux.Scan.Listed.{matching}
use crono_pci_linux.Open.Outcome.{listing}
use crono_pci_linux.Session.Found.{FoundPost, scan_and_open, pci_device_open-pci_scan_devices}
use crono_pci_linux.Tests.Sim.{entries}
use crono_pci_linux.Tests.Accessing.{Fits}
use crono_pci_linux.Tests.Scanning.{sim-Lists, empty_result, matches, one_match}
use crono_pci_linux.Tests.Cards.{card_id, two_cards, two_start, two_cards_bus, two_cards-Positive}

two_cards-FitsLink : (info : PciSlot) (w : List ℕ) → FitsLink two_cards info w
two_cards-FitsLink info w = record { fits = λ link e. subst Fits e (omega arith, omega arith) }

two_cards-Fresh :
    (info : PciSlot) (u : Process (List ℕ))
    → Framed two_start u
    → Fresh raw (listing two_cards info u) (malloc two_cards raw (listing two_cards info u))
unfolding malloc
two_cards-Fresh info u f = record {
  at = 1000;
  world = u.world;
  ne_null = omega arith;
  unused = rw f.cells refl;
  run = rw f.cells refl;
}

one_found : 0 < length matches
unfolding matching
one_found = omega arith

pci_device_open-pci_scan_devices_example :
    Returns
      (FoundPost two_cards card_id (get_or matches 0 zero_slot) two_start)
      (scan_and_open two_cards 0x1A13 0xffffffff empty_result 5 0 two_start)
pci_device_open-pci_scan_devices_example =
    pci_device_open-pci_scan_devices two_cards two_cards_bus 0x1A13 0xffffffff entries empty_result
      two_start (record { is_dir = true; size = 256 }) 5 0 refl refl tt (λ w _. (refl, tt))
      sim-Lists refl refl one_match one_found (omega arith) (two_cards-FitsLink _)
      (λ info u f _. (two_cards-Fresh info u f, tt)) two_cards-Positive
