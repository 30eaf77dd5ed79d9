-- ===== src/Tests/Scanning.antt =====
-- A scan of a simulated directory with two cards of different makers.
use crono_pci_linux.Base.{◌≡◌, ◌≤◌, refl, true, List, ◌∷◌, [], replicate, length, arith}
use crono_pci_linux.Types.{PciSlot, ScanResult, zero_slot, success}
use crono_pci_linux.Machine.Returns.{Returns}
use crono_pci_linux.Format.{slot_name}
use crono_pci_linux.Scan.{pci_scan_devices}
use crono_pci_linux.Scan.Listed.{Lists, link, none_left, matching}
use crono_pci_linux.Scan.Filter.{ScanPost, pci_scan_devices-matching}
use crono_pci_linux.Tests.Sim.{card, card-IsSlot, entries}
use crono_pci_linux.Tests.Cards.{bridge, card_id, two_cards, two_start, two_cards_bus}

pub sim-Lists : Lists entries (bridge ∷ card ∷ [])
unfolding slot_name
sim-Lists = link refl refl (omega arith) (link refl refl card-IsSlot none_left)

abbrev pub empty_result : ScanResult
empty_result = record {
  num_devices = 9;
  device_id = replicate 100 (record { vendor_id = 0; device_id = 0 });
  device_slot = replicate 100 zero_slot;
}

-- Only the card is of the maker asked for.
abbrev pub matches : List PciSlot
matches = matching 0x1A13 0xffffffff card_id (bridge ∷ card ∷ [])

pub only_card : matches ≡ card ∷ []
unfolding matching
only_card = refl

pub one_match : length matches ≤ 100
unfolding matching
one_match = omega arith

pci_scan_devices-matching_example :
    Returns
      (λ x t.
        (x.0 ≡ success)
        × ScanPost two_cards two_cards_bus 0x1A13 0xffffffff [] matches 9 two_start x.1 t)
      (pci_scan_devices two_cards 0x1A13 0xffffffff empty_result two_start)
pci_scan_devices-matching_example =
    pci_scan_devices-matching two_cards two_cards_bus 0x1A13 0xffffffff entries empty_result
      two_start (record { is_dir = true; size = 256 }) refl refl refl sim-Lists tt refl refl
      one_match
