-- ===== src/Tests/Reading.antt =====
-- Names and configuration reads at concrete inputs.
use crono_pci_linux.Base.{◌≡◌, refl, ◌∷◌, [], some, none, arith, codes, replicate}
use crono_pci_linux.Types.{PciSlot, success}
use crono_pci_linux.Format.{
  slot_name, scan_name, scan_bus, scan_slot, scan_function, scan_number, construct_miscdev_name,
}
use crono_pci_linux.Format.RoundTrip.{scan_name-slot_name}
use crono_pci_linux.Machine.Returns.{Returns}
use crono_pci_linux.Sysfs.{crono_read_config, crono_read_vendor_device}
use crono_pci_linux.Machine.Frame.{Framed}
use crono_pci_linux.Sysfs.Total.{ConfigRead, crono_read_config-Returns}
use crono_pci_linux.Sysfs.Slice.{ReadBytes, crono_read_config-slice}
use crono_pci_linux.Sysfs.Vendor.{crono_read_vendor_device-ids}
use crono_pci_linux.Tests.Sim.{card, card-IsSlot, sim, start, sim-Serves}

card_name : slot_name card ≡ codes "0000:03:1c.7"
unfolding slot_name
card_name = refl

card_miscdev_name : construct_miscdev_name 0x15 card ≡ codes "crono_15_00031C7"
unfolding construct_miscdev_name
card_miscdev_name = refl

abbrev other_slot : PciSlot
other_slot = record { domain = 9; bus = 9; slot = 9; function = 9 }

-- A name with a mismatch behind the bus leaves the later variables alone.
scan_broken :
    scan_name other_slot (codes "0001:02-03.4")
    ≡ record { domain = 1; bus = 2; slot = 9; function = 9 }
unfolding scan_name scan_bus scan_slot scan_function scan_number
scan_broken = refl

scan_name-slot_name_example : scan_name other_slot (slot_name card) ≡ card
scan_name-slot_name_example = scan_name-slot_name card other_slot card-IsSlot

crono_read_config-Returns_example :
    Returns (ConfigRead 4 4 none start) (crono_read_config sim card (replicate 4 0) 2 4 none start)
crono_read_config-Returns_example =
    crono_read_config-Returns sim card (replicate 4 0) 2 4 none start (omega arith)

crono_read_config-slice_example :
    Returns
      (ReadBytes (0x15 ∷ 0 ∷ 6 ∷ 5 ∷ []) (replicate 4 0) (some 9) start)
      (crono_read_config sim card (replicate 4 0) 2 4 (some 9) start)
crono_read_config-slice_example =
    crono_read_config-slice sim (sim-Serves 3) (omega arith) card (replicate 4 0) 2 4 (some 9) start
      refl (omega arith)

crono_read_vendor_device-ids_example :
    Returns
      (λ r s'. (r ≡ (success, (0x1A13, 0x15))) × Framed start s')
      (crono_read_vendor_device sim card (0, 0) start)
crono_read_vendor_device-ids_example =
    crono_read_vendor_device-ids sim 0x13 0x1A 0x15 0 (6 ∷ 5 ∷ 4 ∷ 3 ∷ []) card (0, 0) start
      (sim-Serves 3) (omega arith) (omega arith) (omega arith) (omega arith) (omega arith) refl
