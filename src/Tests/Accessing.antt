-- ===== src/Tests/Accessing.antt =====
-- BARs and the accesses to them at concrete inputs.
use crono_pci_linux.Base.{◌≡◌, refl, some, length, ◌≤◌, ◌<◌, arith}
use crono_pci_linux.Types.{Text, success, minus, enomem}
use crono_pci_linux.Os.{Reply, done, fail}
use crono_pci_linux.Machine.Returns.{Returns}
use crono_pci_linux.Machine.Frame.{Framed}
use crono_pci_linux.Device.Handle.{Holds, IsHandle}
use crono_pci_linux.Sysfs.{crono_read_vendor_device}
use crono_pci_linux.Sysfs.Vendor.{crono_read_vendor_device-short}
use crono_pci_linux.Access.{
  read_addr8, read_addr16, read_addr32, read_addr64, write_addr8, write_addr16, write_addr32,
  write_addr64,
}
use crono_pci_linux.Access.Bounds.{
  HasBar, read_outcome, write_outcome, read_addr_bounds, write_addr_bounds, tail_write_only,
}
use crono_pci_linux.Tests.Sim.{
  card, sim, start, bar, handle, open_card, with_card, short_sim, short_sim-Serves,
}

pub holding-Holds : Holds handle open_card with_card
holding-Holds = record { ne_null = omega arith; cell = refl }

pub with_card-IsHandle : IsHandle handle open_card with_card
with_card-IsHandle = record { holds = holding-Holds; has_id = omega arith }

has_bar : HasBar handle open_card 0 bar with_card
has_bar = record { handle = with_card-IsHandle; bar = refl; mapped = refl }

read_addr_bounds_example :
    (read_addr8 sim handle 16 (some 1) with_card ≡ read_outcome sim has_bar 1 16 1)
    × (read_addr16 sim handle 16 (some 1) with_card ≡ read_outcome sim has_bar 2 16 1)
    × (read_addr32 sim handle 16 (some 1) with_card ≡ read_outcome sim has_bar 4 16 1)
    × (read_addr64 sim handle 16 (some 1) with_card ≡ read_outcome sim has_bar 8 16 1)
read_addr_bounds_example = read_addr_bounds sim has_bar 16 1

write_addr_bounds_example :
    (write_addr8 sim handle 254 9 with_card ≡ write_outcome sim has_bar 1 254 9)
    × (write_addr16 sim handle 254 9 with_card ≡ write_outcome sim has_bar 2 254 9)
    × (write_addr32 sim handle 254 9 with_card ≡ write_outcome sim has_bar 4 254 9)
    × (write_addr64 sim handle 254 9 with_card ≡ write_outcome sim has_bar 8 254 9)
write_addr_bounds_example = write_addr_bounds sim has_bar 254 9

tail_write_only_example :
    (write_addr8 sim handle 255 9 with_card ≡ some (success, record with_card { world = 1 }))
    × (read_addr8 sim handle 255 (some 3) with_card ≡ some ((minus enomem, some 3), with_card))
tail_write_only_example = tail_write_only sim has_bar 255 9 3 (omega arith) (omega arith)

crono_read_vendor_device-short_example :
    Returns
      (λ r s'. (r ≡ (success, (7, 8))) × Framed start s')
      (crono_read_vendor_device short_sim card (7, 8) start)
crono_read_vendor_device-short_example =
    crono_read_vendor_device-short short_sim _ card (7, 8) start (short_sim-Serves 3) (omega arith)
      refl

abbrev pub Fits : Reply Text → Type 0
Fits (done link) = (9 ≤ length link) × (length link < 4080)
Fits (fail e) = Unit {0}
