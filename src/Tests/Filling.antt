-- ===== src/Tests/Filling.antt =====
-- A filled device that is freed, and a full table.
use crono_pci_linux.Base.{ℕ, subst, ◌≡◌, ◌⊎◌, refl, none, some, ◌∷◌, [], List, replicate, arith}
use crono_pci_linux.Types.{BarDesc, device, zero_bar, success, raw}
use crono_pci_linux.Os.{update}
use crono_pci_linux.Machine.{Process, malloc, read, write, open_file, close, mmap}
use crono_pci_linux.Machine.Heap.{Fresh}
use crono_pci_linux.Machine.Returns.{Returns}
use crono_pci_linux.Format.{extract_hex}
use crono_pci_linux.Bars.{
  read_line, read_bars, bar_loop, finish_bars, store_bars, fill_device_bar_descriptions,
}
use crono_pci_linux.Table.{free_device_mem}
use crono_pci_linux.Table.Unmap.{OnlyDevice}
use crono_pci_linux.Table.Release.{InSlot}
use crono_pci_linux.Open.{pci_device_open}
use crono_pci_linux.Open.Outcome.{listing}
use crono_pci_linux.Open.Overflow.{pci_device_open-full}
use crono_pci_linux.Open.RoundTrip.{free_device_mem-fill_device_bar_descriptions}
use crono_pci_linux.Tests.Accessing.{Fits}
use crono_pci_linux.Sysfs.{crono_get_sys_devices_directory_path}
use crono_pci_linux.Device.{read_device}
use crono_pci_linux.Tests.Sim.{sim, start, card, entries, handle, holding, bare_card}
use crono_pci_linux.Tests.Cards.{bridge}
use crono_pci_linux.Tests.Scanning.{sim-Lists}

abbrev two_bars : List BarDesc
two_bars =
    record {
      bar_num = 0;
      flags = 0;
      user_address = 0x50000;
      physical_address = 0xf7a00000;
      length = 0x10000;
    }
    ∷ record {
      bar_num = 2;
      flags = 0;
      user_address = 0x80000;
      physical_address = 0xf7b00000;
      length = 0x1000;
    }
    ∷ replicate 4 zero_bar

abbrev filled : Process ℕ
filled = record (holding bare_card) {
  world = 10;
  maps = (0x80000, 0x1000) ∷ (0x50000, 0x10000) ∷ (0x10000, 256) ∷ [];
  cells =
      update (holding bare_card).cells handle
        (some (device (record bare_card { bar_descs = two_bars; bar_count = 2 })));
}

fill_run : fill_device_bar_descriptions sim handle (holding bare_card) ≡ some (success, filled)
unfolding fill_device_bar_descriptions crono_get_sys_devices_directory_path read_bars bar_loop
    finish_bars store_bars read_line extract_hex read_device read write open_file close mmap
fill_run = refl

in_slot : InSlot 0 handle (record bare_card { bar_descs = two_bars; bar_count = 2 }) filled
in_slot = record {
  holds = record { ne_null = omega arith; cell = refl };
  bars = omega arith;
  here = refl;
  counted = omega arith;
  room = omega arith;
  once = λ j low same. omega arith;
}

free_device_mem-fill_device_bar_descriptions_example :
    Returns
      (λ code u.
        ((code ≡ success) × (u.maps ≡ (holding bare_card).maps) × (u.cells handle ≡ none))
        ⊎ ((code ≡ u.errno) × OnlyDevice handle filled u))
      (free_device_mem sim handle filled)
free_device_mem-fill_device_bar_descriptions_example =
    free_device_mem-fill_device_bar_descriptions sim 0 handle bare_card
      (record bare_card { bar_descs = two_bars; bar_count = 2 }) (holding bare_card) filled
      (record { ne_null = omega arith; cell = refl }) refl
      (record { fits = λ link e. subst Fits e (omega arith, omega arith) }) fill_run in_slot
      (omega arith) (omega arith, (omega arith, tt), (omega arith, tt, tt))

abbrev full_table : Process ℕ
full_table = record start { i_new_dev = 8; devices = 1 ∷ 2 ∷ 3 ∷ 4 ∷ 5 ∷ 6 ∷ 7 ∷ 8 ∷ [] }

full_block : Fresh raw (listing sim card full_table) (malloc sim raw (listing sim card full_table))
unfolding malloc
full_block = record { at = 1001; world = 2; ne_null = omega arith; unused = refl; run = refl }

pci_device_open-full_example : pci_device_open sim (some 5) (some card) full_table ≡ none
pci_device_open-full_example =
    pci_device_open-full sim card 5 entries (bridge ∷ card ∷ []) full_table refl sim-Lists refl
      full_block (omega arith)
