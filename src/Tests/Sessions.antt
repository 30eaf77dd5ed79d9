-- ===== src/Tests/Sessions.antt =====
-- A session with the simulated system: a device is opened and a buffer is locked, and the library
-- is unloaded or the device closed.
use crono_pci_linux.Base.{ℕ, ◌≡◌, ◌⊎◌, refl, none, some, ◌∷◌, [], Option, arith}
use crono_pci_linux.Types.{Ptr, Obj, Device, device, zero_device, success}
use crono_pci_linux.Machine.{
  Process, malloc, opendir, closedir, open_file, close, pread, mmap, read, write, free,
}
use crono_pci_linux.Device.{read_device, init_hdev}
use crono_pci_linux.Format.{extract_hex, scan_name, scan_number, scan_bus, scan_slot, scan_function}
use crono_pci_linux.Sysfs.{
  read_loop, crono_read_config, crono_read_vendor_device, crono_get_sys_devices_directory_path,
  from_bytes,
}
use crono_pci_linux.Bars.{
  read_line, bar_loop, finish_bars, read_bars, store_bars, fill_device_bar_descriptions,
}
use crono_pci_linux.Table.{set_slot, on_unload}
use crono_pci_linux.Open.{
  register, finish_fill, finish_open, open_miscdev, open_matching, open_entries, pci_device_open,
  pci_device_close,
}
use crono_pci_linux.Dma.{read_sg, lock_sg, lock_addresses, lock_pages, dma_sg_buf_lock}
use crono_pci_linux.Machine.Returns.{Returns}
use crono_pci_linux.Valid.{WellFormed}
use crono_pci_linux.Device.Handle.{IsHandle}
use crono_pci_linux.Table.Free.{Freed}
use crono_pci_linux.Table.Release.{FreePost}
use crono_pci_linux.Open.Close.{fd_closed}
use crono_pci_linux.Session.Invariant.{Reach-WellFormed}
use crono_pci_linux.Open.Files.{Kept}
use crono_pci_linux.Session.Balance.{SameFiles, code_of-Balanced}
use crono_pci_linux.Session.Cycle.{pci_device_close-pci_device_open}
use crono_pci_linux.Table.Unmap.{OnlyDevice}
use crono_pci_linux.Session.Unload.{on_unload-Reach, pci_device_close-Reach}
use crono_pci_linux.Session.{Call, code_of, called, outside, loaded, Reach, start, next}
use crono_pci_linux.Tests.Sim.{sim, card, entries}
use crono_pci_linux.Tests.Cards.{bridge}
use crono_pci_linux.Tests.Scanning.{sim-Lists}
use crono_pci_linux.Tests.Opening.{sim-Positive, card-FitsLink, listing-Fresh}

-- The state behind a call.
abbrev after : Call → Process ℕ → Process ℕ
after c s = elim (code_of sim c s) [ none ↦ s | some (ret, t) ↦ t ]

abbrev open_it : Call
open_it = Call.pci_device_open (some 5) (some card)

abbrev running : Process ℕ
running = record (loaded 0) { fds = 2 ∷ 1 ∷ 0 ∷ [] }

abbrev opened : Process ℕ
opened = after open_it running

abbrev lock_it : Call
lock_it = Call.dma_sg_buf_lock 1001 64 0 8192 (some 0)

abbrev locked : Process ℕ
locked = after lock_it opened

opens : code_of sim open_it running ≡ some (0, opened)
unfolding malloc opendir closedir open_file close pread mmap read write free read_device init_hdev
    extract_hex scan_name scan_number scan_bus scan_slot scan_function read_loop crono_read_config
    crono_read_vendor_device crono_get_sys_devices_directory_path from_bytes read_line bar_loop
    finish_bars read_bars store_bars fill_device_bar_descriptions set_slot register finish_fill
    finish_open open_miscdev open_matching open_entries pci_device_open
opens = refl

locks : code_of sim lock_it opened ≡ some (0, locked)
unfolding malloc opendir closedir open_file close pread mmap read write free read_device init_hdev
    extract_hex scan_name scan_number scan_bus scan_slot scan_function read_loop crono_read_config
    crono_read_vendor_device crono_get_sys_devices_directory_path from_bytes read_line bar_loop
    finish_bars read_bars store_bars fill_device_bar_descriptions set_slot register finish_fill
    finish_open open_miscdev open_matching open_entries pci_device_open read_sg lock_sg
    lock_addresses lock_pages dma_sg_buf_lock
locks = refl

at_start : Reach sim running
at_start = next (start 0) (outside 0 0 (2 ∷ 1 ∷ 0 ∷ []) 0 [])

with_device : Reach sim opened
with_device = next at_start (called open_it {ret = 0} {s = running} {t = opened} opens)

-- The device is open and the buffer locked.
session : Reach sim locked
session = next with_device (called lock_it {ret = 0} {s = opened} {t = locked} locks)

Reach-WellFormed_example : WellFormed locked.cells locked.devices locked.i_new_dev
Reach-WellFormed_example = Reach-WellFormed sim session

on_unload-Reach_example :
    Returns (λ _ t. Freed 0 locked.i_new_dev locked t × (t.i_new_dev ≡ 0)) (on_unload locked)
on_unload-Reach_example = on_unload-Reach sim session

abbrev the_device : Option Obj → Device
the_device (some (device d)) = d
the_device _ = zero_device

abbrev my_card : Device
my_card = the_device (locked.cells 1001)

my_card-IsHandle : IsHandle 1001 my_card locked
unfolding malloc opendir closedir open_file close pread mmap read write free read_device init_hdev
    extract_hex scan_name scan_number scan_bus scan_slot scan_function read_loop crono_read_config
    crono_read_vendor_device crono_get_sys_devices_directory_path from_bytes read_line bar_loop
    finish_bars read_bars store_bars fill_device_bar_descriptions set_slot register finish_fill
    finish_open open_miscdev open_matching open_entries pci_device_open read_sg lock_sg
    lock_addresses lock_pages dma_sg_buf_lock
my_card-IsHandle = record {
  holds = record { ne_null = omega arith; cell = refl };
  has_id = omega arith;
}

pci_device_close-Reach_example :
    Returns
      (FreePost 0 1001 my_card (fd_closed sim my_card locked))
      (pci_device_close sim 1001 locked)
unfolding malloc opendir closedir open_file close pread mmap read write free read_device init_hdev
    extract_hex scan_name scan_number scan_bus scan_slot scan_function read_loop crono_read_config
    crono_read_vendor_device crono_get_sys_devices_directory_path from_bytes read_line bar_loop
    finish_bars read_bars store_bars fill_device_bar_descriptions set_slot register finish_fill
    finish_open open_miscdev open_matching open_entries pci_device_open read_sg lock_sg
    lock_addresses lock_pages dma_sg_buf_lock
pci_device_close-Reach_example =
    pci_device_close-Reach sim session 0 1001 my_card my_card-IsHandle (omega arith) (omega arith)
      refl

abbrev new_card : Device
new_card = the_device (opened.cells 1001)

open_run : pci_device_open sim (some 5) (some card) running ≡ some ((success, some 1001), opened)
unfolding malloc opendir closedir open_file close pread mmap read write free read_device init_hdev
    extract_hex scan_name scan_number scan_bus scan_slot scan_function read_loop crono_read_config
    crono_read_vendor_device crono_get_sys_devices_directory_path from_bytes read_line bar_loop
    finish_bars read_bars store_bars fill_device_bar_descriptions set_slot register finish_fill
    finish_open open_miscdev open_matching open_entries pci_device_open
open_run = refl

new_card-IsHandle : IsHandle 1001 new_card opened
unfolding malloc opendir closedir open_file close pread mmap read write free read_device init_hdev
    extract_hex scan_name scan_number scan_bus scan_slot scan_function read_loop crono_read_config
    crono_read_vendor_device crono_get_sys_devices_directory_path from_bytes read_line bar_loop
    finish_bars read_bars store_bars fill_device_bar_descriptions set_slot register finish_fill
    finish_open open_miscdev open_matching open_entries pci_device_open
new_card-IsHandle = record {
  holds = record { ne_null = omega arith; cell = refl };
  has_id = omega arith;
}

pci_device_close-pci_device_open_example :
    Returns
      (λ ret u.
        ((ret ≡ success)
          × ((q : Ptr) → u.cells q ≡ running.cells q)
          × (u.fds ≡ running.fds)
          × (u.dirs ≡ running.dirs))
        ⊎ ((ret ≡ u.errno) × OnlyDevice 1001 (fd_closed sim new_card opened) u))
      (pci_device_close sim 1001 opened)
pci_device_close-pci_device_open_example =
    pci_device_close-pci_device_open sim card 5 entries (bridge ∷ card ∷ []) running opened 1001
      new_card at_start with_device open_run new_card-IsHandle (omega arith) refl sim-Lists
      listing-Fresh card-FitsLink sim-Positive

code_of-Balanced_example : Kept (SameFiles running) 0 opened.fds opened.dirs
code_of-Balanced_example = code_of-Balanced sim open_it running opened 0 opens
