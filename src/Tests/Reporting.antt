-- ===== src/Tests/Reporting.antt =====
-- Calls with a handle, live and dead, at concrete inputs.
use crono_pci_linux.Base.{
  ℕ, ◌≤◌, ◌<◌, ◌≡◌, refl, none, some, List, [], ◌∷◌, ◌++◌, length, take, drop, replicate, get_or,
  subst, arith,
}
use crono_pci_linux.Types.{Text, cmds, zero_cmds, zero_bars, Cmd, success}
use crono_pci_linux.Machine.{Process, malloc}
use crono_pci_linux.Machine.Heap.{Fresh}
use crono_pci_linux.Machine.Returns.{Returns}
use crono_pci_linux.Machine.Frame.{Framed}
use crono_pci_linux.Device.Handle.{IsHandle}
use crono_pci_linux.Sysfs.{assign, crono_write_config}
use crono_pci_linux.Sysfs.Sent.{crono_write_config-Returns}
use crono_pci_linux.Bars.{get_bar_descriptions}
use crono_pci_linux.Bars.Report.{Reported, get_bar_descriptions-Reported}
use crono_pci_linux.Config.{get_device_misc_name}
use crono_pci_linux.Config.Name.{get_device_misc_name-take}
use crono_pci_linux.Dma.{cmds_info, card_cleanup_setup}
use crono_pci_linux.Dma.Cleanup.{CleanedUp, card_cleanup_setup-Returns}
use crono_pci_linux.Session.{Call, code_of}
use crono_pci_linux.Session.Refuse.{code_of-dead}
use crono_pci_linux.Tests.Sim.{sim, start, card, handle, open_card, with_card, bare_card, holding}
use crono_pci_linux.Tests.Accessing.{Fits, with_card-IsHandle}

-- A read with a handle that is not open.
code_of-dead_example : code_of sim (Call.read_width 4 1000 0 (some 0)) start ≡ none
code_of-dead_example = code_of-dead sim start (Call.read_width 4 1000 0 (some 0)) 1000 refl refl

get_device_misc_name-take_example :
    (copied : Text) × (get_device_misc_name handle (some (replicate 20 1)) 8 with_card
      ≡ some ((success, some (copied ++ drop 8 (replicate 20 1))), with_card))
    × (copied ≡ take 8 (open_card.miscdev_name ++ replicate 8 0))
    × (length open_card.miscdev_name < 8 → get_or copied (length open_card.miscdev_name) 1 ≡ 0)
    × (8 ≤ length open_card.miscdev_name → copied ≡ take 8 open_card.miscdev_name)
get_device_misc_name-take_example =
    get_device_misc_name-take with_card-IsHandle (replicate 20 1) 8 (omega arith)

bare-IsHandle : IsHandle handle bare_card (holding bare_card)
bare-IsHandle = record {
  holds = record { ne_null = omega arith; cell = refl };
  has_id = omega arith;
}

get_bar_descriptions-Reported_example :
    Returns
      (λ (code, bar_count, bar_descs).
        Reported sim handle bare_card (holding bare_card) 9 zero_bars code bar_count bar_descs)
      (get_bar_descriptions sim handle (some 9) (some zero_bars) (holding bare_card))
get_bar_descriptions-Reported_example =
    get_bar_descriptions-Reported sim bare-IsHandle 9 zero_bars refl
      (record { fits = λ link e. subst Fits e (omega arith, omega arith) })

crono_write_config-Returns_example :
    Returns
      (λ (err, bytes_written) u.
        ((k : ℕ) × (k ≤ 2) × (bytes_written ≡ assign k (some 0))) × Framed start u)
      (crono_write_config sim card (5 ∷ 6 ∷ []) 4 2 (some 0) start)
crono_write_config-Returns_example =
    crono_write_config-Returns sim card (5 ∷ 6 ∷ []) 4 2 (some 0) start (omega arith)

abbrev commands : List Cmd
commands = record { addr = 0x10; value = 1 } ∷ record { addr = 0x14; value = 0 } ∷ []

-- The process some calls later.
abbrev later : Process ℕ
later = record with_card { world = 7 }

later-IsHandle : IsHandle handle open_card later
later-IsHandle = record {
  holds = record { ne_null = omega arith; cell = refl };
  has_id = omega arith;
}

new_block : Fresh (cmds (zero_cmds 2)) later (malloc sim (cmds (zero_cmds 2)) later)
unfolding malloc
new_block = record { at = 1007; world = 8; ne_null = omega arith; unused = refl; run = refl }

card_cleanup_setup-Returns_example :
    Returns
      (CleanedUp sim later-IsHandle (cmds_info 1007 2) (take 2 commands) new_block.world)
      (card_cleanup_setup sim handle commands 2 later)
card_cleanup_setup-Returns_example =
    card_cleanup_setup-Returns sim later-IsHandle commands 2 (omega arith) (omega arith) new_block
