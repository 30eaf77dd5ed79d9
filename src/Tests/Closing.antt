-- ===== src/Tests/Closing.antt =====
-- The device table at concrete inputs.
use crono_pci_linux.Base.{
  ℕ, suc, zero, ◌≡◌, ◌≢◌, ◌≤◌, ◌<◌, true, refl, some, none, ◌∷◌, replicate, arith,
}
use crono_pci_linux.Types.{device}
use crono_pci_linux.Os.{update, is_live}
use crono_pci_linux.Machine.{Process, ◌>>=◌}
use crono_pci_linux.Machine.Returns.{Returns}
use crono_pci_linux.Table.{shrink_table, on_unload}
use crono_pci_linux.Table.Free.{slot, Tracks, Freed, on_unload-Freed}
use crono_pci_linux.Table.Forget.{Leaked, shrink_table-Leaked}
use crono_pci_linux.Table.Release.{FreePost}
use crono_pci_linux.Open.{pci_device_close}
use crono_pci_linux.Open.Close.{fd_closed, pci_device_close-Returns}
use crono_pci_linux.Tests.Sim.{sim, start, handle, open_card, with_card}
use crono_pci_linux.Tests.Accessing.{with_card-IsHandle}

card_once : (j : ℕ) → j < 1 → j ≡ 0
card_once j h = omega arith

pci_device_close-Returns_example :
    Returns
      (FreePost 0 handle open_card (fd_closed sim open_card with_card))
      (pci_device_close sim handle with_card)
pci_device_close-Returns_example =
    pci_device_close-Returns sim 0 handle open_card with_card with_card-IsHandle (record {
      holds = with_card-IsHandle.holds;
      bars = omega arith;
      here = refl;
      counted = omega arith;
      room = omega arith;
      once = λ j low same. card_once j low;
    })

-- Two devices, in the slots 0 and 1.
abbrev two : Process ℕ
two = record start {
  cells = update (update (λ p. none) 1000 (some (device open_card))) 2000 (some (device open_card));
  devices = 1000 ∷ 2000 ∷ replicate 6 0;
  i_new_dev = 1;
}

two-Tracks : Tracks 0 2 two
two-Tracks = record { room = omega arith; live = live; distinct = distinct }
  where
    live : (j : ℕ) → 0 ≤ j → j < 2 → slot two j ≢ 0 → is_live (two.cells (slot two j)) ≡ true
    live zero low high used = refl
    live (suc zero) low high used = refl
    live (suc (suc j)) low high used = absurd (omega arith)

    distinct : (j k : ℕ) → 0 ≤ j → j < k → k < 2 → slot two j ≢ 0 → slot two j ≢ slot two k
    distinct zero zero low mid high used = absurd (omega arith)
    distinct zero (suc zero) low mid high used = λ e. absurd (omega arith)
    distinct zero (suc (suc k)) low mid high used = absurd (omega arith)
    distinct (suc j) k low mid high used = absurd (omega arith)

shrink_table-Leaked_example :
    Returns (λ _ s'. Leaked two s') ((shrink_table >>= λ _. on_unload) two)
shrink_table-Leaked_example =
    shrink_table-Leaked two 1 (omega arith) two-Tracks (omega arith) (omega arith) (omega arith)

abbrev both : Process ℕ
both = record two { i_new_dev = 2 }

both-Tracks : Tracks 0 2 both
both-Tracks = record {
  room = two-Tracks.room;
  live = two-Tracks.live;
  distinct = two-Tracks.distinct;
}

on_unload-Freed_example : Returns (λ _ s'. Freed 0 2 both s' × (s'.i_new_dev ≡ 0)) (on_unload both)
on_unload-Freed_example = on_unload-Freed both both-Tracks
