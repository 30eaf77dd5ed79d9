-- ===== src/Tests/Opening.antt =====
-- Opening a device of the simulated directory.
use crono_pci_linux.Base.{ℕ, ◌≡◌, refl, subst, some, ◌∷◌, [], arith}
use crono_pci_linux.Types.{Ptr, raw}
use crono_pci_linux.Machine.{malloc}
use crono_pci_linux.Machine.Heap.{Fresh}
use crono_pci_linux.Machine.Returns.{Returns}
use crono_pci_linux.Bars.Fill.{FitsLink}
use crono_pci_linux.Open.{pci_device_open}
use crono_pci_linux.Open.Exits.{Positive}
use crono_pci_linux.Scan.Listed.{has_slot}
use crono_pci_linux.Open.Outcome.{EntriesPost, listing, pci_device_open-Returns}
use crono_pci_linux.Tests.Sim.{sim, start, card, entries}
use crono_pci_linux.Tests.Accessing.{Fits}
use crono_pci_linux.Tests.Cards.{bridge, NotZero}
use crono_pci_linux.Tests.Scanning.{sim-Lists}

pub sim-Positive : Positive sim
sim-Positive path a w fd e = subst NotZero e (omega arith)

pub card-FitsLink : (w : ℕ) → FitsLink sim card w
card-FitsLink w = record { fits = λ link e. subst Fits e (omega arith, omega arith) }

pub listing-Fresh : Fresh raw (listing sim card start) (malloc sim raw (listing sim card start))
unfolding malloc
listing-Fresh = record { at = 1001; world = 2; ne_null = omega arith; unused = refl; run = refl }

pci_device_open-Returns_example :
    Returns
      (λ (ret, handle) t.
        (p : Ptr) × (handle ≡ some p)
        × EntriesPost card (has_slot card (bridge ∷ card ∷ [])) (listing sim card start) (ret, p) t)
      (pci_device_open sim (some 5) (some card) start)
pci_device_open-Returns_example =
    pci_device_open-Returns sim card start 5 entries (bridge ∷ card ∷ []) refl sim-Lists
      listing-Fresh (omega arith) card-FitsLink sim-Positive
