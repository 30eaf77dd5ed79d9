-- ===== src/Tests/Configuring.antt =====
-- Configuration accesses by handle at concrete inputs.
use crono_pci_linux.Base.{◌≡◌, refl, some, ◌++◌, take, drop, length, arith}
use crono_pci_linux.Types.{success}
use crono_pci_linux.Machine.Frame.{Framed}
use crono_pci_linux.Machine.Returns.{Returns}
use crono_pci_linux.Sysfs.{from_bytes, to_bytes}
use crono_pci_linux.Config.{pci_read_cfg32}
use crono_pci_linux.Config.Read.{pci_read_cfg32-word}
use crono_pci_linux.Tests.Sim.{sim, sim-Serves, content, handle, with_card}
use crono_pci_linux.Tests.Accessing.{with_card-IsHandle}

pci_read_cfg32-word_example :
    let got = take 4 (drop 6 content) in
    Returns
      (λ r u.
        (r ≡ (success, some (from_bytes (got ++ drop (length got) (to_bytes 4 5)))))
        × Framed with_card u)
      (pci_read_cfg32 sim handle 6 (some 5) with_card)
pci_read_cfg32-word_example =
    pci_read_cfg32-word sim with_card-IsHandle refl content 4 6 5 (sim-Serves 4) (omega arith) refl
      (omega arith)
