-- ===== src/Device/Files.antt =====
-- A function with a handle opens and closes nothing before its rest.
use crono_pci_linux.Base.{ℕ, ◌==◌, List}
use crono_pci_linux.Types.{
  Ptr, Obj, Device, device, raw, dma_sg, dma_contig, dma_pages, addresses, cmds, minus, einval,
}
use crono_pci_linux.Machine.{M, pure, undefined}
use crono_pci_linux.Machine.Files.{
  Files, Moves, Stays, Moves-bind, Moves-if, Moves-pure, Moves-undefined, Stays-pure,
}
use crono_pci_linux.Machine.Files.Calls.{Stays-read}
use crono_pci_linux.Device.{read_device, init_hdev}

module _ {W : Type 0} {I : Files} where
  pub read_device-Stays : (p : Ptr) → Stays I (read_device {W = W} p)
  unfolding read_device
  read_device-Stays p = Moves-bind (Stays-read p) go
    where
      go : (o : Obj) → Stays I (elim o as (λ _. M W Device) [ device d ↦ pure d | _ ↦ undefined ])
      go (device d) = Stays-pure d
      go raw = Moves-undefined
      go (dma_sg d) = Moves-undefined
      go (dma_contig d) = Moves-undefined
      go (dma_pages ps) = Moves-undefined
      go (addresses xs) = Moves-undefined
      go (cmds cs) = Moves-undefined

  pub init_hdev-Moves :
      {A : Type 0} {J : A → Files} (h : Ptr) (refuse : ℕ → A) (body : Device → M W A)
      → ((fds : List ℕ) (dirs : ℕ) → I fds dirs → J (refuse (minus einval)) fds dirs)
      → ((d : Device) → Moves I J (body d))
      → Moves I J (init_hdev h refuse body)
  unfolding init_hdev
  init_hdev-Moves h refuse body weaken k = Moves-if (h == 0) (Moves-pure _ weaken) (
      Moves-bind (read_device-Stays h) λ d. Moves-if (d.device_id == 0) (Moves-pure _ weaken) (k d))

  pub init_hdev-Stays :
      {A : Type 0} (h : Ptr) (refuse : ℕ → A) (body : Device → M W A)
      → ((d : Device) → Stays I (body d))
      → Stays I (init_hdev h refuse body)
  init_hdev-Stays h refuse body k = init_hdev-Moves h refuse body (λ _ _ i. i) k
