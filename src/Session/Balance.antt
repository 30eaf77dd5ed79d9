-- ===== src/Session/Balance.antt =====
-- What a call leaves open.
use crono_pci_linux.Base.{ℕ, ◌≡◌, refl, some}
use crono_pci_linux.Os.{Os}
use crono_pci_linux.Machine.{Process}
use crono_pci_linux.Machine.Keeps.{Ends-run}
use crono_pci_linux.Machine.Files.{Files, Moves, Moves-bind, Moves-pure, Stays-pure}
use crono_pci_linux.Scan.Files.{pci_scan_devices-Stays}
use crono_pci_linux.Open.Files.{Kept, Dropped, pci_device_open-Moves, pci_device_close-Moves}
use crono_pci_linux.Bars.Files.{get_bar_descriptions-Stays, get_device_bar_mem-Stays}
use crono_pci_linux.Config.Files.{
  get_device_misc_name-Stays, pci_read_cfg32-Stays, pci_write_cfg32-Stays,
}
use crono_pci_linux.Access.Files.{
  read_width-Stays, write_width-Stays, read_addr-Stays, write_addr-Stays,
}
use crono_pci_linux.Dma.Files.{
  dma_sg_buf_lock-Stays, dma_sg_buf_unlock-Stays, dma_contig_buf_lock-Stays,
  dma_contig_buf_unlock-Stays, card_cleanup_setup-Stays,
}
use crono_pci_linux.Table.Files.{on_unload-Stays}
use crono_pci_linux.Session.{Call, code_of}

-- What is open behind a call, when `I` holds before it.
abbrev pub Balanced : Call → Files → ℕ → Files
Balanced (Call.pci_device_open h info) I ret = Kept I ret
Balanced (Call.pci_device_close h) I ret = Dropped I
Balanced _ I ret = I

-- The descriptors and the directory streams of `s`.
abbrev pub SameFiles : {W : Type 0} → Process W → Files
SameFiles s fds dirs = (fds ≡ s.fds) × (dirs ≡ s.dirs)

module _ {W : Type 0} (os : Os W) {I : Files} where
  code_of-Moves : (c : Call) → Moves I (Balanced c I) (code_of os c)
  code_of-Moves (Call.pci_scan_devices vendor_id device_id r) =
      Moves-bind (pci_scan_devices-Stays os vendor_id device_id r) λ _. Stays-pure _
  code_of-Moves (Call.pci_device_open h info) =
      Moves-bind (pci_device_open-Moves os h info) λ _. Moves-pure _ λ _ _ k. k
  code_of-Moves (Call.pci_device_close h) = pci_device_close-Moves os h
  code_of-Moves (Call.get_bar_descriptions h n descs) =
      Moves-bind (get_bar_descriptions-Stays os h n descs) λ _. Stays-pure _
  code_of-Moves (Call.get_device_bar_mem h addr size) =
      Moves-bind (get_device_bar_mem-Stays os h addr size) λ _. Stays-pure _
  code_of-Moves (Call.get_device_misc_name h name size) =
      Moves-bind (get_device_misc_name-Stays h name size) λ _. Stays-pure _
  code_of-Moves (Call.read_width width h offset val) =
      Moves-bind (read_width-Stays os width h offset val) λ _. Stays-pure _
  code_of-Moves (Call.write_width width h offset val) = write_width-Stays os width h offset val
  code_of-Moves (Call.read_addr h offset val i) =
      Moves-bind (read_addr-Stays os h offset val i) λ _. Stays-pure _
  code_of-Moves (Call.write_addr h offset val i) = write_addr-Stays os h offset val i
  code_of-Moves (Call.pci_read_cfg32 h offset val) =
      Moves-bind (pci_read_cfg32-Stays os h offset val) λ _. Stays-pure _
  code_of-Moves (Call.pci_write_cfg32 h offset val) = pci_write_cfg32-Stays os h offset val
  code_of-Moves (Call.dma_sg_buf_lock h buf options size dma) =
      Moves-bind (dma_sg_buf_lock-Stays os h buf options size dma) λ _. Stays-pure _
  code_of-Moves (Call.dma_sg_buf_unlock h dma) = dma_sg_buf_unlock-Stays os h dma
  code_of-Moves (Call.dma_contig_buf_lock h buf options size dma) =
      Moves-bind (dma_contig_buf_lock-Stays os h buf options size dma) λ _. Stays-pure _
  code_of-Moves (Call.dma_contig_buf_unlock h dma) = dma_contig_buf_unlock-Stays os h dma
  code_of-Moves (Call.card_cleanup_setup h cmd count) = card_cleanup_setup-Stays os h cmd count
  code_of-Moves Call.on_unload = Moves-bind on_unload-Stays λ _. Stays-pure _

module _ {W : Type 0} (os : Os W) where
  -- Whatever the system answers, a call that is defined leaves the directory streams as they were,
  -- and the open descriptors too, but for opening and closing a device: opening leaves at most one
  -- more descriptor, and if it does, the code is that of success or the descriptor is 0; closing
  -- drops one at most.
  pub code_of-Balanced :
      (c : Call) (s t : Process W) (ret : ℕ)
      → code_of os c s ≡ some (ret, t)
      → Balanced c (SameFiles s) ret t.fds t.dirs
  code_of-Balanced c s t ret e = Ends-run ((code_of-Moves os c).run s (refl, refl)) ret t e
