-- ===== src/Session/Invariant.antt =====
-- Every reachable state is well-formed.
use crono_pci_linux.Base.{refl, arith}
use crono_pci_linux.Os.{Os}
use crono_pci_linux.Machine.{Process}
use crono_pci_linux.Machine.Keeps.{Keeps, At, Ends-run, Leads-bind, Keeps-pure}
use crono_pci_linux.Valid.{WellFormed}
use crono_pci_linux.Scan.Keeps.{pci_scan_devices-Keeps}
use crono_pci_linux.Open.Keeps.{pci_device_open-Keeps, pci_device_close-Keeps}
use crono_pci_linux.Bars.Keeps.{get_bar_descriptions-Keeps, get_device_bar_mem-Keeps}
use crono_pci_linux.Config.Keeps.{
  get_device_misc_name-Keeps, pci_read_cfg32-Keeps, pci_write_cfg32-Keeps,
}
use crono_pci_linux.Access.Keeps.{
  read_width-Keeps, write_width-Keeps, read_addr-Keeps, write_addr-Keeps,
}
use crono_pci_linux.Dma.Objects.{dma_sg_buf_lock-Keeps}
use crono_pci_linux.Dma.Dropped.{dma_sg_buf_unlock-Keeps}
use crono_pci_linux.Dma.Plain.{
  dma_contig_buf_lock-Keeps, dma_contig_buf_unlock-Keeps, card_cleanup_setup-Keeps,
}
use crono_pci_linux.Table.Keeps.{Live, Live-Rewrites, on_unload-Keeps}
use crono_pci_linux.Session.{Call, code_of, Step, called, outside, loaded, Reach, start, next}

module _ {W : Type 0} (os : Os W) where
  code_of-Keeps : (c : Call) → Keeps WellFormed (code_of os c)
  code_of-Keeps (Call.pci_scan_devices vendor_id device_id r) =
      Leads-bind (pci_scan_devices-Keeps os vendor_id device_id r) λ _. Keeps-pure _
  code_of-Keeps (Call.pci_device_open h info) =
      Leads-bind (pci_device_open-Keeps os h info) λ _. Keeps-pure _
  code_of-Keeps (Call.pci_device_close h) = pci_device_close-Keeps os h
  code_of-Keeps (Call.get_bar_descriptions h n descs) =
      Leads-bind
        (get_bar_descriptions-Keeps os WellFormed (Live h) h n descs
          (λ d f ds m (i, at_h). (i, rw at_h refl)) (λ f ds m c. c.0) (Live-Rewrites h))
        λ _. Keeps-pure _
  code_of-Keeps (Call.get_device_bar_mem h addr size) =
      Leads-bind (get_device_bar_mem-Keeps os h addr size) λ _. Keeps-pure _
  code_of-Keeps (Call.get_device_misc_name h name size) =
      Leads-bind (get_device_misc_name-Keeps h name size) λ _. Keeps-pure _
  code_of-Keeps (Call.read_width width h offset val) =
      Leads-bind (read_width-Keeps os width h offset val) λ _. Keeps-pure _
  code_of-Keeps (Call.write_width width h offset val) = write_width-Keeps os width h offset val
  code_of-Keeps (Call.read_addr h offset val i) =
      Leads-bind (read_addr-Keeps os h offset val i) λ _. Keeps-pure _
  code_of-Keeps (Call.write_addr h offset val i) = write_addr-Keeps os h offset val i
  code_of-Keeps (Call.pci_read_cfg32 h offset val) =
      Leads-bind (pci_read_cfg32-Keeps os h offset val) λ _. Keeps-pure _
  code_of-Keeps (Call.pci_write_cfg32 h offset val) = pci_write_cfg32-Keeps os h offset val
  code_of-Keeps (Call.dma_sg_buf_lock h buf options size dma) =
      Leads-bind (dma_sg_buf_lock-Keeps os h buf options size dma) λ _. Keeps-pure _
  code_of-Keeps (Call.dma_sg_buf_unlock h dma) = dma_sg_buf_unlock-Keeps os h dma
  code_of-Keeps (Call.dma_contig_buf_lock h buf options size dma) =
      Leads-bind (dma_contig_buf_lock-Keeps os h buf options size dma) λ _. Keeps-pure _
  code_of-Keeps (Call.dma_contig_buf_unlock h dma) = dma_contig_buf_unlock-Keeps os h dma
  code_of-Keeps (Call.card_cleanup_setup h cmd count) = card_cleanup_setup-Keeps os h cmd count
  code_of-Keeps Call.on_unload = Leads-bind on_unload-Keeps λ _. Keeps-pure _

  loaded-WellFormed : (w : W) → At WellFormed (loaded w)
  loaded-WellFormed w = record {
    eight = refl;
    counted = omega arith;
    tracked = λ j low. absurd (omega arith);
    apart = λ j k low. absurd (omega arith);
    pages = λ p used. absurd (used refl);
    pages_apart = λ p q used. absurd (used refl);
    fits = λ p. refl;
  }

  Step-WellFormed : {s t : Process W} → Step os s t → At WellFormed s → At WellFormed t
  Step-WellFormed (called c {ret} {s} {t} e) h = Ends-run ((code_of-Keeps c).run s h) ret t e
  Step-WellFormed (outside w e fds dirs maps) h = h

  -- In every state that calls of the library lead to, with any arguments, in any order and with any
  -- answers of the system, the heap and the table are well-formed: the table has eight slots and
  -- counts no more, each counted slot is free or holds a live device that no other counted slot
  -- holds, and each live buffer object has a live array of pages of its own.
  pub Reach-WellFormed : {s : Process W} → Reach os s → WellFormed s.cells s.devices s.i_new_dev
  Reach-WellFormed (start w) = loaded-WellFormed w
  Reach-WellFormed (next r step) = Step-WellFormed step (Reach-WellFormed r)
