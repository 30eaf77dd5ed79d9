-- ===== src/Session/Refuse.antt =====
-- Calls with a handle that is NULL or whose device was closed.
use crono_pci_linux.Base.{
  ℕ, refl, ◌≡◌, Option, none, some, inl, inr, Bool-cases, ◌==◌, if◌then◌else◌, subst,
}
use crono_pci_linux.Types.{Ptr, minus, einval, success}
use crono_pci_linux.Os.{Os}
use crono_pci_linux.Machine.{Process}
use crono_pci_linux.Device.Handle.{init_hdev-dead, init_hdev-dead_bind}
use crono_pci_linux.Access
use crono_pci_linux.Bars
use crono_pci_linux.Config
use crono_pci_linux.Dma
use crono_pci_linux.Open
use crono_pci_linux.Session.{Call, code_of}

-- The handle that a call is given.
abbrev pub handle_of : Call → Option Ptr
handle_of (Call.pci_device_close h) = some h
handle_of (Call.get_bar_descriptions h n descs) = some h
handle_of (Call.get_device_bar_mem h addr size) = some h
handle_of (Call.get_device_misc_name h name size) = some h
handle_of (Call.read_width width h offset val) = some h
handle_of (Call.write_width width h offset val) = some h
handle_of (Call.read_addr h offset val i) = some h
handle_of (Call.write_addr h offset val i) = some h
handle_of (Call.pci_read_cfg32 h offset val) = some h
handle_of (Call.pci_write_cfg32 h offset val) = some h
handle_of (Call.dma_sg_buf_lock h buf options size dma) = some h
handle_of (Call.dma_sg_buf_unlock h dma) = some h
handle_of (Call.dma_contig_buf_lock h buf options size dma) = some h
handle_of (Call.dma_contig_buf_unlock h dma) = some h
handle_of (Call.card_cleanup_setup h cmd count) = some h
handle_of _ = none

-- NULL is refused, and the block of any other handle is read.
abbrev refused : {W : Type 0} → Ptr → Process W → Option (ℕ × Process W)
refused h s = if h == 0 then some (minus einval, s) else none

-- A contiguous lock looks at `ppDma` before it looks at the handle.
abbrev pub dead_outcome : {W : Type 0} → Call → Ptr → Process W → Option (ℕ × Process W)
dead_outcome (Call.dma_contig_buf_lock g buf options size none) h s = some (minus einval, s)
dead_outcome (Call.dma_contig_buf_lock g buf options size (some dma)) h s =
    if dma == 0 then refused h s else some (success, s)
dead_outcome _ h s = refused h s

module _ {W : Type 0} (os : Os W) (s : Process W) where
  abbrev Refused : Call → Option Ptr → Type 0
  Refused c none = Unit {0}
  Refused c (some h) = s.cells h ≡ none → code_of os c s ≡ dead_outcome c h s

  code_of-Refused : (c : Call) → Refused c (handle_of c)
  unfolding Open.pci_device_close Bars.get_bar_descriptions Bars.get_device_bar_mem
      Config.get_device_misc_name Access.read_width Access.write_width Access.read_addr
      Access.write_addr Config.pci_read_cfg32 Config.pci_write_cfg32 Dma.dma_sg_buf_lock
      Dma.dma_sg_buf_unlock Dma.dma_contig_buf_lock Dma.dma_contig_buf_unlock Dma.card_cleanup_setup
  code_of-Refused (Call.pci_scan_devices vendor_id device_id r) = tt
  code_of-Refused (Call.pci_device_open h info) = tt
  code_of-Refused Call.on_unload = tt
  code_of-Refused (Call.pci_device_close h) = init_hdev-dead h _ _ s
  code_of-Refused (Call.get_bar_descriptions h n descs) = init_hdev-dead_bind h _ _ _ s
  code_of-Refused (Call.get_device_bar_mem h addr size) = init_hdev-dead_bind h _ _ _ s
  code_of-Refused (Call.get_device_misc_name h name size) = init_hdev-dead_bind h _ _ _ s
  code_of-Refused (Call.read_width width h offset val) = init_hdev-dead_bind h _ _ _ s
  code_of-Refused (Call.write_width width h offset val) = init_hdev-dead h _ _ s
  code_of-Refused (Call.read_addr h offset val i) = init_hdev-dead_bind h _ _ _ s
  code_of-Refused (Call.write_addr h offset val i) = init_hdev-dead h _ _ s
  code_of-Refused (Call.pci_read_cfg32 h offset val) = init_hdev-dead_bind h _ _ _ s
  code_of-Refused (Call.pci_write_cfg32 h offset val) = init_hdev-dead h _ _ s
  code_of-Refused (Call.dma_sg_buf_lock h buf options size dma) = init_hdev-dead_bind h _ _ _ s
  code_of-Refused (Call.dma_sg_buf_unlock h dma) = init_hdev-dead h _ _ s
  code_of-Refused (Call.dma_contig_buf_unlock h dma) = init_hdev-dead h _ _ s
  code_of-Refused (Call.card_cleanup_setup h cmd count) = init_hdev-dead h _ _ s
  code_of-Refused (Call.dma_contig_buf_lock h buf options size none) = λ dead. refl
  code_of-Refused (Call.dma_contig_buf_lock h buf options size (some dma)) =
      elim (Bool-cases (dma == 0)) [
        | inl null ↦ rw null λ dead. init_hdev-dead_bind h _ _ _ s dead
        | inr there ↦ rw there λ dead. refl
      ]

  -- Every function with a handle whose block is not live, such as that of a closed device, refuses
  -- it with -EINVAL and changes nothing if it is NULL, and is undefined otherwise. Only a
  -- contiguous lock looks at `ppDma` first, whatever the handle is: it refuses a NULL `ppDma` with
  -- -EINVAL and reports success for a `*ppDma` that is not NULL, and changes nothing in both cases.
  pub code_of-dead :
      (c : Call) (h : Ptr)
      → handle_of c ≡ some h
      → s.cells h ≡ none
      → code_of os c s ≡ dead_outcome c h s
  code_of-dead c h e dead = subst (Refused c) e (code_of-Refused c) dead
