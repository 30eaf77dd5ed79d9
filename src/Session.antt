-- ===== src/Session.antt =====
-- A program's use of the library: the calls of include/crono_kernel_interface.h in any order and
-- with any arguments, and the states that they lead to.
pub mod Invariant
pub mod Unload
pub mod Refuse
pub mod Cycle
pub mod Balance
pub mod Found
use crono_pci_linux.Base.{ℕ, ◌≡◌, Option, none, some, List, [], replicate}
use crono_pci_linux.Types.{Text, Ptr, PciSlot, ScanResult, BarDesc, Cmd, success}
use crono_pci_linux.Os.{Os}
use crono_pci_linux.Machine.{Process, M, pure, ◌>>=◌, ◌>>◌}
use crono_pci_linux.Table
use crono_pci_linux.Open
use crono_pci_linux.Scan
use crono_pci_linux.Bars
use crono_pci_linux.Access
use crono_pci_linux.Config
use crono_pci_linux.Dma

-- The functions with their arguments; `read_width` and `write_width` carry the width of the access.
pub data Call : Type 0 where
  pci_scan_devices : ℕ → ℕ → ScanResult → Call
  pci_device_open : Option Ptr → Option PciSlot → Call
  pci_device_close : Ptr → Call
  get_bar_descriptions : Ptr → Option ℕ → Option (List BarDesc) → Call
  get_device_bar_mem : Ptr → Option ℕ → Option ℕ → Call
  get_device_misc_name : Ptr → Option Text → ℕ → Call
  read_width : ℕ → Ptr → ℕ → Option ℕ → Call
  write_width : ℕ → Ptr → ℕ → ℕ → Call
  read_addr : Ptr → ℕ → Option ℕ → ℕ → Call
  write_addr : Ptr → ℕ → ℕ → ℕ → Call
  pci_read_cfg32 : Ptr → ℕ → Option ℕ → Call
  pci_write_cfg32 : Ptr → ℕ → ℕ → Call
  dma_sg_buf_lock : Ptr → Ptr → ℕ → ℕ → Option Ptr → Call
  dma_sg_buf_unlock : Ptr → Ptr → Call
  dma_contig_buf_lock : Ptr → Option Ptr → ℕ → ℕ → Option Ptr → Call
  dma_contig_buf_unlock : Ptr → Ptr → Call
  card_cleanup_setup : Ptr → List Cmd → ℕ → Call
  on_unload : Call

module _ {W : Type 0} (os : Os W) where
  -- The code that a call returns; what it writes through its pointers is left out.
  abbrev pub code_of : Call → M W ℕ
  code_of (Call.pci_scan_devices vendor_id device_id r) = do
    (ret, _) ← Scan.pci_scan_devices os vendor_id device_id r
    pure ret
  code_of (Call.pci_device_open h info) = do (ret, _) ← Open.pci_device_open os h info; pure ret
  code_of (Call.pci_device_close h) = Open.pci_device_close os h
  code_of (Call.get_bar_descriptions h n descs) = do
    (ret, _, _) ← Bars.get_bar_descriptions os h n descs
    pure ret
  code_of (Call.get_device_bar_mem h addr size) = do
    (ret, _, _) ← Bars.get_device_bar_mem os h addr size
    pure ret
  code_of (Call.get_device_misc_name h name size) = do
    (ret, _) ← Config.get_device_misc_name h name size
    pure ret
  code_of (Call.read_width width h offset val) = do
    (ret, _) ← Access.read_width os width h offset val
    pure ret
  code_of (Call.write_width width h offset val) = Access.write_width os width h offset val
  code_of (Call.read_addr h offset val i) = do
    (ret, _) ← Access.read_addr os h offset val i
    pure ret
  code_of (Call.write_addr h offset val i) = Access.write_addr os h offset val i
  code_of (Call.pci_read_cfg32 h offset val) = do
    (ret, _) ← Config.pci_read_cfg32 os h offset val
    pure ret
  code_of (Call.pci_write_cfg32 h offset val) = Config.pci_write_cfg32 os h offset val
  code_of (Call.dma_sg_buf_lock h buf options size dma) = do
    (ret, _) ← Dma.dma_sg_buf_lock os h buf options size dma
    pure ret
  code_of (Call.dma_sg_buf_unlock h dma) = Dma.dma_sg_buf_unlock os h dma
  code_of (Call.dma_contig_buf_lock h buf options size dma) = do
    (ret, _, _) ← Dma.dma_contig_buf_lock os h buf options size dma
    pure ret
  code_of (Call.dma_contig_buf_unlock h dma) = Dma.dma_contig_buf_unlock os h dma
  code_of (Call.card_cleanup_setup h cmd count) = Dma.card_cleanup_setup os h cmd count
  code_of Call.on_unload = do Table.on_unload; pure success

  -- A step: a call that is defined, or a change outside of the library, which owns the heap's
  -- blocks and the table.
  pub data Step : Process W → Process W → Type 0 where
    called : (c : Call) {ret : ℕ} {s t : Process W} → code_of c s ≡ some (ret, t) → Step s t
    outside :
        {s : Process W} (w : W) (e : ℕ) (fds : List ℕ) (dirs : ℕ) (maps : List (ℕ × ℕ))
        → Step s (record s { world = w; errno = e; fds = fds; dirs = dirs; maps = maps })

-- The loaded library: no block, no device.
abbrev pub loaded : {W : Type 0} → W → Process W
loaded w = record {
  world = w;
  errno = 0;
  fds = [];
  dirs = 0;
  maps = [];
  cells = λ _. none;
  devices = replicate 8 0;
  i_new_dev = 0;
}

pub data Reach {W : Type 0} (os : Os W) : Process W → Type 0 where
  start : (w : W) → Reach os (loaded w)
  next : {s t : Process W} → Reach os s → Step os s t → Reach os t
