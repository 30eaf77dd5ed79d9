-- ===== src/Types.antt =====
-- The structs and the codes of include/crono_kernel_interface.h, src/crono_kernel_private.h and
-- src/crono_linux_kernel.h. An `int` or `uint32_t` code is its 32-bit pattern, a pointer is a
-- number with 0 for NULL, and text is the list of its bytes.
use crono_pci_linux.Base.{ℕ, ◌-◌, ◌%◌, ◌^◌, List, [], replicate}

abbrev pub Text : Type 0
Text = List ℕ

abbrev pub Ptr : Type 0
Ptr = ℕ

-- `CRONO_SUCCESS`, and -e as a `uint32_t`.
abbrev pub success : ℕ
success = 0

abbrev pub minus : ℕ → ℕ
minus e = (2 ^ 32 - e) % 2 ^ 32

-- Linux `errno` values that the code names.
abbrev pub enoent : ℕ
enoent = 2

abbrev pub enomem : ℕ
enomem = 12

abbrev pub ebusy : ℕ
ebusy = 16

abbrev pub enodev : ℕ
enodev = 19

abbrev pub einval : ℕ
einval = 22

-- `PCI_ANY_ID` as a `uint32_t`.
abbrev pub pci_any_id : ℕ
pci_any_id = 0xffffffff

-- Members of `CRONO_KERNEL_ERROR_CODES` that the code returns.
abbrev pub insufficient_resources : ℕ
insufficient_resources = 0x20000005

abbrev pub try_again : ℕ
try_again = 0x2000001d

abbrev pub no_device_object : ℕ
no_device_object = 0x20000023

-- `CRONO_KERNEL_PCI_CARDS`.
abbrev pub pci_cards : ℕ
pci_cards = 100

-- `CRONO_KERNEL_PCI_SLOT`, and `crono_dev_DBDF`.
pub record PciSlot : Type 0 where
  pub domain : ℕ
  pub bus : ℕ
  pub slot : ℕ
  pub function : ℕ

-- `CRONO_KERNEL_PCI_ID`.
pub record PciId : Type 0 where
  pub vendor_id : ℕ
  pub device_id : ℕ

-- `CRONO_KERNEL_PCI_SCAN_RESULT`: the two arrays have `pci_cards` entries.
pub record ScanResult : Type 0 where
  pub num_devices : ℕ
  pub device_id : List PciId
  pub device_slot : List PciSlot

-- `CRONO_KERNEL_BAR_DESC`.
pub record BarDesc : Type 0 where
  pub bar_num : ℕ
  pub flags : ℕ
  pub user_address : ℕ
  pub physical_address : ℕ
  pub length : ℕ

-- `CRONO_KERNEL_DEVICE`: `bar_descs` has six entries, and `miscdev_name` is the text in front of
-- the terminator.
pub record Device : Type 0 where
  pub pci_slot : PciSlot
  pub vendor_id : ℕ
  pub device_id : ℕ
  pub bar_descs : List BarDesc
  pub bar_count : ℕ
  pub miscdev_name : Text
  pub miscdev_fd : ℕ

-- `CRONO_KERNEL_DMA_PAGE`.
pub record DmaPage : Type 0 where
  pub physical_addr : ℕ
  pub bytes : ℕ

-- `CRONO_KERNEL_DMA_SG`: `pages` is the pointer `Page`.
pub record DmaSg : Type 0 where
  pub user_addr : Ptr
  pub page_count : ℕ
  pub pages : Ptr
  pub id : ℕ

-- `CRONO_KERNEL_DMA_CONTIG`.
pub record DmaContig : Type 0 where
  pub h_dma : ℕ
  pub user_addr : Ptr
  pub bytes : ℕ
  pub physical_addr : ℕ
  pub id : ℕ

-- `CRONO_KERNEL_CMD`.
pub record Cmd : Type 0 where
  pub addr : ℕ
  pub value : ℕ

-- `CRONO_SG_BUFFER_INFO`: the request to lock a buffer.
pub record SgBufferInfo : Type 0 where
  pub addr : Ptr
  pub size : ℕ
  pub pages : Ptr
  pub upages : ℕ
  pub pages_count : ℕ
  pub id : ℕ

-- `CRONO_CONTIG_BUFFER_INFO`: the request for a contiguous buffer.
pub record ContigBufferInfo : Type 0 where
  pub size : ℕ
  pub addr : Ptr
  pub user_addr : Ptr
  pub dma_handle : ℕ
  pub id : ℕ

-- `CRONO_KERNEL_CMDS_INFO`: the request to set the cleanup commands.
pub record CmdsInfo : Type 0 where
  pub cmds : Ptr
  pub ucmds : ℕ
  pub count : ℕ

-- What a block from `malloc` or `calloc` holds; `raw` is what nobody has written yet.
pub data Obj : Type 0 where
  raw : Obj
  device : Device → Obj
  dma_sg : DmaSg → Obj
  dma_contig : DmaContig → Obj
  dma_pages : List DmaPage → Obj
  addresses : List ℕ → Obj
  cmds : List Cmd → Obj

-- What `memset(.., 0, ..)` makes of the structs.
abbrev pub zero_slot : PciSlot
zero_slot = record { domain = 0; bus = 0; slot = 0; function = 0 }

abbrev pub zero_bar : BarDesc
zero_bar = record { bar_num = 0; flags = 0; user_address = 0; physical_address = 0; length = 0 }

abbrev pub zero_bars : List BarDesc
zero_bars = replicate 6 zero_bar

abbrev pub zero_device : Device
zero_device = record {
  pci_slot = zero_slot;
  vendor_id = 0;
  device_id = 0;
  bar_descs = zero_bars;
  bar_count = 0;
  miscdev_name = [];
  miscdev_fd = 0;
}

-- What `calloc` makes of an array of commands.
abbrev pub zero_cmds : ℕ → List Cmd
zero_cmds count = replicate count (record { addr = 0; value = 0 })

abbrev pub zero_sg : DmaSg
zero_sg = record { user_addr = 0; page_count = 0; pages = 0; id = 0 }

abbrev pub zero_contig : DmaContig
zero_contig = record { h_dma = 0; user_addr = 0; bytes = 0; physical_addr = 0; id = 0 }
