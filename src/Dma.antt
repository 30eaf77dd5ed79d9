-- ===== src/Dma.antt =====
-- The DMA buffers of src/crono_kernel_interface.cpp, and `CRONO_KERNEL_CardCleanupSetup`.
pub mod Cleanup
pub mod Files
pub mod Objects
pub mod Dropped
pub mod Plain
pub mod Blocks
pub mod Lock
pub mod Unlock
pub mod Contig
pub mod Release
use crono_pci_linux.Base.{
  ℕ, ◌+◌, ◌-◌, ◌*◌, ◌/◌, ◌%◌, ◌^◌, not, Option, none, some, List, [], ◌++◌, map, ltb, ◌==◌,
  if◌then◌else◌, is_null, length, take, replicate,
}
use crono_pci_linux.Types.{
  Ptr, raw, DmaPage, DmaSg, dma_sg, DmaContig, dma_contig, dma_pages, addresses, Cmd, cmds,
  SgBufferInfo, ContigBufferInfo, CmdsInfo, zero_contig, zero_cmds, success, minus, einval, enoent,
  enomem,
}
use crono_pci_linux.Os.{Reply, done, fail, Os, ContigLocked}
use crono_pci_linux.Machine.{
  M, pure, ◌>>=◌, ◌>>◌, undefined, call, malloc, read, write, free, mmap, munmap,
}
use crono_pci_linux.Device.{init_hdev}

-- -1 as an `int` and as a `uint32_t`.
abbrev pub minus_one : ℕ
minus_one = 2 ^ 32 - 1

-- `DIV_ROUND_UP`.
abbrev pub div_round_up : ℕ → ℕ → ℕ
div_round_up n d = (n + d - 1) / d

module _ {W : Type 0} where
  unfoldable pub read_sg : Ptr → M W DmaSg
  read_sg p = do block ← read p; elim block [ dma_sg d ↦ pure d | _ ↦ undefined ]

  unfoldable pub read_contig : Ptr → M W DmaContig
  read_contig p = do block ← read p; elim block [ dma_contig d ↦ pure d | _ ↦ undefined ]

  unfoldable pub read_cmds : Ptr → M W (List Cmd)
  read_cmds p = do block ← read p; elim block [ cmds cs ↦ pure cs | _ ↦ undefined ]

  -- What the driver module reads at `cmds_info.cmds`: the first `count` commands of the block.
  unfoldable pub sent_cmds : Ptr → ℕ → M W (List Cmd)
  sent_cmds p count = if count == 0 then pure [] else do cs ← read_cmds p; pure (take count cs)

-- An `int` as a 64-bit number, with its sign.
abbrev pub sign_extend : ℕ → ℕ
sign_extend i = if ltb i (2 ^ 31) then i else i + (2 ^ 64 - 2 ^ 32)

-- `Page[iPage]` for each address that the kernel wrote.
abbrev pub dma_page : ℕ → DmaPage
dma_page a = record { physical_addr = a; bytes = 4096 }

-- `buff_info` in front of the `ioctl` that locks a buffer.
abbrev pub sg_info : Ptr → ℕ → Ptr → ℕ → SgBufferInfo
sg_info buf size pages pages_count = record {
  addr = buf;
  size = size;
  pages = pages;
  upages = pages;
  pages_count = pages_count;
  id = minus_one;
}

-- `buff_info` in front of the `ioctl` that locks a contiguous buffer.
abbrev pub contig_info : ℕ → ContigBufferInfo
contig_info size = record { size = size; addr = 0; user_addr = 0; dma_handle = 0; id = minus_one }

-- `cmds_info` in front of its `ioctl`.
abbrev pub cmds_info : Ptr → ℕ → CmdsInfo
cmds_info p count = record { cmds = p; ucmds = p; count = count }

-- An array of `n` entries after the kernel wrote `xs` to it; the others were never set.
abbrev pub written : ℕ → ℕ → List ℕ → List ℕ
written n garbage xs = take n (xs ++ replicate n garbage)

-- The `int` result of an `ioctl` whose reply is `r`, if that carries no more.
abbrev pub ioctl_code : Reply ℕ → ℕ
ioctl_code (done ret) = ret
ioctl_code (fail e) = minus_one

module _ {W : Type 0} (os : Os W) where
  open os use {page_size, garbage}

  -- `alloc_err`.
  unfoldable pub alloc_err : Ptr → Ptr → Ptr → ℕ → Ptr → M W (ℕ × Option Ptr)
  alloc_err p page pages ret handle = do free page; free p; free pages; pure (ret, some handle)

  -- From the `ioctl` on; `page` and `pages` are the blocks of `pDma->Page` and `buff_info.pages`.
  unfoldable pub lock_sg : ℕ → Ptr → ℕ → Ptr → Ptr → Ptr → ℕ → M W (ℕ × Option Ptr)
  lock_sg fd buf size p page pages pages_count = do
    reply ← call (os.lock_buffer fd (sg_info buf size pages pages_count))
    elim reply [
      | fail _ ↦ alloc_err p page pages minus_one p
      | done l ↦ if not (l.ret == success) then alloc_err p page pages l.ret p else do
        let filled = written pages_count garbage l.pages
        write pages (addresses filled)
        d ← read_sg p
        write p (dma_sg (record d { id = l.id }))
        write page (dma_pages (map dma_page filled))
        free pages
        pure (l.ret, some p)
    ]

  -- `dwPages`, which is 32 bits wide.
  abbrev pub sg_pages : ℕ → ℕ
  sg_pages size = div_round_up size page_size % 2 ^ 32

  -- From the allocation of `buff_info.pages` on; `*ppDma` is the object `p` there.
  unfoldable pub lock_addresses : ℕ → Ptr → ℕ → Ptr → Ptr → M W (ℕ × Option Ptr)
  lock_addresses fd buf size p page = do
    pages ← malloc os raw
    if pages == 0
        then (do free page; free p; pure (minus enomem, some p))
        else lock_sg fd buf size p page pages (sg_pages size)

  -- From the allocation of `pDma->Page` on.
  unfoldable pub lock_pages : ℕ → Ptr → ℕ → Option Ptr → Ptr → M W (ℕ × Option Ptr)
  lock_pages fd buf size pp_dma p = do
    page ← malloc os raw
    if page == 0 then (do free p; pure (minus enomem, pp_dma)) else do
      write p
          (dma_sg (record { user_addr = buf; page_count = sg_pages size; pages = page; id = 0 }))
      lock_addresses fd buf size p page

  -- `CRONO_KERNEL_DMASGBufLock`: the code and `*ppDma`.
  unfoldable pub dma_sg_buf_lock : Ptr → Ptr → ℕ → ℕ → Option Ptr → M W (ℕ × Option Ptr)
  dma_sg_buf_lock h_dev buf options size pp_dma =
      init_hdev h_dev (λ code. (code, pp_dma))
        λ d.
          if buf == 0
          then pure (minus einval, pp_dma)
          else if is_null pp_dma
          then pure (minus einval, pp_dma)
          else if size == 0
          then pure (minus einval, pp_dma)
          else if d.miscdev_fd == 0
          then pure (minus enoent, pp_dma)
          else do
            p ← malloc os raw
            if p == 0
                then pure (minus enomem, pp_dma)
                else lock_pages d.miscdev_fd buf size pp_dma p

  -- `CRONO_KERNEL_DMASGBufUnlock`.
  unfoldable pub dma_sg_buf_unlock : Ptr → Ptr → M W ℕ
  dma_sg_buf_unlock h_dev p_dma =
      init_hdev h_dev (λ code. code)
        λ d.
          if p_dma == 0
          then pure (minus einval)
          else if d.miscdev_fd == 0
          then pure (minus enoent)
          else do
            dma ← read_sg p_dma
            reply ← call (os.unlock_buffer d.miscdev_fd dma.id)
            if not (ioctl_code reply == success) then pure (ioctl_code reply) else do
              free dma.pages
              write p_dma (dma_sg (record dma { pages = 0 }))
              free p_dma
              pure (ioctl_code reply)

  -- From the allocated buffer on: the object is filled, and the buffer is mapped.
  unfoldable pub map_contig : ℕ → ℕ → Ptr → ContigLocked → Ptr → M W (ℕ × Option Ptr × Option Ptr)
  map_contig fd size buf l p = do
    write p
        (dma_contig (record zero_contig { bytes = size; physical_addr = l.dma_handle; id = l.id }))
    mapped ← mmap os size fd (sign_extend l.id * page_size % 2 ^ 64)
    elim mapped [
      | fail _ ↦ do free p; pure (minus enomem, some buf, some p)
      | done user_addr ↦ do
        write p (
            dma_contig (record {
              h_dma = 0;
              user_addr = user_addr;
              bytes = size;
              physical_addr = l.dma_handle;
              id = l.id;
            }))
        pure (success, some user_addr, some p)
    ]

  -- `CRONO_KERNEL_DMAContigBufLock`: the code, `*ppBuf` and `*ppDma`.
  unfoldable pub dma_contig_buf_lock :
      Ptr → Option Ptr → ℕ → ℕ → Option Ptr → M W (ℕ × Option Ptr × Option Ptr)
  dma_contig_buf_lock h_dev pp_buf options size none = pure (minus einval, pp_buf, none)
  dma_contig_buf_lock h_dev pp_buf options size (some dma) =
      if not (dma == 0)
      then pure (success, pp_buf, some dma)
      else init_hdev h_dev (λ code. (code, pp_buf, some dma))
          λ d. elim pp_buf [
            | none ↦ pure (minus einval, none, some dma)
            | some buf ↦
                if size == 0
                then pure (minus einval, some buf, some dma)
                else if d.miscdev_fd == 0
                then pure (minus enoent, some buf, some dma)
                else do
                  reply ← call (os.lock_contig d.miscdev_fd (contig_info size))
                  elim reply [
                    | fail _ ↦ pure (minus_one, some buf, some dma)
                    | done l ↦
                        if not (l.ret == success) then pure (l.ret, some buf, some dma) else do
                          p ← malloc os raw
                          if p == 0
                              then pure (minus enomem, some buf, some dma)
                              else map_contig d.miscdev_fd size buf l p
                  ]
          ]

  -- `CRONO_KERNEL_DMAContigBufUnlock`: a failure of `munmap` is only printed.
  unfoldable pub dma_contig_buf_unlock : Ptr → Ptr → M W ℕ
  dma_contig_buf_unlock h_dev p_dma =
      init_hdev h_dev (λ code. code)
        λ d.
          if p_dma == 0
          then pure (minus einval)
          else if d.miscdev_fd == 0
          then pure (minus enoent)
          else do
            dma ← read_contig p_dma
            reply ← call (os.unlock_contig d.miscdev_fd dma.id)
            if not (ioctl_code reply == success)
                then pure (ioctl_code reply)
                else do munmap os dma.user_addr dma.bytes; free p_dma; pure success

  -- `CRONO_KERNEL_CardCleanupSetup`: `cmd` is the array that `Cmd` points to.
  unfoldable pub card_cleanup_setup : Ptr → List Cmd → ℕ → M W ℕ
  card_cleanup_setup h_dev cmd count =
      init_hdev h_dev (λ code. code)
        λ d. if d.miscdev_fd == 0 then pure (minus enoent) else do
          p ← malloc os (cmds (zero_cmds count))
          if count == 0
              then pure tt
              else (if ltb (length cmd) count then undefined else write p (cmds (take count cmd)))
          seen ← sent_cmds p count
          reply ← call (os.cleanup_setup d.miscdev_fd (cmds_info p count) seen)
          free p
          pure (ioctl_code reply)
