-- ===== src/Dma/Files.antt =====
-- The functions on DMA buffers and the cleanup commands open and close nothing.
use crono_pci_linux.Base.{
  ℕ, ◌*◌, ◌%◌, ◌^◌, not, Option, none, some, List, map, ltb, ◌==◌, is_null, length, take,
}
use crono_pci_linux.Types.{
  Ptr, Obj, raw, device, DmaSg, dma_sg, DmaContig, dma_contig, dma_pages, addresses, Cmd, cmds,
  zero_cmds, success, minus, enomem,
}
use crono_pci_linux.Os.{Os, ContigLocked}
use crono_pci_linux.Machine.{M, pure, undefined}
use crono_pci_linux.Machine.Files.{
  Files, Stays, Moves-bind, Moves-if, Stays-reply, Moves-option, Moves-undefined, Stays-pure,
}
use crono_pci_linux.Machine.Files.Calls.{
  Stays-call, Stays-read, Stays-write, Stays-free, Stays-malloc, Stays-mmap, Stays-munmap,
}
use crono_pci_linux.Device.Files.{init_hdev-Stays}
use crono_pci_linux.Dma.{
  sign_extend, read_cmds, sent_cmds, sg_info, contig_info, cmds_info, written, dma_page, sg_pages,
  read_sg, read_contig, ioctl_code, minus_one, alloc_err, lock_sg, lock_addresses, lock_pages,
  dma_sg_buf_lock, dma_sg_buf_unlock, map_contig, dma_contig_buf_lock, dma_contig_buf_unlock,
  card_cleanup_setup,
}

module _ {W : Type 0} {I : Files} where
  read_sg-Stays : (p : Ptr) → Stays I (read_sg {W = W} p)
  unfolding read_sg
  read_sg-Stays p = Moves-bind (Stays-read p) go
    where
      go : (o : Obj) → Stays I (elim o as (λ _. M W DmaSg) [ dma_sg d ↦ pure d | _ ↦ undefined ])
      go (dma_sg d) = Stays-pure d
      go raw = Moves-undefined
      go (device d) = Moves-undefined
      go (dma_contig d) = Moves-undefined
      go (dma_pages ps) = Moves-undefined
      go (addresses xs) = Moves-undefined
      go (cmds cs) = Moves-undefined

  read_contig-Stays : (p : Ptr) → Stays I (read_contig {W = W} p)
  unfolding read_contig
  read_contig-Stays p = Moves-bind (Stays-read p) go
    where
      go :
          (o : Obj)
          → Stays I (elim o as (λ _. M W DmaContig) [ dma_contig d ↦ pure d | _ ↦ undefined ])
      go (dma_contig d) = Stays-pure d
      go raw = Moves-undefined
      go (device d) = Moves-undefined
      go (dma_sg d) = Moves-undefined
      go (dma_pages ps) = Moves-undefined
      go (addresses xs) = Moves-undefined
      go (cmds cs) = Moves-undefined

  read_cmds-Stays : (p : Ptr) → Stays I (read_cmds {W = W} p)
  unfolding read_cmds
  read_cmds-Stays p = Moves-bind (Stays-read p) go
    where
      go :
          (o : Obj)
          → Stays I (elim o as (λ _. M W (List Cmd)) [ cmds cs ↦ pure cs | _ ↦ undefined ])
      go (cmds cs) = Stays-pure cs
      go raw = Moves-undefined
      go (device d) = Moves-undefined
      go (dma_sg d) = Moves-undefined
      go (dma_contig d) = Moves-undefined
      go (dma_pages ps) = Moves-undefined
      go (addresses xs) = Moves-undefined

  sent_cmds-Stays : (p : Ptr) (count : ℕ) → Stays I (sent_cmds {W = W} p count)
  unfolding sent_cmds
  sent_cmds-Stays p count =
      Moves-if (count == 0) (Stays-pure _)
        (Moves-bind (read_cmds-Stays p) λ cs. Stays-pure (take count cs))

module _ {W : Type 0} (os : Os W) {I : Files} where
  alloc_err-Stays :
      (p page pages : Ptr) (ret : ℕ) (handle : Ptr) → Stays I (alloc_err os p page pages ret handle)
  unfolding alloc_err
  alloc_err-Stays p page pages ret handle = Moves-bind (Stays-free page) λ _.
      Moves-bind (Stays-free p)
        λ _. Moves-bind (Stays-free pages) λ _. Stays-pure (ret, some handle)

  lock_sg-Stays :
      (fd : ℕ) (buf : Ptr) (size : ℕ) (p page pages : Ptr) (n : ℕ)
      → Stays I (lock_sg os fd buf size p page pages n)
  unfolding lock_sg
  lock_sg-Stays fd buf size p page pages n =
      Moves-bind (Stays-call (os.lock_buffer fd (sg_info buf size pages n))) λ reply.
        Stays-reply reply
          (λ l. Moves-if (not (l.ret == success)) (alloc_err-Stays p page pages l.ret p) (
            let filled = written n os.garbage l.pages in
            Moves-bind (Stays-write pages (addresses filled)) λ _. Moves-bind (read_sg-Stays p) λ d.
              Moves-bind (Stays-write p (dma_sg (record d { id = l.id }))) λ _.
                Moves-bind (Stays-write page (dma_pages (map dma_page filled)))
                  λ _. Moves-bind (Stays-free pages) λ _. Stays-pure (l.ret, some p)))
          λ _. alloc_err-Stays p page pages minus_one p

  lock_pages-Stays :
      (fd : ℕ) (buf : Ptr) (size : ℕ) (pp_dma : Option Ptr) (p : Ptr)
      → Stays I (lock_pages os fd buf size pp_dma p)
  unfolding lock_pages lock_addresses
  lock_pages-Stays fd buf size pp_dma p = Moves-bind (Stays-malloc os raw) λ page.
      Moves-if (page == 0) (Moves-bind (Stays-free p) λ _. Stays-pure _) (
        Moves-bind (Stays-write p _) λ _. Moves-bind (Stays-malloc os raw) λ pages.
          Moves-if (pages == 0)
            (Moves-bind (Stays-free page) λ _. Moves-bind (Stays-free p) λ _. Stays-pure _)
            (lock_sg-Stays fd buf size p page pages (sg_pages os size)))

  pub dma_sg_buf_lock-Stays :
      (h buf : Ptr) (options size : ℕ) (pp_dma : Option Ptr)
      → Stays I (dma_sg_buf_lock os h buf options size pp_dma)
  unfolding dma_sg_buf_lock
  dma_sg_buf_lock-Stays h buf options size pp_dma = init_hdev-Stays h _ _ λ d.
      Moves-if (buf == 0) (Stays-pure _) (
        Moves-if (is_null pp_dma) (Stays-pure _) (
          Moves-if (size == 0) (Stays-pure _) (
            Moves-if (d.miscdev_fd == 0) (Stays-pure _) (
              Moves-bind (Stays-malloc os raw) λ p.
                Moves-if (p == 0) (Stays-pure _)
                  (lock_pages-Stays d.miscdev_fd buf size pp_dma p)))))

  pub dma_sg_buf_unlock-Stays : (h p : Ptr) → Stays I (dma_sg_buf_unlock os h p)
  unfolding dma_sg_buf_unlock
  dma_sg_buf_unlock-Stays h p = init_hdev-Stays h _ _ λ d. Moves-if (p == 0) (Stays-pure _) (
      Moves-if (d.miscdev_fd == 0) (Stays-pure _) (
        Moves-bind (read_sg-Stays p) λ dma.
          Moves-bind (Stays-call (os.unlock_buffer d.miscdev_fd dma.id)) λ reply.
            Moves-if (not (ioctl_code reply == success)) (Stays-pure (ioctl_code reply)) (
              Moves-bind (Stays-free dma.pages) λ _.
                Moves-bind (Stays-write p (dma_sg (record dma { pages = 0 })))
                  λ _. Moves-bind (Stays-free p) λ _. Stays-pure (ioctl_code reply))))

  map_contig-Stays :
      (fd size buf : ℕ) (l : ContigLocked) (p : Ptr) → Stays I (map_contig os fd size buf l p)
  unfolding map_contig
  map_contig-Stays fd size buf l p = Moves-bind (Stays-write p _) λ _.
      Moves-bind (Stays-mmap os size fd (sign_extend l.id * os.page_size % 2 ^ 64)) λ mapped.
        Stays-reply mapped (λ _. Moves-bind (Stays-write p _) λ _. Stays-pure _)
          λ _. Moves-bind (Stays-free p) λ _. Stays-pure _

  pub dma_contig_buf_lock-Stays :
      (h : Ptr) (pp_buf : Option Ptr) (options size : ℕ) (pp_dma : Option Ptr)
      → Stays I (dma_contig_buf_lock os h pp_buf options size pp_dma)
  unfolding dma_contig_buf_lock
  dma_contig_buf_lock-Stays h pp_buf options size none = Stays-pure _
  dma_contig_buf_lock-Stays h pp_buf options size (some dma) =
      Moves-if (not (dma == 0)) (Stays-pure _) (
        init_hdev-Stays h _ _ λ d. Moves-option pp_buf (Stays-pure _) λ buf.
          Moves-if (size == 0) (Stays-pure _) (
            Moves-if (d.miscdev_fd == 0) (Stays-pure _) (
              Moves-bind (Stays-call (os.lock_contig d.miscdev_fd (contig_info size))) λ reply.
                Stays-reply reply
                  (λ l. Moves-if (not (l.ret == success)) (Stays-pure (l.ret, some buf, some dma)) (
                    Moves-bind (Stays-malloc os raw) λ p.
                      Moves-if (p == 0) (Stays-pure (minus enomem, some buf, some dma))
                        (map_contig-Stays d.miscdev_fd size buf l p)))
                  λ _. Stays-pure (minus_one, some buf, some dma))))

  pub dma_contig_buf_unlock-Stays : (h p : Ptr) → Stays I (dma_contig_buf_unlock os h p)
  unfolding dma_contig_buf_unlock
  dma_contig_buf_unlock-Stays h p = init_hdev-Stays h _ _ λ d. Moves-if (p == 0) (Stays-pure _) (
      Moves-if (d.miscdev_fd == 0) (Stays-pure _) (
        Moves-bind (read_contig-Stays p) λ dma.
          Moves-bind (Stays-call (os.unlock_contig d.miscdev_fd dma.id)) λ reply.
            Moves-if (not (ioctl_code reply == success)) (Stays-pure (ioctl_code reply)) (
              Moves-bind (Stays-munmap os dma.user_addr dma.bytes)
                λ _. Moves-bind (Stays-free p) λ _. Stays-pure success)))

  pub card_cleanup_setup-Stays :
      (h : Ptr) (cmd : List Cmd) (count : ℕ) → Stays I (card_cleanup_setup os h cmd count)
  unfolding card_cleanup_setup
  card_cleanup_setup-Stays h cmd count = init_hdev-Stays h _ _ λ d.
      Moves-if (d.miscdev_fd == 0) (Stays-pure _) (
        Moves-bind (Stays-malloc os (cmds (zero_cmds count))) λ p.
          Moves-bind
            (Moves-if (count == 0) (Stays-pure tt) (
              Moves-if (ltb (length cmd) count) Moves-undefined
                (Stays-write p (cmds (take count cmd)))))
            λ _. Moves-bind (sent_cmds-Stays p count) λ seen.
              Moves-bind (Stays-call (os.cleanup_setup d.miscdev_fd (cmds_info p count) seen))
                λ reply. Moves-bind (Stays-free p) λ _. Stays-pure (ioctl_code reply))
