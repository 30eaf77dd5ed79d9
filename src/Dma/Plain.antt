-- ===== src/Dma/Plain.antt =====
-- Blocks that are neither devices nor pages: contiguous buffers and arrays of commands keep the
-- heap and the table well-formed.
use crono_pci_linux.Base.{
  ℕ, ◌*◌, ◌%◌, ◌^◌, ◌≡◌, ◌≢◌, refl, sym, ◌∙◌, inl, inr, not, true, false, Option, none, some, List,
  ◌==◌, ltb, ==-ne, ==-refl, Bool-cases, length, take,
}
use crono_pci_linux.Types.{
  Ptr, Obj, raw, device, dma_sg, DmaContig, dma_contig, dma_pages, addresses, Cmd, cmds, zero_cmds,
  success, minus, enomem,
}
use crono_pci_linux.Os.{Os, ContigLocked, update, is_live}
use crono_pci_linux.Machine.{Process, M, malloc, write, free, read, pure, undefined}
use crono_pci_linux.Machine.Keeps.{
  Leads, Keeps, Predicate, At, Ends, stuck, ends, Ends-bind, Ends-if, Leads-bind, Leads-pure,
  Keeps-pure, Leads-if, Leads-reply, Leads-option, Leads-undefined, Keeps-call, Keeps-mmap,
  Keeps-munmap,
}
use crono_pci_linux.Machine.Heap.{malloc-cases}
use crono_pci_linux.Device.Keeps.{With, Entails, read-Ends, init_hdev-Keeps}
use crono_pci_linux.Valid.{
  WellFormed, Change-WellFormed, update-Change, is_device, is_pages, pages_of, bars_fit, found_some,
  true-false,
}
use crono_pci_linux.Dma.{
  sign_extend, read_cmds, sent_cmds, contig_info, cmds_info, read_contig, ioctl_code, minus_one,
  map_contig, dma_contig_buf_lock, dma_contig_buf_unlock, card_cleanup_setup,
}

-- The block at `p`, if that is not NULL, is neither a device nor an array of pages.
abbrev pub Plain : Ptr → Predicate
Plain p f ds n = WellFormed f ds n × (p ≢ 0 → (is_device (f p) ≡ false) × (is_pages (f p) ≡ false))

plain-WellFormed :
    (p : Ptr) (o : Option Obj) (f : Ptr → Option Obj) (ds : List Ptr) (n : ℕ)
    → (p == 0) ≡ false
    → pages_of o ≡ 0
    → bars_fit o ≡ true
    → Plain p f ds n
    → WellFormed (update f p o) ds n
plain-WellFormed p o f ds n set_ bare fit (h, plain) =
    let (no_device, no_pages) = plain (==-ne p 0 set_) in
    Change-WellFormed
      (update-Change f p o (λ live. absurd (true-false (sym live ∙ no_device)))
        (λ there. absurd (true-false (sym there ∙ no_pages))) bare fit)
      h

Plain-WellFormed : (p : Ptr) → Entails (Plain p) WellFormed
Plain-WellFormed p f ds n c = c.0

pub malloc-Plain :
    {W : Type 0} (os : Os W) (o : Obj) (s : Process W)
    → is_device (some o) ≡ false
    → is_pages (some o) ≡ false
    → pages_of (some o) ≡ 0
    → bars_fit (some o) ≡ true
    → At WellFormed s
    → Ends (λ p t. At (Plain p) t) (malloc os o s)
malloc-Plain os o s no_device no_pages bare fit h = elim (malloc-cases os o s) [
  | inr no_block ↦ rw no_block (ends (h, λ ne. absurd (ne refl)))
  | inl m ↦ rw m.run (
      ends (
        Change-WellFormed
            (update-Change s.cells m.at (some o)
              (λ live. absurd (found_some is_device _ refl m.unused live))
              (λ there. absurd (found_some is_pages _ refl m.unused there)) bare fit)
            h,
        λ _. (rw ==-refl no_device, rw ==-refl no_pages),
      ))
]

module _ {W : Type 0} where
  write-Plain :
      (p : Ptr) (o : Obj)
      → is_device (some o) ≡ false
      → is_pages (some o) ≡ false
      → pages_of (some o) ≡ 0
      → bars_fit (some o) ≡ true
      → Keeps {W = W} (Plain p) (write p o)
  unfolding write
  write-Plain p o no_device no_pages bare fit = record {
    run = λ s c. elim (Bool-cases (p == 0)) [
      | inl null ↦ rw null stuck
      | inr set_ ↦ rw set_ (
          Ends-if (is_live (s.cells p))
            (ends (
              plain-WellFormed p (some o) _ _ _ set_ bare fit c,
              λ _. rw ==-refl (no_device, no_pages),
            ))
            stuck)
    ];
  }

  free-Plain : (p : Ptr) → Leads {W = W} (Plain p) WellFormed (free p)
  unfolding free
  free-Plain p = record {
    run = λ s c. elim (Bool-cases (p == 0)) [
      | inl null ↦ rw null (ends c.0)
      | inr set_ ↦ rw set_ (
          Ends-if (is_live (s.cells p)) (ends (plain-WellFormed p none _ _ _ set_ refl refl c))
            stuck)
    ];
  }

  read_contig-Plain :
      (p : Ptr) (s : Process W) → At WellFormed s → Ends (λ _ t. At (Plain p) t) (read_contig p s)
  unfolding read_contig
  read_contig-Plain p s h = Ends-bind (read p) _ s (read-Ends WellFormed p s h) λ o t c. go o t c
    where
      go :
          (o : Obj) (t : Process W)
          → At (With WellFormed p o) t
          → Ends
              (λ _ u. At (Plain p) u)
              ((elim o as (λ _. M W DmaContig) [ dma_contig d ↦ pure d | _ ↦ undefined ]) t)
      go (dma_contig d) t (i, at_p) = ends (i, λ _. (rw at_p refl, rw at_p refl))
      go raw t c = stuck
      go (device d) t c = stuck
      go (dma_sg d) t c = stuck
      go (dma_pages ps) t c = stuck
      go (addresses xs) t c = stuck
      go (cmds cs) t c = stuck

  read_cmds-Keeps : (I : Predicate) (p : Ptr) → Keeps {W = W} I (read_cmds p)
  unfolding read_cmds
  read_cmds-Keeps I p = record { run = λ s i. Ends-bind (read p) _ s (read-Ends I p s i) go }
    where
      go :
          (o : Obj) (t : Process W)
          → At (With I p o) t
          → Ends
              (λ _ u. At I u)
              ((elim o as (λ _. M W (List Cmd)) [ cmds cs ↦ pure cs | _ ↦ undefined ]) t)
      go (cmds cs) t (i, at_p) = ends i
      go raw t c = stuck
      go (device d) t c = stuck
      go (dma_sg d) t c = stuck
      go (dma_contig d) t c = stuck
      go (dma_pages ps) t c = stuck
      go (addresses xs) t c = stuck

  sent_cmds-Keeps : (I : Predicate) (p : Ptr) (count : ℕ) → Keeps {W = W} I (sent_cmds p count)
  unfolding sent_cmds
  sent_cmds-Keeps I p count =
      Leads-if (count == 0) (Keeps-pure _)
        (Leads-bind (read_cmds-Keeps I p) λ cs. Keeps-pure (take count cs))

module _ {W : Type 0} (os : Os W) where
  map_contig-Leads :
      (fd size buf : ℕ) (l : ContigLocked) (p : Ptr)
      → Leads (Plain p) WellFormed (map_contig os fd size buf l p)
  unfolding map_contig
  map_contig-Leads fd size buf l p = Leads-bind (write-Plain p _ refl refl refl refl) λ _.
      Leads-bind (Keeps-mmap os size fd (sign_extend l.id * os.page_size % 2 ^ 64)) λ mapped.
        Leads-reply mapped
          (λ _.
            Leads-bind (write-Plain p _ refl refl refl refl) λ _. Leads-pure _ (Plain-WellFormed p))
          λ _. Leads-bind (free-Plain p) λ _. Keeps-pure _

  pub dma_contig_buf_lock-Keeps :
      (h : Ptr) (pp_buf : Option Ptr) (options size : ℕ) (pp_dma : Option Ptr)
      → Keeps WellFormed (dma_contig_buf_lock os h pp_buf options size pp_dma)
  unfolding dma_contig_buf_lock
  dma_contig_buf_lock-Keeps h pp_buf options size none = Keeps-pure _
  dma_contig_buf_lock-Keeps h pp_buf options size (some dma) =
      Leads-if (not (dma == 0)) (Keeps-pure _) (
        init_hdev-Keeps WellFormed h _ _ λ d. Leads-option pp_buf (Keeps-pure _) λ buf.
          Leads-if (size == 0) (Keeps-pure _) (
            Leads-if (d.miscdev_fd == 0) (Keeps-pure _) (
              Leads-bind (Keeps-call (os.lock_contig d.miscdev_fd (contig_info size))) λ reply.
                Leads-reply reply
                  (λ l.
                    Leads-if (not (l.ret == success)) (Keeps-pure (l.ret, some buf, some dma))
                      (record {
                        run = λ s i.
                            Ends-bind (malloc os raw) _ s
                              (malloc-Plain os raw s refl refl refl refl i)
                              λ p t c.
                                (Leads-if (p == 0)
                                    (Leads-pure (minus enomem, some buf, some dma)
                                      (Plain-WellFormed p))
                                    (map_contig-Leads d.miscdev_fd size buf l p)).run
                                  t c;
                      }))
                  λ _. Keeps-pure (minus_one, some buf, some dma))))

  pub dma_contig_buf_unlock-Keeps : (h p : Ptr) → Keeps WellFormed (dma_contig_buf_unlock os h p)
  unfolding dma_contig_buf_unlock
  dma_contig_buf_unlock-Keeps h p = init_hdev-Keeps WellFormed h _ _ λ d.
      Leads-if (p == 0) (Keeps-pure _) (
        Leads-if (d.miscdev_fd == 0) (Keeps-pure _) (record {
          run = λ s i. Ends-bind (read_contig p) _ s (read_contig-Plain p s i) λ dma t c.
              (Leads-bind (Keeps-call (os.unlock_contig d.miscdev_fd dma.id)) λ reply.
                  Leads-if (not (ioctl_code reply == success))
                    (Leads-pure (ioctl_code reply) (Plain-WellFormed p))
                    (Leads-bind (Keeps-munmap os dma.user_addr dma.bytes)
                      λ _. Leads-bind (free-Plain p) λ _. Keeps-pure success)).run
                t c;
        }))

  pub card_cleanup_setup-Keeps :
      (h : Ptr) (cmd : List Cmd) (count : ℕ) → Keeps WellFormed (card_cleanup_setup os h cmd count)
  unfolding card_cleanup_setup
  card_cleanup_setup-Keeps h cmd count = init_hdev-Keeps WellFormed h _ _ λ d.
      Leads-if (d.miscdev_fd == 0) (Keeps-pure _) (record {
        run = λ s i.
            Ends-bind (malloc os (cmds (zero_cmds count))) _ s
              (malloc-Plain os _ s refl refl refl refl i)
              λ p t c.
                (Leads-bind
                    (Leads-if (count == 0) (Keeps-pure tt) (
                      Leads-if (ltb (length cmd) count) Leads-undefined
                        (write-Plain p (cmds (take count cmd)) refl refl refl refl)))
                    λ _. Leads-bind (sent_cmds-Keeps (Plain p) p count) λ seen.
                      Leads-bind
                        (Keeps-call (os.cleanup_setup d.miscdev_fd (cmds_info p count) seen))
                        λ reply. Leads-bind (free-Plain p) λ _. Keeps-pure (ioctl_code reply)).run
                  t c;
      })
