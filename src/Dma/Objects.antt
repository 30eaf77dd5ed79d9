-- ===== src/Dma/Objects.antt =====
-- Locking a scatter/gather buffer keeps the heap and the table well-formed.
use crono_pci_linux.Base.{
  ℕ, ◌≡◌, refl, inl, inr, not, Option, none, some, List, map, ◌==◌, ==-refl, if◌then◌else◌,
}
use crono_pci_linux.Types.{
  Ptr, Obj, raw, device, DmaSg, dma_sg, dma_contig, dma_pages, addresses, cmds, success, minus,
  enomem,
}
use crono_pci_linux.Os.{Os, is_live}
use crono_pci_linux.Machine.{Process, M, malloc, write, free, put, pure, undefined, ◌>>=◌}
use crono_pci_linux.Machine.Keeps.{
  Keeps, Predicate, At, stuck, ends, Ends-mono, Ends-if, both, Leads-bind, Keeps-pure, Leads-if,
  Leads-reply, Leads-undefined, Keeps-call, Keeps-read,
}
use crono_pci_linux.Machine.Heap.{malloc-cases, ne_false}
use crono_pci_linux.Device.Keeps.{init_hdev-Keeps}
use crono_pci_linux.Valid.{WellFormed, Change-WellFormed}
use crono_pci_linux.Valid.Buffers.{lock-WellFormed}
use crono_pci_linux.Dma.{
  sg_info, written, dma_page, sg_pages, read_sg, minus_one, alloc_err, lock_sg, lock_addresses,
  lock_pages, dma_sg_buf_lock,
}
use crono_pci_linux.Dma.Lock.{SgPost, lock_pages-Returns}

-- The table and its count are these.
abbrev Table : List Ptr → ℕ → Predicate
Table devices count f ds n = (ds ≡ devices) × (n ≡ count)

module _ {W : Type 0} where
  read_sg-Keeps : {I : Predicate} (p : Ptr) → Keeps {W = W} I (read_sg p)
  unfolding read_sg
  read_sg-Keeps {I} p = Leads-bind (Keeps-read p) λ o. go o
    where
      go :
          (o : Obj)
          → Keeps {W = W} I (elim o as (λ _. M W DmaSg) [ dma_sg d ↦ pure d | _ ↦ undefined ])
      go (dma_sg d) = Keeps-pure d
      go raw = Leads-undefined
      go (device d) = Leads-undefined
      go (dma_contig d) = Leads-undefined
      go (dma_pages ps) = Leads-undefined
      go (addresses xs) = Leads-undefined
      go (cmds cs) = Leads-undefined

module _ {W : Type 0} {devices : List Ptr} {count : ℕ} where
  write-Table : (p : Ptr) (o : Obj) → Keeps {W = W} (Table devices count) (write p o)
  unfolding write
  write-Table p o = record {
    run = λ s c. Ends-if (p == 0) stuck (Ends-if (is_live (s.cells p)) (ends c) stuck);
  }

  free-Table : (p : Ptr) → Keeps {W = W} (Table devices count) (free p)
  unfolding free
  free-Table p = record {
    run = λ s c. Ends-if (p == 0) (ends c) (Ends-if (is_live (s.cells p)) (ends c) stuck);
  }

module _ {W : Type 0} (os : Os W) {devices : List Ptr} {count : ℕ} where
  malloc-Table : (o : Obj) → Keeps (Table devices count) (malloc os o)
  unfolding malloc
  malloc-Table o = record {
    run = λ s c.
        let p = (os.malloc s.world).0 in
        Ends-if (p == 0) (ends c) (Ends-if (is_live (s.cells p)) (ends c) (ends c));
  }

  alloc_err-Table :
      (p page pages : Ptr) (ret : ℕ) (handle : Ptr)
      → Keeps (Table devices count) (alloc_err os p page pages ret handle)
  unfolding alloc_err
  alloc_err-Table p page pages ret handle = Leads-bind (free-Table page) λ _.
      Leads-bind (free-Table p)
        λ _. Leads-bind (free-Table pages) λ _. Keeps-pure (ret, some handle)

  lock_sg-Table :
      (fd : ℕ) (buf : Ptr) (size : ℕ) (p page pages : Ptr) (n : ℕ)
      → Keeps (Table devices count) (lock_sg os fd buf size p page pages n)
  unfolding lock_sg
  lock_sg-Table fd buf size p page pages n =
      Leads-bind (Keeps-call (os.lock_buffer fd (sg_info buf size pages n))) λ reply.
        Leads-reply reply
          (λ l. Leads-if (not (l.ret == success)) (alloc_err-Table p page pages l.ret p) (
            let filled = written n os.garbage l.pages in
            Leads-bind (write-Table pages (addresses filled)) λ _. Leads-bind (read_sg-Keeps p) λ d.
              Leads-bind (write-Table p (dma_sg (record d { id = l.id }))) λ _.
                Leads-bind (write-Table page (dma_pages (map dma_page filled)))
                  λ _. Leads-bind (free-Table pages) λ _. Keeps-pure (l.ret, some p)))
          λ _. alloc_err-Table p page pages minus_one p

  lock_pages-Table :
      (fd : ℕ) (buf : Ptr) (size : ℕ) (pp_dma : Option Ptr) (p : Ptr)
      → Keeps (Table devices count) (lock_pages os fd buf size pp_dma p)
  unfolding lock_pages lock_addresses
  lock_pages-Table fd buf size pp_dma p = Leads-bind (malloc-Table raw) λ page.
      Leads-if (page == 0) (Leads-bind (free-Table p) λ _. Keeps-pure _) (
        Leads-bind (write-Table p _) λ _. Leads-bind (malloc-Table raw) λ pages.
          Leads-if (pages == 0)
            (Leads-bind (free-Table page) λ _. Leads-bind (free-Table p) λ _. Keeps-pure _)
            (lock_sg-Table fd buf size p page pages (sg_pages os size)))

module _ {W : Type 0} (os : Os W) where
  -- What a lock leaves is well-formed.
  SgPost-WellFormed :
      (buf : Ptr) (size : ℕ) (old : Ptr) (s : Process W)
      → At WellFormed s
      → (r : ℕ × Option Ptr) (u : Process W) → SgPost os buf size old s r u
      → At (Table s.devices s.i_new_dev) u
      → At WellFormed u
  SgPost-WellFormed buf size old s h r u post (same_devices, same_count) =
      rw (same_devices, same_count)
        (elim post [
          | inl (p, _, _, l) ↦
              lock-WellFormed h p l.page _ l.filled l.p_new l.page_new l.apart refl l.object
                l.pages_there l.others
          | inr (same, _) ↦
              Change-WellFormed
                (record {
                  keep_device = λ q live. rw (same q) live;
                  keep_pages = λ q there. rw (same q) there;
                  keep_fits = λ q fit. rw (same q) fit;
                  no_object = λ q. inr (rw (same q) refl);
                })
                h
        ])

  lock_buffer-Keeps :
      (fd : ℕ) (buf : Ptr) (size old : ℕ)
      → Keeps WellFormed (
          malloc os raw >>= λ p.
          if p == 0 then pure (minus enomem, some old) else lock_pages os fd buf size (some old) p)
  lock_buffer-Keeps fd buf size old = record {
    run = λ s h. elim (malloc-cases os raw s) [
      | inr no_block ↦ rw (no_block, ◌>>=◌) (ends h)
      | inl m ↦
          let p_set = ne_false m.at 0 m.ne_null in
          rw (m.run, ◌>>=◌, p_set)
            (Ends-mono
              (both
                (lock_pages-Returns os fd buf size old s m.at _ m.unused p_set (rw ==-refl)
                  λ q a. rw a)
                ((lock_pages-Table os fd buf size (some old) m.at).run
                  (put m.at (some raw) (record s { world = m.world })) (refl, refl)))
              λ r u (post, table). SgPost-WellFormed buf size old s h r u post table)
    ];
  }

  pub dma_sg_buf_lock-Keeps :
      (h buf : Ptr) (options size : ℕ) (pp_dma : Option Ptr)
      → Keeps WellFormed (dma_sg_buf_lock os h buf options size pp_dma)
  unfolding dma_sg_buf_lock
  dma_sg_buf_lock-Keeps h buf options size none =
      init_hdev-Keeps WellFormed h _ _ λ d. Leads-if (buf == 0) (Keeps-pure _) (Keeps-pure _)
  dma_sg_buf_lock-Keeps h buf options size (some old) = init_hdev-Keeps WellFormed h _ _ λ d.
      Leads-if (buf == 0) (Keeps-pure _) (
        Leads-if (size == 0) (Keeps-pure _) (
          Leads-if (d.miscdev_fd == 0) (Keeps-pure _)
            (lock_buffer-Keeps d.miscdev_fd buf size old)))
