-- ===== src/Dma/Dropped.antt =====
-- Unlocking a scatter/gather buffer keeps the heap and the table well-formed.
use crono_pci_linux.Base.{
  ◌≡◌, ◌≢◌, refl, inl, inr, not, false, Option, none, some, ◌==◌, ==-eq, ==-ne, ==-refl, Bool-cases,
}
use crono_pci_linux.Types.{
  Ptr, Obj, raw, device, DmaSg, dma_sg, dma_contig, dma_pages, addresses, cmds, success,
}
use crono_pci_linux.Os.{Os, is_live}
use crono_pci_linux.Machine.{Process, M, write, free, read, pure, undefined}
use crono_pci_linux.Machine.Keeps.{
  Leads, Keeps, Predicate, At, Ends, stuck, ends, Ends-bind, Ends-if, Leads-bind, Leads-pure,
  Keeps-pure, Leads-if, Keeps-call,
}
use crono_pci_linux.Machine.Heap.{ne_false}
use crono_pci_linux.Device.Keeps.{With, read-Ends, init_hdev-Keeps}
use crono_pci_linux.Valid.{WellFormed}
use crono_pci_linux.Valid.Buffers.{unlock-WellFormed}
use crono_pci_linux.Dma.{read_sg, ioctl_code, dma_sg_buf_unlock}

-- The pages of the object `d` at `p` are freed, in a heap that was well-formed with them; the block
-- at `p` may have changed.
abbrev Half : Ptr → DmaSg → Predicate
Half p d g ds n =
    (f : Ptr → Option Obj) × WellFormed f ds n
    × (f p ≡ some (dma_sg d))
    × (d.pages ≢ 0 → (p == d.pages) ≡ false → g d.pages ≡ none)
    × ((q : Ptr) → (p == q) ≡ false → (d.pages ≢ 0 → (d.pages == q) ≡ false) → g q ≡ f q)

abbrev HalfSet : Ptr → DmaSg → Predicate
HalfSet p d g ds n = Half p d g ds n × (p ≢ 0)

module _ {W : Type 0} where
  read_sg-Ends :
      (p : Ptr) (s : Process W)
      → At WellFormed s
      → Ends (λ d t. At (With WellFormed p (dma_sg d)) t) (read_sg p s)
  unfolding read_sg
  read_sg-Ends p s h = Ends-bind (read p) _ s (read-Ends WellFormed p s h) λ o t c. go o t c
    where
      go :
          (o : Obj) (t : Process W)
          → At (With WellFormed p o) t
          → Ends
              (λ d u. At (With WellFormed p (dma_sg d)) u)
              ((elim o as (λ _. M W DmaSg) [ dma_sg d ↦ pure d | _ ↦ undefined ]) t)
      go (dma_sg d) t c = ends c
      go raw t c = stuck
      go (device d) t c = stuck
      go (dma_contig d) t c = stuck
      go (dma_pages ps) t c = stuck
      go (addresses xs) t c = stuck
      go (cmds cs) t c = stuck

  free_pages-Leads :
      (p : Ptr) (d : DmaSg) → Leads {W = W} (With WellFormed p (dma_sg d)) (Half p d) (free d.pages)
  unfolding free
  free_pages-Leads p d = record {
    run = λ s (h, at_p). elim (Bool-cases (d.pages == 0)) [
      | inl null ↦
          rw null
            (ends (s.cells, h, at_p, λ set_. absurd (set_ (==-eq d.pages 0 null)), λ q _ _. refl))
      | inr set_ ↦ rw set_ (
          Ends-if (is_live (s.cells d.pages))
            (ends
              (s.cells, h, at_p, λ _ _. rw ==-refl, λ q _ ne. rw (ne (==-ne d.pages 0 set_)) refl))
            stuck)
    ];
  }

  write_object-Leads :
      (p : Ptr) (d : DmaSg) (o : Obj) → Leads {W = W} (Half p d) (HalfSet p d) (write p o)
  unfolding write
  write_object-Leads p d o = record {
    run = λ s (f, h, at_p, gone, others). elim (Bool-cases (p == 0)) [
      | inl null ↦ rw null stuck
      | inr set_ ↦ rw set_ (
          Ends-if (is_live (s.cells p))
            (ends (
              (f, h, at_p, λ used ne. rw ne (gone used ne), λ q ne. rw ne (others q ne)),
              ==-ne p 0 set_,
            ))
            stuck)
    ];
  }

  free_object-Leads : (p : Ptr) (d : DmaSg) → Leads {W = W} (HalfSet p d) WellFormed (free p)
  unfolding free
  free_object-Leads p d = record {
    run = λ s ((f, h, at_p, gone, others), set_). rw (ne_false p 0 set_) (
        Ends-if (is_live (s.cells p))
          (ends (
            unlock-WellFormed h p d at_p (rw ==-refl)
              (λ used. elim (Bool-cases (p == d.pages)) [
                | inl e ↦ rw e
                | inr ne ↦ rw ne (gone used ne)
              ])
              λ q ne. rw ne (others q ne)))
          stuck);
  }

module _ {W : Type 0} (os : Os W) where
  pub dma_sg_buf_unlock-Keeps : (h p : Ptr) → Keeps WellFormed (dma_sg_buf_unlock os h p)
  unfolding dma_sg_buf_unlock
  dma_sg_buf_unlock-Keeps h p = init_hdev-Keeps WellFormed h _ _ λ d.
      Leads-if (p == 0) (Keeps-pure _) (
        Leads-if (d.miscdev_fd == 0) (Keeps-pure _) (record {
          run = λ s i. Ends-bind (read_sg p) _ s (read_sg-Ends p s i) λ dma t c.
              (Leads-bind (Keeps-call (os.unlock_buffer d.miscdev_fd dma.id)) λ reply.
                  Leads-if (not (ioctl_code reply == success))
                    (Leads-pure (ioctl_code reply) (λ f ds n c. c.0))
                    (Leads-bind (free_pages-Leads p dma) λ _.
                      Leads-bind (write_object-Leads p dma (dma_sg (record dma { pages = 0 }))) λ _.
                        Leads-bind (free_object-Leads p dma)
                          λ _. Keeps-pure (ioctl_code reply))).run
                t c;
        }))
