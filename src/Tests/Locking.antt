-- ===== src/Tests/Locking.antt =====
-- DMA buffers at concrete inputs.
use crono_pci_linux.Base.{
  ℕ, ◌+◌, ◌*◌, ◌≤◌, ◌<◌, ◌≡◌, ◌≢◌, ◌⊎◌, refl, none, some, ◌∷◌, [], List, arith,
}
use crono_pci_linux.Types.{Ptr, dma_contig, dma_sg, dma_pages, DmaPage, raw, success, minus, enomem}
use crono_pci_linux.Os.{Os, fail, update}
use crono_pci_linux.Machine.{Process, malloc}
use crono_pci_linux.Machine.Heap.{Fresh}
use crono_pci_linux.Machine.Returns.{Returns}
use crono_pci_linux.Dma.{
  ioctl_code, sg_pages, dma_sg_buf_lock, dma_sg_buf_unlock, dma_contig_buf_lock,
  dma_contig_buf_unlock,
}
use crono_pci_linux.Dma.Blocks.{LockedSg}
use crono_pci_linux.Dma.Lock.{SgPost, dma_sg_buf_lock-Returns}
use crono_pci_linux.Dma.Unlock.{dma_sg_buf_unlock-LockedSg}
use crono_pci_linux.Dma.Release.{Unmapped, dma_contig_buf_unlock-LockedContig}
use crono_pci_linux.Dma.Contig.{
  ContigPost, LockedContig, dma_contig_buf_lock-Returns, dma_contig_buf_lock-dangling,
}
use crono_pci_linux.Tests.Sim.{sim, handle, open_card, with_card}
use crono_pci_linux.Tests.Accessing.{with_card-IsHandle}

dma_sg_buf_lock-Returns_example :
    Returns
      (SgPost sim 0x4000 5000 0 with_card)
      (dma_sg_buf_lock sim handle 0x4000 0 5000 (some 0) with_card)
    × (5000 ≤ sg_pages sim 5000 * 4096)
    × (sg_pages sim 5000 * 4096 < 5000 + 4096)
dma_sg_buf_lock-Returns_example =
    dma_sg_buf_lock-Returns sim with_card-IsHandle 0x4000 0 5000 0 (omega arith) (omega arith)
      (omega arith) (omega arith) (omega arith)

abbrev pages : List DmaPage
pages = record { physical_addr = 0x5000; bytes = 4096 } ∷ []

abbrev locked : Process ℕ
locked = record with_card {
  cells =
      update
        (update with_card.cells 2000
          (some (dma_sg (record { user_addr = 0x4000; page_count = 1; pages = 3000; id = 7 }))))
        3000 (some (dma_pages pages));
}

locked_sg : LockedSg 0x4000 1 2000 with_card locked
locked_sg = record {
  page = 3000;
  id = 7;
  filled = pages;
  p_new = refl;
  page_new = refl;
  p_set = refl;
  page_set = refl;
  apart = refl;
  object = refl;
  all_pages = refl;
  pages_there = refl;
  others = λ q a o. rw (o, a);
}

dma_sg_buf_unlock-LockedSg_example :
    Returns
      (λ ret u.
        (ret ≡ ioctl_code (sim.unlock_buffer 5 7 locked.world).0)
        × (u.world ≡ (sim.unlock_buffer 5 7 locked.world).1)
        × (((ret ≡ success) × ((q : Ptr) → u.cells q ≡ with_card.cells q))
            ⊎ ((ret ≢ success) × ((q : Ptr) → u.cells q ≡ locked.cells q))))
      (dma_sg_buf_unlock sim handle 2000 locked)
dma_sg_buf_unlock-LockedSg_example =
    dma_sg_buf_unlock-LockedSg locked_sg sim with_card-IsHandle (omega arith)

dma_contig_buf_lock-Returns_example :
    Returns
      (ContigPost 8192 0 with_card)
      (dma_contig_buf_lock sim handle (some 0) 0 8192 (some 0) with_card)
dma_contig_buf_lock-Returns_example =
    dma_contig_buf_lock-Returns sim with_card-IsHandle 0 0 8192 (omega arith) (omega arith)

-- The system without room for mappings.
abbrev full_sim : Os ℕ
full_sim = record sim { mmap = λ n fd offset w. (fail 12, w + 1) }

abbrev asked : Process ℕ
asked = record with_card { world = 1 }

new_contig : Fresh raw asked (malloc full_sim raw asked)
unfolding malloc
new_contig = record { at = 1001; world = 2; ne_null = omega arith; unused = refl; run = refl }

dma_contig_buf_lock-dangling_example :
    Returns
      (λ (ret, pp_buf, pp_dma) u.
        (ret ≡ minus enomem)
        × (pp_buf ≡ some 0)
        × (pp_dma ≡ some 1001)
        × (new_contig.at ≢ 0)
        × (u.cells 1001 ≡ none)
        × ((q : Ptr) → u.cells q ≡ with_card.cells q)
        × (dma_contig_buf_lock full_sim handle pp_buf 0 8192 pp_dma u
            ≡ some ((success, pp_buf, pp_dma), u)))
      (dma_contig_buf_lock full_sim handle (some 0) 0 8192 (some 0) with_card)
unfolding new_contig
dma_contig_buf_lock-dangling_example =
    dma_contig_buf_lock-dangling full_sim with_card-IsHandle 0 0 8192 12
      (record { ret = 0; dma_handle = 0x7000; id = 9 }) (omega arith) (omega arith) refl refl
      new_contig refl

abbrev contig_locked : Process ℕ
contig_locked = record with_card {
  maps = (0x90000, 8192) ∷ with_card.maps;
  cells = update with_card.cells 2000 (
      some (
        dma_contig (record {
          h_dma = 0;
          user_addr = 0x90000;
          bytes = 8192;
          physical_addr = 0x7000;
          id = 9;
        })));
}

abbrev locked_contig : LockedContig 8192 with_card success (some 0x90000) (some 2000) contig_locked
locked_contig = record {
  p = 2000;
  user_addr = 0x90000;
  physical_addr = 0x7000;
  id = 9;
  code = refl;
  buffer = refl;
  handle = refl;
  ne_null = omega arith;
  p_new = refl;
  object = refl;
  others = λ q apart. rw apart;
  mapped = refl;
}

dma_contig_buf_unlock-LockedContig_example :
    Returns
      (λ code u.
        (code ≡ ioctl_code (sim.unlock_contig 5 9 contig_locked.world).0)
        × (((code ≡ success)
              × ((q : Ptr) → u.cells q ≡ with_card.cells q)
              × Unmapped locked_contig sim open_card u)
            ⊎ ((code ≢ success)
                × ((q : Ptr) → u.cells q ≡ contig_locked.cells q)
                × (u.maps ≡ contig_locked.maps)
                × (u.world ≡ (sim.unlock_contig 5 9 contig_locked.world).1))))
      (dma_contig_buf_unlock sim handle 2000 contig_locked)
dma_contig_buf_unlock-LockedContig_example =
    dma_contig_buf_unlock-LockedContig locked_contig sim with_card-IsHandle (omega arith)
