-- ===== src/Dma/Release.antt =====
-- `CRONO_KERNEL_DMAContigBufUnlock` behind `CRONO_KERNEL_DMAContigBufLock`.
use crono_pci_linux.Base.{
  ℕ, ◌≡◌, ◌≢◌, refl, sym, ap, ◌∙◌, ◌⊎◌, inl, inr, none, ◌==◌, ==-eq, ==-ne, ==-refl, Bool-cases,
  Option,
}
use crono_pci_linux.Types.{Ptr, Device, device, DmaContig, dma_contig, success}
use crono_pci_linux.Os.{Os, done, fail, update, errno_after, drop_map}
use crono_pci_linux.Machine.{Process, ◌>>=◌, munmap}
use crono_pci_linux.Machine.Frame.{Reply-cases}
use crono_pci_linux.Machine.Heap.{==-sym_false, ne_false, free-run, read-run}
use crono_pci_linux.Machine.Returns.{Returns, returns}
use crono_pci_linux.Device.Handle.{IsHandle, init_hdev-IsHandle}
use crono_pci_linux.Dma.{ioctl_code, read_contig, dma_contig_buf_unlock}
use crono_pci_linux.Dma.Lock.{live_apart}
use crono_pci_linux.Dma.Contig.{LockedContig}

module _ {W : Type 0} {size ret : ℕ} {s t : Process W} {pp_buf pp_dma : Option Ptr}
    (l : LockedContig size s ret pp_buf pp_dma t) where
  -- The object is freed.
  after_unlock : (q : Ptr) → update t.cells l.p none q ≡ s.cells q
  after_unlock q = elim (Bool-cases (l.p == q)) [
    | inl e ↦ rw e (sym (ap s.cells (sym (==-eq l.p q e)) ∙ l.p_new))
    | inr c ↦ rw c (l.others q c)
  ]

  -- The handle is still there.
  kept_handle : {h : Ptr} {dev : Device} → IsHandle h dev s → IsHandle h dev t
  kept_handle {h} {dev} v = record {
    holds = record {
      ne_null = v.holds.ne_null;
      cell =
          l.others h
            (==-sym_false h l.p (live_apart s.cells h l.p (device dev) v.holds.cell l.p_new))
          ∙ v.holds.cell;
    };
    has_id = v.has_id;
  }

  -- The region is given to `munmap` behind the driver, and the mappings are those from before the
  -- lock, or `munmap` failed and the region is still mapped.
  abbrev pub Unmapped : Os W → Device → Process W → Type 0
  Unmapped os dev u =
      let gone = os.munmap l.user_addr size (os.unlock_contig dev.miscdev_fd l.id t.world).1 in
      (u.world ≡ gone.1)
      × (((gone.0 ≡ done tt) × (u.maps ≡ s.maps))
          ⊎ ((e : ℕ) × (gone.0 ≡ fail e) × (u.maps ≡ t.maps)))

  -- Unlocking a contiguous buffer that locking gave returns with the code that the driver gives for
  -- the id of the object and the descriptor of the device. If it is that of success, every block is
  -- again as before the lock, and so are the mappings, unless `munmap` fails, which is not
  -- reported. If it is not, nothing more is called, and blocks and mappings are as before the call.
  pub dma_contig_buf_unlock-LockedContig :
      (os : Os W) {h : Ptr} {dev : Device}
      → IsHandle h dev s
      → dev.miscdev_fd ≢ 0
      → Returns
          (λ code u.
            (code ≡ ioctl_code (os.unlock_contig dev.miscdev_fd l.id t.world).0)
            × (((code ≡ success) × ((q : Ptr) → u.cells q ≡ s.cells q) × Unmapped os dev u)
                ⊎ ((code ≢ success)
                    × ((q : Ptr) → u.cells q ≡ t.cells q)
                    × (u.maps ≡ t.maps)
                    × (u.world ≡ (os.unlock_contig dev.miscdev_fd l.id t.world).1))))
          (dma_contig_buf_unlock os h l.p t)
  unfolding dma_contig_buf_unlock read_contig munmap
  dma_contig_buf_unlock-LockedContig os {h} {dev} v open_ =
      let d : DmaContig = record {
        h_dma = 0;
        user_addr = l.user_addr;
        bytes = size;
        physical_addr = l.physical_addr;
        id = l.id;
      } in
      let reply = os.unlock_contig dev.miscdev_fd l.id t.world in
      let gone = os.munmap l.user_addr size reply.1 in
      let p_set = ne_false l.p 0 l.ne_null in
      rw
        (
          init_hdev-IsHandle {A = ℕ} _ _ (kept_handle v),
          p_set,
          ne_false dev.miscdev_fd 0 open_,
          read-run l.p (dma_contig d) t p_set l.object,
          ◌>>=◌,
        )
        (elim (Bool-cases (ioctl_code reply.0 == success)) [
          | inr refused ↦
              rw refused (returns (refl, inr (==-ne _ success refused, (λ q. refl), refl, refl)))
          | inl agreed ↦ rw agreed (elim (Reply-cases gone.0) [
            | inr (e, failed) ↦
                let u : Process W = record t { world = gone.1; errno = e } in
                rw (failed, ◌>>=◌, free-run l.p (dma_contig d) u p_set l.object)
                  (returns (
                    sym (==-eq _ success agreed),
                    inl (refl, after_unlock, (refl, inr (e, refl, refl))),
                  ))
            | inl (_, ok) ↦
                let u : Process W = record t {
                  world = gone.1;
                  errno = errno_after reply.0 t.errno;
                  maps = drop_map l.user_addr size t.maps;
                } in
                rw (ok, ◌>>=◌, free-run l.p (dma_contig d) u p_set l.object)
                  (returns (
                    sym (==-eq _ success agreed),
                    inl (
                      refl,
                      after_unlock,
                      (
                        refl,
                        inl (
                          refl,
                          ap (drop_map l.user_addr size) l.mapped
                              ∙ rw (==-refl l.user_addr, ==-refl size),
                        ),
                      ),
                    ),
                  ))
          ])
        ])
