-- ===== src/Dma/Unlock.antt =====
-- `CRONO_KERNEL_DMASGBufUnlock` behind `CRONO_KERNEL_DMASGBufLock`.
use crono_pci_linux.Base.{
  ℕ, ◌≡◌, ◌≢◌, refl, sym, ap, ◌∙◌, ◌⊎◌, inl, inr, Option, none, some, ◌==◌, ==-eq, ==-ne, ==-refl,
  Bool-cases,
}
use crono_pci_linux.Types.{Ptr, Obj, Device, device, DmaSg, dma_sg, dma_pages, success}
use crono_pci_linux.Os.{Os, update, errno_after}
use crono_pci_linux.Machine.{Process, ◌>>=◌, put}
use crono_pci_linux.Machine.Heap.{==-sym_false, ne_false, free-run, write-run, read-run}
use crono_pci_linux.Machine.Returns.{Returns, returns}
use crono_pci_linux.Device.Handle.{IsHandle, init_hdev-IsHandle}
use crono_pci_linux.Dma.{ioctl_code, read_sg, dma_sg_buf_unlock}
use crono_pci_linux.Dma.Blocks.{LockedSg}
use crono_pci_linux.Dma.Lock.{live_apart}

module _ {W : Type 0} {buf page_count : ℕ} {p : Ptr} {s t : Process W}
    (l : LockedSg buf page_count p s t) where
  -- The two blocks are freed.
  after_unlock :
      (o : Option Obj) (q : Ptr)
      → update (update (update t.cells l.page none) p o) p none q ≡ s.cells q
  after_unlock o q = elim (Bool-cases (p == q)) [
    | inl e ↦ rw e (sym (ap s.cells (sym (==-eq p q e)) ∙ l.p_new))
    | inr a ↦ rw a (elim (Bool-cases (l.page == q)) [
      | inl e ↦ rw e (sym (ap s.cells (sym (==-eq l.page q e)) ∙ l.page_new))
      | inr b ↦ rw b (l.others q a b)
    ])
  ]

  -- The handle is still there.
  kept_handle : {h : Ptr} {dev : Device} → IsHandle h dev s → IsHandle h dev t
  kept_handle {h} {dev} v = record {
    holds = record {
      ne_null = v.holds.ne_null;
      cell =
          l.others h (==-sym_false h p (live_apart s.cells h p (device dev) v.holds.cell l.p_new)) (
            ==-sym_false h l.page
              (live_apart s.cells h l.page (device dev) v.holds.cell l.page_new))
          ∙ v.holds.cell;
    };
    has_id = v.has_id;
  }

  -- Unlocking the buffer of an object that locking gave returns with the code that the driver gives
  -- for the id of the object and the descriptor of the device, and nothing else is called on the
  -- system. Either the code is that of success, and every block is again as before the lock; or it
  -- is not, and every block is as before the call.
  pub dma_sg_buf_unlock-LockedSg :
      (os : Os W) {h : Ptr} {dev : Device}
      → IsHandle h dev s
      → dev.miscdev_fd ≢ 0
      → Returns
          (λ ret u.
            (ret ≡ ioctl_code (os.unlock_buffer dev.miscdev_fd l.id t.world).0)
            × (u.world ≡ (os.unlock_buffer dev.miscdev_fd l.id t.world).1)
            × (((ret ≡ success) × ((q : Ptr) → u.cells q ≡ s.cells q))
                ⊎ ((ret ≢ success) × ((q : Ptr) → u.cells q ≡ t.cells q))))
          (dma_sg_buf_unlock os h p t)
  unfolding dma_sg_buf_unlock read_sg
  dma_sg_buf_unlock-LockedSg os {h} {dev} v open_ =
      let d : DmaSg = record {
        user_addr = buf;
        page_count = page_count;
        pages = l.page;
        id = l.id;
      } in
      let reply = os.unlock_buffer dev.miscdev_fd l.id t.world in
      let t1 : Process W = record t { world = reply.1; errno = errno_after reply.0 t.errno } in
      let t2 : Process W = put l.page none t1 in
      let d' : DmaSg = record d { pages = 0 } in
      let t3 : Process W = put p (some (dma_sg d')) t2 in
      let still : t2.cells p ≡ some (dma_sg d) = rw l.apart l.object in
      let still' : t3.cells p ≡ some (dma_sg d') = rw ==-refl in
      rw
        (
          init_hdev-IsHandle {A = ℕ} _ _ (kept_handle v),
          l.p_set,
          ne_false dev.miscdev_fd 0 open_,
          read-run p (dma_sg d) t l.p_set l.object,
          ◌>>=◌,
        )
        (elim (Bool-cases (ioctl_code reply.0 == success)) [
          | inr refused ↦
              rw refused (returns (refl, refl, inr (==-ne _ success refused, λ q. refl)))
          | inl agreed ↦
              rw
                (
                  agreed,
                  free-run l.page (dma_pages l.filled) t1 l.page_set l.pages_there,
                  ◌>>=◌,
                  write-run p (dma_sg d) (dma_sg d') t2 l.p_set still,
                  free-run p (dma_sg d') t3 l.p_set still',
                )
                (returns
                  (refl, refl, inl (==-eq _ success agreed, after_unlock (some (dma_sg d')))))
        ])
