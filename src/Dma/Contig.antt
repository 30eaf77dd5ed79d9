-- ===== src/Dma/Contig.antt =====
-- `CRONO_KERNEL_DMAContigBufLock` on an open device.
use crono_pci_linux.Base.{
  ℕ, ◌*◌, ◌%◌, ◌^◌, ◌≡◌, ◌≢◌, refl, sym, ap, ◌∙◌, ◌⊎◌, inl, inr, false, Option, none, some, ◌∷◌,
  ◌==◌, ==-eq, ==-ne, ==-refl, Bool-cases,
}
use crono_pci_linux.Types.{Ptr, Obj, raw, Device, DmaContig, dma_contig, success, minus, enomem}
use crono_pci_linux.Os.{Os, done, fail, update, ContigLocked}
use crono_pci_linux.Machine.{Process, ◌>>=◌, put, malloc, mmap}
use crono_pci_linux.Machine.Frame.{Reply-cases}
use crono_pci_linux.Machine.Heap.{Fresh, malloc-cases, ne_false, free-run, write-run}
use crono_pci_linux.Machine.Returns.{Returns, returns}
use crono_pci_linux.Device.Handle.{IsHandle, init_hdev-IsHandle}
use crono_pci_linux.Dma.{sign_extend, contig_info, map_contig, dma_contig_buf_lock}

-- The buffer is locked: its object is the only new block, and its region the only new mapping.
pub record LockedContig {W : Type 0} (size : ℕ) (s : Process W) (ret : ℕ)
    (pp_buf pp_dma : Option Ptr) (s' : Process W) : Type 0 where
  pub p : Ptr
  pub user_addr : Ptr
  pub physical_addr : ℕ
  pub id : ℕ
  pub code : ret ≡ success
  pub buffer : pp_buf ≡ some user_addr
  pub handle : pp_dma ≡ some p
  pub ne_null : p ≢ 0
  pub p_new : s.cells p ≡ none
  pub object :
      s'.cells p
      ≡ some (
          dma_contig (record {
            h_dma = 0;
            user_addr = user_addr;
            bytes = size;
            physical_addr = physical_addr;
            id = id;
          }))
  pub others : (q : Ptr) → (p == q) ≡ false → s'.cells q ≡ s.cells q
  pub mapped : s'.maps ≡ (user_addr, size) ∷ s.maps

-- The buffer is not locked: the blocks and the mappings are as before, `*ppBuf` is as before, and
-- `*ppDma` is NULL, or points to a block that is already freed.
pub record NotLocked {W : Type 0} (buf : Ptr) (s : Process W) (pp_buf pp_dma : Option Ptr)
    (s' : Process W) : Type 0 where
  pub buffer : pp_buf ≡ some buf
  pub handle : (pp_dma ≡ some 0) ⊎ ((p : Ptr) × (p ≢ 0) × (pp_dma ≡ some p) × (s'.cells p ≡ none))
  pub same : (q : Ptr) → s'.cells q ≡ s.cells q
  pub mapped : s'.maps ≡ s.maps

abbrev pub ContigPost :
    {W : Type 0} → ℕ → Ptr → Process W → ℕ × Option Ptr × Option Ptr → Process W → Type 0
ContigPost size buf s (ret, pp_buf, pp_dma) s' =
    LockedContig size s ret pp_buf pp_dma s' ⊎ NotLocked buf s pp_buf pp_dma s'

module _ {W : Type 0} (os : Os W) (size buf : ℕ) (s : Process W) where
  after_free :
      (p : Ptr) (o1 o2 : Option Obj)
      → s.cells p ≡ none
      → (q : Ptr) → update (update (update s.cells p o1) p o2) p none q ≡ s.cells q
  after_free p o1 o2 new_ q = elim (Bool-cases (p == q)) [
    | inl e ↦ rw e (sym (ap s.cells (sym (==-eq p q e)) ∙ new_))
    | inr c ↦ rw c
  ]

  map_contig-Returns :
      (fd : ℕ) (l : ContigLocked) (p : Ptr) (w : W)
      → (p == 0) ≡ false
      → s.cells p ≡ none
      → Returns
          (ContigPost size buf s)
          (map_contig os fd size buf l p (put p (some raw) (record s { world = w })))
  unfolding map_contig mmap
  map_contig-Returns fd l p w p_set p_new =
      let t : Process W = put p (some raw) (record s { world = w }) in
      let d : DmaContig = record {
        h_dma = 0;
        user_addr = 0;
        bytes = size;
        physical_addr = l.dma_handle;
        id = l.id;
      } in
      let t1 : Process W = put p (some (dma_contig d)) t in
      let at_p : t.cells p ≡ some raw = rw ==-refl in
      let at_p1 : t1.cells p ≡ some (dma_contig d) = rw ==-refl in
      let mapping = os.mmap size fd (sign_extend l.id * os.page_size % 2 ^ 64) w in
      rw (write-run p raw (dma_contig d) t p_set at_p, ◌>>=◌)
        (elim (Reply-cases mapping.0) [
          | inr (e, failed) ↦
              let t2 : Process W = record t1 { world = mapping.1; errno = e } in
              rw (failed, ◌>>=◌, free-run p (dma_contig d) t2 p_set at_p1)
                (returns (
                  inr (record {
                    buffer = refl;
                    handle = inr (p, ==-ne p 0 p_set, refl, rw ==-refl);
                    same = after_free p _ _ p_new;
                    mapped = refl;
                  })))
          | inl (a, ok) ↦
              let t2 : Process W = record t1 { world = mapping.1; maps = (a, size) ∷ s.maps } in
              let d' : DmaContig = record d { user_addr = a } in
              rw (ok, ◌>>=◌, write-run p (dma_contig d) (dma_contig d') t2 p_set at_p1)
                (returns (
                  inl (record {
                    p = p;
                    user_addr = a;
                    physical_addr = l.dma_handle;
                    id = l.id;
                    code = refl;
                    buffer = refl;
                    handle = refl;
                    ne_null = ==-ne p 0 p_set;
                    p_new = p_new;
                    object = rw ==-refl;
                    others = λ q apart. rw apart;
                    mapped = refl;
                  })))
        ])

module _ {W : Type 0} (os : Os W) {h : Ptr} {dev : Device} {s : Process W}
    (v : IsHandle h dev s) where
  -- The process behind the driver's reply.
  abbrev pub replied : ℕ → Process W
  replied size = record s { world = (os.lock_contig dev.miscdev_fd (contig_info size) s.world).1 }

  nothing :
      (buf : Ptr) (w : W) (e : ℕ)
      → NotLocked buf s (some buf) (some 0) (record s { world = w; errno = e })
  nothing buf w e = record { buffer = refl; handle = inl refl; same = λ q. refl; mapped = refl }

  -- Locking a contiguous buffer with an open device and a NULL `*ppDma` returns. Either the buffer
  -- is locked, its object is the only new block and its region the only new mapping; or the blocks
  -- and the mappings are as before, and `*ppDma` is NULL or points to a block already freed.
  pub dma_contig_buf_lock-Returns :
      (buf options size : ℕ)
      → dev.miscdev_fd ≢ 0
      → size ≢ 0
      → Returns
          (ContigPost size buf s)
          (dma_contig_buf_lock os h (some buf) options size (some 0) s)
  unfolding dma_contig_buf_lock
  dma_contig_buf_lock-Returns buf options size open_ some_ =
      let reply = os.lock_contig dev.miscdev_fd (contig_info size) s.world in
      rw
        (
          init_hdev-IsHandle {A = ℕ × Option Ptr × Option Ptr} _ _ v,
          ne_false size 0 some_,
          ne_false dev.miscdev_fd 0 open_,
        )
        (elim (Reply-cases reply.0) [
          | inr (e, failed) ↦ rw (failed, ◌>>=◌) (returns (inr (nothing buf _ _)))
          | inl (l, replied) ↦
              rw (replied, ◌>>=◌)
                (elim (Bool-cases (l.ret == success)) [
                  | inr refused ↦ rw refused (returns (inr (nothing buf _ _)))
                  | inl agreed ↦
                      rw agreed (elim (malloc-cases os raw (record s { world = reply.1 })) [
                        | inr no_block ↦ rw (no_block, ◌>>=◌) (returns (inr (nothing buf _ _)))
                        | inl m ↦
                            let p_set = ne_false m.at 0 m.ne_null in
                            rw (m.run, ◌>>=◌, p_set)
                              (map_contig-Returns os size buf s dev.miscdev_fd l m.at m.world p_set
                                m.unused)
                      ])
                ])
        ])

  again :
      (p : Ptr) (pp_buf pp_dma : Option Ptr) (options size : ℕ) (u : Process W)
      → p ≢ 0
      → pp_dma ≡ some p
      → dma_contig_buf_lock os h pp_buf options size pp_dma u ≡ some ((success, pp_buf, pp_dma), u)
  unfolding dma_contig_buf_lock
  again p pp_buf pp_dma options size u ne is_p = rw is_p (rw (ne_false p 0 ne))

  -- When the driver locks the buffer, the allocator gives a block and mapping fails, locking a
  -- contiguous buffer with an open device and a NULL `*ppDma` returns -ENOMEM with every block as
  -- before, and leaves the address of the block that it freed in `*ppDma`. A second call with what
  -- the first one left then returns success, and changes nothing: no buffer is locked.
  pub dma_contig_buf_lock-dangling :
      (buf options size e : ℕ) (l : ContigLocked)
      → dev.miscdev_fd ≢ 0
      → size ≢ 0
      → (locked : (os.lock_contig dev.miscdev_fd (contig_info size) s.world).0 ≡ done l)
      → l.ret ≡ success
      → (m : Fresh raw (replied size) (malloc os raw (replied size)))
      → (os.mmap size dev.miscdev_fd (sign_extend l.id * os.page_size % 2 ^ 64) m.world).0 ≡ fail e
      → Returns
          (λ (ret, pp_buf, pp_dma) u.
            (ret ≡ minus enomem)
            × (pp_buf ≡ some buf)
            × (pp_dma ≡ some m.at)
            × (m.at ≢ 0)
            × (u.cells m.at ≡ none)
            × ((q : Ptr) → u.cells q ≡ s.cells q)
            × (dma_contig_buf_lock os h pp_buf options size pp_dma u
                ≡ some ((success, pp_buf, pp_dma), u)))
          (dma_contig_buf_lock os h (some buf) options size (some 0) s)
  unfolding dma_contig_buf_lock map_contig mmap
  dma_contig_buf_lock-dangling buf options size e l open_ some_ locked agreed m failed =
      let w = (os.mmap size dev.miscdev_fd (sign_extend l.id * os.page_size % 2 ^ 64) m.world).1 in
      let p_set = ne_false m.at 0 m.ne_null in
      let d : DmaContig = record {
        h_dma = 0;
        user_addr = 0;
        bytes = size;
        physical_addr = l.dma_handle;
        id = l.id;
      } in
      let t : Process W = put m.at (some raw) (record (replied size) { world = m.world }) in
      let t1 : Process W = put m.at (some (dma_contig d)) t in
      let at_p : t.cells m.at ≡ some raw = rw ==-refl in
      let at_p1 : t1.cells m.at ≡ some (dma_contig d) = rw ==-refl in
      let t2 : Process W = record t1 { world = w; errno = e } in
      rw
        (
          init_hdev-IsHandle {A = ℕ × Option Ptr × Option Ptr} _ _ v,
          ne_false size 0 some_,
          ne_false dev.miscdev_fd 0 open_,
          locked,
          ◌>>=◌,
          ap (λ r. r == success) agreed ∙ ==-refl success,
          m.run,
          p_set,
          write-run m.at raw (dma_contig d) t p_set at_p,
          failed,
          free-run m.at (dma_contig d) t2 p_set at_p1,
        )
        (returns (
          refl,
          refl,
          refl,
          m.ne_null,
          rw ==-refl,
          after_free os size buf s m.at _ _ m.unused,
          again m.at (some buf) (some m.at) options size _ m.ne_null refl,
        ))
