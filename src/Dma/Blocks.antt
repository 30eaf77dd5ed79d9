-- ===== src/Dma/Blocks.antt =====
-- The blocks that `CRONO_KERNEL_DMASGBufLock` allocates, and what its exits behind the `ioctl`
-- leave.
use crono_pci_linux.Base.{
  ℕ, ◌≡◌, refl, sym, ap, ◌∙◌, ◌⊎◌, inl, inr, false, Option, none, some, List, ◌++◌, replicate,
  length-take, length-append, length-replicate, length-map, map, length, ◌==◌, ==-eq, ==-refl,
  Bool-cases, arith,
}
use crono_pci_linux.Types.{Ptr, Obj, raw, DmaPage, DmaSg, dma_sg, dma_pages, addresses, success}
use crono_pci_linux.Os.{Os, update}
use crono_pci_linux.Machine.{Process, ◌>>=◌, put}
use crono_pci_linux.Machine.Frame.{Reply-cases}
use crono_pci_linux.Machine.Heap.{free-run, write-run, read-run}
use crono_pci_linux.Machine.Returns
use crono_pci_linux.Machine.Returns.{Returns, returns}
use crono_pci_linux.Dma.{sg_info, dma_page, written, minus_one, read_sg, alloc_err, lock_sg}

length-written : (n g : ℕ) (xs : List ℕ) → length (written n g xs) ≡ n
length-written n g xs = omega (
  arith,
  length-take n (xs ++ replicate n g),
  length-append xs (replicate n g),
  length-replicate n g,
)

module _ {W : Type 0} where
  -- Three new blocks: the object, its pages, and the addresses for the driver.
  pub record Blocks (p page pages : Ptr) (d : DmaSg) (s t : Process W) : Type 0 where
    pub p_set : (p == 0) ≡ false
    pub page_set : (page == 0) ≡ false
    pub pages_set : (pages == 0) ≡ false
    pub p_page : (p == page) ≡ false
    pub p_pages : (p == pages) ≡ false
    pub page_p : (page == p) ≡ false
    pub page_pages : (page == pages) ≡ false
    pub pages_p : (pages == p) ≡ false
    pub pages_page : (pages == page) ≡ false
    pub p_new : s.cells p ≡ none
    pub page_new : s.cells page ≡ none
    pub pages_new : s.cells pages ≡ none
    pub at_p : t.cells p ≡ some (dma_sg d)
    pub at_page : t.cells page ≡ some raw
    pub at_pages : t.cells pages ≡ some raw
    pub others :
        (q : Ptr)
        → (p == q) ≡ false
        → (page == q) ≡ false
        → (pages == q) ≡ false
        → t.cells q ≡ s.cells q

  -- Nothing but the heap is looked at: all blocks are as before.
  pub record NoBlocks (p : Ptr) (s s' : Process W) : Type 0 where
    pub same : (q : Ptr) → s'.cells q ≡ s.cells q
    pub dangling : s'.cells p ≡ none

  -- The object and its pages are the only new blocks.
  pub record LockedSg (buf page_count : ℕ) (p : Ptr) (s s' : Process W) : Type 0 where
    pub page : Ptr
    pub id : ℕ
    pub filled : List DmaPage
    pub p_new : s.cells p ≡ none
    pub page_new : s.cells page ≡ none
    pub p_set : (p == 0) ≡ false
    pub page_set : (page == 0) ≡ false
    pub apart : (page == p) ≡ false
    pub object :
        s'.cells p
        ≡ some (dma_sg (record { user_addr = buf; page_count = page_count; pages = page; id = id }))
    pub pages_there : s'.cells page ≡ some (dma_pages filled)
    pub all_pages : length filled ≡ page_count
    pub others : (q : Ptr) → (p == q) ≡ false → (page == q) ≡ false → s'.cells q ≡ s.cells q

module _ {W : Type 0} (os : Os W) {p page pages : Ptr} {d : DmaSg} {s t : Process W}
    (b : Blocks p page pages d s t) where
  alloc_err-run :
      (ret handle : ℕ) (w : W) (e : ℕ)
      → Returns
          (λ r u. (r ≡ (ret, some handle)) × NoBlocks p s u)
          (alloc_err os p page pages ret handle (record t { world = w; errno = e }))
  unfolding alloc_err
  alloc_err-run ret handle w e =
      let t1 : Process W = record t { world = w; errno = e } in
      let t2 : Process W = put page none t1 in
      let t3 : Process W = put p none t2 in
      let at_p : t2.cells p ≡ some (dma_sg d) = rw b.page_p b.at_p in
      let at_pages : t3.cells pages ≡ some raw = rw (b.p_pages, b.page_pages) b.at_pages in
      rw
        (
          free-run page raw t1 b.page_set b.at_page,
          ◌>>=◌,
          free-run p (dma_sg d) t2 b.p_set at_p,
          free-run pages raw t3 b.pages_set at_pages,
        )
        (returns (refl, record { same = after_err; dangling = after_err p ∙ b.p_new }))
    where
      after_err :
          (q : Ptr) → update (update (update t.cells page none) p none) pages none q ≡ s.cells q
      after_err q = elim (Bool-cases (pages == q)) [
        | inl e ↦ rw e (sym (ap s.cells (sym (==-eq pages q e)) ∙ b.pages_new))
        | inr c ↦ rw c (elim (Bool-cases (p == q)) [
          | inl e ↦ rw e (sym (ap s.cells (sym (==-eq p q e)) ∙ b.p_new))
          | inr a ↦ rw a (elim (Bool-cases (page == q)) [
            | inl e ↦ rw e (sym (ap s.cells (sym (==-eq page q e)) ∙ b.page_new))
            | inr o ↦ rw o (b.others q a o c)
          ])
        ])
      ]

  -- The `ioctl` that locks the buffer.
  abbrev pub LockPost : ℕ → ℕ → ℕ × Option Ptr → Process W → Type 0
  LockPost buf page_count (ret, handle) u =
      ((ret ≡ success) × (handle ≡ some p) × LockedSg buf page_count p s u)
      ⊎ ((handle ≡ some p) × NoBlocks p s u)

  pub lock_sg-Returns :
      (fd buf size page_count : ℕ)
      → d.user_addr ≡ buf
      → d.page_count ≡ page_count
      → d.pages ≡ page
      → Returns (LockPost buf page_count) (lock_sg os fd buf size p page pages page_count t)
  unfolding lock_sg read_sg
  lock_sg-Returns fd buf size page_count addr count block =
      let reply = os.lock_buffer fd (sg_info buf size pages page_count) t.world in
      elim (Reply-cases reply.0) [
        | inr (e, failed) ↦
            rw (failed, ◌>>=◌)
              (Returns.mono (alloc_err-run minus_one p reply.1 e)
                λ r u (is_ret, none_left). inr (ap (λ x. x.1) is_ret, none_left))
        | inl (l, replied) ↦
            rw (replied, ◌>>=◌)
              (elim (Bool-cases (l.ret == success)) [
                | inr refused ↦ rw refused (
                    Returns.mono (alloc_err-run l.ret p reply.1 t.errno)
                      λ r u (is_ret, none_left). inr (ap (λ x. x.1) is_ret, none_left))
                | inl ok ↦
                    let filled = written page_count os.garbage l.pages in
                    let t1 : Process W = record t { world = reply.1 } in
                    let t2 : Process W = put pages (some (addresses filled)) t1 in
                    let d' = record d { id = l.id } in
                    let t3 : Process W = put p (some (dma_sg d')) t2 in
                    let t4 : Process W = put page (some (dma_pages (map dma_page filled))) t3 in
                    let at_p : t2.cells p ≡ some (dma_sg d) = rw b.pages_p b.at_p in
                    let at_page : t3.cells page ≡ some raw =
                      rw (b.p_page, b.pages_page) b.at_page in
                    let at_pages : t4.cells pages ≡ some (addresses filled) =
                      rw (b.page_pages, b.p_pages) (rw ==-refl) in
                    rw
                      (
                        ok,
                        write-run pages raw (addresses filled) t1 b.pages_set b.at_pages,
                        ◌>>=◌,
                        read-run p (dma_sg d) t2 b.p_set at_p,
                        write-run p (dma_sg d) (dma_sg d') t2 b.p_set at_p,
                        write-run page raw (dma_pages (map dma_page filled)) t3 b.page_set at_page,
                        free-run pages (addresses filled) t4 b.pages_set at_pages,
                      )
                      (returns (
                        inl (
                          ==-eq l.ret success ok,
                          refl,
                          record {
                            page = page;
                            id = l.id;
                            filled = map dma_page filled;
                            p_new = b.p_new;
                            page_new = b.page_new;
                            p_set = b.p_set;
                            page_set = b.page_set;
                            apart = b.page_p;
                            object = rw (b.pages_p, b.page_p, ==-refl, addr, count, block);
                            all_pages =
                                length-map dma_page filled
                                ∙ length-written page_count os.garbage l.pages;
                            pages_there = rw (b.pages_page, ==-refl);
                            others = after_lock _ _ _;
                          },
                        )))
              ])
      ]
    where
      after_lock :
          (o1 o2 o3 : Option Obj) (q : Ptr)
          → (p == q) ≡ false
          → (page == q) ≡ false
          → update (update (update (update t.cells pages o1) p o2) page o3) pages none q ≡ s.cells q
      after_lock o1 o2 o3 q a o = elim (Bool-cases (pages == q)) [
        | inl e ↦ rw e (sym (ap s.cells (sym (==-eq pages q e)) ∙ b.pages_new))
        | inr c ↦ rw (c, o, a) (b.others q a o c)
      ]
