-- ===== src/Dma/Lock.antt =====
-- `CRONO_KERNEL_DMASGBufLock` on an open device.
use crono_pci_linux.Base.{
  ℕ, ◌+◌, ◌-◌, ◌*◌, ◌/◌, ◌%◌, ◌^◌, ◌≤◌, ◌<◌, ◌≡◌, ◌≢◌, refl, sym, ap, ◌∙◌, ◌⊎◌, inl, inr, false,
  Option, none, some, ◌==◌, ==-eq, ==-refl, Bool-cases, arith,
}
use native.Mathlib.Nat.{div-add-mod', mod-lt, mod-eq_of_lt, div-lt_iff_lt-mul}
use crono_pci_linux.Types.{Ptr, Obj, raw, Device, DmaSg, dma_sg, success}
use crono_pci_linux.Os.{Os, update}
use crono_pci_linux.Machine.{Process, ◌>>=◌, put}
use crono_pci_linux.Machine.Heap.{
  some-none, ==-sym_false, ne_false, malloc-cases, free-run, write-run,
}
use crono_pci_linux.Machine.Returns
use crono_pci_linux.Machine.Returns.{Returns, returns}
use crono_pci_linux.Device.Handle.{IsHandle, init_hdev-IsHandle}
use crono_pci_linux.Dma.{sg_pages, lock_addresses, lock_pages, div_round_up, dma_sg_buf_lock}
use crono_pci_linux.Dma.Blocks.{Blocks, LockedSg, LockPost, lock_sg-Returns}

-- The pages cover the buffer, and no page is in excess, if the buffer starts at a page.
pages_cover :
    (size page_size : ℕ)
    → 0 < page_size
    → 0 < size
    → size < 2 ^ 32
    → (size ≤ (div_round_up size page_size % 2 ^ 32) * page_size)
      × ((div_round_up size page_size % 2 ^ 32) * page_size < size + page_size)
pages_cover size page_size h0 h1 h2 =
    let n = size + page_size - 1 in
    let whole : n / page_size * page_size + n % page_size ≡ n = div-add-mod' n page_size in
    let rest : n % page_size < page_size = mod-lt n h0 in
    let narrow : n / page_size < 2 ^ 32 = (div-lt_iff_lt-mul h0).1 (omega arith) in
    let same : n / page_size % 2 ^ 32 ≡ n / page_size = mod-eq_of_lt narrow in
    rw same (omega arith, omega arith)

-- Either the buffer is locked, and the object and its pages are the only new blocks. Or the blocks
-- are as before, and `*ppDma` is as before or points to a block that is already freed.
abbrev pub SgPost :
    {W : Type 0} → Os W → Ptr → ℕ → Ptr → Process W → ℕ × Option Ptr → Process W → Type 0
SgPost os buf size old s (ret, handle) s' =
    ((p : Ptr) × (ret ≡ success) × (handle ≡ some p) × LockedSg buf (sg_pages os size) p s s')
    ⊎ (((q : Ptr) → s'.cells q ≡ s.cells q)
        × ((handle ≡ some old) ⊎ ((p : Ptr) × (handle ≡ some p) × (s'.cells p ≡ none))))

-- A block in use is apart from an address not in use.
pub live_apart :
    (f : Ptr → Option Obj) (p q : Ptr) (o : Obj) → f p ≡ some o → f q ≡ none → (p == q) ≡ false
live_apart f p q o live unused = elim (Bool-cases (p == q)) [
  | inl e ↦ absurd (some-none o (sym live ∙ ap f (==-eq p q e) ∙ unused))
  | inr c ↦ c
]

module _ {W : Type 0} (os : Os W) (fd buf size old : ℕ) (s : Process W) where
  abbrev new_sg : Ptr → DmaSg
  new_sg page = record { user_addr = buf; page_count = sg_pages os size; pages = page; id = 0 }

  sg_done :
      (p page pages : Ptr) (t : Process W) (b : Blocks p page pages (new_sg page) s t)
      → (r : ℕ × Option Ptr) (u : Process W) → LockPost os b buf (sg_pages os size) r u
      → SgPost os buf size old s r u
  sg_done p page pages t b (ret, handle) u (inl (ok, is_p, locked)) = inl (p, ok, is_p, locked)
  sg_done p page pages t b (ret, handle) u (inr (is_p, none_left)) =
      inr (none_left.same, inr (p, is_p, none_left.dangling))

  module _ (p page : Ptr) (p_new : s.cells p ≡ none) (page_new : s.cells page ≡ none) where
    -- The two new blocks are freed.
    after_free :
        (f : Ptr → Option Obj)
        → ((q : Ptr) → (p == q) ≡ false → (page == q) ≡ false → f q ≡ s.cells q)
        → (q : Ptr) → update (update f page none) p none q ≡ s.cells q
    after_free f others q = elim (Bool-cases (p == q)) [
      | inl e ↦ rw e (sym (ap s.cells (sym (==-eq p q e)) ∙ p_new))
      | inr c ↦ rw c (elim (Bool-cases (page == q)) [
        | inl e ↦ rw e (sym (ap s.cells (sym (==-eq page q e)) ∙ page_new))
        | inr d ↦ rw d (others q c d)
      ])
    ]

    lock_addresses-Returns :
        (t : Process W)
        → (p == 0) ≡ false
        → (page == 0) ≡ false
        → (p == page) ≡ false
        → t.cells p ≡ some (dma_sg (new_sg page))
        → t.cells page ≡ some raw
        → ((q : Ptr) → (p == q) ≡ false → (page == q) ≡ false → t.cells q ≡ s.cells q)
        → Returns (SgPost os buf size old s) (lock_addresses os fd buf size p page t)
    unfolding lock_addresses
    lock_addresses-Returns t p_set page_set apart at_p at_page others =
        elim (malloc-cases os raw t) [
          | inr no_block ↦
              let t1 : Process W = record t { world = (os.malloc t.world).1 } in
              let t2 : Process W = put page none t1 in
              let still : t2.cells p ≡ some (dma_sg (new_sg page)) =
                rw (==-sym_false p page apart) at_p in
              rw
                (
                  no_block,
                  ◌>>=◌,
                  free-run page raw t1 page_set at_page,
                  free-run p (dma_sg (new_sg page)) t2 p_set still,
                )
                (returns (inr (after_free t.cells others, inr (p, refl, rw ==-refl))))
          | inl m ↦
              let p_pages = live_apart t.cells p m.at _ at_p m.unused in
              let page_pages = live_apart t.cells page m.at _ at_page m.unused in
              let b : Blocks p page m.at (new_sg page) s
                  (put m.at (some raw) (record t { world = m.world })) =
                record {
                  p_set = p_set;
                  page_set = page_set;
                  pages_set = ne_false m.at 0 m.ne_null;
                  p_page = apart;
                  p_pages = p_pages;
                  page_p = ==-sym_false p page apart;
                  page_pages = page_pages;
                  pages_p = ==-sym_false p m.at p_pages;
                  pages_page = ==-sym_false page m.at page_pages;
                  p_new = p_new;
                  page_new = page_new;
                  pages_new = sym (others m.at p_pages page_pages) ∙ m.unused;
                  at_p = rw (==-sym_false p m.at p_pages) at_p;
                  at_page = rw (==-sym_false page m.at page_pages) at_page;
                  at_pages = rw ==-refl;
                  others = λ q a o c. rw c (others q a o);
                } in
              rw (m.run, ◌>>=◌, ne_false m.at 0 m.ne_null)
                (Returns.mono (lock_sg-Returns os b fd buf size (sg_pages os size) refl refl refl)
                  (sg_done p page m.at _ b))
        ]

  pub lock_pages-Returns :
      (p : Ptr) (t : Process W)
      → s.cells p ≡ none
      → (p == 0) ≡ false
      → t.cells p ≡ some raw
      → ((q : Ptr) → (p == q) ≡ false → t.cells q ≡ s.cells q)
      → Returns (SgPost os buf size old s) (lock_pages os fd buf size (some old) p t)
  unfolding lock_pages
  lock_pages-Returns p t p_new p_set at_p others = elim (malloc-cases os raw t) [
    | inr no_block ↦
        let t1 : Process W = record t { world = (os.malloc t.world).1 } in
        rw (no_block, ◌>>=◌, free-run p raw t1 p_set at_p)
          (returns (inr (after_free_one p t.cells p_new others, inl refl)))
    | inl m ↦
        let apart = live_apart t.cells p m.at raw at_p m.unused in
        let apart' = ==-sym_false p m.at apart in
        let page_set = ne_false m.at 0 m.ne_null in
        let t1 : Process W = put m.at (some raw) (record t { world = m.world }) in
        let at_p1 : t1.cells p ≡ some raw = rw apart' at_p in
        rw (m.run, ◌>>=◌, page_set, write-run p raw (dma_sg (new_sg m.at)) t1 p_set at_p1)
          (lock_addresses-Returns p m.at p_new (sym (others m.at apart) ∙ m.unused)
            (put p (some (dma_sg (new_sg m.at))) t1) p_set page_set apart (rw ==-refl)
            (rw (apart, ==-refl)) λ q a o. rw (a, o) (others q a))
  ]
    where
      after_free_one :
          (p : Ptr) (f : Ptr → Option Obj)
          → s.cells p ≡ none
          → ((q : Ptr) → (p == q) ≡ false → f q ≡ s.cells q)
          → (q : Ptr) → update f p none q ≡ s.cells q
      after_free_one p f new_ others q = elim (Bool-cases (p == q)) [
        | inl e ↦ rw e (sym (ap s.cells (sym (==-eq p q e)) ∙ new_))
        | inr c ↦ rw c (others q c)
      ]

module _ {W : Type 0} (os : Os W) {h : Ptr} {dev : Device} {s : Process W}
    (v : IsHandle h dev s) where
  -- Locking a buffer with an open device returns, whatever the allocator and the driver answer.
  -- Either the code is that of success, `*ppDma` is a new object with as many pages as cover the
  -- size and no page more, and the object and its pages are the only new blocks. Or every block is
  -- as before the call, and `*ppDma` is as before or points to a block that is freed.
  pub dma_sg_buf_lock-Returns :
      (buf options size old : ℕ)
      → dev.miscdev_fd ≢ 0
      → buf ≢ 0
      → size ≢ 0
      → size < 2 ^ 32
      → 0 < os.page_size
      → Returns (SgPost os buf size old s) (dma_sg_buf_lock os h buf options size (some old) s)
        × (size ≤ sg_pages os size * os.page_size)
        × (sg_pages os size * os.page_size < size + os.page_size)
  unfolding dma_sg_buf_lock
  dma_sg_buf_lock-Returns buf options size old open_ there some_ narrow paged = (
    let b1 : (buf == 0) ≡ false = ground arith in
        let b2 : (size == 0) ≡ false = ground arith in
        let b3 : (dev.miscdev_fd == 0) ≡ false = ground arith in
        rw (init_hdev-IsHandle {A = ℕ × Option Ptr} _ _ v, b1, b2, b3)
          (elim (malloc-cases os raw s) [
            | inr no_block ↦ rw (no_block, ◌>>=◌) (returns (inr (λ q. refl, inl refl)))
            | inl m ↦
                let p_set = ne_false m.at 0 m.ne_null in
                rw (m.run, ◌>>=◌, p_set)
                  (lock_pages-Returns os dev.miscdev_fd buf size old s m.at _ m.unused p_set
                    (rw ==-refl) λ q a. rw a)
          ]),
    (pages_cover size os.page_size paged (omega arith) narrow).0,
    (pages_cover size os.page_size paged (omega arith) narrow).1,
  )
