-- ===== src/Valid/Buffers.antt =====
-- What locking and unlocking buffers does to the heap.
use crono_pci_linux.Base.{
  ℕ, ◌≡◌, ◌≢◌, refl, sym, ap, ◌∙◌, ◌⊎◌, inl, inr, true, false, Option, none, some, List, ◌==◌,
  ==-eq, ==-ne, Bool-cases, arith, subst,
}
use crono_pci_linux.Types.{Ptr, Obj, DmaSg, dma_sg, DmaPage, dma_pages}
use crono_pci_linux.Valid.{
  WellFormed, is_device, is_pages, pages_of, found_some, true-false, device_pages,
}

module _ {f g : Ptr → Option Obj} {devices : List Ptr} {n : ℕ} (h : WellFormed f devices n) where
  -- A new buffer object with a new array of pages.
  pub lock-WellFormed :
      (p page : Ptr) (d : DmaSg) (ps : List DmaPage)
      → f p ≡ none
      → f page ≡ none
      → (page == p) ≡ false
      → d.pages ≡ page
      → g p ≡ some (dma_sg d)
      → g page ≡ some (dma_pages ps)
      → ((q : Ptr) → (p == q) ≡ false → (page == q) ≡ false → g q ≡ f q)
      → WellFormed g devices n
  lock-WellFormed p page d ps p_new page_new ne own at_p at_page others = record {
    eight = h.eight;
    counted = h.counted;
    tracked = λ j low used.
        let t = h.tracked j low used in rw (old _ (λ z. found_some is_device _ refl z t)) t;
    apart = h.apart;
    pages = λ q. elim (places q) [
      | inl (inl e) ↦ rw (e, at_p, own, at_page) λ _. refl
      | inl (inr e) ↦ rw (e, at_page) λ used. absurd (used refl)
      | inr same ↦
          rw same
            λ used. let t = h.pages q used in rw (old _ (λ z. found_some is_pages _ refl z t)) t
    ];
    pages_apart = λ q r. elim (places q) [
      | inl (inl e) ↦
          rw (e, at_p, own)
            (elim (places r) [
              | inl (inl e') ↦ λ _ _. sym e'
              | inl (inr e') ↦ rw (e', at_page) λ used z. absurd (used z)
              | inr same ↦ rw same λ used e'.
                  absurd
                    (found_some is_pages _ refl page_new (rw e' (h.pages r λ z. used (e' ∙ z))))
            ])
      | inl (inr e) ↦ rw (e, at_page) λ used. absurd (used refl)
      | inr same ↦ rw same (elim (places r) [
        | inl (inl e') ↦
            rw (e', at_p, own)
              λ used e''.
                absurd (found_some is_pages _ refl page_new (rw (sym e'') (h.pages q used)))
        | inl (inr e') ↦ rw (e', at_page) λ used z. absurd (used z)
        | inr same' ↦ rw same' (h.pages_apart q r)
      ])
    ];
    fits = λ q. elim (places q) [
      | inl (inl e) ↦ rw (e, at_p) refl
      | inl (inr e) ↦ rw (e, at_page) refl
      | inr same ↦ rw same (h.fits q)
    ];
  }
    where
      places : (q : Ptr) → ((q ≡ p) ⊎ (q ≡ page)) ⊎ (g q ≡ f q)
      places q = elim (Bool-cases (p == q)) [
        | inl e ↦ inl (inl (sym (==-eq p q e)))
        | inr c ↦ elim (Bool-cases (page == q)) [
          | inl e ↦ inl (inr (sym (==-eq page q e)))
          | inr c' ↦ inr (others q c c')
        ]
      ]

      old : (q : Ptr) → f q ≢ none → g q ≡ f q
      old q live = elim (places q) [
        | inl (inl e) ↦ absurd (live (rw e p_new))
        | inl (inr e) ↦ absurd (live (rw e page_new))
        | inr same ↦ same
      ]

  -- A buffer object is gone with its pages.
  pub unlock-WellFormed :
      (p : Ptr) (d : DmaSg)
      → f p ≡ some (dma_sg d)
      → g p ≡ none
      → (d.pages ≢ 0 → g d.pages ≡ none)
      → ((q : Ptr) → (p == q) ≡ false → (d.pages ≢ 0 → (d.pages == q) ≡ false) → g q ≡ f q)
      → WellFormed g devices n
  unlock-WellFormed p d at_p gone pages_gone others = record {
    eight = h.eight;
    counted = h.counted;
    tracked = λ j low used. let t = h.tracked j low used in rw (kept_device _ t) t;
    apart = h.apart;
    pages = λ q. elim (places q) [
      | inl z ↦ rw z λ used. absurd (used refl)
      | inr (ne, same) ↦ rw same λ used.
          let t = h.pages q used in
          rw (kept_pages _ t λ set_ e. ne (sym (h.pages_apart p q (rw at_p set_) (rw at_p e)))) t
    ];
    pages_apart = λ q r. elim (places q) [
      | inl z ↦ rw z λ used. absurd (used refl)
      | inr (ne, same) ↦ rw same (elim (places r) [
        | inl z ↦ rw z λ used e. absurd (used e)
        | inr (ne', same') ↦ rw same' (h.pages_apart q r)
      ])
    ];
    fits = λ q. elim (places q) [ inl z ↦ rw z refl | inr (ne, same) ↦ rw same (h.fits q) ];
  }
    where
      -- The pages of the object are pages.
      there : d.pages ≢ 0 → is_pages (f d.pages) ≡ true
      there set_ = subst (λ o. is_pages (f (pages_of o)) ≡ true) at_p (h.pages p (rw at_p set_))

      kept : (q : Ptr) → q ≢ p → (d.pages ≢ 0 → d.pages ≢ q) → g q ≡ f q
      kept q ne out = others q (ground arith) λ set_. let o = out set_ in ground arith

      kept_device : (q : Ptr) → is_device (f q) ≡ true → g q ≡ f q
      kept_device q live =
          kept q (λ e. true-false (sym live ∙ ap is_device (ap f e ∙ at_p)))
            λ set_ e. device_pages (f q) live (rw (sym e) (there set_))

      kept_pages : (q : Ptr) → is_pages (f q) ≡ true → (d.pages ≢ 0 → d.pages ≢ q) → g q ≡ f q
      kept_pages q live out = kept q (λ e. true-false (sym live ∙ ap is_pages (ap f e ∙ at_p))) out

      places : (q : Ptr) → (g q ≡ none) ⊎ ((q ≢ p) × (g q ≡ f q))
      places q = elim (Bool-cases (p == q)) [
        | inl e ↦ inl (rw (sym (==-eq p q e)) gone)
        | inr c ↦ elim (Bool-cases (d.pages == 0)) [
          | inl z ↦
              inr (λ e. ==-ne p q c (sym e), others q c λ set_. absurd (set_ (==-eq d.pages 0 z)))
          | inr set_ ↦ elim (Bool-cases (d.pages == q)) [
            | inl e ↦ inl (rw (sym (==-eq d.pages q e)) (pages_gone (==-ne d.pages 0 set_)))
            | inr c' ↦ inr (λ e. ==-ne p q c (sym e), others q c λ _. c')
          ]
        ]
      ]
