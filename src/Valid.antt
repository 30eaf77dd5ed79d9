-- ===== src/Valid.antt =====
-- Well-formedness of the heap and of the table `devices` of src/crono_kernel_interface.cpp, and the
-- changes that keep it.
pub mod Slots
pub mod Buffers
use crono_pci_linux.Base.{
  ℕ, ◌+◌, ◌-◌, ◌≤◌, ◌<◌, ◌≡◌, ◌≢◌, refl, sym, ap, ◌∙◌, ◌⊎◌, inl, inr, Bool, true, false, Option,
  none, some, List, leb, ◌==◌, ==-eq, ==-ne, ==-refl, Bool-cases, length, length-set, get_or, set,
  subst, get_or-set_self, get_or-set_other, arith,
}
use crono_pci_linux.Types.{
  Ptr, Obj, raw, Device, device, dma_sg, dma_contig, dma_pages, addresses, cmds,
}
use crono_pci_linux.Os.{update, is_live}

-- What a block holds, as the table and the buffers see it: a device, an array of pages, or the
-- pointer to such an array (0 for NULL and for every other block).
abbrev pub is_device : Option Obj → Bool
is_device (some (device d)) = true
is_device _ = false

abbrev pub is_pages : Option Obj → Bool
is_pages (some (dma_pages ps)) = true
is_pages _ = false

abbrev pub pages_of : Option Obj → Ptr
pages_of (some (dma_sg d)) = d.pages
pages_of _ = 0

-- A device has no more BARs than descriptions.
abbrev pub bars_fit : Option Obj → Bool
bars_fit (some (device d)) = leb d.bar_count (length d.bar_descs)
bars_fit _ = true

pub true-false : true ≡ false → ⊥
true-false e = absurd (ground arith)

-- What a test finds is there.
pub found_some :
    (t : Option Obj → Bool) (o : Option Obj) → t none ≡ false → o ≡ none → t o ≡ true → ⊥
found_some t o miss e hit = true-false (sym hit ∙ ap t e ∙ miss)

pub device_pages : (o : Option Obj) → is_device o ≡ true → is_pages o ≡ true → ⊥
device_pages none a b = absurd (ground arith)
device_pages (some raw) a b = absurd (ground arith)
device_pages (some (device d)) a b = absurd (ground arith)
device_pages (some (dma_sg d)) a b = absurd (ground arith)
device_pages (some (dma_contig d)) a b = absurd (ground arith)
device_pages (some (dma_pages ps)) a b = absurd (ground arith)
device_pages (some (addresses xs)) a b = absurd (ground arith)
device_pages (some (cmds cs)) a b = absurd (ground arith)

pub device_live : (o : Option Obj) → is_device o ≡ true → is_live o ≡ true
device_live none e = absurd (ground arith)
device_live (some o) e = refl

-- The eight slots: those below the count are free, or hold the addresses of live devices, each of
-- them once. A live buffer object has a live array of pages of its own, and a live device has no
-- more BARs than descriptions.
pub record WellFormed (cells : Ptr → Option Obj) (devices : List Ptr) (n : ℕ) : Type 0 where
  pub eight : length devices ≡ 8
  pub counted : n ≤ 8
  pub tracked :
      (j : ℕ) → j < n → get_or devices j 0 ≢ 0 → is_device (cells (get_or devices j 0)) ≡ true
  pub apart :
      (j k : ℕ)
      → j < n
      → k < n
      → get_or devices j 0 ≢ 0
      → get_or devices j 0 ≡ get_or devices k 0
      → j ≡ k
  pub pages : (p : Ptr) → pages_of (cells p) ≢ 0 → is_pages (cells (pages_of (cells p))) ≡ true
  pub pages_apart :
      (p q : Ptr) → pages_of (cells p) ≢ 0 → pages_of (cells p) ≡ pages_of (cells q) → p ≡ q
  pub fits : (p : Ptr) → bars_fit (cells p) ≡ true

pub device-fits :
    {f : Ptr → Option Obj} {devices : List Ptr} {n : ℕ} (h : WellFormed f devices n) (p : Ptr)
    (d : Device)
    → f p ≡ some (device d)
    → d.bar_count ≤ length d.bar_descs
device-fits h p d at_p =
    let fit : leb d.bar_count (length d.bar_descs) ≡ true =
      subst (λ o. bars_fit o ≡ true) at_p (h.fits p) in
    ground arith

-- A change that keeps devices and pages, and makes no buffer object.
pub record Change (f g : Ptr → Option Obj) : Type 0 where
  pub keep_device : (p : Ptr) → is_device (f p) ≡ true → is_device (g p) ≡ true
  pub keep_pages : (p : Ptr) → is_pages (f p) ≡ true → is_pages (g p) ≡ true
  pub keep_fits : (p : Ptr) → bars_fit (f p) ≡ true → bars_fit (g p) ≡ true
  pub no_object : (p : Ptr) → (pages_of (g p) ≡ 0) ⊎ (pages_of (g p) ≡ pages_of (f p))

module _ {f g : Ptr → Option Obj} where
  old_pages : Change f g → (p : Ptr) → pages_of (g p) ≢ 0 → pages_of (g p) ≡ pages_of (f p)
  old_pages c p used = elim (c.no_object p) [ inl z ↦ absurd (used z) | inr e ↦ e ]

  pub Change-WellFormed :
      {devices : List Ptr} {n : ℕ} → Change f g → WellFormed f devices n → WellFormed g devices n
  Change-WellFormed c h = record {
    eight = h.eight;
    counted = h.counted;
    tracked = λ j low used. c.keep_device _ (h.tracked j low used);
    apart = h.apart;
    pages =
        λ p used. let e = old_pages c p used in rw e (c.keep_pages _ (h.pages p λ z. used (e ∙ z)));
    pages_apart = λ p q used same.
        let e = old_pages c p used in
        let e' = old_pages c q λ z. used (same ∙ z) in
        h.pages_apart p q (λ z. used (e ∙ z)) (sym e ∙ same ∙ e');
    fits = λ p. c.keep_fits p (h.fits p);
  }

-- The block at `p` becomes `o`.
pub update-Change :
    (f : Ptr → Option Obj) (p : Ptr) (o : Option Obj)
    → (is_device (f p) ≡ true → is_device o ≡ true)
    → (is_pages (f p) ≡ true → is_pages o ≡ true)
    → pages_of o ≡ 0
    → bars_fit o ≡ true
    → Change f (update f p o)
update-Change f p o dev pag obj fit = record {
  keep_device = λ q live. elim (Bool-cases (p == q)) [
    | inl e ↦ rw e (dev (rw (==-eq p q e) live))
    | inr c ↦ rw c live
  ];
  keep_pages = λ q live. elim (Bool-cases (p == q)) [
    | inl e ↦ rw e (pag (rw (==-eq p q e) live))
    | inr c ↦ rw c live
  ];
  keep_fits = λ q old. elim (Bool-cases (p == q)) [ inl e ↦ rw e fit | inr c ↦ rw c old ];
  no_object = λ q. elim (Bool-cases (p == q)) [ inl e ↦ rw e (inl obj) | inr c ↦ rw c (inr refl) ];
}
