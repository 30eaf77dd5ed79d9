-- ===== src/Open/RoundTrip.antt =====
-- Filling a device and freeing it, and the mappings.
use crono_pci_linux.Base.{
  ℕ, zero, suc, ◌≤◌, ◌≡◌, ◌≢◌, refl, ap, ◌∙◌, ◌⊎◌, inl, inr, none, some, Option, subst, sym, ◌<◌,
  List, [], ◌∷◌, ◌++◌, append_assoc, length, take, take-get_or, get_or, ==-refl, arith,
}
use crono_pci_linux.Types.{Ptr, Obj, Device, device, zero_device, BarDesc, zero_bar, success}
use crono_pci_linux.Os.{Os, drop_map}
use crono_pci_linux.Machine.{Process}
use crono_pci_linux.Machine.Returns
use crono_pci_linux.Machine.Returns.{Returns, returned}
use crono_pci_linux.Machine.Heap.{ne_false}
use crono_pci_linux.Bars.Found.{regions}
use crono_pci_linux.Bars.Fill.{Filled, FillPost, FitsLink, fill_device_bar_descriptions-Returns}
use crono_pci_linux.Bars.{fill_device_bar_descriptions}
use crono_pci_linux.Device.Handle.{Holds}
use crono_pci_linux.Table.{free_device_mem}
use crono_pci_linux.Table.Unmap.{drop_regions, OnlyDevice}
use crono_pci_linux.Table.Release.{InSlot, free_device_mem-Returns}

-- No address in the list is this one.
abbrev pub Away : ℕ → List BarDesc → Type 0
Away a [] = Unit {0}
Away a (b ∷ bs) = (b.user_address ≢ a) × Away a bs

-- The addresses are not 0, and no two are the same.
abbrev pub Apart : List BarDesc → Type 0
Apart [] = Unit {0}
Apart (b ∷ bs) = (b.user_address ≢ 0) × Away b.user_address bs × Apart bs

-- The regions of some descriptions, the last first.
abbrev regions_of : List BarDesc → List (ℕ × ℕ)
regions_of [] = []
regions_of (b ∷ bs) = regions_of bs ++ (b.user_address, b.length) ∷ []

regions_of-snoc :
    (bs : List BarDesc) (b : BarDesc)
    → regions_of (bs ++ b ∷ []) ≡ (b.user_address, b.length) ∷ regions_of bs
regions_of-snoc [] b = refl
regions_of-snoc (c ∷ bs) b = ap (λ xs. xs ++ (c.user_address, c.length) ∷ []) (regions_of-snoc bs b)

regions-regions_of :
    (n : ℕ) (descs : List BarDesc) → n ≤ length descs → regions n descs ≡ regions_of (take n descs)
unfolding regions
regions-regions_of zero descs h = refl
regions-regions_of (suc n) descs h =
    let b = get_or descs n zero_bar in
    rw (take-get_or descs n zero_bar (omega arith), regions_of-snoc (take n descs) b)
      (ap (◌∷◌ (b.user_address, b.length)) (regions-regions_of n descs (omega arith)))

-- No region starts at the address.
abbrev Elsewhere : ℕ → List (ℕ × ℕ) → Type 0
Elsewhere a [] = Unit {0}
Elsewhere a ((b, m) ∷ xs) = (b ≢ a) × Elsewhere a xs

Elsewhere-snoc :
    (a b m : ℕ) (xs : List (ℕ × ℕ)) → Elsewhere a xs → b ≢ a → Elsewhere a (xs ++ (b, m) ∷ [])
Elsewhere-snoc a b m [] h ne = (ne, tt)
Elsewhere-snoc a b m ((c, k) ∷ xs) (first, h) ne = (first, Elsewhere-snoc a b m xs h ne)

Away-Elsewhere : (a : ℕ) (bs : List BarDesc) → Away a bs → Elsewhere a (regions_of bs)
Away-Elsewhere a [] h = tt
Away-Elsewhere a (b ∷ bs) (ne, h) =
    Elsewhere-snoc a b.user_address b.length (regions_of bs) (Away-Elsewhere a bs h) ne

drop_map-Elsewhere :
    (a n : ℕ) (xs maps : List (ℕ × ℕ))
    → Elsewhere a xs
    → drop_map a n (xs ++ (a, n) ∷ maps) ≡ xs ++ maps
drop_map-Elsewhere a n [] maps h = rw (==-refl a, ==-refl n)
drop_map-Elsewhere a n ((b, m) ∷ xs) maps (ne, h) =
    rw (ne_false b a ne) (ap (◌∷◌ (b, m)) (drop_map-Elsewhere a n xs maps h))

drop_regions-regions_of :
    (bs : List BarDesc) (maps : List (ℕ × ℕ))
    → Apart bs
    → drop_regions bs (regions_of bs ++ maps) ≡ maps
unfolding drop_regions
drop_regions-regions_of [] maps h = refl
drop_regions-regions_of (b ∷ bs) maps (ne, away, h) = rw (ne_false b.user_address 0 ne) (
    ap (λ xs. drop_regions bs (drop_map b.user_address b.length xs))
      (append_assoc (regions_of bs) ((b.user_address, b.length) ∷ []) maps)
    ∙ ap (drop_regions bs) (
        drop_map-Elsewhere b.user_address b.length (regions_of bs) maps
          (Away-Elsewhere b.user_address bs away))
    ∙ drop_regions-regions_of bs maps h)

free_device_mem-Filled :
    {W : Type 0} (os : Os W) (i : ℕ) (p : Ptr) (d : Device) (s t : Process W) (ret : ℕ)
    → (f : Filled os p d s ret t) → Apart (take f.count f.descs)
    → InSlot i p (record d { bar_descs = f.descs; bar_count = f.count }) t
    → Returns
        (λ code u.
          ((code ≡ success) × (u.maps ≡ s.maps) × (u.cells p ≡ none))
          ⊎ ((code ≡ u.errno) × OnlyDevice p t u))
        (free_device_mem os p t)
free_device_mem-Filled os i p d s t ret f apart tracked =
    let count = f.at_most_six in
    let six = f.six in
    let maps : t.maps ≡ regions_of (take f.count f.descs) ++ s.maps =
      f.mapped ∙ ap (λ xs. xs ++ s.maps) (regions-regions_of f.count f.descs (omega arith)) in
    Returns.mono
      (free_device_mem-Returns os i p (record d { bar_descs = f.descs; bar_count = f.count }) t
        tracked)
      λ code u post. elim post [
        | inl c ↦ inl (
          c.code,
          c.mapped
              ∙ ap (drop_regions (take f.count f.descs)) maps
              ∙ drop_regions-regions_of (take f.count f.descs) s.maps apart,
          c.gone,
        )
        | inr e ↦ inr e
      ]

abbrev device_of : Option Obj → Device
device_of (some (device d)) = d
device_of _ = zero_device

-- Freeing a device behind a fill of it, which had no descriptions and a link whose text fits the
-- buffer, returns, when the fill reported success and gave the device descriptions whose addresses
-- are distinct and not 0, and when the device is then in exactly one slot of the table below the
-- count, and the count is below the length of the table. Either freeing succeeds, the mappings are
-- those from before the fill, and the device is gone; or the code is `errno`, and the device is
-- still there.
pub free_device_mem-fill_device_bar_descriptions :
    {W : Type 0} (os : Os W) (i : ℕ) (p : Ptr) (d d' : Device) (s t : Process W)
    → Holds p d s
    → d.bar_count ≡ 0
    → FitsLink os d.pci_slot s.world
    → fill_device_bar_descriptions os p s ≡ some (success, t)
    → InSlot i p d' t
    → 0 < d'.bar_count
    → Apart (take d'.bar_count d'.bar_descs)
    → Returns
        (λ code u.
          ((code ≡ success) × (u.maps ≡ s.maps) × (u.cells p ≡ none))
          ⊎ ((code ≡ u.errno) × OnlyDevice p t u))
        (free_device_mem os p t)
free_device_mem-fill_device_bar_descriptions os i p d d' s t holds empty fits run slot some_ apart =
    let now : t.cells p ≡ some (device d') = slot.holds.cell in
    elim (returned (
      subst (Returns (FillPost os p d s)) run
        (fill_device_bar_descriptions-Returns os holds empty fits))) [
          | inl f ↦
              let filled : Device = record d { bar_descs = f.descs; bar_count = f.count } in
              let there : t.cells p ≡ some (device filled) = ap (λ c. c p) f.stored ∙ rw ==-refl in
              let is : d' ≡ filled = ap device_of (sym now ∙ there) in
              free_device_mem-Filled os i p d s t success f
                (subst (λ x. Apart (take x.bar_count x.bar_descs)) is apart)
                (subst (λ x. InSlot i p x t) is slot)
          | inr f ↦
              let same : d' ≡ d =
                ap device_of (sym now ∙ ap (λ c. c p) f.failed.rest.cells ∙ holds.cell) in
              absurd (omega (arith, ap (λ x. x.bar_count) same))
        ]
