-- ===== src/Table/Keeps.antt =====
-- Freeing devices keeps the heap and the table well-formed.
use crono_pci_linux.Base.{
  ℕ, zero, suc, ◌+◌, ◌≤◌, ◌<◌, ◌≡◌, ◌≢◌, refl, sym, ◌∙◌, inl, inr, true, Option, none, some, List,
  ◌==◌, ==-eq, ==-ne, ==-refl, Bool-cases, Option-cases, get_elem?, get_elem?-get_or, get_or,
  length, length-set, set, if◌then◌else◌, arith,
}
use crono_pci_linux.Types.{Ptr, Obj, Device, device}
use crono_pci_linux.Os.{Os, update}
use crono_pci_linux.Machine.{Process, ◌>>=◌, free, pure, write}
use crono_pci_linux.Machine.Keeps.{
  Keeps, Predicate, At, Ends, stuck, ends, Ends-bind, Leads-bind, Keeps-pure, Leads-branch,
  Leads-reply, Leads-option, Leads-undefined, Keeps-get_errno, Keeps-munmap,
}
use crono_pci_linux.Device.Keeps.{Rewrites, write_device-Keeps, read_device-Keeps, read_device-Ends}
use crono_pci_linux.Valid.{
  WellFormed, device-fits, Change-WellFormed, update-Change, is_device, device_pages, device_live,
}
use crono_pci_linux.Valid.Slots.{drop-WellFormed, reset-WellFormed, fewer-WellFormed}
use crono_pci_linux.Device.{read_device}
use crono_pci_linux.Table.Free.{slot, drop_slot-run}
use crono_pci_linux.Table.{
  shrink, slot_at, set_slot, shrink_table, drop_slot, free_slots, free_devices_mem, on_unload,
  finish_free, unmap_bars, finish_release, release_slot, release_slots, free_device_mem,
}

-- The heap and the table are well-formed, and a device stands at `p`.
abbrev pub Live : Ptr → Predicate
Live p f ds n = WellFormed f ds n × (is_device (f p) ≡ true)

-- It is also in the slot `i` of the first `m`, which the count covers.
abbrev pub InTable : ℕ → ℕ → Ptr → Predicate
InTable i m p f ds n =
    WellFormed f ds n × (i < n) × (n ≡ m) × (get_or ds i 0 ≡ p) × (is_device (f p) ≡ true)

-- The count is `m`.
abbrev pub Counted : ℕ → Predicate
Counted m f ds n = WellFormed f ds n × (n ≡ m)

-- The slot `i` also holds `p`.
abbrev pub InSlotOf : ℕ → ℕ → Ptr → Predicate
InSlotOf i m p f ds n = Counted m f ds n × (get_or ds i 0 ≡ p)

pub device-WellFormed :
    (p : Ptr) (d : Device) {f : Ptr → Option Obj} {ds : List Ptr} {n : ℕ}
    → WellFormed f ds n
    → is_device (f p) ≡ true
    → d.bar_count ≤ length d.bar_descs
    → WellFormed (update f p (some (device d))) ds n
device-WellFormed p d {f} h live fit =
    Change-WellFormed
      (update-Change f p (some (device d)) (λ _. refl)
        (λ there. absurd (device_pages (f p) live there)) refl (ground arith))
      h

pub Live-Rewrites : (p : Ptr) → Rewrites (Live p) p
Live-Rewrites p f ds n d fit (h, live) = (device-WellFormed p d h live fit, rw ==-refl)

pub InTable-Rewrites : (i m : ℕ) (p : Ptr) → Rewrites (InTable i m p) p
InTable-Rewrites i m p f ds n d fit (h, low, e, here, live) =
    (device-WellFormed p d h live fit, low, e, here, rw ==-refl)

-- The device at `p` has no more BARs than descriptions.
abbrev Fits : Predicate → Ptr → Type 0
Fits I p =
    (f : Ptr → Option Obj) (ds : List Ptr) (n : ℕ) (d : Device)
    → I f ds n
    → f p ≡ some (device d)
    → d.bar_count ≤ length d.bar_descs

InTable-Fits : (i m : ℕ) (p : Ptr) → Fits (InTable i m p) p
InTable-Fits i m p f ds n d c at_p = device-fits c.0 p d at_p

module _ {W : Type 0} (os : Os W) {I : Predicate} where
  unmap_bars-Keeps :
      (rounds ibar : ℕ) (p : Ptr) → Rewrites I p → Fits I p → Keeps I (unmap_bars os rounds ibar p)
  unfolding unmap_bars
  unmap_bars-Keeps zero ibar p rewrites fits = Keeps-pure _
  unmap_bars-Keeps (suc rounds) ibar p rewrites fits = record {
    run = λ s i. Ends-bind (read_device p) _ s (read_device-Ends I p s i) λ d t (j, at_p).
        (Leads-option (get_elem? d.bar_descs ibar) Leads-undefined λ b.
            Leads-branch (b.user_address == 0) (unmap_bars-Keeps rounds (ibar + 1) p rewrites fits)
              (Leads-bind (Keeps-munmap os b.user_address b.length) λ unmapped.
                Leads-reply unmapped
                  (λ _.
                    let same = length-set d.bar_descs ibar (record b { user_address = 0 }) in
                    Leads-bind
                      (write_device-Keeps p rewrites
                        (record d {
                          bar_descs = set d.bar_descs ibar (record b { user_address = 0 });
                        })
                        (let fit = fits _ _ _ d j at_p in omega arith))
                      λ _. unmap_bars-Keeps rounds (ibar + 1) p rewrites fits)
                  λ _. Leads-bind Keeps-get_errno λ err. Keeps-pure (some err))).run
          t j;
  }

-- The loop at the end of `freeDeviceMem` does not raise the count.
shrink_le : (n : ℕ) (ds : List Ptr) (k : ℕ) → shrink n ds ≡ some k → k ≤ n
unfolding shrink
shrink_le zero ds k = λ e. ground arith
shrink_le (suc n) ds k = elim (Option-cases (get_elem? ds (suc n))) [
  | inl out ↦ rw (out, shrink) λ e. absurd (ground arith)
  | inr (p, at_p) ↦
      rw (at_p, shrink)
        (elim (Bool-cases (p == 0)) [
          | inl null ↦ rw null λ e. let less = shrink_le n ds k e in omega arith
          | inr used ↦ rw used λ e. ground arith
        ])
]

module _ {W : Type 0} where
  -- A slot below the count can be read.
  slot_at-Ends :
      (i m : ℕ) (s : Process W)
      → i < m
      → At (Counted m) s
      → Ends (λ p t. At (Counted m) t × (slot t i ≡ p)) (slot_at i s)
  unfolding slot_at
  slot_at-Ends i m s low (h, e) =
      let a = h.eight in
      let b = h.counted in
      rw (get_elem?-get_or s.devices i 0 (omega arith), slot_at) (ends ((h, e), refl))

  -- The slot of a device is freed and reset.
  drop_slot-Ends :
      (i m : ℕ) (s : Process W)
      → i < m
      → At (Counted m) s
      → (slot s i ≢ 0 → is_device (s.cells (slot s i)) ≡ true)
      → Ends (λ _ t. At (Counted m) t) (drop_slot i s)
  unfolding drop_slot slot_at set_slot free
  drop_slot-Ends i m s low (h, e) live =
      let a = h.eight in
      let b = h.counted in
      let here = get_elem?-get_or s.devices i 0 (omega arith) in
      elim (Bool-cases (slot s i == 0)) [
        | inl null ↦ rw (here, ◌>>=◌, null, set_slot, here) (ends (reset-WellFormed h i, e))
        | inr used ↦
            let ne = ==-ne (slot s i) 0 used in
            rw (drop_slot-run i s (omega arith) ne (device_live _ (live ne)))
              (ends (drop-WellFormed i (slot s i) h (omega arith) ne refl (live ne), e))
      ]

  free_slots-Keeps :
      (rounds i m : ℕ) → i + rounds ≤ m → Keeps {W = W} (Counted m) (free_slots rounds i)
  unfolding free_slots
  free_slots-Keeps zero i m room = Keeps-pure tt
  free_slots-Keeps (suc rounds) i m room = record {
    run = λ s c. Ends-bind (slot_at i) _ s (slot_at-Ends i m s (omega arith) c) λ p t (c', here).
        Ends-bind (if p == 0 then pure tt else drop_slot i) _ t (slot_freed p t c' here)
          λ _ u c''. (free_slots-Keeps rounds (i + 1) m (omega arith)).run u c'';
  }
    where
      slot_freed :
          (p : Ptr) (t : Process W)
          → At (Counted m) t
          → slot t i ≡ p
          → Ends (λ _ u. At (Counted m) u) ((if p == 0 then pure tt else drop_slot i) t)
      slot_freed p t c here = elim (Bool-cases (p == 0)) [
        | inl null ↦ rw null (ends c)
        | inr used ↦
            rw used
              (drop_slot-Ends i m t (omega arith) c λ ne. c.0.tracked i (rw c.1 (omega arith)) ne)
      ]

  pub on_unload-Keeps : Keeps {W = W} WellFormed on_unload
  unfolding on_unload free_devices_mem
  on_unload-Keeps = record {
    run = λ s h.
        Ends-bind (free_slots s.i_new_dev 0) _ s
          ((free_slots-Keeps s.i_new_dev 0 s.i_new_dev (omega arith)).run s (h, refl))
          λ _ t c. ends (fewer-WellFormed c.0 0 (omega arith));
  }

  finish_free-Ends :
      (m : ℕ) (r : Option ℕ) (s : Process W)
      → At (Counted m) s
      → Ends (λ _ t. At WellFormed t) (finish_free r s)
  unfolding finish_free shrink_table
  finish_free-Ends m (some err) s c = ends c.0
  finish_free-Ends m none s c = elim (Option-cases (shrink s.i_new_dev s.devices)) [
    | inl none_ ↦ rw (none_, ◌>>=◌) stuck
    | inr (k, e) ↦
        rw (e, ◌>>=◌) (ends (fewer-WellFormed c.0 k (shrink_le s.i_new_dev s.devices k e)))
  ]

module _ {W : Type 0} (os : Os W) where
  finish_release-Ends :
      (i m : ℕ) (p : Ptr) (r : Option ℕ) (s : Process W)
      → i < m
      → At (InTable i m p) s
      → Ends (λ _ t. At (Counted m) t) (finish_release os i p r s)
  unfolding finish_release
  finish_release-Ends i m p (some err) s low (h, _, e, _, _) = ends (h, e)
  finish_release-Ends i m p none s low c =
      Ends-bind (read_device p) _ s ((read_device-Keeps (InTable i m p) p).run s c) λ d t c'.
        Ends-bind (write p (device (record d { bar_count = 0 }))) _ t
          ((write_device-Keeps p (InTable-Rewrites i m p) (record d { bar_count = 0 })
              (omega arith)).run
            t c')
          λ _ u (h, low', e, here, live).
            Ends-bind (drop_slot i) _ u (drop_slot-Ends i m u low (h, e) λ _. rw here live)
              λ _ v c''. ends c''

  release_slot-Ends :
      (i m : ℕ) (p : Ptr) (s : Process W)
      → i < m
      → At (Counted m) s
      → slot s i ≡ p
      → Ends (λ _ t. At (Counted m) t) (release_slot os i p s)
  unfolding release_slot
  release_slot-Ends i m p s low c here =
      Ends-bind (read_device p) _ s (read_device-Ends (InSlotOf i m p) p s (c, here))
        λ d t (((h, e), here'), at_p).
          Ends-bind (unmap_bars os d.bar_count 0 p) _ t
            ((unmap_bars-Keeps os d.bar_count 0 p (InTable-Rewrites i m p) (InTable-Fits i m p)).run
              t (h, omega arith, e, here', rw at_p refl))
            λ r u. finish_release-Ends i m p r u low

  release_slots-Keeps :
      (rounds i m : ℕ) (p : Ptr) → i + rounds ≤ m → Keeps (Counted m) (release_slots os rounds i p)
  unfolding release_slots
  release_slots-Keeps zero i m p room = Keeps-pure none
  release_slots-Keeps (suc rounds) i m p room = record {
    run = λ s c. Ends-bind (slot_at i) _ s (slot_at-Ends i m s (omega arith) c) λ q t (c', here).
        elim (Bool-cases (p == q)) [
          | inr other ↦ rw other ((release_slots-Keeps rounds (i + 1) m p (omega arith)).run t c')
          | inl same ↦ rw same (
              Ends-bind (release_slot os i p) _ t
                (release_slot-Ends i m p t (omega arith) c' (here ∙ sym (==-eq p q same)))
                λ r u c''.
                  (Leads-option r (release_slots-Keeps rounds (i + 1) m p (omega arith))
                      λ err. Keeps-pure (some err)).run
                    u c'')
        ];
  }

  pub free_device_mem-Keeps : (p : Ptr) → Keeps WellFormed (free_device_mem os p)
  unfolding free_device_mem
  free_device_mem-Keeps p = record {
    run = λ s h.
        Ends-bind (release_slots os s.i_new_dev 0 p) _ s
          ((release_slots-Keeps s.i_new_dev 0 s.i_new_dev p (omega arith)).run s (h, refl))
          λ r t c. finish_free-Ends s.i_new_dev r t c;
  }
