-- ===== src/Valid/Slots.antt =====
-- What adding and freeing devices does to the table.
use crono_pci_linux.Base.{
  ℕ, ◌+◌, ◌≤◌, ◌<◌, ◌≡◌, ◌≢◌, refl, sym, ◌∙◌, ◌⊎◌, inl, inr, true, false, Option, none, List, ◌==◌,
  ==-eq, ==-ne, Bool-cases, length-set, get_or, set, get_or-set_self, get_or-set_other,
  get_or-set_cases, arith,
}
use crono_pci_linux.Types.{Ptr, Obj}
use crono_pci_linux.Os.{update}
use crono_pci_linux.Valid.{WellFormed, is_device, is_pages, pages_of, device_pages}

module _ {f : Ptr → Option Obj} {devices : List Ptr} {n : ℕ} (h : WellFormed f devices n) where
  pub fewer-WellFormed : (m : ℕ) → m ≤ n → WellFormed f devices m
  fewer-WellFormed m less = record {
    eight = h.eight;
    counted = let c = h.counted in omega arith;
    tracked = λ j low. h.tracked j (omega arith);
    apart = λ j k low low'. h.apart j k (omega arith) (omega arith);
    pages = h.pages;
    pages_apart = h.pages_apart;
    fits = h.fits;
  }

  -- A device that no slot holds is put into the next slot.
  pub add-WellFormed :
      (p : Ptr)
      → n < 8
      → is_device (f p) ≡ true
      → ((j : ℕ) → j < n → get_or devices j 0 ≢ p)
      → WellFormed f (set devices n p) (n + 1)
  add-WellFormed p room live out = record {
    eight = length-set devices n p ∙ h.eight;
    counted = omega arith;
    tracked = λ j low. elim (Bool-cases (j == n)) [
      | inl e ↦ rw (==-eq j n e, here) λ _. live
      | inr c ↦ rw (old j (==-ne j n c)) (h.tracked j (let ne = ==-ne j n c in omega arith))
    ];
    apart = λ j k low low'. elim (Bool-cases (j == n)) [
      | inl e ↦
          rw (==-eq j n e, here)
            (elim (Bool-cases (k == n)) [
              | inl e' ↦ λ _ _. sym (==-eq k n e')
              | inr c ↦
                  rw (old k (==-ne k n c))
                    λ _ same. absurd (out k (let ne = ==-ne k n c in omega arith) (sym same))
            ])
      | inr c ↦ rw (old j (==-ne j n c)) (elim (Bool-cases (k == n)) [
        | inl e' ↦
            rw (==-eq k n e', here)
              λ _ same. absurd (out j (let ne = ==-ne j n c in omega arith) same)
        | inr c' ↦ rw (old k (==-ne k n c')) (
            h.apart j k (let ne = ==-ne j n c in omega arith)
              (let ne = ==-ne k n c' in omega arith))
      ])
    ];
    pages = h.pages;
    pages_apart = h.pages_apart;
    fits = h.fits;
  }
    where
      here : get_or (set devices n p) n 0 ≡ p
      here = get_or-set_self devices n p 0 (let e = h.eight in omega arith)

      old : (j : ℕ) → j ≢ n → get_or (set devices n p) j 0 ≡ get_or devices j 0
      old j ne = get_or-set_other devices j n p 0 ne

  -- A device that no counted slot holds is freed.
  pub free-WellFormed :
      (p : Ptr)
      → is_device (f p) ≡ true
      → ((j : ℕ) → j < n → get_or devices j 0 ≢ p)
      → WellFormed (update f p none) devices n
  free-WellFormed p live out = record {
    eight = h.eight;
    counted = h.counted;
    tracked = λ j low used.
        let c : (p == get_or devices j 0) ≡ false = let o = out j low in ground arith in
        rw c (h.tracked j low used);
    apart = h.apart;
    pages = λ q. elim (Bool-cases (p == q)) [
      | inl e ↦ rw e λ used. absurd (used refl)
      | inr c ↦
          rw c λ used. let there = h.pages q used in rw (no_pages (pages_of (f q)) there) there
    ];
    pages_apart = λ q r. elim (Bool-cases (p == q)) [
      | inl e ↦ rw e λ used. absurd (used refl)
      | inr c ↦ rw c (elim (Bool-cases (p == r)) [
        | inl e ↦ rw e λ used same. absurd (used same)
        | inr c' ↦ rw c' (h.pages_apart q r)
      ])
    ];
    fits = λ q. elim (Bool-cases (p == q)) [ inl e ↦ rw e refl | inr c ↦ rw c (h.fits q) ];
  }
    where
      no_pages : (q : Ptr) → is_pages (f q) ≡ true → (p == q) ≡ false
      no_pages q there = elim (Bool-cases (p == q)) [
        | inl e ↦ absurd (device_pages (f p) live (rw (==-eq p q e) there))
        | inr c ↦ c
      ]

  -- A counted slot is reset.
  pub reset-WellFormed : (i : ℕ) → WellFormed f (set devices i 0) n
  reset-WellFormed i = record {
    eight = length-set devices i 0 ∙ h.eight;
    counted = h.counted;
    tracked =
        λ j low. elim (same j) [ inl z ↦ λ used. absurd (used z) | inr e ↦ rw e (h.tracked j low) ];
    apart = λ j k low low'. elim (same j) [
      | inl z ↦ λ used. absurd (used z)
      | inr e ↦ rw e (elim (same k) [
        | inl z ↦ λ used e'. absurd (used (e' ∙ z))
        | inr e' ↦ rw e' (h.apart j k low low')
      ])
    ];
    pages = h.pages;
    pages_apart = h.pages_apart;
    fits = h.fits;
  }
    where
      same :
          (j : ℕ)
          → (get_or (set devices i 0) j 0 ≡ 0) ⊎ (get_or (set devices i 0) j 0 ≡ get_or devices j 0)
      same j = get_or-set_cases devices i j 0 0

-- The device in a counted slot is freed, and the slot is reset.
pub drop-WellFormed :
    {f : Ptr → Option Obj} {devices : List Ptr} {n : ℕ} (i : ℕ) (p : Ptr)
    → WellFormed f devices n
    → i < n
    → p ≢ 0
    → get_or devices i 0 ≡ p
    → is_device (f p) ≡ true
    → WellFormed (update f p none) (set devices i 0) n
drop-WellFormed {f} {devices} {n} i p h low set_ here live =
    free-WellFormed (reset-WellFormed h i) p live λ j low'. elim (Bool-cases (j == i)) [
      | inl e ↦
          rw
            (
              ==-eq j i e,
              get_or-set_self devices i 0 0 (let e = h.eight in let c = h.counted in omega arith),
            )
            λ z. set_ (sym z)
      | inr c ↦
          rw (get_or-set_other devices j i 0 0 (==-ne j i c))
            λ same. ==-ne j i c (h.apart j i low' low (λ z. set_ (sym same ∙ z)) (same ∙ sym here))
    ]
