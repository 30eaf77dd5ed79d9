-- ===== src/Table/Free.antt =====
-- `freeDevicesMem`, which runs when the library is unloaded.
use crono_pci_linux.Base.{
  ℕ, zero, suc, ◌+◌, ◌≤◌, ◌<◌, ◌≡◌, ◌≢◌, refl, ◌⊎◌, ap, sym, ◌∙◌, subst, get_or-set_self,
  get_or-set_other, ==-refl, inl, inr, true, false, none, some, ◌==◌, ==-eq, ==-ne, length,
  length-set, get_or, set, get_elem?-get_or, Bool-cases, arith,
}
use crono_pci_linux.Types.{Ptr}
use crono_pci_linux.Os.{is_live, update}
use crono_pci_linux.Machine.{Process, ◌>>=◌, free}
use crono_pci_linux.Machine.Returns
use crono_pci_linux.Machine.Returns.{Returns, returns}
use crono_pci_linux.Table.{slot_at, set_slot, drop_slot, free_slots, free_devices_mem, on_unload}

module _ {W : Type 0} where
  -- What the slot `j` holds.
  abbrev pub slot : Process W → ℕ → Ptr
  slot s j = get_or s.devices j 0

  -- The slots from `i` to `n` are free, or hold blocks that are live and pairwise distinct.
  pub record Tracks (i n : ℕ) (s : Process W) : Type 0 where
    pub room : n ≤ length s.devices
    pub live : (j : ℕ) → i ≤ j → j < n → slot s j ≢ 0 → is_live (s.cells (slot s j)) ≡ true
    pub distinct : (j k : ℕ) → i ≤ j → j < k → k < n → slot s j ≢ 0 → slot s j ≢ slot s k

  -- The blocks of the slots from `i` to `n` are gone, no other is, and these slots are free.
  pub record Freed (i n : ℕ) (s s' : Process W) : Type 0 where
    pub gone : (j : ℕ) → i ≤ j → j < n → slot s j ≢ 0 → s'.cells (slot s j) ≡ none
    pub others : (p : Ptr) → ((j : ℕ) → i ≤ j → j < n → slot s j ≢ p) → s'.cells p ≡ s.cells p
    pub reset : (j : ℕ) → i ≤ j → j < n → slot s' j ≡ 0
    pub kept : (j : ℕ) → j < i ⊎ n ≤ j → slot s' j ≡ slot s j
    pub same_fds : s'.fds ≡ s.fds
    pub same_maps : s'.maps ≡ s.maps
    pub same_dirs : s'.dirs ≡ s.dirs

  Freed-none : (n : ℕ) (s : Process W) → Freed n n s s
  Freed-none n s = record {
    gone = λ j low high. absurd (omega arith);
    others = λ p free_. refl;
    reset = λ j low high. absurd (omega arith);
    kept = λ j out. refl;
    same_fds = refl;
    same_maps = refl;
    same_dirs = refl;
  }

  Tracks-skip : (i n : ℕ) (s : Process W) → Tracks i n s → Tracks (i + 1) n s
  Tracks-skip i n s t = record {
    room = t.room;
    live = λ j low high used. t.live j (omega arith) high used;
    distinct = λ j k low mid high used. t.distinct j k (omega arith) mid high used;
  }

  Freed-skip :
      (i n : ℕ) (s u : Process W) → i < n → slot s i ≡ 0 → Freed (i + 1) n s u → Freed i n s u
  Freed-skip i n s u room free_ f = record {
    gone = λ j low high used. f.gone j (after j low used) high used;
    others = λ p out. f.others p λ j low high. out j (omega arith) high;
    reset = λ j low high. elim (Bool-cases (j == i)) [
      | inl e ↦ rw (==-eq j i e) (f.kept i (inl (omega arith)) ∙ free_)
      | inr ne ↦ let other = ==-ne j i ne in f.reset j (omega arith) high
    ];
    kept = λ j out. f.kept j (widen j out);
    same_fds = f.same_fds;
    same_maps = f.same_maps;
    same_dirs = f.same_dirs;
  }
    where
      after : (j : ℕ) → i ≤ j → slot s j ≢ 0 → i + 1 ≤ j
      after j low used = elim (Bool-cases (j == i)) [
        | inl e ↦ absurd (used (ap (slot s) (==-eq j i e) ∙ free_))
        | inr ne ↦ let other = ==-ne j i ne in omega arith
      ]

      widen : (j : ℕ) → j < i ⊎ n ≤ j → j < i + 1 ⊎ n ≤ j
      widen j (inl a) = inl (omega arith)
      widen j (inr b) = inr b

  -- The state behind `free(devices[i])` and `devices[i] = nullptr`.
  abbrev pub dropped : ℕ → Process W → Process W
  dropped i s = record s { cells = update s.cells (slot s i) none; devices = set s.devices i 0 }

  slot-dropped : (i j : ℕ) (s : Process W) → i < j → slot (dropped i s) j ≡ slot s j
  slot-dropped i j s h = get_or-set_other s.devices j i 0 0 (omega arith)

  cells-dropped :
      (i : ℕ) (p : Ptr) (s : Process W) → slot s i ≢ p → (dropped i s).cells p ≡ s.cells p
  cells-dropped i p s ne = let other : (slot s i == p) ≡ false = ground arith in rw other

  Tracks-drop :
      (i n : ℕ) (s : Process W) → slot s i ≢ 0 → Tracks i n s → Tracks (i + 1) n (dropped i s)
  Tracks-drop i n s here t = record {
    room = let r = t.room in omega (arith, length-set s.devices i 0);
    live = λ j low high. rw (slot-dropped i j s (omega arith)) λ used.
        rw (cells-dropped i (slot s j) s (t.distinct i j (omega arith) (omega arith) high here))
          (t.live j (omega arith) high used);
    distinct = λ j k low mid high.
        rw (slot-dropped i j s (omega arith), slot-dropped i k s (omega arith))
          (t.distinct j k (omega arith) mid high);
  }

  Freed-drop :
      (i n : ℕ) (s u : Process W)
      → i < n
      → slot s i ≢ 0
      → Tracks i n s
      → Freed (i + 1) n (dropped i s) u
      → Freed i n s u
  Freed-drop i n s u room here t f = record {
    gone = λ j low high used. elim (Bool-cases (j == i)) [
      | inl e ↦ rw (==-eq j i e) (f.others (slot s i) own ∙ rw ==-refl)
      | inr ne ↦
          let other = ==-ne j i ne in
          let same = slot-dropped i j s (omega arith) in
          ap u.cells (sym same) ∙ f.gone j (omega arith) high (λ z. used (sym same ∙ z))
    ];
    others = λ p out.
        f.others p
          (λ j low high z. out j (omega arith) high (sym (slot-dropped i j s (omega arith)) ∙ z))
        ∙ cells-dropped i p s (out i (omega arith) room);
    reset = λ j low high. elim (Bool-cases (j == i)) [
      | inl e ↦ rw (==-eq j i e) (
          f.kept i (inl (omega arith))
          ∙ get_or-set_self s.devices i 0 0 (let r = t.room in omega arith))
      | inr ne ↦ let other = ==-ne j i ne in f.reset j (omega arith) high
    ];
    kept = λ j out. f.kept j (widen j out) ∙ get_or-set_other s.devices j i 0 0 (apart j out);
    same_fds = f.same_fds;
    same_maps = f.same_maps;
    same_dirs = f.same_dirs;
  }
    where
      own : (j : ℕ) → i + 1 ≤ j → j < n → slot (dropped i s) j ≢ slot s i
      own j low high z =
          t.distinct i j (omega arith) (omega arith) high here
            (sym z ∙ slot-dropped i j s (omega arith))

      widen : (j : ℕ) → j < i ⊎ n ≤ j → j < i + 1 ⊎ n ≤ j
      widen j (inl a) = inl (omega arith)
      widen j (inr b) = inr b

      apart : (j : ℕ) → j < i ⊎ n ≤ j → j ≢ i
      apart j (inl a) e = absurd (omega arith)
      apart j (inr b) e = absurd (omega arith)

  pub drop_slot-run :
      (i : ℕ) (s : Process W)
      → i < length s.devices
      → slot s i ≢ 0
      → is_live (s.cells (slot s i)) ≡ true
      → drop_slot i s ≡ some (tt, dropped i s)
  unfolding drop_slot slot_at set_slot free
  drop_slot-run i s room used live =
      let here = get_elem?-get_or s.devices i 0 room in
      let ne : (slot s i == 0) ≡ false = ground arith in rw (here, ◌>>=◌, ne, live, set_slot, here)

  free_slots-Freed :
      (rounds i n : ℕ) (s : Process W)
      → i + rounds ≡ n
      → Tracks i n s
      → Returns (λ _ s'. Freed i n s s') (free_slots rounds i s)
  unfolding free_slots slot_at drop_slot set_slot free
  free_slots-Freed zero i n s e t =
      returns (subst (λ m. Freed i m s s) (omega arith) (Freed-none i s))
  free_slots-Freed (suc rounds) i n s e t =
      let p = slot s i in
      let room = t.room in
      let here = get_elem?-get_or s.devices i 0 (omega arith) in
      rw (here, ◌>>=◌)
        (elim (Bool-cases (p == 0)) [
          | inl free_ ↦ rw free_ (
              Returns.mono (free_slots-Freed rounds (i + 1) n s (omega arith) (Tracks-skip i n s t))
                λ _ u f. Freed-skip i n s u (omega arith) (==-eq p 0 free_) f)
          | inr used ↦
              let ne = ==-ne p 0 used in
              let live = t.live i (omega arith) (omega arith) ne in
              rw (used, drop_slot-run i s (omega arith) ne live, ◌>>=◌)
                (Returns.mono
                  (free_slots-Freed rounds (i + 1) n (dropped i s) (omega arith)
                    (Tracks-drop i n s ne t))
                  λ _ u f. Freed-drop i n s u (omega arith) ne t f)
        ])

  -- Unloading the library frees the blocks of all slots below `iNewDev`, resets these slots and the
  -- count, and frees nothing else, if the slots hold pairwise distinct live blocks or NULL. The
  -- descriptors and the mappings of these devices stay.
  pub on_unload-Freed :
      (s : Process W)
      → Tracks 0 s.i_new_dev s
      → Returns (λ _ s'. Freed 0 s.i_new_dev s s' × (s'.i_new_dev ≡ 0)) (on_unload s)
  unfolding on_unload free_devices_mem
  on_unload-Freed s t =
      Returns.bind (free_slots s.i_new_dev 0) _ s
        (free_slots-Freed s.i_new_dev 0 s.i_new_dev s (omega arith) t)
        λ _ u f. returns (
          record {
            gone = f.gone;
            others = f.others;
            reset = f.reset;
            kept = f.kept;
            same_fds = f.same_fds;
            same_maps = f.same_maps;
            same_dirs = f.same_dirs;
          },
          refl,
        )
