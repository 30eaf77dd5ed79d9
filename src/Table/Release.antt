-- ===== src/Table/Release.antt =====
-- `freeDeviceMem`, which closing a device ends in.
use crono_pci_linux.Base.{
  ℕ, zero, suc, ◌+◌, ◌≤◌, ◌<◌, ◌≡◌, ◌≢◌, refl, ap, sym, ◌∙◌, ◌⊎◌, inl, inr, true, false, Option,
  none, some, ◌==◌, ==-eq, ==-ne, ==-refl, length, subst, length-set, get_or, get_or-set_other, set,
  take, get_elem?-get_or, Bool-cases, arith,
}
use crono_pci_linux.Types.{Ptr, Device, device, success}
use crono_pci_linux.Os.{Os, is_live, update}
use crono_pci_linux.Machine.{Process, M, pure, ◌>>=◌, write}
use crono_pci_linux.Machine.Returns
use crono_pci_linux.Machine.Returns.{Returns, returns}
use crono_pci_linux.Device.Handle.{Holds, not_null, read_device-Holds}
use crono_pci_linux.Table.{
  shrink, shrink_table, slot_at, unmap_bars, finish_release, release_slot, release_slots,
  finish_free, free_device_mem,
}
use crono_pci_linux.Table.Shrink.{Shrunk, shrink-Shrunk}
use crono_pci_linux.Table.Free.{slot, drop_slot-run}
use crono_pci_linux.Table.Unmap.{drop_regions, OnlyDevice, Unmapped, unmap_bars-Unmapped}

module _ {W : Type 0} where
  -- The device `d` at `p` is gone with its regions and its slot `i`, and nothing else.
  pub record Released (i : ℕ) (p : Ptr) (d : Device) (s s' : Process W) : Type 0 where
    pub gone : s'.cells p ≡ none
    pub others : (q : Ptr) → p ≢ q → s'.cells q ≡ s.cells q
    pub slots : s'.devices ≡ set s.devices i 0
    pub mapped : s'.maps ≡ drop_regions (take d.bar_count d.bar_descs) s.maps
    pub same_fds : s'.fds ≡ s.fds
    pub same_dirs : s'.dirs ≡ s.dirs
    pub same_count : s'.i_new_dev ≡ s.i_new_dev

  abbrev pub ReleasePost : ℕ → Ptr → Device → Process W → Option ℕ → Process W → Type 0
  ReleasePost i p d s none s' = Released i p d s s'
  ReleasePost i p d s (some err) s' = (err ≡ s'.errno) × OnlyDevice p s s'

  -- After success the device is gone, and the count is the index of the last slot in use, or 0.
  -- Otherwise the device is still there, and the code is `errno`.
  pub record Closed (i : ℕ) (p : Ptr) (d : Device) (s : Process W) (ret : ℕ) (s' : Process W)
      : Type 0 where
    pub code : ret ≡ success
    pub gone : s'.cells p ≡ none
    pub others : (q : Ptr) → p ≢ q → s'.cells q ≡ s.cells q
    pub slots : s'.devices ≡ set s.devices i 0
    pub mapped : s'.maps ≡ drop_regions (take d.bar_count d.bar_descs) s.maps
    pub same_fds : s'.fds ≡ s.fds
    pub same_dirs : s'.dirs ≡ s.dirs
    pub count : Shrunk s.i_new_dev (set s.devices i 0) s'.i_new_dev

  -- The device `d` at `p` is in the slot `i`, and in no other below the count, which is an index of
  -- the table.
  pub record InSlot (i : ℕ) (p : Ptr) (d : Device) (s : Process W) : Type 0 where
    pub holds : Holds p d s
    pub bars : d.bar_count ≤ length d.bar_descs
    pub here : slot s i ≡ p
    pub counted : i < s.i_new_dev
    pub room : s.i_new_dev < length s.devices
    pub once : (j : ℕ) → j < s.i_new_dev → slot s j ≡ p → j ≡ i

  abbrev pub FreePost : ℕ → Ptr → Device → Process W → ℕ → Process W → Type 0
  FreePost i p d s ret s' = Closed i p d s ret s' ⊎ ((ret ≡ s'.errno) × OnlyDevice p s s')

module _ {W : Type 0} (os : Os W) where
  finish_release-Returns :
      (i : ℕ) (p : Ptr) (d : Device) (s : Process W)
      → i < length s.devices
      → slot s i ≡ p
      → (r : Option ℕ) (u : Process W) → Unmapped (take d.bar_count d.bar_descs) p s r u
      → Returns (ReleasePost i p d s) (finish_release os i p r u)
  unfolding finish_release write
  finish_release-Returns i p d s room here none u h =
      let only = h.device_only in
      let live : is_live (u.cells p) ≡ true = rw only.holds.cell in
      let t : Process W = record u {
        cells = update u.cells p (some (device (record only.new { bar_count = 0 })));
      } in
      let at_i : slot t i ≡ p = ap (λ ds. get_or ds i 0) only.same_devices ∙ here in
      let drop =
        drop_slot-run i t (rw only.same_devices room) (rw at_i only.holds.ne_null)
          (rw (at_i, ==-refl) refl) in
      rw (read_device-Holds only.holds, ◌>>=◌, not_null only.holds, live, drop, at_i)
        (returns (record {
          gone = rw ==-refl;
          others =
              λ q ne. let other : (p == q) ≡ false = ground arith in rw other (only.others q ne);
          slots = ap (λ ds. set ds i 0) only.same_devices;
          mapped = h.outcome;
          same_fds = only.same_fds;
          same_dirs = only.same_dirs;
          same_count = only.same_count;
        }))
  finish_release-Returns i p d s room here (some err) u h = returns (h.outcome, h.device_only)

  release_slot-Returns :
      (i : ℕ) (p : Ptr) (d : Device) (s : Process W)
      → Holds p d s
      → d.bar_count ≤ length d.bar_descs
      → i < length s.devices
      → slot s i ≡ p
      → Returns (ReleasePost i p d s) (release_slot os i p s)
  unfolding release_slot
  release_slot-Returns i p d s h bars room here =
      rw (read_device-Holds h, ◌>>=◌)
        (Returns.bind (unmap_bars os d.bar_count 0 p) (finish_release os i p) s
          (unmap_bars-Unmapped os d.bar_count 0 p d s h (omega arith))
          (finish_release-Returns i p d s room here))

  -- Slots that hold another device are left alone.
  skip_slots :
      (rounds i : ℕ) (p : Ptr) (s : Process W)
      → i + rounds ≤ length s.devices
      → ((j : ℕ) → i ≤ j → j < i + rounds → slot s j ≢ p)
      → release_slots os rounds i p s ≡ some (none, s)
  unfolding release_slots slot_at
  skip_slots zero i p s room out = refl
  skip_slots (suc rounds) i p s room out =
      let here = get_elem?-get_or s.devices i 0 (omega arith) in
      let apart = out i (omega arith) (omega arith) in
      let other : (p == slot s i) ≡ false = ground arith in
      rw (here, ◌>>=◌, other)
        (skip_slots rounds (i + 1) p s (omega arith)
          λ j low high. out j (omega arith) (omega arith))

  -- Behind the slot that is released no other holds `p`.
  then_skip :
      (rounds k i : ℕ) (p : Ptr) (d : Device) (s : Process W)
      → k + suc rounds ≤ length s.devices
      → k ≡ i
      → ((j : ℕ) → j < k + suc rounds → slot s j ≡ p → j ≡ i)
      → (r : Option ℕ) (u : Process W) → ReleasePost i p d s r u
      → Returns (ReleasePost i p d s) (
          elim r as (λ _. M W (Option ℕ)) [
            | some err ↦ pure (some err)
            | none ↦ release_slots os rounds (k + 1) p
          ]
            u)
  then_skip rounds k i p d s room e once (some err) u h = returns h
  then_skip rounds k i p d s room e once none u h =
      let size : length u.devices ≡ length s.devices =
        ap length h.slots ∙ length-set s.devices i 0 in
      rw
        (skip_slots rounds (k + 1) p u (omega arith) λ j low high same.
          let ne : j ≢ i = omega arith in
          ne (
            once j (omega arith) (
              sym (ap (λ ds. get_or ds j 0) h.slots ∙ get_or-set_other s.devices j i 0 0 ne)
              ∙ same)))
        (returns h)

  -- The slot `i` is the only one of those looked at that holds `p`.
  release_slots-Returns :
      (rounds k i : ℕ) (p : Ptr) (d : Device) (s : Process W)
      → Holds p d s
      → d.bar_count ≤ length d.bar_descs
      → k + rounds ≤ length s.devices
      → k ≤ i
      → i < k + rounds
      → slot s i ≡ p
      → ((j : ℕ) → j < k + rounds → slot s j ≡ p → j ≡ i)
      → Returns (ReleasePost i p d s) (release_slots os rounds k p s)
  unfolding release_slots slot_at
  release_slots-Returns zero k i p d s h bars room low high here once = absurd (omega arith)
  release_slots-Returns (suc rounds) k i p d s h bars room low high here once =
      let at_k = get_elem?-get_or s.devices k 0 (omega arith) in
      rw (at_k, ◌>>=◌)
        (elim (Bool-cases (p == slot s k)) [
          | inl same ↦
              let e : k ≡ i = once k (omega arith) (sym (==-eq p (slot s k) same)) in
              rw same (
                Returns.bind (release_slot os k p) _ s
                  (release_slot-Returns k p d s h bars (omega arith)
                    (sym (==-eq p (slot s k) same)))
                  (subst
                    (λ m.
                      (r : Option ℕ) (u : Process W)
                      → ReleasePost m p d s r u
                      → Returns (ReleasePost i p d s) (
                          elim r as (λ _. M W (Option ℕ)) [
                            | some err ↦ pure (some err)
                            | none ↦ release_slots os rounds (k + 1) p
                          ]
                            u))
                    (sym e) (then_skip rounds k i p d s room e once)))
          | inr other ↦ rw other (
              let apart = ==-ne p (slot s k) other in
              let ne : k ≢ i = λ e. apart (sym (ap (slot s) e ∙ here)) in
              release_slots-Returns rounds (k + 1) i p d s h bars (omega arith) (omega arith)
                (omega arith) here λ j bound. once j (omega arith))
        ])

  finish_free-Returns :
      (i : ℕ) (p : Ptr) (d : Device) (s : Process W)
      → s.i_new_dev < length s.devices
      → (r : Option ℕ) (u : Process W) → ReleasePost i p d s r u
      → Returns (FreePost i p d s) (finish_free r u)
  unfolding finish_free shrink_table
  finish_free-Returns i p d s room none u h =
      let (k, run, shrunk) =
        shrink-Shrunk s.i_new_dev (set s.devices i 0) (omega (arith, length-set s.devices i 0)) in
      let run' : shrink u.i_new_dev u.devices ≡ some k = rw (h.same_count, h.slots) run in
      rw (run', ◌>>=◌)
        (returns (
          inl (record {
            code = refl;
            gone = h.gone;
            others = h.others;
            slots = h.slots;
            mapped = h.mapped;
            same_fds = h.same_fds;
            same_dirs = h.same_dirs;
            count = shrunk;
          })))
  finish_free-Returns i p d s room (some err) u (code, only) = returns (inr (code, only))

  pub free_device_mem-Returns :
      (i : ℕ) (p : Ptr) (d : Device) (s : Process W)
      → InSlot i p d s
      → Returns (FreePost i p d s) (free_device_mem os p s)
  unfolding free_device_mem
  free_device_mem-Returns i p d s h =
      let room = h.room in
      let counted = h.counted in
      Returns.bind (release_slots os s.i_new_dev 0 p) finish_free s
        (release_slots-Returns s.i_new_dev 0 i p d s h.holds h.bars (omega arith) (omega arith)
          (omega arith) h.here λ j low. h.once j (omega arith))
        (finish_free-Returns i p d s h.room)
