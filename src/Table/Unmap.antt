-- ===== src/Table/Unmap.antt =====
-- The loop of `freeDeviceMem` that unmaps the BARs of a device.
use crono_pci_linux.Base.{
  ℕ, zero, suc, ◌+◌, ◌≤◌, ◌≡◌, ◌≢◌, refl, ap, ◌∙◌, inl, inr, true, false, Option, none, some, List,
  [], ◌∷◌, ◌==◌, ==-refl, if◌then◌else◌, length, subst, length-set, get_or, set, take, drop,
  drop-get_or, drop-set, get_elem?-get_or, Bool-cases, arith,
}
use crono_pci_linux.Types.{Ptr, Device, BarDesc, zero_bar, device}
use crono_pci_linux.Os.{Os, is_live, update, drop_map}
use crono_pci_linux.Machine.{Process, ◌>>=◌, write, munmap}
use crono_pci_linux.Machine.Frame.{Reply-cases}
use crono_pci_linux.Machine.Returns
use crono_pci_linux.Machine.Returns.{Returns, returns}
use crono_pci_linux.Device.Handle.{Holds, not_null, read_device-Holds}
use crono_pci_linux.Table.{unmap_bars}

-- The mappings without the regions of some descriptions, in their order.
unfoldable pub drop_regions : List BarDesc → List (ℕ × ℕ) → List (ℕ × ℕ)
drop_regions [] maps = maps
drop_regions (b ∷ bs) maps =
    drop_regions bs (if b.user_address == 0 then maps else drop_map b.user_address b.length maps)

module _ {W : Type 0} where
  -- Only the device at `p` changed: it still is one.
  pub record OnlyDevice (p : Ptr) (s s' : Process W) : Type 0 where
    pub new : Device
    pub holds : Holds p new s'
    pub others : (q : Ptr) → p ≢ q → s'.cells q ≡ s.cells q
    pub same_fds : s'.fds ≡ s.fds
    pub same_dirs : s'.dirs ≡ s.dirs
    pub same_devices : s'.devices ≡ s.devices
    pub same_count : s'.i_new_dev ≡ s.i_new_dev

  -- All regions are unmapped, or `errno` is given back.
  abbrev pub Outcome : List BarDesc → Process W → Option ℕ → Process W → Type 0
  Outcome bars s none s' = s'.maps ≡ drop_regions bars s.maps
  Outcome bars s (some err) s' = err ≡ s'.errno

  pub record Unmapped (bars : List BarDesc) (p : Ptr) (s : Process W) (r : Option ℕ)
      (s' : Process W) : Type 0 where
    pub device_only : OnlyDevice p s s'
    pub outcome : Outcome bars s r s'

  pub OnlyDevice-refl : (p : Ptr) (d : Device) (s : Process W) → Holds p d s → OnlyDevice p s s
  OnlyDevice-refl p d s h = record {
    new = d;
    holds = h;
    others = λ q ne. refl;
    same_fds = refl;
    same_dirs = refl;
    same_devices = refl;
    same_count = refl;
  }

  pub OnlyDevice-trans :
      {p : Ptr} {s t u : Process W} → OnlyDevice p s t → OnlyDevice p t u → OnlyDevice p s u
  OnlyDevice-trans f g = record {
    new = g.new;
    holds = g.holds;
    others = λ q ne. g.others q ne ∙ f.others q ne;
    same_fds = g.same_fds ∙ f.same_fds;
    same_dirs = g.same_dirs ∙ f.same_dirs;
    same_devices = g.same_devices ∙ f.same_devices;
    same_count = g.same_count ∙ f.same_count;
  }

  -- The device at `p` is overwritten.
  pub OnlyDevice-write :
      (p : Ptr) (d : Device) (s : Process W) (w : W) (e : ℕ) (maps : List (ℕ × ℕ))
      → p ≢ 0
      → OnlyDevice p s (record s {
        world = w;
        errno = e;
        maps = maps;
        cells = update s.cells p (some (device d));
      })
  OnlyDevice-write p d s w e maps ne = record {
    new = d;
    holds = record { ne_null = ne; cell = rw ==-refl };
    others = λ q other. let no : (p == q) ≡ false = ground arith in rw no;
    same_fds = refl;
    same_dirs = refl;
    same_devices = refl;
    same_count = refl;
  }

  -- A call that no device sees.
  OnlyDevice-call :
      (p : Ptr) (d : Device) (s : Process W) (w : W) (e : ℕ)
      → Holds p d s
      → OnlyDevice p s (record s { world = w; errno = e })
  OnlyDevice-call p d s w e h = record {
    new = d;
    holds = record { ne_null = h.ne_null; cell = h.cell };
    others = λ q ne. refl;
    same_fds = refl;
    same_dirs = refl;
    same_devices = refl;
    same_count = refl;
  }

  Unmapped-cons :
      (b : BarDesc) (bars : List BarDesc) (p : Ptr) (s t : Process W)
      → OnlyDevice p s t
      → t.maps ≡ (if b.user_address == 0 then s.maps else drop_map b.user_address b.length s.maps)
      → (r : Option ℕ) (u : Process W) → Unmapped bars p t r u
      → Unmapped (b ∷ bars) p s r u
  unfolding drop_regions
  Unmapped-cons b bars p s t only maps none u h = record {
    device_only = OnlyDevice-trans only h.device_only;
    outcome = h.outcome ∙ ap (drop_regions bars) maps;
  }
  Unmapped-cons b bars p s t only maps (some err) u h = record {
    device_only = OnlyDevice-trans only h.device_only;
    outcome = h.outcome;
  }

module _ {W : Type 0} (os : Os W) where
  pub unmap_bars-Unmapped :
      (rounds ibar : ℕ) (p : Ptr) (d : Device) (s : Process W)
      → Holds p d s
      → ibar + rounds ≤ length d.bar_descs
      → Returns (Unmapped (take rounds (drop ibar d.bar_descs)) p s) (unmap_bars os rounds ibar p s)
  unfolding unmap_bars drop_regions munmap write
  unmap_bars-Unmapped zero ibar p d s h room =
      returns (record { device_only = OnlyDevice-refl p d s h; outcome = refl })
  unmap_bars-Unmapped (suc rounds) ibar p d s h room =
      let b = get_or d.bar_descs ibar zero_bar in
      let here = get_elem?-get_or d.bar_descs ibar zero_bar (omega arith) in
      rw (drop-get_or d.bar_descs ibar zero_bar (omega arith), read_device-Holds h, ◌>>=◌, here)
        (elim (Bool-cases (b.user_address == 0)) [
          | inl gone ↦ rw gone (
              Returns.mono (unmap_bars-Unmapped rounds (ibar + 1) p d s h (omega arith))
                (Unmapped-cons b _ p s s (OnlyDevice-refl p d s h) (rw gone)))
          | inr mapped ↦ rw mapped (
              let result = os.munmap b.user_address b.length s.world in
              elim (Reply-cases result.0) [
                | inr (e, failed) ↦
                    rw (failed, ◌>>=◌)
                      (returns (record {
                        device_only = OnlyDevice-call p d s result.1 e h;
                        outcome = refl;
                      }))
                | inl (_, ok) ↦
                    let d' = record d {
                      bar_descs = set d.bar_descs ibar (record b { user_address = 0 });
                    } in
                    let live : is_live (s.cells p) ≡ true = rw h.cell in
                    let t : Process W = record s {
                      world = result.1;
                      maps = drop_map b.user_address b.length s.maps;
                      cells = update s.cells p (some (device d'));
                    } in
                    let only = OnlyDevice-write p d' s t.world t.errno t.maps h.ne_null in
                    rw (ok, ◌>>=◌, not_null h, live)
                      (Returns.mono
                        (subst
                          (λ bars.
                            Returns (Unmapped (take rounds bars) p t)
                              (unmap_bars os rounds (ibar + 1) p t))
                          (drop-set d.bar_descs ibar _)
                          (unmap_bars-Unmapped rounds (ibar + 1) p d' t
                            (record { ne_null = h.ne_null; cell = rw ==-refl })
                            (omega (
                              arith,
                              length-set d.bar_descs ibar (record b { user_address = 0 }),
                            ))))
                        (Unmapped-cons b _ p s t only (rw mapped)))
              ])
        ])
