-- ===== src/Session/Unload.antt =====
-- What the invariant gives for the calls that free devices.
use crono_pci_linux.Base.{ℕ, ◌<◌, ◌≡◌, arith, refl}
use crono_pci_linux.Types.{Ptr, Device}
use crono_pci_linux.Os.{Os}
use crono_pci_linux.Machine.{Process}
use crono_pci_linux.Machine.Returns.{Returns}
use crono_pci_linux.Device.Handle.{IsHandle}
use crono_pci_linux.Valid.{device_live, device-fits}
use crono_pci_linux.Table.{on_unload}
use crono_pci_linux.Table.Free.{slot, Freed, on_unload-Freed}
use crono_pci_linux.Table.Release.{FreePost}
use crono_pci_linux.Open.{pci_device_close}
use crono_pci_linux.Open.Close.{fd_closed, pci_device_close-Returns}
use crono_pci_linux.Session.{Reach}
use crono_pci_linux.Session.Invariant.{Reach-WellFormed}

module _ {W : Type 0} (os : Os W) {s : Process W} (r : Reach os s) where
  -- Unloading the library in a reachable state returns. It frees the blocks of all counted slots
  -- and no other block, resets these slots, and sets the count to 0.
  pub on_unload-Reach : Returns (λ _ t. Freed 0 s.i_new_dev s t × (t.i_new_dev ≡ 0)) (on_unload s)
  on_unload-Reach =
      let h = Reach-WellFormed os r in
      let size = h.eight in
      let count = h.counted in
      on_unload-Freed s (record {
        room = omega arith;
        live = λ j low high used. device_live _ (h.tracked j high used);
        distinct = λ j k low mid high used same.
            let e = h.apart j k (omega arith) high used same in omega arith;
      })

  -- Closing the device of a counted slot in a reachable state returns, if its device id is not 0
  -- and the count is not yet eight. The descriptor of the device is closed, and either the device
  -- is freed with its regions and its slot; or the code is `errno`, and the device is still there.
  pub pci_device_close-Reach :
      (i : ℕ) (h : Ptr) (d : Device)
      → IsHandle h d s
      → i < s.i_new_dev
      → s.i_new_dev < 8
      → slot s i ≡ h
      → Returns (FreePost i h d (fd_closed os d s)) (pci_device_close os h s)
  pci_device_close-Reach i h d v counted room here =
      let valid = Reach-WellFormed os r in
      let size = valid.eight in
      pci_device_close-Returns os i h d s v (record {
        holds = v.holds;
        bars = device-fits valid h d v.holds.cell;
        here = here;
        counted = counted;
        room = omega arith;
        once = λ j low same.
            valid.apart j i low counted (rw same v.holds.ne_null) (rw (same, here) refl);
      })
