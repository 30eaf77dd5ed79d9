-- ===== src/Open/Close.antt =====
-- `CRONO_KERNEL_PciDeviceClose` on an open device.
use crono_pci_linux.Base.{ℕ, List, refl, inl, inr}
use crono_pci_linux.Types.{Ptr, Device}
use crono_pci_linux.Os.{Os, errno_after, drop_fd}
use crono_pci_linux.Machine.{Process, ◌>>=◌, close}
use crono_pci_linux.Machine.Frame.{Reply-cases}
use crono_pci_linux.Machine.Returns.{Returns, returns}
use crono_pci_linux.Device.Handle.{IsHandle, init_hdev-IsHandle}
use crono_pci_linux.Open.{pci_device_close}
use crono_pci_linux.Table.Unmap.{OnlyDevice-refl}
use crono_pci_linux.Table.Release.{InSlot, FreePost, free_device_mem-Returns}

module _ {W : Type 0} (os : Os W) where
  InSlot-set :
      (i : ℕ) (h : Ptr) (d : Device) (s : Process W)
      → InSlot i h d s
      → (w : W) (e : ℕ) (fds : List ℕ) → InSlot i h d (record s { world = w; errno = e; fds = fds })
  InSlot-set i h d s t w e fds = record {
    holds = record { ne_null = t.holds.ne_null; cell = t.holds.cell };
    bars = t.bars;
    here = t.here;
    counted = t.counted;
    room = t.room;
    once = t.once;
  }

  -- The process behind `close(pDevice->miscdev_fd)`.
  abbrev pub fd_closed : Device → Process W → Process W
  fd_closed d s = record s {
    world = (os.close d.miscdev_fd s.world).1;
    errno = errno_after (os.close d.miscdev_fd s.world).0 s.errno;
    fds = drop_fd d.miscdev_fd s.fds;
  }

  -- Closing the handle of a device, whose device id is not 0, which is in exactly one slot of the
  -- table below the count and has at most as many descriptions as it has room for, returns, when
  -- the count is below the length of the table. The descriptor of the device is closed, and either
  -- the code is that of success, the block is freed, the regions of the BARs are unmapped, the slot
  -- is reset, and the count is the index of the last slot in use, or 0; or the code is `errno`, and
  -- the device is still there and in its slot. Other blocks stay as they are.
  pub pci_device_close-Returns :
      (i : ℕ) (h : Ptr) (d : Device) (s : Process W)
      → IsHandle h d s
      → InSlot i h d s
      → Returns (FreePost i h d (fd_closed d s)) (pci_device_close os h s)
  unfolding pci_device_close close
  pci_device_close-Returns i h d s v t =
      rw (init_hdev-IsHandle {A = ℕ} _ _ v, ◌>>=◌)
        (elim (Reply-cases (os.close d.miscdev_fd s.world).0) [
          | inr (e, failed) ↦
              rw (failed, ◌>>=◌)
                (returns (inr (refl, OnlyDevice-refl h d _ (InSlot-set i h d s t _ _ _).holds)))
          | inl (_, ok) ↦
              rw (ok, ◌>>=◌) (free_device_mem-Returns os i h d _ (InSlot-set i h d s t _ _ _))
        ])
