-- ===== src/Device.antt =====
-- The device object behind a handle: the macros of src/crono_kernel_private.h and
-- src/crono_kernel_interface.cpp that every function starts with.
pub mod Keeps
pub mod Files
pub mod Handle
use crono_pci_linux.Base.{ℕ, ◌==◌, if◌then◌else◌}
use crono_pci_linux.Types.{Ptr, Device, device, minus, einval}
use crono_pci_linux.Machine.{M, pure, ◌>>=◌, undefined, read}

module _ {W : Type 0} where
  unfoldable pub read_device : Ptr → M W Device
  read_device p = do block ← read p; elim block [ device d ↦ pure d | _ ↦ undefined ]

  -- `CRONO_INIT_HDEV_FUNC`: what `refuse` makes of -EINVAL if the handle is NULL or its device has
  -- no id, and else the rest of the function.
  unfoldable pub init_hdev : {A : Type 0} → Ptr → (ℕ → A) → (Device → M W A) → M W A
  init_hdev h_dev refuse body = if h_dev == 0 then pure (refuse (minus einval)) else do
    d ← read_device h_dev
    if d.device_id == 0 then pure (refuse (minus einval)) else body d
