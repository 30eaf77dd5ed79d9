-- ===== src/Config/Space.antt =====
-- The configuration space of a device as an array of bytes with 32-bit reads and writes: what
-- `CRONO_KERNEL_PciReadCfg32` and `CRONO_KERNEL_PciWriteCfg32` promise.
use crono_pci_linux.Base.{
  ℕ, ◌+◌, Option, none, some, List, [], ◌∷◌, ltb, if◌then◌else◌, length, take, drop,
}
use crono_pci_linux.Types.{Ptr, success, minus, einval}
use crono_pci_linux.Os.{Os}
use crono_pci_linux.Machine.{M, pure, ◌>>=◌}
use crono_pci_linux.Sysfs.{from_bytes, to_bytes}
use crono_pci_linux.Sysfs.Write.{overwrite}
use crono_pci_linux.Config.{pci_read_cfg32, pci_write_cfg32}

-- A read at an offset, into a variable with an old value, or a write of a value.
pub data Access : Type 0 where
  read write : ℕ → ℕ → Access

-- What an access gives, the code and the variable, and the bytes behind it.
unfoldable pub access : Access → List ℕ → (ℕ × Option ℕ) × List ℕ
access (read offset old) bytes =
    if ltb (length bytes) (offset + 4)
    then ((minus einval, some old), bytes)
    else ((success, some (from_bytes (take 4 (drop offset bytes)))), bytes)
access (write offset val) bytes =
    if ltb (length bytes) (offset + 4)
    then ((minus einval, none), bytes)
    else ((success, none), overwrite bytes offset (to_bytes 4 val))

unfoldable pub access_all : List Access → List ℕ → List (ℕ × Option ℕ) × List ℕ
access_all [] bytes = ([], bytes)
access_all (a ∷ more) bytes =
    let here = access a bytes in let rest = access_all more here.1 in (here.0 ∷ rest.0, rest.1)

module _ {W : Type 0} (os : Os W) where
  -- The same accesses by the library's functions with the handle `h`.
  unfoldable pub perform : Ptr → Access → M W (ℕ × Option ℕ)
  perform h (read offset old) = pci_read_cfg32 os h offset (some old)
  perform h (write offset val) = do ret ← pci_write_cfg32 os h offset val; pure (ret, none)

  unfoldable pub perform_all : Ptr → List Access → M W (List (ℕ × Option ℕ))
  perform_all h [] = pure []
  perform_all h (a ∷ more) = do out ← perform h a; outs ← perform_all h more; pure (out ∷ outs)
