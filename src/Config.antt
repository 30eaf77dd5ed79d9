-- ===== src/Config.antt =====
-- The configuration space functions and the remaining small functions of
-- src/crono_kernel_interface.cpp.
pub mod Name
pub mod RoundTrip
pub mod Refine
pub mod Space
pub mod Keeps
pub mod Files
pub mod Read
pub mod Write
use crono_pci_linux.Base.{
  ℕ, zero, suc, ◌+◌, ◌%◌, ◌^◌, ◌||◌, not, Option, none, some, [], ◌∷◌, ◌++◌, ltb, ◌==◌,
  if◌then◌else◌, length, drop, codes,
}
use crono_pci_linux.Types.{Text, Ptr, success, minus, einval}
use crono_pci_linux.Os.{Os}
use crono_pci_linux.Machine.{M, pure, ◌>>=◌, undefined}
use crono_pci_linux.Device.{init_hdev}
use crono_pci_linux.Sysfs.{
  from_bytes, to_bytes, crono_get_config_space_size, crono_read_config, crono_write_config,
}

-- What `strncpy(.., src, n)` stores: up to `n` characters of the text, and zeros behind its end.
unfoldable pub strncpy : ℕ → Text → Text
strncpy zero src = []
strncpy (suc n) [] = 0 ∷ strncpy n []
strncpy (suc n) (c ∷ src) = c ∷ strncpy n src

module _ {W : Type 0} (os : Os W) where
  open os use {garbage}

  -- `CRONO_KERNEL_PciReadCfg32`: the code and `*val`, which is a 32-bit variable.
  unfoldable pub pci_read_cfg32 : Ptr → ℕ → Option ℕ → M W (ℕ × Option ℕ)
  pci_read_cfg32 h_dev offset val =
      init_hdev h_dev (λ code. (code, val))
        λ d. elim val [
          | none ↦ pure (minus einval, none)
          | some old ↦ do
            (ret, size) ← crono_get_config_space_size os d.pci_slot (some 0)
            if not (ret == success) then pure (ret, some old) else elim size [
              | none ↦ undefined
              | some size ↦ if ltb size (offset + 4) then pure (minus einval, some old) else do
                (ret, value, bytes_read) ←
                    crono_read_config os d.pci_slot (to_bytes 4 old) offset 4
                      (some (garbage % 2 ^ 64))
                elim bytes_read [
                  | none ↦ undefined
                  | some n ↦
                      if not (n == 4) || not (ret == 0)
                      then pure (ret, some (from_bytes value))
                      else pure (success, some (from_bytes value))
                ]
            ]
        ]

  -- `CRONO_KERNEL_PciWriteCfg32`.
  unfoldable pub pci_write_cfg32 : Ptr → ℕ → ℕ → M W ℕ
  pci_write_cfg32 h_dev offset val =
      init_hdev h_dev (λ code. code)
        λ d. do
          (ret, size) ← crono_get_config_space_size os d.pci_slot (some 0)
          if not (ret == success) then pure ret else elim size [
            | none ↦ undefined
            | some size ↦ if ltb size (offset + 4) then pure (minus einval) else do
              (ret, bytes_written) ←
                  crono_write_config os d.pci_slot (to_bytes 4 val) offset 4
                    (some (garbage % 2 ^ 64))
              elim bytes_written [
                | none ↦ undefined
                | some n ↦ if not (n == 4) || not (ret == 0) then pure ret else pure success
              ]
          ]

module _ {W : Type 0} where
  -- `CRONO_KERNEL_GetDeviceMiscName`: the code and the buffer, which must hold `size` bytes.
  unfoldable pub get_device_misc_name : Ptr → Option Text → ℕ → M W (ℕ × Option Text)
  get_device_misc_name h_dev name size =
      init_hdev h_dev (λ code. (code, name))
        λ d. elim name [
          | none ↦ pure (minus einval, none)
          | some buffer ↦
              if ltb (length buffer) size
              then undefined
              else pure (success, some (strncpy size d.miscdev_name ++ drop size buffer))
        ]

-- Functions that do nothing: `CRONO_KERNEL_PciGetDeviceInfo`, `CRONO_KERNEL_PciDriverVersion`,
-- `CRONO_KERNEL_PciWriteCfg32Arr` and `Stat2Str`.
unfoldable pub pci_get_device_info : ℕ
pci_get_device_info = success

unfoldable pub pci_driver_version : ℕ
pci_driver_version = success

unfoldable pub pci_write_cfg32_arr : ℕ
pci_write_cfg32_arr = success

unfoldable pub stat_2_str : ℕ → Text
stat_2_str status = codes "Status\n"
