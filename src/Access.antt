-- ===== src/Access.antt =====
-- The functions of src/crono_kernel_interface.cpp that read and write device memory through the
-- mapped BARs.
pub mod Keeps
pub mod Files
pub mod Bounds
use crono_pci_linux.Base.{ℕ, ◌+◌, Bool, Option, none, some, ltb, if◌then◌else◌, get_elem?, is_null}
use crono_pci_linux.Types.{Ptr, BarDesc, Device, success, minus, enomem}
use crono_pci_linux.Os.{Os}
use crono_pci_linux.Machine.{M, pure, ◌>>=◌, ◌>>◌, undefined, load, store}
use crono_pci_linux.Device.{init_hdev}

-- `sizeof` of a pointer: what the read functions add to the offset, since `val` is a pointer there.
abbrev pub pointer_size : ℕ
pointer_size = 8

-- `dwOffset + sizeof(val)` in 64 bits against the length: whether the test refuses.
abbrev pub out_of_range : ℕ → ℕ → BarDesc → Bool
out_of_range offset size b = ltb b.length (offset + size)

module _ {W : Type 0} where
  -- `pDevice->bar_descs[i]`.
  unfoldable pub with_bar : {A : Type 0} → Device → ℕ → (BarDesc → M W A) → M W A
  with_bar d i body = elim (get_elem? d.bar_descs i) [ none ↦ undefined | some b ↦ body b ]

module _ {W : Type 0} (os : Os W) where
  -- `CRONO_KERNEL_ReadAddr8` to `CRONO_KERNEL_ReadAddr64`, by the width of the access: the code and
  -- `*val`.
  unfoldable pub read_width : ℕ → Ptr → ℕ → Option ℕ → M W (ℕ × Option ℕ)
  read_width width h_dev offset val =
      init_hdev h_dev (λ code. (code, val))
        λ d.
          if is_null val
          then pure (minus enomem, val)
          else with_bar d 0 λ b.
            if out_of_range offset pointer_size b
            then pure (minus enomem, val)
            else do v ← load os width (b.user_address + offset); pure (success, some v)

  unfoldable pub read_addr8 : Ptr → ℕ → Option ℕ → M W (ℕ × Option ℕ)
  read_addr8 = read_width 1

  unfoldable pub read_addr16 : Ptr → ℕ → Option ℕ → M W (ℕ × Option ℕ)
  read_addr16 = read_width 2

  unfoldable pub read_addr32 : Ptr → ℕ → Option ℕ → M W (ℕ × Option ℕ)
  read_addr32 = read_width 4

  unfoldable pub read_addr64 : Ptr → ℕ → Option ℕ → M W (ℕ × Option ℕ)
  read_addr64 = read_width 8

  -- `CRONO_KERNEL_WriteAddr8` to `CRONO_KERNEL_WriteAddr64`.
  unfoldable pub write_width : ℕ → Ptr → ℕ → ℕ → M W ℕ
  write_width width h_dev offset val =
      init_hdev h_dev (λ code. code)
        λ d. with_bar d 0 λ b.
          if out_of_range offset width b
          then pure (minus enomem)
          else do store os width (b.user_address + offset) val; pure success

  unfoldable pub write_addr8 : Ptr → ℕ → ℕ → M W ℕ
  write_addr8 = write_width 1

  unfoldable pub write_addr16 : Ptr → ℕ → ℕ → M W ℕ
  write_addr16 = write_width 2

  unfoldable pub write_addr32 : Ptr → ℕ → ℕ → M W ℕ
  write_addr32 = write_width 4

  unfoldable pub write_addr64 : Ptr → ℕ → ℕ → M W ℕ
  write_addr64 = write_width 8

  -- `CRONO_KERNEL_ReadAddr`: `val` is not tested for NULL.
  unfoldable pub read_addr : Ptr → ℕ → Option ℕ → ℕ → M W (ℕ × Option ℕ)
  read_addr h_dev offset val bar_index =
      init_hdev h_dev (λ code. (code, val))
        λ d. with_bar d bar_index λ b.
          if out_of_range offset pointer_size b then pure (minus enomem, val) else do
            v ← load os 4 (b.user_address + offset)
            if is_null val then undefined else pure (success, some v)

  -- `CRONO_KERNEL_WriteAddr`.
  unfoldable pub write_addr : Ptr → ℕ → ℕ → ℕ → M W ℕ
  write_addr h_dev offset val bar_index =
      init_hdev h_dev (λ code. code)
        λ d. with_bar d bar_index λ b.
          if out_of_range offset 4 b
          then pure (minus enomem)
          else do store os 4 (b.user_address + offset) val; pure success
