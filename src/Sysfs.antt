-- ===== src/Sysfs.antt =====
-- src/sysfs.cpp: the configuration space of a device through its files. A pointer argument that may
-- be NULL is an `Option` with what it points to, and comes back with what is written there.
pub mod Sent
pub mod Keeps
pub mod Files
pub mod Total
pub mod Slice
pub mod Vendor
pub mod Write
use crono_pci_linux.Base.{
  ℕ, zero, suc, ◌+◌, ◌-◌, ◌*◌, ◌/◌, ◌%◌, ◌^◌, ◌||◌, not, Option, none, some, List, [], ◌∷◌, ◌++◌,
  ltb, ◌==◌, if◌then◌else◌, length, take, drop, replicate, codes,
}
use crono_pci_linux.Types.{Text, PciSlot, success, minus, einval}
use crono_pci_linux.Format.{construct_config_file_path, construct_dev_slink_path}
use crono_pci_linux.Os.{Reply, done, fail, Stat, rdonly, wronly, Os}
use crono_pci_linux.Machine.{
  M, pure, ◌>>=◌, ◌>>◌, undefined, get_errno, call, open_file, close, pread, pwrite,
}

abbrev pub assign {ℓ} : {A : Type ℓ} → A → Option A → Option A
assign a none = none
assign a (some _) = some a

-- Memory of a little-endian host: the number that some bytes are, and back.
unfoldable pub from_bytes : List ℕ → ℕ
from_bytes [] = 0
from_bytes (b ∷ bs) = b + 256 * from_bytes bs

unfoldable pub to_bytes : ℕ → ℕ → List ℕ
to_bytes zero v = []
to_bytes (suc n) v = v % 256 ∷ to_bytes n (v / 256)

module _ {W : Type 0} (os : Os W) where
  open os use {garbage}

  -- The loop of `crono_read_config`. `front ++ data_bytes` is the buffer, split at the pointer;
  -- bytes beyond its end are out of bounds. The result is `err`, the buffer and `temp_size`.
  unfoldable pub read_loop : ℕ → ℕ → List ℕ → List ℕ → ℕ → ℕ → M W (ℕ × List ℕ × ℕ)
  read_loop zero fd front data_bytes temp_size offset = undefined
  read_loop (suc k) fd front data_bytes temp_size offset =
      if temp_size == 0 then pure (success, front ++ data_bytes, temp_size) else do
        bytes ← pread os fd temp_size offset
        elim bytes [
          | fail _ ↦ do err ← get_errno; pure (err, front ++ data_bytes, temp_size)
          | done bs ↦
              if length bs == 0
              then pure (success, front ++ data_bytes, temp_size)
              else if ltb (length data_bytes) (length bs)
              then undefined
              else read_loop k fd (front ++ bs) (drop (length bs) data_bytes)
                  (temp_size - length bs) ((offset + length bs) % 2 ^ 64)
        ]

  -- The result is the code, the buffer `data` and what `bytes_read` points to.
  unfoldable pub crono_read_config :
      PciSlot → List ℕ → ℕ → ℕ → Option ℕ → M W (ℕ × List ℕ × Option ℕ)
  crono_read_config d data_ offset size bytes_read = do
    fd ← open_file os (construct_config_file_path d) rdonly
    elim fd [
      | fail _ ↦ do err ← get_errno; pure (err, data_, assign 0 bytes_read)
      | done fd ↦ do
        (err, data', temp_size) ← read_loop (suc size) fd [] data_ size offset
        close os fd
        pure (err, data', assign (size - temp_size) bytes_read)
    ]

  -- `*pVendor` and `*pDevice` are given and returned.
  unfoldable pub crono_read_vendor_device : PciSlot → ℕ × ℕ → M W (ℕ × (ℕ × ℕ))
  crono_read_vendor_device d ids = do
    (err, value, bytes_read) ←
        crono_read_config d (replicate 4 (garbage % 256)) 0 4 (some (garbage % 2 ^ 64))
    elim bytes_read [
      | none ↦ undefined
      | some n ↦
          if not (n == 4) || not (err == 0)
          then pure (err, ids)
          else pure (err, (from_bytes value % 2 ^ 16, from_bytes value / 2 ^ 16 % 2 ^ 16))
    ]

  unfoldable pub crono_get_config_space_size : PciSlot → Option ℕ → M W (ℕ × Option ℕ)
  crono_get_config_space_size d p_size = do
    st ← call (os.stat (construct_config_file_path d))
    elim st [
      | fail _ ↦ do err ← get_errno; pure (err, p_size)
      | done st ↦ pure (success, assign st.size p_size)
    ]

  -- The loop of `crono_write_config`, over the bytes not yet written.
  unfoldable pub write_loop : ℕ → ℕ → List ℕ → ℕ → ℕ → M W (ℕ × ℕ)
  write_loop zero fd data_bytes temp_size offset = undefined
  write_loop (suc k) fd data_bytes temp_size offset =
      if temp_size == 0
      then pure (success, temp_size)
      else if ltb (length data_bytes) temp_size
      then undefined
      else do
        bytes ← pwrite os fd (take temp_size data_bytes) offset
        elim bytes [
          | fail _ ↦ do err ← get_errno; pure (err, temp_size)
          | done n ↦
              if n == 0
              then pure (success, temp_size)
              else write_loop k fd (drop n data_bytes) (temp_size - n) ((offset + n) % 2 ^ 64)
        ]

  unfoldable pub crono_write_config : PciSlot → List ℕ → ℕ → ℕ → Option ℕ → M W (ℕ × Option ℕ)
  crono_write_config d data_ offset size bytes_written = do
    fd ← open_file os (construct_config_file_path d) wronly
    elim fd [
      | fail _ ↦ do err ← get_errno; pure (err, assign 0 bytes_written)
      | done fd ↦ do
        (err, temp_size) ← write_loop (suc size) fd data_ size offset
        close os fd
        pure (err, assign (size - temp_size) bytes_written)
    ]

  -- `readlink` fills at most the 4080 bytes of the buffer, and the terminator goes behind them.
  unfoldable pub crono_get_sys_devices_directory_path :
      PciSlot → Option Text → M W (ℕ × Option Text)
  crono_get_sys_devices_directory_path d none = pure (minus einval, none)
  crono_get_sys_devices_directory_path d (some path) = do
    content ← call (os.readlink (construct_dev_slink_path d))
    elim content [
      | fail _ ↦ do err ← get_errno; pure (err, some path)
      | done link ↦
          let filled = take 4080 link in
          if length filled == 4080 || ltb (length filled) 9
          then undefined
          else pure (success, some (codes "/sys/" ++ drop 9 filled))
    ]
