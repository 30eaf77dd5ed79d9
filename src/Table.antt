-- ===== src/Table.antt =====
-- The table `devices` and its count `iNewDev` in src/crono_kernel_interface.cpp: freeing devices.
pub mod Keeps
pub mod Files
pub mod Shrink
pub mod Free
pub mod Unmap
pub mod Release
pub mod Forget
use crono_pci_linux.Base.{
  ℕ, zero, suc, ◌+◌, true, false, Option, none, some, List, ◌==◌, if◌then◌else◌, set, get_elem?,
}
use crono_pci_linux.Types.{Ptr, device, success}
use crono_pci_linux.Os.{done, fail, Os}
use crono_pci_linux.Machine.{
  M, pure, ◌>>=◌, ◌>>◌, undefined, gets, modify, get_errno, munmap, write, free,
}
use crono_pci_linux.Device.{read_device}

-- `while (iNewDev > 0 && devices[iNewDev] == nullptr) iNewDev--`; `none` reads outside the array.
unfoldable pub shrink : ℕ → List Ptr → Option ℕ
shrink zero ds = some 0
shrink (suc n) ds = elim (get_elem? ds (suc n)) [
  | none ↦ none
  | some p ↦ if p == 0 then shrink n ds else some (suc n)
]

module _ {W : Type 0} where
  -- `devices[i]`, read and written.
  unfoldable pub slot_at : ℕ → M W Ptr
  slot_at i s = elim (get_elem? s.devices i) [ none ↦ none | some p ↦ some (p, s) ]

  unfoldable pub set_slot : ℕ → Ptr → M W (Unit {0})
  set_slot i p s = elim (get_elem? s.devices i) [
    | none ↦ none
    | some _ ↦ some (tt, record s { devices = set s.devices i p })
  ]

  unfoldable pub shrink_table : M W (Unit {0})
  shrink_table s = elim (shrink s.i_new_dev s.devices) [
    | none ↦ none
    | some n ↦ some (tt, record s { i_new_dev = n })
  ]

  -- `devices[i]` is freed and reset.
  unfoldable pub drop_slot : ℕ → M W (Unit {0})
  drop_slot i = do p ← slot_at i; free p; set_slot i 0

  -- The loop of `freeDevicesMem`.
  unfoldable pub free_slots : ℕ → ℕ → M W (Unit {0})
  free_slots zero i = pure tt
  free_slots (suc rounds) i = do
    p ← slot_at i
    if p == 0 then pure tt else drop_slot i
    free_slots rounds (i + 1)

  unfoldable pub free_devices_mem : M W (Unit {0})
  free_devices_mem = do
    n ← gets λ s. s.i_new_dev
    free_slots n 0
    modify λ s. record s { i_new_dev = 0 }

  -- `onUnload`, the library's destructor.
  unfoldable pub on_unload : M W (Unit {0})
  on_unload = free_devices_mem

  -- Behind the loop over `devices`.
  unfoldable pub finish_free : Option ℕ → M W ℕ
  finish_free (some err) = pure err
  finish_free none = do shrink_table; pure success

module _ {W : Type 0} (os : Os W) where
  -- The loop that unmaps the BARs of the device at `p`; `some err` is an early return.
  unfoldable pub unmap_bars : ℕ → ℕ → Ptr → M W (Option ℕ)
  unmap_bars zero ibar p = pure none
  unmap_bars (suc rounds) ibar p = do
    d ← read_device p
    elim (get_elem? d.bar_descs ibar) [
      | none ↦ undefined
      | some b ↦ elim (b.user_address == 0) [
        | true ↦ unmap_bars rounds (ibar + 1) p
        | false ↦ do
          unmapped ← munmap os b.user_address b.length
          elim unmapped [
            | fail _ ↦ do err ← get_errno; pure (some err)
            | done _ ↦ do
              write p (
                  device
                    (record d { bar_descs = set d.bar_descs ibar (record b { user_address = 0 }) }))
              unmap_bars rounds (ibar + 1) p
          ]
      ]
    ]

  -- Behind the loop over the BARs of the device in the slot `i`.
  unfoldable pub finish_release : ℕ → Ptr → Option ℕ → M W (Option ℕ)
  finish_release i p (some err) = pure (some err)
  finish_release i p none = do
    d ← read_device p
    write p (device (record d { bar_count = 0 }))
    drop_slot i
    pure none

  -- The body of the loop for a slot that holds `pDevice`.
  unfoldable pub release_slot : ℕ → Ptr → M W (Option ℕ)
  release_slot i p = do d ← read_device p; err ← unmap_bars d.bar_count 0 p; finish_release i p err

  -- The loop over `devices`.
  unfoldable pub release_slots : ℕ → ℕ → Ptr → M W (Option ℕ)
  release_slots zero i p = pure none
  release_slots (suc rounds) i p = do
    q ← slot_at i
    elim (p == q) [
      | false ↦ release_slots rounds (i + 1) p
      | true ↦ do
        err ← release_slot i p
        elim err [ some err ↦ pure (some err) | none ↦ release_slots rounds (i + 1) p ]
    ]

  unfoldable pub free_device_mem : Ptr → M W ℕ
  free_device_mem p = do n ← gets λ s. s.i_new_dev; err ← release_slots n 0 p; finish_free err
