-- ===== src/Table/Files.antt =====
-- Freeing devices opens and closes nothing.
use crono_pci_linux.Base.{ℕ, zero, suc, ◌+◌, ◌==◌, Option, none, some, set, get_elem?}
use crono_pci_linux.Types.{Ptr, success}
use crono_pci_linux.Os.{Os}
use crono_pci_linux.Machine.{Process}
use crono_pci_linux.Machine.Keeps.{Ends, stuck, ends}
use crono_pci_linux.Machine.Files.{
  Files, Stays, Moves-bind, Moves-if, Moves-branch, Stays-reply, Moves-option, Moves-undefined,
  Stays-pure,
}
use crono_pci_linux.Machine.Files.Calls.{
  Stays-gets, Stays-modify, Stays-get_errno, Stays-write, Stays-free, Stays-munmap,
}
use crono_pci_linux.Device.Files.{read_device-Stays}
use crono_pci_linux.Table.{
  shrink, slot_at, set_slot, shrink_table, drop_slot, free_slots, free_devices_mem, on_unload,
  finish_free, unmap_bars, finish_release, release_slot, release_slots, free_device_mem,
}

module _ {W : Type 0} {I : Files} where
  slot_at-Stays : (i : ℕ) → Stays {W = W} I (slot_at i)
  unfolding slot_at
  slot_at-Stays i = record { run = λ s h. go s h (get_elem? s.devices i) }
    where
      go :
          (s : Process W)
          → I s.fds s.dirs
          → (o : Option Ptr)
          → Ends (λ _ t. I t.fds t.dirs) (elim o [ none ↦ none | some p ↦ some (p, s) ])
      go s h none = stuck
      go s h (some p) = ends h

  pub set_slot-Stays : (i : ℕ) (p : Ptr) → Stays {W = W} I (set_slot i p)
  unfolding set_slot
  set_slot-Stays i p = record { run = λ s h. go s h (get_elem? s.devices i) }
    where
      go :
          (s : Process W)
          → I s.fds s.dirs
          → (o : Option Ptr)
          → Ends
              (λ _ t. I t.fds t.dirs)
              (elim o [
                | none ↦ none
                | some _ ↦ some (tt, record s { devices = set s.devices i p })
              ])
      go s h none = stuck
      go s h (some q) = ends h

  shrink_table-Stays : Stays {W = W} I shrink_table
  unfolding shrink_table
  shrink_table-Stays = record { run = λ s h. go s h (shrink s.i_new_dev s.devices) }
    where
      go :
          (s : Process W)
          → I s.fds s.dirs
          → (o : Option ℕ)
          → Ends
              (λ _ t. I t.fds t.dirs)
              (elim o [ none ↦ none | some n ↦ some (tt, record s { i_new_dev = n }) ])
      go s h none = stuck
      go s h (some n) = ends h

  drop_slot-Stays : (i : ℕ) → Stays {W = W} I (drop_slot i)
  unfolding drop_slot
  drop_slot-Stays i =
      Moves-bind (slot_at-Stays i) λ p. Moves-bind (Stays-free p) λ _. set_slot-Stays i 0

  free_slots-Stays : (rounds i : ℕ) → Stays {W = W} I (free_slots rounds i)
  unfolding free_slots
  free_slots-Stays zero i = Stays-pure tt
  free_slots-Stays (suc rounds) i = Moves-bind (slot_at-Stays i) λ p.
      Moves-bind (Moves-if (p == 0) (Stays-pure tt) (drop_slot-Stays i))
        λ _. free_slots-Stays rounds (i + 1)

  pub on_unload-Stays : Stays {W = W} I on_unload
  unfolding on_unload free_devices_mem
  on_unload-Stays =
      Moves-bind (Stays-gets λ s. s.i_new_dev)
        λ n. Moves-bind (free_slots-Stays n 0) λ _. Stays-modify _ λ s h. h

  finish_free-Stays : (r : Option ℕ) → Stays {W = W} I (finish_free r)
  unfolding finish_free
  finish_free-Stays (some err) = Stays-pure err
  finish_free-Stays none = Moves-bind shrink_table-Stays λ _. Stays-pure success

module _ {W : Type 0} (os : Os W) {I : Files} where
  unmap_bars-Stays : (rounds ibar : ℕ) (p : Ptr) → Stays I (unmap_bars os rounds ibar p)
  unfolding unmap_bars
  unmap_bars-Stays zero ibar p = Stays-pure none
  unmap_bars-Stays (suc rounds) ibar p = Moves-bind (read_device-Stays p) λ d.
      Moves-option (get_elem? d.bar_descs ibar) Moves-undefined λ b.
        Moves-branch (b.user_address == 0) (unmap_bars-Stays rounds (ibar + 1) p) (
          Moves-bind (Stays-munmap os b.user_address b.length) λ unmapped.
            Stays-reply unmapped
              (λ _. Moves-bind (Stays-write p _) λ _. unmap_bars-Stays rounds (ibar + 1) p)
              λ _. Moves-bind Stays-get_errno λ err. Stays-pure (some err))

  finish_release-Stays : (i : ℕ) (p : Ptr) (r : Option ℕ) → Stays I (finish_release os i p r)
  unfolding finish_release
  finish_release-Stays i p (some err) = Stays-pure _
  finish_release-Stays i p none =
      Moves-bind (read_device-Stays p)
        λ d. Moves-bind (Stays-write p _) λ _. Moves-bind (drop_slot-Stays i) λ _. Stays-pure none

  release_slots-Stays : (rounds i : ℕ) (p : Ptr) → Stays I (release_slots os rounds i p)
  unfolding release_slots release_slot
  release_slots-Stays zero i p = Stays-pure none
  release_slots-Stays (suc rounds) i p = Moves-bind (slot_at-Stays i) λ q.
      Moves-branch (p == q)
        (Moves-bind
          (Moves-bind (read_device-Stays p)
            λ d. Moves-bind (unmap_bars-Stays d.bar_count 0 p) λ err. finish_release-Stays i p err)
          λ err. Moves-option err (release_slots-Stays rounds (i + 1) p) λ e. Stays-pure (some e))
        (release_slots-Stays rounds (i + 1) p)

  pub free_device_mem-Stays : (p : Ptr) → Stays I (free_device_mem os p)
  unfolding free_device_mem
  free_device_mem-Stays p =
      Moves-bind (Stays-gets λ s. s.i_new_dev)
        λ n. Moves-bind (release_slots-Stays n 0 p) λ err. finish_free-Stays err
