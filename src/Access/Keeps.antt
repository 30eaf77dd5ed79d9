-- ===== src/Access/Keeps.antt =====
-- Reads and writes of device memory do not change the heap or the table of devices.
use crono_pci_linux.Base.{ℕ, ◌+◌, Option, get_elem?, is_null}
use crono_pci_linux.Types.{Ptr, Device, BarDesc}
use crono_pci_linux.Os.{Os}
use crono_pci_linux.Machine.{M}
use crono_pci_linux.Machine.Keeps.{
  Keeps, Predicate, Leads-bind, Keeps-pure, Leads-if, Leads-option, Leads-undefined, Keeps-load,
  Keeps-store,
}
use crono_pci_linux.Device.Keeps.{init_hdev-Keeps}
use crono_pci_linux.Access.{
  out_of_range, pointer_size, with_bar, read_width, write_width, read_addr, write_addr,
}

module _ {W : Type 0} {I : Predicate} where
  with_bar-Keeps :
      {A : Type 0} (d : Device) (i : ℕ) {body : BarDesc → M W A}
      → ((b : BarDesc) → Keeps I (body b))
      → Keeps I (with_bar d i body)
  unfolding with_bar
  with_bar-Keeps d i k = Leads-option (get_elem? d.bar_descs i) Leads-undefined k

module _ {W : Type 0} (os : Os W) {I : Predicate} where
  pub read_width-Keeps :
      (width : ℕ) (h : Ptr) (offset : ℕ) (val : Option ℕ)
      → Keeps I (read_width os width h offset val)
  unfolding read_width
  read_width-Keeps width h offset val = init_hdev-Keeps I h _ _ λ d.
      Leads-if (is_null val) (Keeps-pure _) (
        with_bar-Keeps d 0 λ b.
          Leads-if (out_of_range offset pointer_size b) (Keeps-pure _)
            (Leads-bind (Keeps-load os width (b.user_address + offset)) λ _. Keeps-pure _))

  pub write_width-Keeps :
      (width : ℕ) (h : Ptr) (offset val : ℕ) → Keeps I (write_width os width h offset val)
  unfolding write_width
  write_width-Keeps width h offset val = init_hdev-Keeps I h _ _ λ d. with_bar-Keeps d 0 λ b.
      Leads-if (out_of_range offset width b) (Keeps-pure _)
        (Leads-bind (Keeps-store os width (b.user_address + offset) val) λ _. Keeps-pure _)

  pub read_addr-Keeps :
      (h : Ptr) (offset : ℕ) (val : Option ℕ) (bar_index : ℕ)
      → Keeps I (read_addr os h offset val bar_index)
  unfolding read_addr
  read_addr-Keeps h offset val bar_index = init_hdev-Keeps I h _ _ λ d.
      with_bar-Keeps d bar_index λ b. Leads-if (out_of_range offset pointer_size b) (Keeps-pure _) (
        Leads-bind (Keeps-load os 4 (b.user_address + offset))
          λ _. Leads-if (is_null val) Leads-undefined (Keeps-pure _))

  pub write_addr-Keeps :
      (h : Ptr) (offset val bar_index : ℕ) → Keeps I (write_addr os h offset val bar_index)
  unfolding write_addr
  write_addr-Keeps h offset val bar_index = init_hdev-Keeps I h _ _ λ d.
      with_bar-Keeps d bar_index λ b.
        Leads-if (out_of_range offset 4 b) (Keeps-pure _)
          (Leads-bind (Keeps-store os 4 (b.user_address + offset) val) λ _. Keeps-pure _)
