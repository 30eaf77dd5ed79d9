-- ===== src/Access/Files.antt =====
-- Reads and writes of device memory open and close nothing.
use crono_pci_linux.Base.{ℕ, ◌+◌, Option, get_elem?, is_null}
use crono_pci_linux.Types.{Ptr, Device, BarDesc}
use crono_pci_linux.Os.{Os}
use crono_pci_linux.Machine.{M}
use crono_pci_linux.Machine.Files.{
  Stays, Files, Moves-bind, Stays-pure, Moves-if, Moves-option, Moves-undefined,
}
use crono_pci_linux.Machine.Files.Calls.{Stays-load, Stays-store}
use crono_pci_linux.Device.Files.{init_hdev-Stays}
use crono_pci_linux.Access.{
  out_of_range, pointer_size, with_bar, read_width, write_width, read_addr, write_addr,
}

module _ {W : Type 0} {I : Files} where
  with_bar-Stays :
      {A : Type 0} (d : Device) (i : ℕ) {body : BarDesc → M W A}
      → ((b : BarDesc) → Stays I (body b))
      → Stays I (with_bar d i body)
  unfolding with_bar
  with_bar-Stays d i k = Moves-option (get_elem? d.bar_descs i) Moves-undefined k

module _ {W : Type 0} (os : Os W) {I : Files} where
  pub read_width-Stays :
      (width : ℕ) (h : Ptr) (offset : ℕ) (val : Option ℕ)
      → Stays I (read_width os width h offset val)
  unfolding read_width
  read_width-Stays width h offset val = init_hdev-Stays h _ _ λ d.
      Moves-if (is_null val) (Stays-pure _) (
        with_bar-Stays d 0 λ b.
          Moves-if (out_of_range offset pointer_size b) (Stays-pure _)
            (Moves-bind (Stays-load os width (b.user_address + offset)) λ _. Stays-pure _))

  pub write_width-Stays :
      (width : ℕ) (h : Ptr) (offset val : ℕ) → Stays I (write_width os width h offset val)
  unfolding write_width
  write_width-Stays width h offset val = init_hdev-Stays h _ _ λ d. with_bar-Stays d 0 λ b.
      Moves-if (out_of_range offset width b) (Stays-pure _)
        (Moves-bind (Stays-store os width (b.user_address + offset) val) λ _. Stays-pure _)

  pub read_addr-Stays :
      (h : Ptr) (offset : ℕ) (val : Option ℕ) (bar_index : ℕ)
      → Stays I (read_addr os h offset val bar_index)
  unfolding read_addr
  read_addr-Stays h offset val bar_index = init_hdev-Stays h _ _ λ d.
      with_bar-Stays d bar_index λ b. Moves-if (out_of_range offset pointer_size b) (Stays-pure _) (
        Moves-bind (Stays-load os 4 (b.user_address + offset))
          λ _. Moves-if (is_null val) Moves-undefined (Stays-pure _))

  pub write_addr-Stays :
      (h : Ptr) (offset val bar_index : ℕ) → Stays I (write_addr os h offset val bar_index)
  unfolding write_addr
  write_addr-Stays h offset val bar_index = init_hdev-Stays h _ _ λ d.
      with_bar-Stays d bar_index λ b.
        Moves-if (out_of_range offset 4 b) (Stays-pure _)
          (Moves-bind (Stays-store os 4 (b.user_address + offset) val) λ _. Stays-pure _)
