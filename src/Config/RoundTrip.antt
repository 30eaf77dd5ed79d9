-- ===== src/Config/RoundTrip.antt =====
-- A configuration write and a read of the same word.
use crono_pci_linux.Base.{
  ℕ, zero, suc, ◌+◌, ◌^◌, ◌≤◌, ◌<◌, ◌≡◌, refl, ap, ◌∙◌, false, none, some, List, [], ◌∷◌, ltb,
  length, take, drop, arith,
}
use crono_pci_linux.Types.{Ptr, Device, success}
use crono_pci_linux.Format.{construct_config_file_path}
use crono_pci_linux.Os.{Os}
use crono_pci_linux.Machine.{Process}
use crono_pci_linux.Machine.Frame.{Framed}
use crono_pci_linux.Machine.Returns
use crono_pci_linux.Machine.Returns.{Returns}
use crono_pci_linux.Device.Handle.{IsHandle}
use crono_pci_linux.Sysfs.{from_bytes, to_bytes}
use crono_pci_linux.Sysfs.Write.{overwrite, length-overwrite}
use crono_pci_linux.Config.Space
use crono_pci_linux.Config.Space.{access, access_all, perform_all}
use crono_pci_linux.Config.Refine.{Backed, perform_all-access_all}

-- The word that four bytes of a number are.
from_bytes-to_bytes : (v : ℕ) → v < 2 ^ 32 → from_bytes (to_bytes 4 v) ≡ v
unfolding from_bytes to_bytes
from_bytes-to_bytes v small = omega arith

take_over :
    (content bs : List ℕ)
    → length bs ≤ length content
    → take (length bs) (overwrite content 0 bs) ≡ bs
unfolding overwrite
take_over content [] inside = refl
take_over [] (b ∷ bs) inside = absurd (omega arith)
take_over (c ∷ content) (b ∷ bs) inside = ap (◌∷◌ b) (take_over content bs (omega arith))

slice-overwrite :
    (content : List ℕ) (offset : ℕ) (bs : List ℕ)
    → offset + length bs ≤ length content
    → take (length bs) (drop offset (overwrite content offset bs)) ≡ bs
unfolding overwrite
slice-overwrite content zero bs inside = take_over content bs (omega arith)
slice-overwrite [] (suc offset) bs inside = absurd (omega arith)
slice-overwrite (c ∷ content) (suc offset) bs inside =
    slice-overwrite content offset bs (omega arith)

word :
    (content : List ℕ) (offset val : ℕ)
    → offset + 4 ≤ length content
    → take 4 (drop offset (overwrite content offset (to_bytes 4 val))) ≡ to_bytes 4 val
unfolding to_bytes
word content offset val inside = slice-overwrite content offset (to_bytes 4 val) inside

-- In the array, a read behind a write at the same offset gives what was written.
access-write-read :
    (content : List ℕ) (offset val old : ℕ)
    → offset + 4 ≤ length content
    → val < 2 ^ 32
    → access_all (Space.Access.write offset val ∷ Space.Access.read offset old ∷ []) content
      ≡ ((success, none) ∷ (success, some val) ∷ [], overwrite content offset (to_bytes 4 val))
unfolding access_all access
access-write-read content offset val old inside small =
    let fits : ltb (length content) (offset + 4) ≡ false = ground arith in
    let size = length-overwrite content offset (to_bytes 4 val) in
    rw (fits, size, fits, word content offset val inside, from_bytes-to_bytes val small) refl

module _ {W : Type 0} (os : Os W) {h : Ptr} {d : Device} {fd : ℕ} {file : W → List ℕ}
    (b : Backed os (construct_config_file_path d.pci_slot) fd file) where
  -- A 32-bit configuration write at an offset that fits the file and a read at the same offset
  -- behind it both succeed, and the read gives the value that was written, whatever the variable
  -- held. The file has the bytes of the value at the offset and is as before elsewhere.
  pub pci_read_cfg32-pci_write_cfg32 :
      (offset val old : ℕ) (s : Process W)
      → IsHandle h d s
      → length (file s.world) < 2 ^ 64
      → offset + 4 ≤ length (file s.world)
      → val < 2 ^ 32
      → Returns
          (λ outs u.
            (outs ≡ (success, none) ∷ (success, some val) ∷ [])
            × (file u.world ≡ overwrite (file s.world) offset (to_bytes 4 val))
            × Framed s u)
          (perform_all os h (Space.Access.write offset val ∷ Space.Access.read offset old ∷ []) s)
  pci_read_cfg32-pci_write_cfg32 offset val old s v short inside small =
      let both = access-write-read (file s.world) offset val old inside small in
      Returns.mono (perform_all-access_all os b _ s v short)
        λ outs u (are, bytes, f). (are ∙ ap (λ r. r.0) both, bytes ∙ ap (λ r. r.1) both, f)
